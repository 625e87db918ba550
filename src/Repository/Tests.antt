-- ===== src/Repository/Tests.antt =====
-- The repository on rows of three nodes, and the audit store on a few writes.
use stream_pulse.Common.{◌≡◌, ◌↔◌, ◌⊎◌, inl, inr, refl, Option, none, List, [], ◌∷◌, All, take}
use stream_pulse.Common.Dict.{get}
use stream_pulse.Common.Int.{pos}
use stream_pulse.Common.Fallible.{ok, ◌>>=◌}
use stream_pulse.Float.{lit}
use stream_pulse.Float.Rational.{ℚ, rational_float}
use stream_pulse.Domain.{NodeMetric, Recommendation, Acknowledgement, Outcome}
use stream_pulse.Samples.{node, sydney, scorer, wire, codec, click_house, accepted, no_change}
use stream_pulse.Repository.Requests.{query_json}
use stream_pulse.Repository.Rows.{
  Codec, MetricRow, RecommendationRow, recommendation_of, parse_click_house_time, metric_of,
  metrics_of,
}
use stream_pulse.Repository.Histories.{Readings, HasRows, IsBusy, history_iff, history-IsBusy}
use stream_pulse.Repository.Newest.{HasNewest, IsFirst, latest_recommendation_newest}
use stream_pulse.Repository.Memory.{
  new_memory_audit_store, keep_all, acks_in, outcomes_in, matching, keep_all-matching,
}
use stream_pulse.Repository.{history, latest_recommendation}

abbrev read_back : List (NodeMetric ℚ)
unfolding history query_json ◌>>=◌ metrics_of metric_of parse_click_house_time
read_back = elim (history click_house wire codec sydney (pos 15)) [ ok ms ↦ ms | _ ↦ [] ]

history_iff_example : (history click_house wire codec sydney (pos 15) ≡ ok read_back) ↔ (
    (rows : List (MetricRow ℚ)) × HasRows click_house wire codec sydney (pos 15) rows
    × Readings codec sydney rows read_back)
history_iff_example = history_iff click_house wire codec sydney (pos 15) read_back

read_back-history : history click_house wire codec sydney (pos 15) ≡ ok read_back
unfolding history query_json ◌>>=◌ metrics_of metric_of parse_click_house_time take
read_back-history = refl

history-IsBusy_example : All (IsBusy scorer) read_back
history-IsBusy_example =
    history-IsBusy click_house wire codec scorer sydney (pos 15) read_back read_back-history

-- What ClickHouse has of one recommendation, and stand-ins that read it.
abbrev stored : RecommendationRow ℚ
stored = record {
  recommendation_id = "rec-1";
  created_at = "2026-01-01 00:16:40";
  valid_until = "2026-01-01 00:18:40";
  revision = 1;
  mode = "shadow";
  action = "shift_traffic";
  current_json = "{}";
  proposed_json = "{}";
  evidence_window = "1m";
  reason_codes = "MAX_WEIGHT_STEP_OK" ∷ [];
  expected_p95 = lit 3 1;
  expected_error = lit 2 1;
  expected_cost = lit 1 1;
  confidence = lit 1 2;
  model_version = "rule-ewma-mad-v1";
  input_window_start = "2026-01-01 00:15:35";
  input_window_end = "2026-01-01 00:16:35";
  query_version = "node-quality-v1";
  config_hash = "test";
  evidence_json = "{\"edge-a\":{}}";
}

abbrev reader : Codec ℚ
reader = record codec {
  weights = λ json. ok (("edge-a", lit 1 1) ∷ []);
  evidence = λ json. ok (("edge-a", node "edge-a" 220 120 70) ∷ []);
  recommendation_rows = λ body. ok (stored ∷ []);
}

abbrev answer : Option (Recommendation ℚ)
unfolding latest_recommendation query_json ◌>>=◌ recommendation_of parse_click_house_time
answer = elim (latest_recommendation click_house wire reader sydney) [ ok found ↦ found | _ ↦ none ]

answered : latest_recommendation click_house wire reader sydney ≡ ok answer
unfolding latest_recommendation query_json ◌>>=◌ recommendation_of parse_click_house_time take
answered = refl

latest_recommendation_newest_example :
    (latest_recommendation click_house wire reader sydney ≡ ok answer) ↔ (
      (rows : List (RecommendationRow ℚ)) × HasNewest click_house wire reader sydney rows
      × IsFirst click_house wire reader sydney rows answer)
latest_recommendation_newest_example =
    latest_recommendation_newest click_house wire reader sydney answer

abbrev writes : List (Acknowledgement ⊎ Outcome ℚ)
writes =
    inl (record accepted { recommendation_id = "rec-1" })
    ∷ inr (record no_change { recommendation_id = "rec-1" })
    ∷ inl (record accepted { recommendation_id = "rec-2" })
    ∷ inl (record accepted { recommendation_id = "rec-1"; status = "rejected" })
    ∷ []

keep_all-matching_example :
    (get "rec-1" (keep_all new_memory_audit_store writes).acks []
      ≡ matching (λ a. a.recommendation_id) "rec-1" (acks_in writes))
    × (get "rec-1" (keep_all new_memory_audit_store writes).outcomes []
        ≡ matching (λ o. o.recommendation_id) "rec-1" (outcomes_in writes))
keep_all-matching_example = keep_all-matching "rec-1" writes
