-- ===== src/Repository/Rows.antt =====
-- repository/clickhouse.go, lines 306 to 370: the rows that ClickHouse reads and writes.
use stream_pulse.Common.{ℕ, String, ◌<>◌, true, ◌&&◌, not, List, [], ◌∷◌, str_eq, if◌then◌else◌}
use stream_pulse.Common.Dict.{Dict}
use stream_pulse.Common.Fallible.{Fallible, ok, err, ◌>>=◌}
use stream_pulse.Time.{Time}
use stream_pulse.Domain.{Scope, NodeMetric, Recommendation, Acknowledgement, Outcome}
use stream_pulse.Repository.Requests.{wrapped}

pub record MetricRow (F : Type 0) : Type 0 where
  pub window_start : String
  pub window_end : String
  pub node_id : String
  pub requests : ℕ
  pub error_rate : F
  pub cache_hit_rate : F
  pub origin_ms : F
  pub p50_ttfb_ms : F
  pub p95_ttfb_ms : F
  pub p99_ttfb_ms : F
  pub saturation : F

pub record RecommendationRow (F : Type 0) : Type 0 where
  pub recommendation_id : String
  pub created_at : String
  pub valid_until : String
  pub revision : ℕ
  pub mode : String
  pub action : String
  pub current_json : String
  pub proposed_json : String
  pub evidence_window : String
  pub reason_codes : List String
  pub expected_p95 : F
  pub expected_error : F
  pub expected_cost : F
  pub confidence : F
  pub model_version : String
  pub input_window_start : String
  pub input_window_end : String
  pub query_version : String
  pub config_hash : String
  pub evidence_json : String

pub record AcknowledgementRow : Type 0 where
  pub recommendation_id : String
  pub actor : String
  pub status : String
  pub observed_at : String

pub record OutcomeRow (F : Type 0) : Type 0 where
  pub recommendation_id : String
  pub observed_at : String
  pub observed_p95_ttfb_delta : F
  pub observed_error_delta : F
  pub observed_cost_delta : F
  pub notes : String

-- The language's library on texts and JSON: `time.ParseInLocation` in UTC, of a layout and a text,
-- `Format(time.RFC3339Nano)`, and `encoding/json` for the rows and for the texts inside them.
pub record Codec (F : Type 0) : Type 0 where
  pub parse_in_utc : String → String → Fallible String Time
  pub rfc3339_nano : Time → String
  pub weights : String → Fallible String (Dict F)
  pub evidence : String → Fallible String (Dict (NodeMetric F))
  pub metric_rows : List ℕ → Fallible String (List (MetricRow F))
  pub recommendation_rows : List ℕ → Fallible String (List (RecommendationRow F))
  pub acknowledgement : AcknowledgementRow → Fallible String (List ℕ)
  pub outcome : OutcomeRow F → Fallible String (List ℕ)

abbrev pub layouts : List String
layouts =
    "2006-01-02 15:04:05.999999999" ∷ "2006-01-02 15:04:05" ∷ "2006-01-02T15:04:05.999999999Z07:00"
    ∷ []

module _ {F : Type 0} (k : Codec F) where
  abbrev pub first_layout : List String → String → Fallible String Time
  first_layout [] value = err ("unsupported ClickHouse time " <> value)
  first_layout (layout ∷ more) value = elim (k.parse_in_utc layout value) [
    | ok parsed ↦ ok parsed
    | err _ ↦ first_layout more value
  ]

  unfoldable pub parse_click_house_time : String → Fallible String Time
  parse_click_house_time value = first_layout layouts value

  -- One round of the loop of `History`
  unfoldable pub metric_of : Scope → MetricRow F → Fallible String (NodeMetric F)
  unfolding parse_click_house_time
  metric_of scope row = do
    window_start ← wrapped "parse window_start: " (parse_click_house_time row.window_start)
    window_end ← wrapped "parse window_end: " (parse_click_house_time row.window_end)
    ok (record {
      window_start = window_start;
      window_end = window_end;
      scope = scope;
      node_id = row.node_id;
      requests = row.requests;
      error_rate = row.error_rate;
      cache_hit_rate = row.cache_hit_rate;
      origin_ms = row.origin_ms;
      p50_ttfb_ms = row.p50_ttfb_ms;
      p95_ttfb_ms = row.p95_ttfb_ms;
      p99_ttfb_ms = row.p99_ttfb_ms;
      saturation = row.saturation;
      healthy = true;
    })

  unfoldable pub metrics_of : Scope → List (MetricRow F) → Fallible String (List (NodeMetric F))
  unfolding metric_of
  metrics_of scope [] = ok []
  metrics_of scope (row ∷ rows) = do
    metric ← metric_of scope row
    metrics ← metrics_of scope rows
    ok (metric ∷ metrics)

  abbrev pub evidence_of : String → Fallible String (Dict (NodeMetric F))
  evidence_of json =
      if not (str_eq json "") && not (str_eq json "{}")
      then wrapped "decode evidence: " (k.evidence json)
      else ok []

  unfoldable pub recommendation_of :
      Scope → RecommendationRow F → Fallible String (Recommendation F)
  unfolding parse_click_house_time
  recommendation_of scope row = do
    created_at ← parse_click_house_time row.created_at
    valid_until ← parse_click_house_time row.valid_until
    current ← wrapped "decode current weights: " (k.weights row.current_json)
    proposed ← wrapped "decode proposed weights: " (k.weights row.proposed_json)
    window_start ←
        wrapped "parse input_window_start: " (parse_click_house_time row.input_window_start)
    window_end ← wrapped "parse input_window_end: " (parse_click_house_time row.input_window_end)
    evidence ← evidence_of row.evidence_json
    ok (record {
      schema_version = 1;
      recommendation_id = row.recommendation_id;
      created_at = created_at;
      valid_until = valid_until;
      mode = row.mode;
      scope = scope;
      action = row.action;
      current = current;
      proposed = proposed;
      evidence_window = row.evidence_window;
      reason_codes = row.reason_codes;
      expected = record {
        p95_ttfb_delta_ms = row.expected_p95;
        error_rate_delta = row.expected_error;
        cost_units_delta = row.expected_cost;
      };
      confidence = row.confidence;
      model_version = row.model_version;
      revision = row.revision;
      input_window_start = window_start;
      input_window_end = window_end;
      query_version = row.query_version;
      config_hash = row.config_hash;
      evidence = evidence;
    })

  abbrev pub acknowledgement_row : Acknowledgement → AcknowledgementRow
  acknowledgement_row a = record {
    recommendation_id = a.recommendation_id;
    actor = a.actor;
    status = a.status;
    observed_at = k.rfc3339_nano a.observed_at;
  }

  abbrev pub outcome_row : Outcome F → OutcomeRow F
  outcome_row outcome = record {
    recommendation_id = outcome.recommendation_id;
    observed_at = k.rfc3339_nano outcome.observed_at;
    observed_p95_ttfb_delta = outcome.observed_delta.p95_ttfb_delta_ms;
    observed_error_delta = outcome.observed_delta.error_rate_delta;
    observed_cost_delta = outcome.observed_delta.cost_units_delta;
    notes = outcome.notes;
  }
