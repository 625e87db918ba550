-- ===== src/Repository.antt =====
-- services/recommendation-api/internal/repository: ClickHouse and the audit store in memory.
pub mod Requests
pub mod Rows
pub mod Answers
pub mod Histories
pub mod Newest
mod Tests
pub mod Memory
use stream_pulse.Common.{String, ◌<>◌, Bool, Option, none, some, List, [], ◌∷◌, if◌then◌else◌}
use stream_pulse.Common.Int.{ℤ, pos, leb_ℤ}
use stream_pulse.Common.Fallible.{Fallible, ok, err, ◌>>=◌}
use stream_pulse.Domain.{Scope, NodeMetric, Recommendation, Acknowledgement, Outcome}
use Requests.{Wire, ClickHouse, accepted, failure, post, text, query_json, insert_json_each_row}
use Rows.{Codec, RecommendationRow, metrics_of, recommendation_of, acknowledgement_row, outcome_row}

abbrev pub joined : List String → String
joined [] = ""
joined (piece ∷ pieces) = piece <> joined pieces

abbrev pub history_query : String
history_query = joined (
    "\n" ∷ "WITH recent AS\n" ∷ "(\n"
    ∷ "    SELECT window_start, window_end, node_id, requests, error_5xx_rate,\n"
    ∷ "           cache_hit_ratio, origin_ms_total, ttfb_p50_ms, ttfb_p95_ms, ttfb_p99_ms\n"
    ∷ "    FROM streampulse.node_metrics_1m FINAL\n"
    ∷ "    WHERE location = {location:String} AND network_id = {network:String}\n"
    ∷ "      AND window_end <= now64(3) + INTERVAL 5 SECOND\n" ∷ "    ORDER BY window_start DESC\n"
    ∷ "    LIMIT {windows:UInt32} BY node_id\n" ∷ "), saturation_by_node AS\n" ∷ "(\n"
    ∷ "    SELECT node_id,\n"
    ∷ "           max(synthetic_node_rps) / greatest(max(synthetic_capacity_rps), 1) AS saturation\n"
    ∷ "    FROM streampulse.raw_delivery FINAL\n"
    ∷ "    WHERE location = {location:String} AND network_id = {network:String}\n"
    ∷ "      AND event_time >= (SELECT min(window_start) FROM recent)\n"
    ∷ "      AND event_time <= now64(3) + INTERVAL 5 SECOND\n" ∷ "    GROUP BY node_id\n" ∷ ")\n"
    ∷ "SELECT recent.window_start, recent.window_end, recent.node_id, recent.requests,\n"
    ∷ "       recent.error_5xx_rate, recent.cache_hit_ratio, recent.origin_ms_total,\n"
    ∷ "       recent.ttfb_p50_ms, recent.ttfb_p95_ms, recent.ttfb_p99_ms,\n"
    ∷ "       least(1.0, greatest(0.0, ifNull(saturation_by_node.saturation, 0.0))) AS saturation\n"
    ∷ "FROM recent\n" ∷ "LEFT JOIN saturation_by_node USING node_id\n"
    ∷ "ORDER BY window_start, node_id\n" ∷ "FORMAT JSON" ∷ [])

abbrev pub latest_query : String
latest_query = joined (
    "\n" ∷ "SELECT recommendation_id, created_at, valid_until, revision, mode, action,\n"
    ∷ "       current_json, proposed_json, evidence_window, reason_codes,\n"
    ∷ "       expected_p95_ttfb_delta_ms, expected_error_rate_delta,\n"
    ∷ "       expected_cost_units_delta, confidence, model_version,\n"
    ∷ "       input_window_start, input_window_end, query_version, config_hash, evidence_json\n"
    ∷ "FROM streampulse.recommendations FINAL\n"
    ∷ "WHERE location = {location:String} AND network_id = {network:String}\n"
    ∷ "ORDER BY created_at DESC, revision DESC\n" ∷ "LIMIT 1\n" ∷ "FORMAT JSON" ∷ [])

-- `Ping`
unfoldable pub ping : ClickHouse → Wire → Option String
ping c w = failure (do
  endpoint ← w.parse_url c.endpoint
  response ← post c w endpoint none (text "SELECT 1")
  accepted w response)

module _ {F : Type 0} (c : ClickHouse) (w : Wire) (k : Codec F) where
  abbrev pub window_limit : ℤ → ℤ
  window_limit windows = if leb_ℤ windows (pos 0) then pos 30 else windows

  -- `History`
  unfoldable pub history : Scope → ℤ → Fallible String (List (NodeMetric F))
  unfolding query_json metrics_of
  history scope windows = do
    rows ← query_json c w k.metric_rows history_query (
        ("param_location", scope.location)
        ∷ ("param_network", scope.network_id)
        ∷ ("param_windows", w.decimal (window_limit windows))
        ∷ [])
    metrics_of k scope rows

  abbrev pub newest_of :
      Scope → List (RecommendationRow F) → Fallible String (Option (Recommendation F))
  newest_of scope [] = ok none
  newest_of scope (row ∷ rows) = do
    recommendation ← recommendation_of k scope row
    ok (some recommendation)

  -- `LatestRecommendation`
  unfoldable pub latest_recommendation : Scope → Fallible String (Option (Recommendation F))
  unfolding query_json recommendation_of
  latest_recommendation scope = do
    rows ←
        query_json c w k.recommendation_rows latest_query
          (("param_location", scope.location) ∷ ("param_network", scope.network_id) ∷ [])
    newest_of scope rows

  -- `Acknowledge` and `Outcome`
  unfoldable pub store_acknowledgement : Acknowledgement → Option String
  unfolding insert_json_each_row
  store_acknowledgement a =
      insert_json_each_row c w
        "INSERT INTO streampulse.recommendation_acknowledgements FORMAT JSONEachRow"
        (k.acknowledgement (acknowledgement_row k a))

  unfoldable pub store_outcome : Outcome F → Option String
  unfolding insert_json_each_row
  store_outcome outcome =
      insert_json_each_row c w "INSERT INTO streampulse.recommendation_outcomes FORMAT JSONEachRow"
        (k.outcome (outcome_row k outcome))
