-- ===== src/Detection.antt =====
-- services/recommendation-api/internal/detection/detector.go: the anomaly detector.
mod Statistics
pub mod Signals
mod Coverage
mod Tests
unfoldable pub use Statistics.{median, robust_z, frozen_ewma, ewma_step}
use stream_pulse.Common.{
  ℕ, String, Bool, true, false, ◌&&◌, Option, none, some, List, [], ◌∷◌, ◌++◌, foldl, length, leb,
  str_eq, if◌then◌else◌,
}
use stream_pulse.Common.Dict.{Dict, insert, get, map_entries, values}
use stream_pulse.Common.Sort.{sort}
use stream_pulse.Common.Int.{ℤ, pos, leb_ℤ}
use stream_pulse.Time.{before}
use stream_pulse.Float.{Float, Extended, finite, ◌⊖◌, ◌⊗◌, ◌⊘◌, lt, le, nought, one, lit, max}
use stream_pulse.Domain.{NodeMetric, Signal}
use Statistics.{metric_values, at_least, clamp01}

pub record Config (F : Type 0) : Type 0 where
  pub minimum_samples : ℕ
  pub minimum_history : ℤ
  pub ewma_alpha : F
  pub error_threshold : F
  pub latency_multiple : F
  pub robust_z_threshold : F

abbrev pub append_unique : List String → String → List String
append_unique [] value = value ∷ []
append_unique (existing ∷ values) value =
    if str_eq existing value then existing ∷ values else existing ∷ append_unique values value

module _ {F : Type 0} where
  -- `byNode[metric.NodeID] = append(byNode[metric.NodeID], metric)`
  abbrev pub by_node_step : Dict (List (NodeMetric F)) → NodeMetric F → Dict (List (NodeMetric F))
  by_node_step by_node metric =
      insert metric.node_id (get metric.node_id by_node [] ++ (metric ∷ [])) by_node

  -- The windows of each node, by their end.
  unfoldable pub by_node : List (NodeMetric F) → Dict (List (NodeMetric F))
  unfolding sort
  by_node history =
      map_entries (λ _ samples. sort (λ a b. before a.window_end b.window_end) samples)
        (foldl by_node_step [] history)

  -- `samples[:len(samples)-1]` and `samples[len(samples)-1]`, of a list that starts with `first`
  abbrev pub split_last : NodeMetric F → List (NodeMetric F) → List (NodeMetric F) × NodeMetric F
  split_last first [] = ([], first)
  split_last first (m ∷ ms) = let (past, latest) = split_last m ms in (first ∷ past, latest)

  -- The latest window of each node. No node has an empty list.
  abbrev pub current_windows : Dict (List (NodeMetric F)) → List (NodeMetric F)
  current_windows [] = []
  current_windows ((_, []) ∷ rest) = current_windows rest
  current_windows ((_, m ∷ ms) ∷ rest) = (split_last m ms).1 ∷ current_windows rest

module _ {F : Type 0} ⦃fl : Float F⦄ where
  abbrev pub quiet : String → F → Signal F
  quiet node_id baseline = record {
    node_id = node_id;
    anomalous = false;
    severity = nought;
    reason_codes = [];
    baseline_ms = baseline;
    robust_z = finite nought;
  }

  abbrev pub rule_fires : Config F → F → NodeMetric F → Bool
  rule_fires config baseline latest =
      leb config.minimum_samples latest.requests
      && lt config.error_threshold latest.error_rate
      && lt nought baseline
      && lt (config.latency_multiple ⊗ baseline) latest.p95_ttfb_ms

  -- The fixed rule, against the median of the location.
  unfoldable pub apply_rule : Config F → F → NodeMetric F → Signal F → Signal F
  apply_rule config baseline latest signal =
      if rule_fires config baseline latest
      then record signal {
        anomalous = true;
        severity = clamp01 (
            max (latest.error_rate ⊘ config.error_threshold ⊖ one)
              (latest.p95_ttfb_ms ⊘ (config.latency_multiple ⊗ baseline) ⊖ one));
        reason_codes = signal.reason_codes ++ ("RULE_LATENCY_ERROR_ANOMALY" ∷ []);
      }
      else signal

  -- What each of the three tests against a node's own history does when it finds an anomaly.
  unfoldable pub raise : Bool → F → String → Signal F → Signal F
  raise found severity code signal =
      if found
      then record signal {
        anomalous = true;
        severity = max signal.severity (clamp01 severity);
        reason_codes = append_unique signal.reason_codes code;
      }
      else signal

  abbrev pub past_p95 : List (NodeMetric F) → List F
  past_p95 past = metric_values past (λ metric. metric.p95_ttfb_ms)

  -- `baseline`
  abbrev pub own_baseline : Config F → List (NodeMetric F) → F
  own_baseline config past = frozen_ewma (past_p95 past) config.ewma_alpha

  -- `errorDelta`
  abbrev pub error_delta : Config F → List (NodeMetric F) → NodeMetric F → F
  error_delta config past latest =
      latest.error_rate
      ⊖ frozen_ewma (metric_values past (λ metric. metric.error_rate)) config.ewma_alpha

  abbrev pub latency_anomaly : Config F → List (NodeMetric F) → NodeMetric F → Bool
  latency_anomaly config past latest =
      lt nought (own_baseline config past)
      && lt (lit 15 10 ⊗ own_baseline config past) latest.p95_ttfb_ms
      && at_least (robust_z latest.p95_ttfb_ms (past_p95 past)) config.robust_z_threshold

  abbrev pub error_anomaly : Config F → List (NodeMetric F) → NodeMetric F → Bool
  error_anomaly config past latest =
      leb config.minimum_samples latest.requests
      && lt config.error_threshold latest.error_rate
      && lt (lit 1 100) (error_delta config past latest)

  abbrev pub miss_anomaly : List (NodeMetric F) → NodeMetric F → Bool
  miss_anomaly past latest =
      lt latest.cache_hit_rate (lit 35 100)
      && lt latest.cache_hit_rate
          (median (metric_values past (λ metric. metric.cache_hit_rate)) ⊖ lit 20 100)

  abbrev pub remember : Config F → List (NodeMetric F) → NodeMetric F → Signal F → Signal F
  remember config past latest signal = record signal {
    baseline_ms = own_baseline config past;
    robust_z = robust_z latest.p95_ttfb_ms (past_p95 past);
  }

  abbrev pub raise_latency : Config F → List (NodeMetric F) → NodeMetric F → Signal F → Signal F
  raise_latency config past latest signal =
      raise (latency_anomaly config past latest)
        ((latest.p95_ttfb_ms ⊘ own_baseline config past ⊖ one) ⊘ fl.of_nat 2)
        "EWMA_MAD_LATENCY_ANOMALY" signal

  abbrev pub raise_error : Config F → List (NodeMetric F) → NodeMetric F → Signal F → Signal F
  raise_error config past latest signal =
      raise (error_anomaly config past latest) (error_delta config past latest ⊘ lit 20 100)
        "EWMA_ERROR_RATE_ANOMALY" signal

  abbrev pub raise_miss : List (NodeMetric F) → NodeMetric F → Signal F → Signal F
  raise_miss past latest signal =
      raise (miss_anomaly past latest) (one ⊖ latest.cache_hit_rate) "MAD_CACHE_MISS_ANOMALY" signal

  unfoldable pub apply_history : Config F → List (NodeMetric F) → NodeMetric F → Signal F → Signal F
  unfolding frozen_ewma robust_z median raise
  apply_history config past latest signal = raise_miss past latest (
      raise_error config past latest
        (raise_latency config past latest (remember config past latest signal)))

  -- The body of the loop over the nodes.
  unfoldable pub node_signal : Config F → F → String → List (NodeMetric F) → Signal F
  unfolding apply_rule apply_history
  node_signal config baseline node_id [] = quiet node_id baseline
  node_signal config baseline node_id (m ∷ ms) =
      let (past, latest) = split_last m ms in
      let signal = apply_rule config baseline latest (quiet node_id baseline) in
      if leb_ℤ config.minimum_history (pos (length past))
      then apply_history config past latest signal
      else signal

  -- `Detector.Evaluate`
  unfoldable pub evaluate : Config F → List (NodeMetric F) → Dict (Signal F)
  unfolding by_node median node_signal
  evaluate config history =
      let groups = by_node history in
      let baseline =
        median (metric_values (current_windows groups) (λ metric. metric.p95_ttfb_ms)) in
      map_entries (node_signal config baseline) groups
