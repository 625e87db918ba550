-- ===== src/Scoring/Report.antt =====
-- The end of `Propose`: the benefit, the expected change, and the evidence.
use stream_pulse.Common.{
  String, Bool, false, ◌||◌, Option, none, some, List, [], ◌∷◌, ◌++◌, foldl, if◌then◌else◌, str_eq,
}
use stream_pulse.Common.Dict.{Dict, lookup, insert, get}
use stream_pulse.Common.Int.{pos}
use stream_pulse.Time.{before, after, is_zero}
use stream_pulse.Float.{Float, ◌⊕◌, ◌⊖◌, ◌⊗◌, ◌⊘◌, nought, one, lit, max}
use stream_pulse.Domain.{NodeMetric, Signal, ExpectedDelta}
use stream_pulse.Scoring.Types.{Result}

abbrev pub contains : List String → String → Bool
contains [] a = false
contains (x ∷ xs) a = str_eq x a || contains xs a

-- `appendUnique`: the map `seen` holds the strings of `values`.
unfoldable pub append_unique : List String → List String → List String
append_unique values [] = values
append_unique values (value ∷ additions) =
    append_unique (if contains values value then values else values ++ (value ∷ [])) additions

module _ {F : Type 0} ⦃fl : Float F⦄ where
  -- `metric.OriginMS / math.Max(float64(metric.Requests), 1)`
  abbrev pub origin_per_request : NodeMetric F → F
  origin_per_request metric = metric.origin_ms ⊘ max (fl.of_nat metric.requests) one

  unfoldable pub penalty : NodeMetric F → F
  penalty metric =
      lit 35 100 ⊗ metric.p95_ttfb_ms ⊘ fl.of_nat 1000
      ⊕ lit 25 100 ⊗ metric.error_rate
      ⊕ lit 15 100 ⊗ (one ⊖ metric.cache_hit_rate)
      ⊕ lit 15 100 ⊗ origin_per_request metric ⊘ fl.of_nat 1000
      ⊕ lit 10 100 ⊗ metric.saturation

  -- A loop that adds up `weights[metric.NodeID] * value`.
  unfoldable pub weighted_from : F → List (NodeMetric F) → Dict F → (NodeMetric F → F) → F
  weighted_from acc [] weights value = acc
  weighted_from acc (metric ∷ metrics) weights value =
      weighted_from (acc ⊕ get metric.node_id weights nought ⊗ value metric) metrics weights value

  unfoldable pub weighted_penalty : List (NodeMetric F) → Dict F → F
  unfolding weighted_from penalty
  weighted_penalty metrics weights = weighted_from nought metrics weights penalty

  -- The weighted total of a value after the move, less that before it.
  abbrev pub change : List (NodeMetric F) → Dict F → Dict F → (NodeMetric F → F) → F
  change metrics current proposed value =
      weighted_from nought metrics proposed value ⊖ weighted_from nought metrics current value

  unfoldable pub expected_delta : List (NodeMetric F) → Dict F → Dict F → ExpectedDelta F
  unfolding weighted_from
  expected_delta metrics current proposed = record {
    p95_ttfb_delta_ms = change metrics current proposed (λ metric. metric.p95_ttfb_ms);
    error_rate_delta = change metrics current proposed (λ metric. metric.error_rate);
    cost_units_delta = change metrics current proposed origin_per_request;
  }

  -- `if signal, ok := …; ok && signal.Anomalous`
  abbrev pub add_reasons : List String → Option (Signal F) → List String
  add_reasons reasons none = reasons
  add_reasons reasons (some signal) =
      if signal.anomalous then append_unique reasons signal.reason_codes else reasons

  -- The loop over the candidates that fills in the evidence.
  unfoldable pub collect_step : Dict (Signal F) → Result F → NodeMetric F → Result F
  unfolding append_unique
  collect_step signals r metric = record r {
    evidence = insert metric.node_id metric r.evidence;
    window_start =
        if is_zero r.window_start || before metric.window_start r.window_start
        then metric.window_start
        else r.window_start;
    window_end = if after metric.window_end r.window_end then metric.window_end else r.window_end;
    reason_codes = add_reasons r.reason_codes (lookup metric.node_id signals);
  }

  unfoldable pub make_result : List (NodeMetric F) → Dict F → Dict F → Dict (Signal F) → Result F
  unfolding expected_delta collect_step
  make_result eligible current proposed signals =
      foldl (collect_step signals)
        (record {
          current = current;
          proposed = proposed;
          expected = expected_delta eligible current proposed;
          reason_codes =
              "BOUNDED_MULTI_OBJECTIVE_SCORE" ∷ "MAX_WEIGHT_STEP_OK" ∷ "CAPACITY_HEADROOM_OK" ∷ [];
          evidence = [];
          window_start = pos 0;
          window_end = pos 0;
        })
        eligible
