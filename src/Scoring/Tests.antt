-- ===== src/Scoring/Tests.antt =====
-- The scorer run on the inputs of scorer_test.go, in rational arithmetic.
use mathlib.Core.List.{Mem}
use stream_pulse.Common.{◌≤◌, ◌≡◌, ◌≢◌, ◌↔◌, refl, [], length, All, arith}
use stream_pulse.Common.Dict.{get, map_entries, Holds, HasDistinctKeys}
use stream_pulse.Common.Int.{pos, ◌+ℤ◌, ◌-ℤ◌, ◌≤ℤ◌}
use stream_pulse.Common.Fallible.{Fallible, ok, err}
use stream_pulse.Float.{nought, one, abs, ◌⊖◌, ◌≼◌}
use stream_pulse.Float.Sums.{total}
use stream_pulse.Float.Rational.{ℚ, rational_float, Rational-IsExact}
use stream_pulse.Scoring.{
  Result, ScoringError, future_metrics, stale_metrics, propose, propose_among, shortage,
  latest_by_node,
}
use stream_pulse.Scoring.Screening.{screen, sort_by_node}
use stream_pulse.Scoring.Weights.{normalized_current, targets, step_factor, move_weights}
use stream_pulse.Scoring.Report.{weighted_penalty, make_result}
use stream_pulse.Scoring.Distinct.{HasDistinctNodes}
use stream_pulse.Scoring.Newest.{Some, IsNoEarlier, latest_by_node_newest}
use stream_pulse.Scoring.Candidates.{IsCandidate, CanExpire}
use stream_pulse.Scoring.Evidence.{Spans}
use stream_pulse.Scoring.Outcome.{eligible, propose_evidence, propose-Spans}
use stream_pulse.Scoring.Benefit.{moved, burden, origin_cost, propose_benefit}
use stream_pulse.Scoring.Errors.{IsEarly, IsOld, propose_future_iff, propose_stale_iff}
use stream_pulse.Scoring.Conservation.{propose_conserves, propose_step}
use stream_pulse.Samples.{now, seconds, scorer, two_nodes}

abbrev outcome : Fallible ScoringError (Result ℚ)
unfolding propose propose_among shortage latest_by_node screen sort_by_node normalized_current
    targets step_factor move_weights weighted_penalty make_result ◌+ℤ◌ ◌-ℤ◌
outcome = propose scorer now two_nodes [] []

abbrev no_result : Result ℚ
no_result = record {
  current = [];
  proposed = [];
  expected = record {
    p95_ttfb_delta_ms = nought;
    error_rate_delta = nought;
    cost_units_delta = nought;
  };
  reason_codes = [];
  evidence = [];
  window_start = pos 0;
  window_end = pos 0;
}

abbrev result : Result ℚ
result = elim outcome [ ok r ↦ r | err _ ↦ no_result ]

accepted : propose scorer now two_nodes [] [] ≡ ok result
unfolding outcome
accepted = refl

can_expire : CanExpire scorer.stale_after
can_expire = record { nonneg = omega arith; below = λ h. omega arith }

propose_evidence_example :
    (2 ≤ length result.evidence)
    × HasDistinctKeys result.evidence
    × Holds (λ k m. (k ≡ m.node_id) × (IsCandidate scorer now m × Mem m two_nodes)) result.evidence
propose_evidence_example = propose_evidence scorer now two_nodes [] [] result can_expire accepted

propose_benefit_example :
    (scorer.benefit_margin ≼ moved result.proposed result.current burden result.evidence)
    × (result.expected.p95_ttfb_delta_ms
        ≡ moved result.current result.proposed (λ m. m.p95_ttfb_ms) result.evidence)
    × (result.expected.error_rate_delta
        ≡ moved result.current result.proposed (λ m. m.error_rate) result.evidence)
    × (result.expected.cost_units_delta
        ≡ moved result.current result.proposed origin_cost result.evidence)
propose_benefit_example =
    propose_benefit Rational-IsExact scorer now two_nodes [] [] result accepted

started : All (λ m. pos 1 ≤ℤ m.window_start) two_nodes
started = (omega arith, (omega arith, tt))

propose-Spans_example : All (Spans [] result) (eligible scorer now two_nodes [] [])
propose-Spans_example = propose-Spans scorer now two_nodes [] [] result started accepted

propose_conserves_example :
    (total result.proposed ≡ one)
    × (total (map_entries (λ k _. get k result.current nought) result.proposed) ≡ one)
propose_conserves_example =
    propose_conserves Rational-IsExact scorer now two_nodes [] [] tt result accepted

step_nonneg : nought ≼ scorer.maximum_weight_step
step_nonneg = refl

propose_step_example :
    Holds
      (λ k w. (nought ≼ w) × (abs (w ⊖ get k result.current nought) ≼ scorer.maximum_weight_step))
      result.proposed
propose_step_example =
    propose_step Rational-IsExact scorer now two_nodes [] [] tt result step_nonneg accepted

propose_future_iff_example : (propose scorer (seconds 900) two_nodes [] [] ≡ err future_metrics) ↔ (
    (latest_by_node two_nodes ≢ [])
    × All (IsEarly scorer (seconds 900) two_nodes [] []) (latest_by_node two_nodes))
propose_future_iff_example = propose_future_iff scorer (seconds 900) two_nodes [] []

propose_stale_iff_example : (propose scorer (seconds 2000) two_nodes [] [] ≡ err stale_metrics) ↔ (
    (latest_by_node two_nodes ≢ [])
    × All (IsOld scorer (seconds 2000) two_nodes [] []) (latest_by_node two_nodes))
propose_stale_iff_example = propose_stale_iff scorer (seconds 2000) two_nodes [] []

latest_by_node_newest_example :
    All (λ m. Mem m two_nodes) (latest_by_node two_nodes)
    × HasDistinctNodes (latest_by_node two_nodes)
    × All (λ x. Some (IsNoEarlier x) (latest_by_node two_nodes)) two_nodes
latest_by_node_newest_example = latest_by_node_newest two_nodes
