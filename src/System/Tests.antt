-- ===== src/System/Tests.antt =====
-- The assembled service run on three nodes of one location.
use stream_pulse.Common.{false, ◌≢◌, ◌⊎◌, true, ◌≡◌, refl, none, [], ◌∷◌, All, map, arith}
use stream_pulse.Common.Int.{pos, ◌≤ℤ◌, ◌+ℤ◌, ◌-ℤ◌}
use stream_pulse.Common.Fallible.{ok, err}
use stream_pulse.Time.{is_zero, max_duration, min_duration, sub}
use stream_pulse.Float.{nought, ◌≼◌}
use stream_pulse.Float.Rational.{ℚ, rational_float, Rational-IsExact}
use stream_pulse.Domain.{Acknowledgement, Recommendation}
use stream_pulse.Scoring.Screening.{screen}
use stream_pulse.Scoring.Weights.{normalized_current, targets, step_factor, move_weights}
use stream_pulse.Scoring.Report.{weighted_penalty}
use stream_pulse.Scoring.{Result, propose, propose_among, latest_by_node, sort_by_node}
use stream_pulse.Scoring.Candidates.{CanExpire}
use stream_pulse.Detection as Detection
use stream_pulse.App.Build.{Service, make_recommendation}
use stream_pulse.App.{acknowledge, State, initial, evaluate, generated_result, after_publication}
use stream_pulse.App.Scopes.{validate_scope}
use stream_pulse.App.Interleaving.{Interleaved, interleaving_breaks_dwell}
use stream_pulse.App.Audit.{IsComplete, acknowledge-IsComplete}
use stream_pulse.App.Keys.{scope_key-injective}
use stream_pulse.App.Effects.{Effect, IsWarranted, evaluate-Effect, evaluate_publishes}
use stream_pulse.App.Dwell.{Reaches, start, evaluated, AreApart, published_apart}
use stream_pulse.System.{assemble}
use stream_pulse.System.Safety.{IsSafe, published_safe}
use stream_pulse.Samples.{
  now, seconds, config, detector, scorer, library, fine_at, sydney, request, three_nodes,
}

abbrev service : Service ℚ
service = assemble config detector scorer library

-- Two evaluations, ninety seconds apart.
abbrev once : State ℚ
once = (evaluate service (fine_at now) request initial).1

abbrev twice : State ℚ
twice = (evaluate service (fine_at (seconds 1090)) request once).1

twice-Reaches : Reaches service twice
twice-Reaches =
    evaluated (fine_at (seconds 1090)) request once (evaluated (fine_at now) request initial start)

can_expire : CanExpire scorer.stale_after
can_expire = record { nonneg = omega arith; below = λ h. omega arith }

step_nonneg : nought ≼ scorer.maximum_weight_step
step_nonneg = refl

published_safe_example : All (IsSafe config detector scorer library) twice.published
published_safe_example =
    published_safe Rational-IsExact config detector scorer library step_nonneg can_expire twice
      twice-Reaches

some_dwell : pos 0 ≤ℤ service.config.minimum_dwell
unfolding assemble
some_dwell = omega arith

bounded : service.config.minimum_dwell ≤ℤ max_duration
unfolding assemble
bounded = omega arith

published_apart_example : AreApart service.config.minimum_dwell twice.published
published_apart_example = published_apart service some_dwell bounded twice twice-Reaches

evaluate-Effect_example :
    Effect service (fine_at now) request initial (evaluate service (fine_at now) request initial)
evaluate-Effect_example = evaluate-Effect service (fine_at now) request initial

both_published : map (λ r. r.created_at) twice.published ≡ now ∷ seconds 1090 ∷ []
unfolding evaluate assemble make_recommendation validate_scope Detection.evaluate propose sub ◌+ℤ◌
    ◌-ℤ◌ propose_among screen weighted_penalty latest_by_node sort_by_node normalized_current
    move_weights targets step_factor
both_published = refl

abbrev no_result : Result ℚ
no_result = record {
  current = [];
  proposed = [];
  expected = record {
    p95_ttfb_delta_ms = nought;
    error_rate_delta = nought;
    cost_units_delta = nought;
  };
  reason_codes = [];
  evidence = [];
  window_start = pos 0;
  window_end = pos 0;
}

abbrev proposal : Result ℚ
unfolding propose latest_by_node sort_by_node Detection.evaluate Detection.by_node Detection.median
    Detection.node_signal
proposal = elim (propose scorer now three_nodes [] (Detection.evaluate detector three_nodes)) [
  | ok r ↦ r
  | err _ ↦ no_result
]

abbrev recommendation : Recommendation ℚ
recommendation = make_recommendation service now request.scope (service.detect three_nodes) proposal

recommendation-IsWarranted : IsWarranted service (fine_at now) request initial recommendation
unfolding proposal assemble validate_scope ◌+ℤ◌ ◌-ℤ◌ propose_among screen weighted_penalty
    latest_by_node sort_by_node normalized_current move_weights targets step_factor
recommendation-IsWarranted = record {
  history = three_nodes;
  proposal = proposal;
  latest = none;
  valid = refl;
  nonempty = omega arith;
  read = refl;
  anomalous = refl;
  rested = refl;
  read_latest = refl;
  rested_latest = refl;
  proposed = refl;
  made = refl;
  accepted = refl;
}

long_enough : min_duration ≤ℤ service.config.ttl
unfolding assemble
long_enough = omega arith

short_enough : service.config.ttl ≤ℤ max_duration
unfolding assemble
short_enough = omega arith

evaluate_publishes_example :
    evaluate service (fine_at now) request initial
    ≡ (ok (generated_result recommendation), after_publication now recommendation initial)
evaluate_publishes_example =
    evaluate_publishes service (fine_at now) request initial recommendation long_enough short_enough
      recommendation-IsWarranted

sydney-valid : validate_scope sydney ≡ true
unfolding validate_scope
sydney-valid = refl

scope_key-injective_example : sydney ≡ sydney
scope_key-injective_example = scope_key-injective sydney sydney sydney-valid sydney-valid refl

positive_dwell : pos 1 ≤ℤ service.config.minimum_dwell
unfolding assemble
positive_dwell = omega arith

interleaving_breaks_dwell_example : ¬ (
    (st : State ℚ)
    → Interleaved service initial st
    → AreApart service.config.minimum_dwell st.published)
interleaving_breaks_dwell_example =
    interleaving_breaks_dwell service (fine_at now) request recommendation long_enough short_enough
      recommendation-IsWarranted positive_dwell

abbrev operator_ack : Acknowledgement
operator_ack = record {
  recommendation_id = "";
  actor = "operator";
  status = "accepted";
  observed_at = pos 0;
}

clock_set : is_zero now ≡ false
clock_set = refl

acknowledge-IsComplete_example :
    (((acknowledge (fine_at now) "rec-1" operator_ack initial).0 ≢ none)
      × ((acknowledge (fine_at now) "rec-1" operator_ack initial).1 ≡ initial))
    ⊎ ((w : Acknowledgement) × IsComplete (fine_at now) "rec-1" w
        × (acknowledge (fine_at now) "rec-1" operator_ack initial
            ≡ (none, record initial { acknowledged = w ∷ [] })))
acknowledge-IsComplete_example =
    acknowledge-IsComplete (fine_at now) "rec-1" operator_ack initial clock_set
