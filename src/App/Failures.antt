-- ===== src/App/Failures.antt =====
-- Which errors `Evaluate` can return.
use stream_pulse.Common.{inl, inr, String, Option, none, some, List, [], ◌∷◌, Bool-cases}
use stream_pulse.Common.Dict.{Dict, lookup}
use stream_pulse.Common.Int.{◌≤ℤ◌}
use stream_pulse.Common.Fallible.{Fallible, ok, err}
use stream_pulse.Time.{min_duration, max_duration}
use stream_pulse.Float.{Float}
use stream_pulse.Domain.{scope_key, NodeMetric, Signal, Recommendation, EvaluationRequest}
use stream_pulse.Scoring.{
  ScoringError, insufficient_candidates, stale_metrics, future_metrics, no_material_benefit, Result,
}
use stream_pulse.App.Scopes.{validate_scope}
use stream_pulse.App.Build.{
  ProposalError, scoring, unexpected, Service, has_anomaly, make_recommendation,
}
use stream_pulse.App.{
  AppError, invalid_request, recommendation_not_found, ttl_invariant_failed, dependency_unavailable,
  scorer_failed, Outside, State, too_soon, created_at, refused, publication, evaluate_proposal,
  evaluate_latest, evaluate_history, evaluate,
}
use stream_pulse.App.Effects.{keeps_ttl-make_recommendation}

-- An error other than those that the code means never to meet.
abbrev pub IsForeseen : AppError → Type 0
IsForeseen invalid_request = Unit
IsForeseen recommendation_not_found = Unit
IsForeseen (dependency_unavailable call e) = Unit
IsForeseen ttl_invariant_failed = ⊥
IsForeseen (scorer_failed e) = ⊥

abbrev pub FailsForeseen {ℓ} : {A : Type ℓ} → Fallible AppError A → Type 0
FailsForeseen (ok a) = Unit
FailsForeseen (err e) = IsForeseen e

abbrev pub IsScorers : {F : Type 0} → Fallible ProposalError (Result F) → Type 0
IsScorers (ok p) = Unit
IsScorers (err (scoring e)) = Unit
IsScorers (err (unexpected e)) = ⊥

module _ {F : Type 0} where
  publication-FailsForeseen :
      (o : Outside F) (r : Recommendation F) (answer : Option String) (st : State F)
      → FailsForeseen (publication o.now r answer st).0
  publication-FailsForeseen o r none st = tt
  publication-FailsForeseen o r (some e) st = tt

  refused-FailsForeseen :
      (e : ScoringError) (st : State F) → FailsForeseen (refused (scoring e) st).0
  refused-FailsForeseen stale_metrics st = tt
  refused-FailsForeseen future_metrics st = tt
  refused-FailsForeseen insufficient_candidates st = tt
  refused-FailsForeseen no_material_benefit st = tt

module _ {F : Type 0} ⦃fl : Float F⦄ (s : Service F) (low : min_duration ≤ℤ s.config.ttl)
    (high : s.config.ttl ≤ℤ max_duration) (o : Outside F) (request : EvaluationRequest F)
    (st : State F) where
  evaluate_proposal-FailsForeseen :
      (signals : Dict (Signal F)) (answer : Fallible ProposalError (Result F))
      → IsScorers answer
      → FailsForeseen (evaluate_proposal s o request signals answer st).0
  unfolding evaluate_proposal
  evaluate_proposal-FailsForeseen signals (err (scoring e)) h = refused-FailsForeseen e st
  evaluate_proposal-FailsForeseen signals (err (unexpected e)) h = elim h [ ]
  evaluate_proposal-FailsForeseen signals (ok p) h =
      let r = make_recommendation s o.now request.scope signals p in
      rw (keeps_ttl-make_recommendation s o request st signals p low high)
        (publication-FailsForeseen o r (o.publish r) st)

  module _
      (scorers : (history : List (NodeMetric F)) (signals : Dict (Signal F))
        → IsScorers (s.propose o.now history request.current_weights signals)) where
    evaluate_latest-FailsForeseen :
        (history : List (NodeMetric F)) (signals : Dict (Signal F))
        (answer : Fallible String (Option (Recommendation F)))
        → FailsForeseen (evaluate_latest s o request history signals answer st).0
    unfolding evaluate_latest
    evaluate_latest-FailsForeseen history signals (err e) = tt
    evaluate_latest-FailsForeseen history signals (ok latest) =
        elim (Bool-cases (too_soon s.config o.now (created_at latest))) [
          | inl e ↦ rw e tt
          | inr e ↦ rw e (
              evaluate_proposal-FailsForeseen signals
                (s.propose o.now history request.current_weights signals) (scorers history signals))
        ]

    evaluate_history-FailsForeseen :
        (answer : Fallible String (List (NodeMetric F)))
        → FailsForeseen (evaluate_history s o request answer st).0
    unfolding evaluate_history
    evaluate_history-FailsForeseen (err e) = tt
    evaluate_history-FailsForeseen (ok []) = tt
    evaluate_history-FailsForeseen (ok (m ∷ ms)) =
        elim (Bool-cases (has_anomaly (s.detect (m ∷ ms)))) [
          | inr e ↦ rw e tt
          | inl e ↦
              elim (Bool-cases
                (too_soon s.config o.now (lookup (scope_key request.scope) st.last_generated))) [
                  | inl f ↦ rw (e, f) tt
                  | inr f ↦
                      rw (e, f)
                        (evaluate_latest-FailsForeseen (m ∷ ms) (s.detect (m ∷ ms))
                          (o.latest_recommendation request.scope))
                ]
        ]

    pub evaluate-FailsForeseen : FailsForeseen (evaluate s o request st).0
    unfolding evaluate
    evaluate-FailsForeseen = elim (Bool-cases (validate_scope request.scope)) [
      | inl e ↦
          rw e (evaluate_history-FailsForeseen (o.history request.scope s.config.history_windows))
      | inr e ↦ rw e tt
    ]
