-- ===== src/App/Effects.antt =====
-- What one call of `Evaluate` can do.
use stream_pulse.Common.{
  ◌≤◌, ◌≡◌, ◌⊎◌, refl, sym, ap, subst, inl, inr, String, Bool, true, false, Option, none, some,
  List, [], ◌∷◌, length, arith, Bool-cases,
}
use stream_pulse.Common.Dict.{Dict, lookup}
use stream_pulse.Common.Int.{◌≤ℤ◌, ◌+ℤ◌, +ℤ_parts, -ℤ_parts}
use stream_pulse.Common.Fallible.{Fallible, ok, err}
use stream_pulse.Time.{sub, min_duration, max_duration}
use stream_pulse.Float.{Float}
use stream_pulse.Domain.{
  scope_key, NodeMetric, Signal, Recommendation, EvaluationRequest, EvaluationResult,
}
use stream_pulse.Scoring.{
  insufficient_candidates, stale_metrics, future_metrics, no_material_benefit, Result,
}
use stream_pulse.App.Scopes.{validate_scope}
use stream_pulse.App.Build.{
  ProposalError, scoring, unexpected, Service, has_anomaly, make_recommendation,
}
use stream_pulse.App.{
  AppError, Outside, State, Reply, too_soon, created_at, refused, publication, keeps_ttl,
  generated_result, after_publication, evaluate_proposal, evaluate_latest, evaluate_history,
  evaluate,
}

module _ {F : Type 0} where
  -- The reply names no recommendation.
  abbrev pub is_quiet : Fallible AppError (EvaluationResult F) → Bool
  is_quiet (err e) = true
  is_quiet (ok r) = elim r.recommendation [ none ↦ true | some _ ↦ false ]

  -- Nothing was published and nothing noted.
  abbrev pub IsUntouched : State F → Reply F → Type 0
  IsUntouched st reply = (is_quiet reply.0 ≡ true) × (reply.1 ≡ st)

module _ {F : Type 0} ⦃fl : Float F⦄ (s : Service F) (o : Outside F) (request : EvaluationRequest F)
    (st : State F) where
  -- What has to hold for `r` to be published: an anomaly in a history of a valid scope, no
  -- recommendation for it within the dwell time, and a proposal that `r` is made of.
  pub record IsWarranted (r : Recommendation F) : Type 0 where
    pub history : List (NodeMetric F)
    pub proposal : Result F
    pub latest : Option (Recommendation F)
    pub valid : validate_scope request.scope ≡ true
    pub nonempty : 1 ≤ length history
    pub read : o.history request.scope s.config.history_windows ≡ ok history
    pub anomalous : has_anomaly (s.detect history) ≡ true
    pub rested :
        too_soon s.config o.now (lookup (scope_key request.scope) st.last_generated) ≡ false
    pub read_latest : o.latest_recommendation request.scope ≡ ok latest
    pub rested_latest : too_soon s.config o.now (created_at latest) ≡ false
    pub proposed : s.propose o.now history request.current_weights (s.detect history) ≡ ok proposal
    pub made : r ≡ make_recommendation s o.now request.scope (s.detect history) proposal
    pub accepted : o.publish r ≡ none

  abbrev pub IsPublication : Reply F → Type 0
  IsPublication reply =
      (r : Recommendation F) × IsWarranted r
      × (reply ≡ (ok (generated_result r), after_publication o.now r st))

  abbrev pub Effect : Reply F → Type 0
  Effect reply = IsUntouched st reply ⊎ IsPublication reply

  refused-Effect : (e : ProposalError) → IsUntouched st (refused e st)
  refused-Effect (scoring stale_metrics) = (refl, refl)
  refused-Effect (scoring future_metrics) = (refl, refl)
  refused-Effect (scoring insufficient_candidates) = (refl, refl)
  refused-Effect (scoring no_material_benefit) = (refl, refl)
  refused-Effect (unexpected e) = (refl, refl)

  publication-Effect :
      (r : Recommendation F) (answer : Option String)
      → (answer ≡ none → IsWarranted r)
      → Effect (publication o.now r answer st)
  publication-Effect r none h = inr (r, h refl, refl)
  publication-Effect r (some e) h = inl (refl, refl)

  evaluate_proposal-Effect :
      (signals : Dict (Signal F)) (answer : Fallible ProposalError (Result F))
      → ((p : Result F) (r : Recommendation F)
          → answer ≡ ok p
          → r ≡ make_recommendation s o.now request.scope signals p
          → o.publish r ≡ none
          → IsWarranted r)
      → Effect (evaluate_proposal s o request signals answer st)
  unfolding evaluate_proposal
  evaluate_proposal-Effect signals (err e) h = inl (refused-Effect e)
  evaluate_proposal-Effect signals (ok p) h =
      let r = make_recommendation s o.now request.scope signals p in
      elim (Bool-cases (keeps_ttl s.config r)) [
        | inl e ↦ rw e (publication-Effect r (o.publish r) (h p r refl refl))
        | inr e ↦ rw e (inl (refl, refl))
      ]

  evaluate_latest-Effect :
      (history : List (NodeMetric F)) (answer : Fallible String (Option (Recommendation F)))
      → 1 ≤ length history
      → validate_scope request.scope ≡ true
      → o.history request.scope s.config.history_windows ≡ ok history
      → has_anomaly (s.detect history) ≡ true
      → too_soon s.config o.now (lookup (scope_key request.scope) st.last_generated) ≡ false
      → o.latest_recommendation request.scope ≡ answer
      → Effect (evaluate_latest s o request history (s.detect history) answer st)
  unfolding evaluate_latest
  evaluate_latest-Effect history (err e) n v h a d l = inl (refl, refl)
  evaluate_latest-Effect history (ok latest) n v h a d l =
      elim (Bool-cases (too_soon s.config o.now (created_at latest))) [
        | inl e ↦ rw e (inl (refl, refl))
        | inr e ↦ rw e (
            evaluate_proposal-Effect (s.detect history)
              (s.propose o.now history request.current_weights (s.detect history))
              (λ p r proposed made accepted. record {
                history = history;
                proposal = p;
                latest = latest;
                valid = v;
                nonempty = n;
                read = h;
                anomalous = a;
                rested = d;
                read_latest = l;
                rested_latest = e;
                proposed = proposed;
                made = made;
                accepted = accepted;
              }))
      ]

  evaluate_history-Effect :
      (answer : Fallible String (List (NodeMetric F)))
      → validate_scope request.scope ≡ true
      → o.history request.scope s.config.history_windows ≡ answer
      → Effect (evaluate_history s o request answer st)
  unfolding evaluate_history
  evaluate_history-Effect (err e) v h = inl (refl, refl)
  evaluate_history-Effect (ok []) v h = inl (refl, refl)
  evaluate_history-Effect (ok (m ∷ ms)) v h =
      let signals = s.detect (m ∷ ms) in
      elim (Bool-cases (has_anomaly signals)) [
        | inr quiet ↦ rw quiet (inl (refl, refl))
        | inl loud ↦
            elim (Bool-cases
              (too_soon s.config o.now (lookup (scope_key request.scope) st.last_generated))) [
                | inl soon ↦ rw (loud, soon) (inl (refl, refl))
                | inr rested ↦
                    rw (loud, rested)
                      (evaluate_latest-Effect (m ∷ ms) (o.latest_recommendation request.scope)
                        (omega arith) v h loud rested refl)
              ]
      ]

  -- A call of `Evaluate` either leaves the state as it is and names no recommendation in its reply,
  -- or it publishes one recommendation, which is warranted, notes the clock as the last generation
  -- of the scope, and replies with the recommendation.
  pub evaluate-Effect : Effect (evaluate s o request st)
  unfolding evaluate
  evaluate-Effect = elim (Bool-cases (validate_scope request.scope)) [
    | inr e ↦ rw e (inl (refl, refl))
    | inl e ↦
        rw e (evaluate_history-Effect (o.history request.scope s.config.history_windows) e refl)
  ]

  -- The recommendation keeps the configured time to live, where that is a `Duration`.
  pub keeps_ttl-make_recommendation :
      (signals : Dict (Signal F)) (p : Result F)
      → min_duration ≤ℤ s.config.ttl
      → s.config.ttl ≤ℤ max_duration
      → keeps_ttl s.config (make_recommendation s o.now request.scope signals p) ≡ true
  unfolding make_recommendation sub
  keeps_ttl-make_recommendation signals p low high =
      ground (arith, +ℤ_parts o.now s.config.ttl, -ℤ_parts (o.now +ℤ s.config.ttl) o.now)

  -- A warranted recommendation is published, with a time to live in the range of `Duration`.
  pub evaluate_publishes :
      (r : Recommendation F)
      → min_duration ≤ℤ s.config.ttl
      → s.config.ttl ≤ℤ max_duration
      → IsWarranted r
      → evaluate s o request st ≡ (ok (generated_result r), after_publication o.now r st)
  unfolding evaluate evaluate_latest evaluate_proposal
  evaluate_publishes r low high w =
      rw (w.valid, w.read) (go w.history w.nonempty w.anomalous w.proposed w.made)
    where
      go :
          (history : List (NodeMetric F))
          → 1 ≤ length history
          → has_anomaly (s.detect history) ≡ true
          → s.propose o.now history request.current_weights (s.detect history) ≡ ok w.proposal
          → r ≡ make_recommendation s o.now request.scope (s.detect history) w.proposal
          → evaluate_history s o request (ok history) st
            ≡ (ok (generated_result r), after_publication o.now r st)
      go [] n a p e = elim n [ ]
      go (m ∷ ms) n a p e =
          let signals = s.detect (m ∷ ms) in
          let made = make_recommendation s o.now request.scope signals w.proposal in
          let answer : o.publish made ≡ none = subst (λ x. o.publish x ≡ none) e w.accepted in
          rw
            (
              a,
              w.rested,
              w.read_latest,
              w.rested_latest,
              p,
              keeps_ttl-make_recommendation signals w.proposal low high,
              answer,
            )
            (ap (λ x. (ok (generated_result x), after_publication o.now x st)) (sym e))
