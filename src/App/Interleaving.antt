-- ===== src/App/Interleaving.antt =====
-- Calls of `Evaluate` at the same time. `lastGeneration` and `recordGeneration` hold the lock one
-- after the other, so a call decides by the state that it saw, and notes its result in a later one.
use stream_pulse.Common.{◌≡◌, refl, ap, subst, ◌∙◌, Option, none, some, [], ◌∷◌, arith}
use stream_pulse.Common.Int.{pos, ◌≤ℤ◌, +ℤ_parts}
use stream_pulse.Common.Fallible.{Fallible, ok, err}
use stream_pulse.Time.{Time, Duration, min_duration, max_duration}
use stream_pulse.Float.{Float}
use stream_pulse.Domain.{Recommendation, EvaluationRequest, EvaluationResult}
use stream_pulse.App.Build.{Service}
use stream_pulse.App.{AppError, Outside, State, initial, after_publication, evaluate}
use stream_pulse.App.Effects.{IsWarranted, evaluate_publishes}
use stream_pulse.App.Dwell.{IsApart, AreApart}

module _ {F : Type 0} where
  -- What a reply says was published.
  abbrev pub generated : Fallible AppError (EvaluationResult F) → Option (Recommendation F)
  generated (err e) = none
  generated (ok r) = r.recommendation

  abbrev pub note : Time → Option (Recommendation F) → State F → State F
  note now none st = st
  note now (some r) st = after_publication now r st

module _ {F : Type 0} ⦃fl : Float F⦄ (s : Service F) where
  -- The end of a call that saw the first state and ends in the second.
  abbrev pub conclude : Outside F → EvaluationRequest F → State F → State F → State F
  conclude o request seen st = note o.now (generated (evaluate s o request seen).0) st

  -- The second state can follow the first: calls end one after the other, and each saw a state
  -- between the first and that in which it ends.
  pub data Interleaved : State F → State F → Type 0 where
    unchanged : (st : State F) → Interleaved st st
    concluded :
        (o : Outside F) (request : EvaluationRequest F) (before seen st : State F)
        → Interleaved before seen
        → Interleaved seen st
        → Interleaved before (conclude o request seen st)

module _ {F : Type 0} ⦃fl : Float F⦄ (s : Service F) (o : Outside F) (request : EvaluationRequest F)
    (r : Recommendation F) (low : min_duration ≤ℤ s.config.ttl)
    (high : s.config.ttl ≤ℤ max_duration) (warranted : IsWarranted s o request initial r) where
  conclude-initial : (st : State F) → conclude s o request initial st ≡ after_publication o.now r st
  conclude-initial st =
      ap (λ reply. note o.now (generated reply.0) st)
        (evaluate_publishes s o request initial r low high warranted)

  not-IsApart : (q : Recommendation F) (d : Duration) → pos 1 ≤ℤ d → ¬ IsApart d q q
  not-IsApart q d p apart = let late = apart refl in ground (arith, +ℤ_parts q.created_at d)

  -- With a positive dwell time, and a time to live in the range of `Duration`: where the service, in
  -- its first state, has a recommendation to publish, calls at the same time can publish two
  -- recommendations for one scope that are not the dwell time apart.
  pub interleaving_breaks_dwell :
      pos 1 ≤ℤ s.config.minimum_dwell
      → ¬ ((st : State F) → Interleaved s initial st → AreApart s.config.minimum_dwell st.published)
  interleaving_breaks_dwell p always =
      let once = conclude s o request initial initial in
      let twice = conclude s o request initial once in
      let run : Interleaved s initial twice =
        concluded o request initial initial once (unchanged initial)
          (concluded o request initial initial initial (unchanged initial) (unchanged initial)) in
      let two : twice.published ≡ r ∷ r ∷ [] =
        ap (λ st. st.published)
          (conclude-initial once
            ∙ ap (λ st. after_publication o.now r st) (conclude-initial initial)) in
      let apart : AreApart s.config.minimum_dwell (r ∷ r ∷ []) =
        subst (AreApart s.config.minimum_dwell) two (always twice run) in
      not-IsApart r s.config.minimum_dwell p apart.0.0
