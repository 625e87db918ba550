-- ===== src/Generator/Rates.antt =====
-- The rates that the scenarios set stay probabilities.
use stream_pulse.Common.{
  ◌≡◌, refl, inl, inr, String, Option, none, some, List, [], ◌∷◌, foldl, All, arith, Bool-cases,
}
use stream_pulse.Common.Fallible.{Fallible}
use stream_pulse.Time.{Time, Duration}
use stream_pulse.Float.{Float, IsExact, nought, one, ◌≼◌}
use stream_pulse.Float.Order.{le_of_lt}
use stream_pulse.Generator.Config.{
  Config, Scenario, ConfigError, first_error, or_else, check_scenario, check_settings, validate,
}
use stream_pulse.Generator.Scenario.{
  Effects, no_effects, max_float, is_active, apply, effects_step, effects,
}

pub or_else-none {ℓ} : {E : Type ℓ} (a b : Option E) → or_else a b ≡ none → (a ≡ none) × (b ≡ none)
or_else-none none b h = (refl, h)
or_else-none (some e) b h = cc

pub first_error-All {ℓ} :
    {A : Type ℓ} (f : A → Option ConfigError) (xs : List A)
    → first_error f xs ≡ none
    → All (λ x. f x ≡ none) xs
first_error-All f [] h = tt
first_error-All f (x ∷ xs) h =
    let (here, rest) = or_else-none (f x) (first_error f xs) h in (here, first_error-All f xs rest)

module _ {F : Type 0} ⦃fl : Float F⦄ where
  abbrev pub IsRate : F → Type 0
  IsRate v = (nought ≼ v) × (v ≼ one)

  -- Both rates are from 0 to 1.
  abbrev pub HasRates : Effects F → Type 0
  HasRates e = IsRate e.error_rate × IsRate e.miss_rate

  abbrev HasScenarioRates : Scenario F → Type 0
  HasScenarioRates s = IsRate s.error_rate × IsRate s.miss_rate

  check_scenario-rates :
      (c : Config F) (s : Scenario F) → check_scenario c s ≡ none → HasScenarioRates s
  unfolding check_scenario
  check_scenario-rates c s h = ground arith

  scenarios-rates :
      (c : Config F) (ss : List (Scenario F))
      → All (λ s. check_scenario c s ≡ none) ss
      → All HasScenarioRates ss
  scenarios-rates c [] h = tt
  scenarios-rates c (s ∷ ss) h = (check_scenario-rates c s h.0, scenarios-rates c ss h.1)

  pub check_settings-none :
      (c : Config F) (rest : Option ConfigError) → check_settings c rest ≡ none → rest ≡ none
  unfolding check_settings
  check_settings-none c rest h = ground arith

  validate-scenarios :
      (parse_time : String → Fallible String Time) (c : Config F)
      → validate parse_time c ≡ none
      → first_error (check_scenario c) c.scenarios ≡ none
  unfolding validate
  validate-scenarios parse_time c h =
      let settings = (or_else-none _ _ h).1 in
      (or_else-none _ _ (or_else-none _ _ (check_settings-none c _ settings)).1).1

  max_float-IsRate : (a b : F) → IsRate a → IsRate b → IsRate (max_float a b)
  max_float-IsRate a b h k = ground arith

  apply-HasRates :
      (n w : String) (s : Scenario F) (e : Effects F)
      → HasScenarioRates s
      → HasRates e
      → HasRates (apply n w s e)
  unfolding apply
  apply-HasRates n w s e h k = ground (
    arith,
    max_float-IsRate e.error_rate s.error_rate k.0 h.0,
    max_float-IsRate e.miss_rate s.miss_rate k.1 h.1,
  )

  steps-HasRates :
      (t : Duration) (n w : String) (ss : List (Scenario F)) (e : Effects F)
      → All HasScenarioRates ss
      → HasRates e
      → HasRates (foldl (effects_step t n w) e ss)
  steps-HasRates t n w [] e h k = k
  steps-HasRates t n w (s ∷ ss) e h k =
      steps-HasRates t n w ss (effects_step t n w e s) h.1 (elim (Bool-cases (is_active t s)) [
        | inl a ↦ rw a (apply-HasRates n w s e h.0 k)
        | inr a ↦ rw a k
      ])

  -- In exact arithmetic: the scenarios of a configuration that `Validate` accepts give every request
  -- an error rate and a miss rate from 0 to 1, at any time, node and network.
  pub effects_rates :
      (laws : IsExact F) (parse_time : String → Fallible String Time) (c : Config F)
      (elapsed : Duration) (node_id network : String)
      → validate parse_time c ≡ none
      → HasRates (effects c elapsed node_id network)
  unfolding effects
  effects_rates laws parse_time c t n w h =
      let zero_rate : IsRate nought =
        (laws.lt_irrefl nought, le_of_lt laws nought one laws.nought-lt-one) in
      steps-HasRates t n w c.scenarios no_effects
        (scenarios-rates c c.scenarios
          (first_error-All (check_scenario c) c.scenarios (validate-scenarios parse_time c h)))
        (zero_rate, zero_rate)
