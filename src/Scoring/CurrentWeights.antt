-- ===== src/Scoring/CurrentWeights.antt =====
-- The normalised current weights of the candidates are not negative and add up to 1.
use stream_pulse.Common.{
  ◌≡◌, refl, sym, ap, subst, ◌∙◌, inl, inr, String, some, List, [], ◌∷◌, foldl, arith, Bool-cases,
  Option-cases, All, str_eq, eq_iff, if◌then◌else◌,
}
use stream_pulse.Common.Dict.{Dict, lookup, get, Holds, insert-Holds, lookup-Holds, lookup-insert}
use stream_pulse.Float.{Float, IsExact, ◌⊕◌, nought, lt, ◌≺◌}
use stream_pulse.Domain.{NodeMetric}
use stream_pulse.Scoring.Weights.{current_step}

module _ {F : Type 0} ⦃fl : Float F⦄ where
  -- A value for each candidate, added up.
  abbrev pub sum_over : List (NodeMetric F) → (String → F) → F
  sum_over [] f = nought
  sum_over (m ∷ ms) f = f m.node_id ⊕ sum_over ms f

  abbrev pub weight_of : Dict F → String → F
  weight_of d k = get k d nought

  -- Weights that are not positive count for nothing.
  abbrev pub positive_part : F → F
  positive_part w = if lt nought w then w else nought

  -- Every weight in the map is that of `current`, and is positive.
  abbrev pub IsRestriction : Dict F → Dict F → Type 0
  IsRestriction current = Holds (λ k v. (v ≡ weight_of current k) × (nought ≺ v))

  abbrev pub Includes : Dict F → Dict F → NodeMetric F → Type 0
  Includes current d m =
      nought ≺ weight_of current m.node_id → lookup m.node_id d ≡ some (weight_of current m.node_id)

module _ {F : Type 0} ⦃fl : Float F⦄ (laws : IsExact F) (current : Dict F) where
  open laws use {add_comm, add_assoc, add-nought, lt_irrefl, of_nat-suc, nought-lt-one}

  abbrev pub step : Dict F × F → NodeMetric F → Dict F × F
  step = current_step current

  step-IsRestriction :
      (d : Dict F) (s : F) (m : NodeMetric F)
      → IsRestriction current d
      → IsRestriction current (step (d, s) m).0
  step-IsRestriction d s m h = elim (Bool-cases (lt nought (weight_of current m.node_id))) [
    | inl e ↦ rw e (
        insert-Holds (λ k v. (v ≡ weight_of current k) × (nought ≺ v)) m.node_id
          (weight_of current m.node_id) d (refl, e) h)
    | inr e ↦ rw e h
  ]

  step-Includes :
      (d : Dict F) (s : F) (m x : NodeMetric F)
      → Includes current d x
      → Includes current (step (d, s) m).0 x
  step-Includes d s m x h p = elim (Bool-cases (lt nought (weight_of current m.node_id))) [
    | inr e ↦ rw e (h p)
    | inl e ↦
        rw (e, lookup-insert m.node_id x.node_id (weight_of current m.node_id) d)
          (elim (Bool-cases (str_eq m.node_id x.node_id)) [
            | inl same ↦
                rw same (ap (λ k. some (weight_of current k)) ((eq_iff m.node_id x.node_id).0 same))
            | inr other ↦ rw other (h p)
          ])
  ]

  step-Includes_self :
      (d : Dict F) (s : F) (m : NodeMetric F) → Includes current (step (d, s) m).0 m
  step-Includes_self d s m p = rw (
    p,
    lookup-insert m.node_id m.node_id (weight_of current m.node_id) d,
    (eq_iff m.node_id m.node_id).1 refl,
  )

  abbrev pub steps : List (NodeMetric F) → Dict F × F → Dict F × F
  steps ms acc = foldl step acc ms

  pub steps-keep :
      (ms : List (NodeMetric F)) (d : Dict F) (s : F) (x : NodeMetric F)
      → Includes current d x
      → Includes current (steps ms (d, s)).0 x
  steps-keep [] d s x h = h
  steps-keep (m ∷ ms) d s x h =
      steps-keep ms (step (d, s) m).0 (step (d, s) m).1 x (step-Includes d s m x h)

  pub steps-include :
      (ms : List (NodeMetric F)) (d : Dict F) (s : F)
      → All (Includes current (steps ms (d, s)).0) ms
  steps-include [] d s = tt
  steps-include (m ∷ ms) d s =
      let next = step (d, s) m in
      (steps-keep ms next.0 next.1 m (step-Includes_self d s m), steps-include ms next.0 next.1)

  pub steps-IsRestriction :
      (ms : List (NodeMetric F)) (d : Dict F) (s : F)
      → IsRestriction current d
      → IsRestriction current (steps ms (d, s)).0
  steps-IsRestriction [] d s h = h
  steps-IsRestriction (m ∷ ms) d s h =
      let next = step (d, s) m in steps-IsRestriction ms next.0 next.1 (step-IsRestriction d s m h)

  abbrev pub share : String → F
  share k = positive_part (weight_of current k)

  step_sum : (d : Dict F) (s : F) (m : NodeMetric F) → (step (d, s) m).1 ≡ s ⊕ share m.node_id
  step_sum d s m = elim (Bool-cases (lt nought (weight_of current m.node_id))) [
    | inl e ↦ rw e
    | inr e ↦ rw e (sym (add-nought s))
  ]

  pub steps_sum :
      (ms : List (NodeMetric F)) (d : Dict F) (s : F) → (steps ms (d, s)).1 ≡ s ⊕ sum_over ms share
  steps_sum [] d s = sym (add-nought s)
  steps_sum (m ∷ ms) d s =
      let next = step (d, s) m in
      steps_sum ms next.0 next.1
      ∙ ap (λ t. t ⊕ sum_over ms share) (step_sum d s m)
      ∙ add_assoc s (share m.node_id) (sum_over ms share)

  -- What the first loop leaves: each candidate's positive weight.
  pub weight_of-steps :
      (d : Dict F) (m : NodeMetric F)
      → IsRestriction current d
      → Includes current d m
      → weight_of d m.node_id ≡ share m.node_id
  weight_of-steps d m r i = elim (Option-cases (lookup m.node_id d)) [
    | inl e ↦ elim (Bool-cases (lt nought (weight_of current m.node_id))) [
      | inl p ↦ ground (arith, i p, e)
      | inr p ↦ ground (arith, e, p)
    ]
    | inr (v, e) ↦
        let (same, p) =
          lookup-Holds (λ k v. (v ≡ weight_of current k) × (nought ≺ v)) m.node_id v d r e in
        let q : nought ≺ weight_of current m.node_id = subst (λ t. nought ≺ t) same p in
        ground (arith, same, e, q)
  ]
