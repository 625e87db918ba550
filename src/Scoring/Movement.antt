-- ===== src/Scoring/Movement.antt =====
-- The bounded move from the current to the target weights.
use stream_pulse.Common.{◌≡◌, ap, subst, ◌∙◌, inl, inr, String, [], ◌∷◌, All, foldl, Bool-cases}
use stream_pulse.Common.Dict.{Dict, map_entries, Holds}
use stream_pulse.Float.{Float, IsExact, ◌⊕◌, ◌⊖◌, ◌⊗◌, ◌⊘◌, nought, one, lt, abs, min, ◌≼◌}
use stream_pulse.Float.Laws.{sub_self, mul-nought, one-mul}
use stream_pulse.Float.Order.{le_of_lt, le_trans, lt_of_le_of_lt, mul-le-mul_right, div_nonneg}
use stream_pulse.Float.Bounds.{min-le_left, min-le_right, le-min, abs_nonneg}
use stream_pulse.Float.Sums.{total, total-lerp, abs-lerp_sub, lerp_nonneg}
use stream_pulse.Scoring.Weights.{lower, step_factor, move_weights}
use stream_pulse.Scoring.CurrentWeights.{weight_of}
use stream_pulse.Scoring.Uniform.{IsNonneg}

module _ {F : Type 0} ⦃fl : Float F⦄ (laws : IsExact F) (step : F) (current : Dict F) where
  open laws use {lt_irrefl, div-mul, add-nought, nought-lt-one}

  -- How far the weight of a node is from its target.
  abbrev distance : String × F → F
  distance (k, v) = abs (v ⊖ weight_of current k)

  -- A factor that moves this entry by no more than `step`.
  abbrev Fits : F → String × F → Type 0
  Fits l e = l ⊗ distance e ≼ step

  Fits-le : (a b : F) (e : String × F) → a ≼ b → Fits b e → Fits a e
  Fits-le a b (k, v) h f =
      le_trans laws _ (b ⊗ distance (k, v)) step
        (mul-le-mul_right laws (distance (k, v)) a b (abs_nonneg laws (v ⊖ weight_of current k)) h)
        f

  lower-le : (l : F) (e : String × F) → lower step current l e ≼ l
  lower-le l (k, v) = elim (Bool-cases (lt step (distance (k, v)))) [
    | inl e ↦ rw e (min-le_left laws l (step ⊘ distance (k, v)))
    | inr e ↦ rw e (lt_irrefl l)
  ]

  lower_nonneg :
      (l : F) (e : String × F) → nought ≼ step → nought ≼ l → nought ≼ lower step current l e
  lower_nonneg l (k, v) s h = elim (Bool-cases (lt step (distance (k, v)))) [
    | inl e ↦ rw e (
        le-min laws l (step ⊘ distance (k, v)) nought h
          (div_nonneg laws step (distance (k, v)) s (lt_of_le_of_lt laws nought step _ s e)))
    | inr e ↦ rw e h
  ]

  lower-Fits : (l : F) (e : String × F) → nought ≼ step → l ≼ one → Fits (lower step current l e) e
  lower-Fits l (k, v) s h = elim (Bool-cases (lt step (distance (k, v)))) [
    | inl e ↦
        let d = distance (k, v) in
        let some_way = lt_of_le_of_lt laws nought step d s e in
        rw e (
          subst (λ t. min l (step ⊘ d) ⊗ d ≼ t) (div-mul step d some_way)
            (mul-le-mul_right laws d (min l (step ⊘ d)) (step ⊘ d) (le_of_lt laws nought d some_way)
              (min-le_right laws l (step ⊘ d))))
    | inr e ↦
        let d = distance (k, v) in
        rw e (
          le_trans laws (l ⊗ d) d step
            (subst (λ t. l ⊗ d ≼ t) (one-mul laws d)
              (mul-le-mul_right laws d l one (abs_nonneg laws (v ⊖ weight_of current k)) h))
            e)
  ]

  lowered : F → Dict F → F
  lowered l target = foldl (lower step current) l target

  lowered-le : (target : Dict F) (l : F) → lowered l target ≼ l
  unfolding lowered
  lowered-le [] l = lt_irrefl l
  lowered-le (e ∷ es) l =
      le_trans laws _ (lower step current l e) l (lowered-le es (lower step current l e))
        (lower-le l e)

  lowered_nonneg :
      (target : Dict F) (l : F) → nought ≼ step → nought ≼ l → nought ≼ lowered l target
  unfolding lowered
  lowered_nonneg [] l s h = h
  lowered_nonneg (e ∷ es) l s h =
      lowered_nonneg es (lower step current l e) s (lower_nonneg l e s h)

  lowered-Fits :
      (target : Dict F) (l : F) → nought ≼ step → l ≼ one → All (Fits (lowered l target)) target
  unfolding lowered
  lowered-Fits [] l s h = tt
  lowered-Fits (e ∷ es) l s h =
      let next = lower step current l e in
      (
        Fits-le _ next e (lowered-le es next) (lower-Fits l e s h),
        lowered-Fits es next s (le_trans laws next l one (lower-le l e) h),
      )

  -- The factor is between 0 and 1, and no entry moves further than `step`.
  pub step_factor-Fits :
      (target : Dict F)
      → nought ≼ step
      → (nought ≼ step_factor step current target)
        × (step_factor step current target ≼ one)
        × All (Fits (step_factor step current target)) target
  unfolding step_factor lowered
  step_factor-Fits target s = (
    lowered_nonneg target one s (le_of_lt laws nought one nought-lt-one),
    lowered-le target one,
    lowered-Fits target one s (lt_irrefl one),
  )

  -- A move by such a factor keeps weights from going below 0, and moves none beyond `step`.
  pub move_weights-bounds :
      (l : F) (target : Dict F)
      → nought ≼ l
      → l ≼ one
      → ((k : String) → nought ≼ weight_of current k)
      → IsNonneg target
      → All (Fits l) target
      → Holds
          (λ k w. (nought ≼ w) × (abs (w ⊖ weight_of current k) ≼ step))
          (move_weights l current target)
  unfolding move_weights
  move_weights-bounds l [] p q c h f = tt
  move_weights-bounds l ((k, v) ∷ es) p q c h f = (
    (
      lerp_nonneg laws (weight_of current k) l v p q (c k) h.0,
      le_trans laws _ (l ⊗ distance (k, v)) step (abs-lerp_sub laws (weight_of current k) l v p)
          f.0,
    ),
    move_weights-bounds l es p q c h.1 f.1,
  )

  -- Totals that are equal stay so.
  pub move_weights-total :
      (l : F) (target : Dict F)
      → total (map_entries (λ k _. weight_of current k) target) ≡ total target
      → total (move_weights l current target) ≡ total target
  unfolding move_weights
  move_weights-total l target e =
      let before = total (map_entries (λ k _. weight_of current k) target) in
      total-lerp laws l (weight_of current) target
      ∙ ap (λ s. before ⊕ l ⊗ s) (ap (λ t. total target ⊖ t) e ∙ sub_self laws (total target))
      ∙ ap (λ s. before ⊕ s) (mul-nought laws l)
      ∙ add-nought before
      ∙ e
