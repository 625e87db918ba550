-- ===== src/Scoring/Factors.antt =====
-- The factors are between 0 and 1, so every penalty and every target weight is positive.
use stream_pulse.Common.{
  ℕ, zero, suc, ◌<◌, ◌^◌, ◌≡◌, refl, subst, inl, inr, Option, none, some, List, [], ◌∷◌, map, foldl,
  arith, Bool-cases, All, get_or,
}
use stream_pulse.Common.Dict.{Dict, lookup, Holds, lookup-Holds}
use stream_pulse.Float.{
  Float, IsExact, finite, ◌⊖◌, ◌⊗◌, ◌⊘◌, nought, one, lt, lit, abs, max, min, ◌≺◌, ◌≼◌,
}
use stream_pulse.Float.Laws.{one-mul}
use stream_pulse.Float.Order.{
  le_of_lt, le_trans, lt_of_lt_of_le, add_nonneg, mul_nonneg, div_nonneg, div-le, div_pos,
  sub_nonneg,
}
use stream_pulse.Float.Bounds.{le-max_left, le-max_right, min-le_left, min-le_right, abs-of_nonneg}
use stream_pulse.Float.Sums.{lit_pos, lit_nonneg, add_pos, sub-le-sub}
use stream_pulse.Domain.{NodeMetric, Signal}
use stream_pulse.Scoring.Weights.{
  min_with, max_with, rescale, normalized, factors, base_penalty, surcharge, target_weight,
}

module _ {F : Type 0} ⦃fl : Float F⦄ where
  -- No signal has a negative severity.
  abbrev pub HasSeverities : Dict (Signal F) → Type 0
  HasSeverities = Holds (λ _ s. nought ≼ s.severity)

module _ {F : Type 0} ⦃fl : Float F⦄ (laws : IsExact F) where
  open laws use {lt_irrefl, nought-lt-one}

  foldl-min_with :
      (vs : List F) (a : F)
      → (lo : F) × (foldl min_with (finite a) vs ≡ finite lo) × (lo ≼ a) × All (λ v. lo ≼ v) vs
  foldl-min_with [] a = (a, refl, lt_irrefl a, tt)
  foldl-min_with (v ∷ vs) a =
      let (lo, e, h, hs) = foldl-min_with vs (min a v) in
      (
        lo,
        e,
        le_trans laws lo (min a v) a h (min-le_left laws a v),
        (le_trans laws lo (min a v) v h (min-le_right laws a v), hs),
      )

  foldl-max_with :
      (vs : List F) (a : F)
      → (hi : F) × (foldl max_with (finite a) vs ≡ finite hi) × (a ≼ hi) × All (λ v. v ≼ hi) vs
  foldl-max_with [] a = (a, refl, lt_irrefl a, tt)
  foldl-max_with (v ∷ vs) a =
      let (hi, e, h, hs) = foldl-max_with vs (max a v) in
      (
        hi,
        e,
        le_trans laws a (max a v) hi (le-max_left laws a v) h,
        (le_trans laws v (max a v) hi (le-max_right laws a v) h, hs),
      )

  abbrev pub IsUnit : F → Type 0
  IsUnit v = (nought ≼ v) × (v ≼ one)

  map-nought-IsUnit : (vs : List F) → All IsUnit (map (λ _. nought) vs)
  map-nought-IsUnit [] = tt
  map-nought-IsUnit (v ∷ vs) =
      ((lt_irrefl nought, le_of_lt laws nought one nought-lt-one), map-nought-IsUnit vs)

  map_rescaled-IsUnit :
      (lo hi : F) (vs : List F)
      → nought ≺ hi ⊖ lo
      → All (λ v. lo ≼ v) vs
      → All (λ v. v ≼ hi) vs
      → All IsUnit (map (λ v. (v ⊖ lo) ⊘ (hi ⊖ lo)) vs)
  map_rescaled-IsUnit lo hi [] p l h = tt
  map_rescaled-IsUnit lo hi (v ∷ vs) p l h = (
    (
      div_nonneg laws (v ⊖ lo) (hi ⊖ lo) (sub_nonneg laws lo v l.0) p,
      div-le laws (v ⊖ lo) (hi ⊖ lo) one p
          (rw (one-mul laws (hi ⊖ lo)) (sub-le-sub laws v hi lo h.0)),
    ),
    map_rescaled-IsUnit lo hi vs p l.1 h.1,
  )

  rescale-IsUnit :
      (lo hi : F) (vs : List F)
      → lo ≼ hi
      → All (λ v. lo ≼ v) vs
      → All (λ v. v ≼ hi) vs
      → All IsUnit (rescale (finite lo) (finite hi) vs)
  unfolding rescale
  rescale-IsUnit lo hi vs o l h = elim (Bool-cases (lt (abs (hi ⊖ lo)) (lit 1 (10 ^ 12)))) [
    | inl e ↦ rw e (map-nought-IsUnit vs)
    | inr e ↦ rw e (
        map_rescaled-IsUnit lo hi vs
          (lt_of_lt_of_le laws nought (lit 1 (10 ^ 12)) (hi ⊖ lo)
            (lit_pos laws 1 (10 ^ 12) (omega arith) (omega arith))
            (subst (λ t. lit 1 (10 ^ 12) ≼ t)
              (abs-of_nonneg laws (hi ⊖ lo) (sub_nonneg laws lo hi o)) e))
          l h)
  ]

  -- Every normalised value is between 0 and 1.
  pub normalized-IsUnit :
      (ms : List (NodeMetric F)) (value : NodeMetric F → F) → All IsUnit (normalized ms value)
  unfolding normalized
  normalized-IsUnit [] value = tt
  normalized-IsUnit (m ∷ ms) value =
      let vs = map value ms in
      let v = value m in
      let (lo, e, l, ls) = foldl-min_with vs v in
      let (hi, f, h, hs) = foldl-max_with vs v in
      rw (e, f) (rescale-IsUnit lo hi (v ∷ vs) (le_trans laws lo v hi l h) (l, ls) (h, hs))

  get_or_nonneg : (vs : List F) (i : ℕ) → All IsUnit vs → nought ≼ get_or vs i nought
  get_or_nonneg [] i h = lt_irrefl nought
  get_or_nonneg (v ∷ vs) zero h = h.0.0
  get_or_nonneg (v ∷ vs) (suc i) h = get_or_nonneg vs i h.1

  term_nonneg :
      (n d : ℕ) (vs : List F) (i : ℕ)
      → 0 < d
      → All IsUnit vs
      → nought ≼ lit n d ⊗ get_or vs i nought
  term_nonneg n d vs i h u =
      mul_nonneg laws (lit n d) (get_or vs i nought) (lit_nonneg laws n d h) (get_or_nonneg vs i u)

  base_penalty_nonneg : (ms : List (NodeMetric F)) (i : ℕ) → nought ≼ base_penalty (factors ms) i
  unfolding factors
  base_penalty_nonneg ms i =
      add_nonneg laws _ _
        (add_nonneg laws _ _
          (add_nonneg laws _ _
            (add_nonneg laws _ _ (term_nonneg 35 100 _ i (omega arith) (normalized-IsUnit ms _))
              (term_nonneg 25 100 _ i (omega arith) (normalized-IsUnit ms _)))
            (term_nonneg 15 100 _ i (omega arith) (normalized-IsUnit ms _)))
          (term_nonneg 15 100 _ i (omega arith) (normalized-IsUnit ms _)))
        (term_nonneg 10 100 _ i (omega arith) (normalized-IsUnit ms _))

  surcharge_nonneg :
      (s : Option (Signal F)) (p : F)
      → ((x : Signal F) → s ≡ some x → nought ≼ x.severity)
      → nought ≼ p
      → nought ≼ surcharge s p
  surcharge_nonneg none p h k = k
  surcharge_nonneg (some x) p h k = elim (Bool-cases x.anomalous) [
    | inl e ↦ rw e (
        add_nonneg laws p (lit 25 100 ⊗ x.severity) k (
          mul_nonneg laws (lit 25 100) x.severity (lit_nonneg laws 25 100 (omega arith))
            (h x refl)))
    | inr e ↦ rw e k
  ]

  pub target_weight_pos :
      (ms : List (NodeMetric F)) (signals : Dict (Signal F)) (i : ℕ) (m : NodeMetric F)
      → HasSeverities signals
      → nought ≺ target_weight (factors ms) signals i m
  unfolding target_weight
  target_weight_pos ms signals i m h = div_pos laws one _ nought-lt-one (
      add_pos laws (lit 5 100) _ (lit_pos laws 5 100 (omega arith) (omega arith)) (
        surcharge_nonneg (lookup m.node_id signals) _
          (λ x e. lookup-Holds (λ _ s. nought ≼ s.severity) m.node_id x signals h e)
          (base_penalty_nonneg ms i)))
