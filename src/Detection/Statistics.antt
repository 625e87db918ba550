-- ===== src/Detection/Statistics.antt =====
-- The numeric helpers of detector.go: the median, the robust z-score and the frozen average.
use stream_pulse.Common.{
  ◌-◌, ◌/◌, ◌%◌, ◌^◌, Bool, true, false, ◌||◌, List, [], ◌∷◌, ◌++◌, map, foldl, length, get_or, ltb,
  ◌==◌, if◌then◌else◌,
}
use stream_pulse.Common.Sort.{sort}
use stream_pulse.Float.{
  Float, Extended, neg_inf, finite, pos_inf, ◌⊕◌, ◌⊖◌, ◌⊗◌, ◌⊘◌, lt, le, nought, one, lit, abs, max,
  min,
}
use stream_pulse.Domain.{NodeMetric}

module _ {F : Type 0} ⦃fl : Float F⦄ where
  abbrev pub metric_values : List (NodeMetric F) → (NodeMetric F → F) → List F
  metric_values metrics value = map value metrics

  unfoldable pub median : List F → F
  unfolding sort
  median [] = nought
  median (v ∷ vs) =
      let sorted = sort lt (v ∷ vs) in
      let middle = length sorted / 2 in
      if length sorted % 2 == 0
      then (get_or sorted (middle - 1) nought ⊕ get_or sorted middle nought) ⊘ fl.of_nat 2
      else get_or sorted middle nought

  -- A deviation below this counts as none.
  abbrev tiny : F
  tiny = lit 1 (10 ^ 9)

  unfoldable pub robust_z : F → List F → Extended F
  unfolding median
  robust_z value [] = finite nought
  robust_z value (h ∷ hs) =
      let center = median (h ∷ hs) in
      let mad = median (map (λ sample. abs (sample ⊖ center)) (h ∷ hs)) in
      if lt mad tiny
      then if lt (abs (value ⊖ center)) tiny then finite nought else pos_inf
      else finite (abs (lit 6745 10000 ⊗ (value ⊖ center) ⊘ mad))

  -- `math.Abs(z) <= bound` and `z >= bound`
  abbrev pub abs_at_most : Extended F → F → Bool
  abs_at_most neg_inf bound = false
  abs_at_most (finite z) bound = le (abs z) bound
  abs_at_most pos_inf bound = false

  abbrev pub at_least : Extended F → F → Bool
  at_least neg_inf bound = false
  at_least (finite z) bound = le bound z
  at_least pos_inf bound = true

  -- The loop carries `baseline` and `accepted`.
  unfoldable pub ewma_step : F → F × List F → F → F × List F
  unfolding robust_z
  ewma_step alpha (baseline, accepted) value =
      if abs_at_most (robust_z value accepted) (fl.of_nat 4) || ltb (length accepted) 5
      then (alpha ⊗ value ⊕ (one ⊖ alpha) ⊗ baseline, accepted ++ (value ∷ []))
      else (baseline, accepted)

  unfoldable pub frozen_ewma : List F → F → F
  unfolding ewma_step
  frozen_ewma [] alpha = nought
  frozen_ewma (v ∷ vs) alpha = (foldl (ewma_step alpha) (v, v ∷ []) vs).0

  abbrev pub clamp01 : F → F
  clamp01 value = max nought (min one value)
