-- ===== src/Scoring/Conservation.antt =====
-- The weights of a successful proposal: what they add up to, and how far they move.
use stream_pulse.Common.{
  ◌<◌, ◌≡◌, refl, sym, ap, subst, ◌∙◌, inl, inr, String, List, [], ◌∷◌, arith, length, Option-cases,
}
use stream_pulse.Common.Dict.{Dict, lookup, get, map_entries, Holds, lookup-Holds}
use stream_pulse.Common.Fallible.{ok}
use stream_pulse.Time.{Time}
use stream_pulse.Float.{Float, IsExact, ◌⊕◌, ◌⊖◌, nought, one, abs, ◌≼◌}
use stream_pulse.Float.Sums.{total}
use stream_pulse.Domain.{NodeMetric, Signal}
use stream_pulse.Scoring.{Config, Result, propose}
use stream_pulse.Scoring.Weights.{move_weights, step_factor}
use stream_pulse.Scoring.Evidence.{make_result-weights}
use stream_pulse.Scoring.Outcome.{
  eligible, current, target, proposed, eligible-HasDistinctNodes, propose-ok,
}
use stream_pulse.Scoring.Factors.{HasSeverities}
use stream_pulse.Scoring.CurrentWeights.{weight_of}
use stream_pulse.Scoring.Uniform.{IsNonneg, or_nought, normalized_current-sum}
use stream_pulse.Scoring.Targets.{targets-sum}
use stream_pulse.Scoring.Movement.{step_factor-Fits, move_weights-bounds, move_weights-total}

module _ {F : Type 0} ⦃fl : Float F⦄ where
  -- The nodes stay the same in a move.
  move_weights-keys :
      (l : F) (c t : Dict F) (h : String → F)
      → total (map_entries (λ k _. h k) (move_weights l c t)) ≡ total (map_entries (λ k _. h k) t)
  unfolding move_weights
  move_weights-keys l c [] h = refl
  move_weights-keys l c ((k, v) ∷ t) h = ap (λ s. h k ⊕ s) (move_weights-keys l c t h)

  weight_of_nonneg :
      (laws : IsExact F) (d : Dict F) → IsNonneg d → (k : String) → nought ≼ weight_of d k
  weight_of_nonneg laws d h k = elim (Option-cases (lookup k d)) [
    | inl e ↦ subst (λ o. nought ≼ or_nought o) (sym e) (laws.lt_irrefl nought)
    | inr (v, e) ↦
        subst (λ o. nought ≼ or_nought o) (sym e) (lookup-Holds (λ _ w. nought ≼ w) k v d h e)
  ]

module _ {F : Type 0} ⦃fl : Float F⦄ (laws : IsExact F) (config : Config F) (now : Time)
    (metrics : List (NodeMetric F)) (requested : Dict F) (signals : Dict (Signal F))
    (severe : HasSeverities signals) where
  -- In exact arithmetic, with no negative severity: if `Propose` succeeds, the proposed weights add
  -- up to 1, and the current weights of the same nodes add up to 1 as well.
  pub propose_conserves :
      (r : Result F)
      → propose config now metrics requested signals ≡ ok r
      → (total r.proposed ≡ one)
        × (total (map_entries (λ k _. get k r.current nought) r.proposed) ≡ one)
  propose_conserves r e =
      let ms = eligible config now metrics requested signals in
      let cur = current config now metrics requested signals in
      let tgt = target config now metrics requested signals in
      let (enough, _, made) = propose-ok config now metrics requested signals r e in
      let (c, p, _) =
        make_result-weights signals ms cur (proposed config now metrics requested signals) in
      let c_eq : r.current ≡ cur = ap (λ q. q.current) made ∙ c in
      let p_eq : r.proposed ≡ proposed config now metrics requested signals =
        ap (λ q. q.proposed) made ∙ p in
      let some_node : 0 < length ms = omega arith in
      let (sum, _) = normalized_current-sum laws requested ms some_node in
      let (all, _, same) =
        targets-sum laws signals severe ms (weight_of cur)
          (eligible-HasDistinctNodes config now metrics requested signals) some_node in
      let l = step_factor config.maximum_weight_step cur tgt in
      rw (c_eq, p_eq)
        (
          move_weights-total laws config.maximum_weight_step cur l tgt (same ∙ sum ∙ sym all) ∙ all,
          move_weights-keys l cur tgt (weight_of cur) ∙ same ∙ sum,
        )

  -- In exact arithmetic, with no negative severity and a maximum step that is not negative: if
  -- `Propose` succeeds, no proposed weight is negative, and none is further than the maximum step
  -- from the current weight of its node.
  pub propose_step :
      (r : Result F)
      → nought ≼ config.maximum_weight_step
      → propose config now metrics requested signals ≡ ok r
      → Holds
          (λ k w. (nought ≼ w) × (abs (w ⊖ get k r.current nought) ≼ config.maximum_weight_step))
          r.proposed
  propose_step r s e =
      let ms = eligible config now metrics requested signals in
      let cur = current config now metrics requested signals in
      let tgt = target config now metrics requested signals in
      let (enough, _, made) = propose-ok config now metrics requested signals r e in
      let (c, p, _) =
        make_result-weights signals ms cur (proposed config now metrics requested signals) in
      let c_eq : r.current ≡ cur = ap (λ q. q.current) made ∙ c in
      let p_eq : r.proposed ≡ proposed config now metrics requested signals =
        ap (λ q. q.proposed) made ∙ p in
      let some_node : 0 < length ms = omega arith in
      let (_, nonneg) = normalized_current-sum laws requested ms some_node in
      let (_, above, _) =
        targets-sum laws signals severe ms (weight_of cur)
          (eligible-HasDistinctNodes config now metrics requested signals) some_node in
      let (low, high, fits) = step_factor-Fits laws config.maximum_weight_step cur tgt s in
      rw (c_eq, p_eq)
        (move_weights-bounds laws config.maximum_weight_step cur
          (step_factor config.maximum_weight_step cur tgt) tgt low high
          (weight_of_nonneg laws cur nonneg) above fits)
