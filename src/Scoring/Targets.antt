-- ===== src/Scoring/Targets.antt =====
-- The target weights: one for each candidate, none negative, and together 1.
use mathlib.Core.List.{append_assoc, append-nil}
use stream_pulse.Common.{
  ℕ, suc, ◌<◌, ◌≡◌, refl, sym, ap, ◌∙◌, String, none, List, [], ◌∷◌, ◌++◌, All, length,
}
use stream_pulse.Common.Dict.{Dict, lookup, map_entries, insert-eq-append}
use stream_pulse.Float.{Float, IsExact, ◌⊕◌, ◌⊘◌, nought, one, ◌≺◌}
use stream_pulse.Float.Laws.{nought-add}
use stream_pulse.Float.Order.{le_of_lt}
use stream_pulse.Float.Sums.{total, total_nonneg, total-div, div_self, add_pos}
use stream_pulse.Domain.{NodeMetric, Signal}
use stream_pulse.Scoring.Weights.{Factors, factors, target_weight, targets_from, targets}
use stream_pulse.Scoring.Distinct.{HasDistinctNodes}
use stream_pulse.Scoring.Evidence.{insert_fresh}
use stream_pulse.Scoring.Factors.{HasSeverities, target_weight_pos}
use stream_pulse.Scoring.CurrentWeights.{sum_over}
use stream_pulse.Scoring.Uniform.{IsNonneg, div-IsNonneg}

module _ {F : Type 0} ⦃fl : Float F⦄ (f : Factors F) (signals : Dict (Signal F)) where
  -- The weights before they are divided by their sum.
  abbrev pub raw_targets : ℕ → List (NodeMetric F) → Dict F
  raw_targets i [] = []
  raw_targets i (m ∷ ms) = (m.node_id, target_weight f signals i m) ∷ raw_targets (suc i) ms

  raw_targets-total :
      (laws : IsExact F) (i : ℕ) (ms : List (NodeMetric F)) (acc : Dict F × F)
      → (targets_from f signals i ms acc).1 ≡ acc.1 ⊕ total (raw_targets i ms)
  unfolding targets_from
  raw_targets-total laws i [] (d, s) = sym (laws.add-nought s)
  raw_targets-total laws i (m ∷ ms) (d, s) =
      raw_targets-total laws (suc i) ms _
      ∙ laws.add_assoc s (target_weight f signals i m) (total (raw_targets (suc i) ms))

  raw_targets-entries :
      (i : ℕ) (ms : List (NodeMetric F)) (acc : Dict F × F)
      → HasDistinctNodes ms
      → All (λ x. lookup x.node_id acc.0 ≡ none) ms
      → (targets_from f signals i ms acc).0 ≡ acc.0 ++ raw_targets i ms
  unfolding targets_from
  raw_targets-entries i [] (d, s) h new = sym (append-nil d)
  raw_targets-entries i (m ∷ ms) (d, s) h new =
      let w = target_weight f signals i m in
      raw_targets-entries (suc i) ms _ h.1 (insert_fresh w m ms d h.0 new.1)
      ∙ ap (λ e. e ++ raw_targets (suc i) ms) (insert-eq-append m.node_id w d new.0)
      ∙ append_assoc d ((m.node_id, w) ∷ []) (raw_targets (suc i) ms)

  raw_targets-keys :
      (g : F → F) (h : String → F) (i : ℕ) (ms : List (NodeMetric F))
      → total (map_entries (λ k _. h k) (map_entries (λ _ w. g w) (raw_targets i ms)))
        ≡ sum_over ms h
  raw_targets-keys g h i [] = refl
  raw_targets-keys g h i (m ∷ ms) = ap (λ t. h m.node_id ⊕ t) (raw_targets-keys g h (suc i) ms)

module _ {F : Type 0} ⦃fl : Float F⦄ where
  All-new : (ms : List (NodeMetric F)) → All (λ x. lookup {V = F} x.node_id [] ≡ none) ms
  All-new [] = tt
  All-new (m ∷ ms) = (refl, All-new ms)

  pub targets_lem :
      (laws : IsExact F) (signals : Dict (Signal F)) (ms : List (NodeMetric F))
      → HasDistinctNodes ms
      → let raw = raw_targets (factors ms) signals 0 ms in
        targets ms signals ≡ map_entries (λ _ w. w ⊘ total raw) raw
  unfolding targets
  targets_lem laws signals ms h =
      let raw = raw_targets (factors ms) signals 0 ms in
      let sum : (targets_from (factors ms) signals 0 ms ([], nought)).1 ≡ total raw =
        raw_targets-total (factors ms) signals laws 0 ms ([], nought)
        ∙ nought-add laws (total raw) in
      rw (sum, raw_targets-entries (factors ms) signals 0 ms ([], nought) h (All-new ms))

module _ {F : Type 0} ⦃fl : Float F⦄ (laws : IsExact F) (signals : Dict (Signal F))
    (severe : HasSeverities signals) where
  raw_targets-IsNonneg :
      (i : ℕ) (every ms : List (NodeMetric F)) → IsNonneg (raw_targets (factors every) signals i ms)
  raw_targets-IsNonneg i every [] = tt
  raw_targets-IsNonneg i every (m ∷ ms) = (
    le_of_lt laws _ _ (target_weight_pos laws every signals i m severe),
    raw_targets-IsNonneg (suc i) every ms,
  )

  raw_targets_pos :
      (ms : List (NodeMetric F))
      → 0 < length ms
      → nought ≺ total (raw_targets (factors ms) signals 0 ms)
  raw_targets_pos [] h = elim h [ ]
  raw_targets_pos (m ∷ ms) h =
      let rest = raw_targets (factors (m ∷ ms)) signals 1 ms in
      add_pos laws (target_weight (factors (m ∷ ms)) signals 0 m) (total rest)
        (target_weight_pos laws (m ∷ ms) signals 0 m severe)
        (total_nonneg laws rest (raw_targets-IsNonneg 1 (m ∷ ms) ms))

  -- The weights add up to 1, none is negative, and there is one for each candidate.
  pub targets-sum :
      (ms : List (NodeMetric F)) (h : String → F)
      → HasDistinctNodes ms
      → 0 < length ms
      → (total (targets ms signals) ≡ one)
        × IsNonneg (targets ms signals)
        × (total (map_entries (λ k _. h k) (targets ms signals)) ≡ sum_over ms h)
  targets-sum ms h distinct some_node =
      let raw = raw_targets (factors ms) signals 0 ms in
      let pos = raw_targets_pos ms some_node in
      rw (targets_lem laws signals ms distinct) (
        total-div laws (total raw) raw pos ∙ div_self laws (total raw) pos,
        div-IsNonneg laws (total raw) raw pos (raw_targets-IsNonneg 0 ms ms),
        raw_targets-keys (factors ms) signals (λ w. w ⊘ total raw) h 0 ms,
      )
