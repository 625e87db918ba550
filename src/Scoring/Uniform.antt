-- ===== src/Scoring/Uniform.antt =====
-- The normalised current weights of the candidates add up to 1, and none is negative.
use stream_pulse.Common.{
  ◌<◌, ◌≡◌, refl, sym, ap, subst, ◌∙◌, inl, inr, String, Option, none, some, List, [], ◌∷◌, foldl,
  Bool-cases, Option-cases, All, length, str_eq, eq_iff,
}
use stream_pulse.Common.Dict.{
  Dict, lookup, insert, map_entries, Holds, insert-Holds, lookup-insert, lookup-map_entries,
}
use stream_pulse.Float.{Float, IsExact, ◌⊕◌, ◌⊗◌, ◌⊘◌, nought, one, lt, ◌≺◌, ◌≼◌}
use stream_pulse.Float.Laws.{nought-add, one-mul, add-mul, nought-mul}
use stream_pulse.Float.Order.{le_of_lt, add_nonneg, div_nonneg}
use stream_pulse.Float.Sums.{of_nat_pos, div_self, add-div, nought-div}
use stream_pulse.Domain.{NodeMetric}
use stream_pulse.Scoring.Weights.{uniform_step, normalized_current}
use stream_pulse.Scoring.CurrentWeights.{
  sum_over, weight_of, IsRestriction, steps, share, steps-include, steps-IsRestriction, steps_sum,
  weight_of-steps,
}

module _ {F : Type 0} ⦃fl : Float F⦄ where
  abbrev pub IsNonneg : Dict F → Type 0
  IsNonneg = Holds (λ _ v. nought ≼ v)

  abbrev pub or_nought : Option F → F
  or_nought none = nought
  or_nought (some v) = v

  uniform-keeps :
      (w : F) (ms : List (NodeMetric F)) (d : Dict F) (x : NodeMetric F)
      → lookup x.node_id d ≡ some w
      → lookup x.node_id (foldl (uniform_step w) d ms) ≡ some w
  uniform-keeps w [] d x h = h
  uniform-keeps w (m ∷ ms) d x h = uniform-keeps w ms (insert m.node_id w d) x (
      rw (lookup-insert m.node_id x.node_id w d, h)
        (elim (Bool-cases (str_eq m.node_id x.node_id)) [ inl e ↦ rw e | inr e ↦ rw e ]))

  uniform-include :
      (w : F) (ms : List (NodeMetric F)) (d : Dict F)
      → All (λ x. weight_of (foldl (uniform_step w) d ms) x.node_id ≡ w) ms
  uniform-include w [] d = tt
  uniform-include w (m ∷ ms) d =
      let here : lookup m.node_id (insert m.node_id w d) ≡ some w =
        rw (lookup-insert m.node_id m.node_id w d, (eq_iff m.node_id m.node_id).1 refl) in
      (
        ap or_nought (uniform-keeps w ms (insert m.node_id w d) m here),
        uniform-include w ms (insert m.node_id w d),
      )

  uniform-IsNonneg :
      (w : F) (ms : List (NodeMetric F)) (d : Dict F)
      → nought ≼ w
      → IsNonneg d
      → IsNonneg (foldl (uniform_step w) d ms)
  uniform-IsNonneg w [] d p h = h
  uniform-IsNonneg w (m ∷ ms) d p h =
      uniform-IsNonneg w ms (insert m.node_id w d) p
        (insert-Holds (λ _ v. nought ≼ v) m.node_id w d p h)

  pub sum_over-congr :
      (f g : String → F) (ms : List (NodeMetric F))
      → All (λ m. f m.node_id ≡ g m.node_id) ms
      → sum_over ms f ≡ sum_over ms g
  sum_over-congr f g [] h = refl
  sum_over-congr f g (m ∷ ms) h = cc (h.0, sum_over-congr f g ms h.1)

module _ {F : Type 0} ⦃fl : Float F⦄ (laws : IsExact F) where
  open laws use {
    add_comm, add_assoc, add-nought, lt_irrefl, of_nat-suc, nought-lt-one, le_antisymm, div-mul,
    mul_comm,
  }

  sum_over-const :
      (w : F) (ms : List (NodeMetric F)) → sum_over ms (λ _. w) ≡ fl.of_nat (length ms) ⊗ w
  sum_over-const w [] = sym (nought-mul laws w)
  sum_over-const w (m ∷ ms) = rw (of_nat-suc (length ms)) (
      ap (λ t. w ⊕ t) (sum_over-const w ms)
      ∙ add_comm w (fl.of_nat (length ms) ⊗ w)
      ∙ sym (
          add-mul laws (fl.of_nat (length ms)) one w
          ∙ ap (λ t. fl.of_nat (length ms) ⊗ w ⊕ t) (one-mul laws w)))

  sum_over-div :
      (c : F) (f : String → F) (ms : List (NodeMetric F))
      → nought ≺ c
      → sum_over ms (λ k. f k ⊘ c) ≡ sum_over ms f ⊘ c
  sum_over-div c f [] h = sym (nought-div laws c h)
  sum_over-div c f (m ∷ ms) h =
      ap (λ t. f m.node_id ⊘ c ⊕ t) (sum_over-div c f ms h)
      ∙ sym (add-div laws (f m.node_id) (sum_over ms f) c h)

  weight_of-div :
      (c : F) (d : Dict F) (k : String)
      → nought ≺ c
      → weight_of (map_entries (λ _ w. w ⊘ c) d) k ≡ weight_of d k ⊘ c
  weight_of-div c d k h =
      let over : Option F → Option F = λ o. elim o [ none ↦ none | some v ↦ some (v ⊘ c) ] in
      let entry : lookup k (map_entries (λ _ w. w ⊘ c) d) ≡ over (lookup k d) =
        lookup-map_entries (λ _ w. w ⊘ c) k d in
      elim (Option-cases (lookup k d)) [
        | inl e ↦
            ap or_nought (entry ∙ ap over e)
            ∙ sym (nought-div laws c h)
            ∙ ap (λ o. or_nought o ⊘ c) (sym e)
        | inr (v, e) ↦ ap or_nought (entry ∙ ap over e) ∙ ap (λ o. or_nought o ⊘ c) (sym e)
      ]

  pub div-IsNonneg :
      (c : F) (d : Dict F) → nought ≺ c → IsNonneg d → IsNonneg (map_entries (λ _ w. w ⊘ c) d)
  div-IsNonneg c [] h p = tt
  div-IsNonneg c ((k, v) ∷ d) h p = (div_nonneg laws v c p.0 h, div-IsNonneg c d h p.1)

  share_nonneg : (current : Dict F) (k : String) → nought ≼ share laws current k
  share_nonneg current k = elim (Bool-cases (lt nought (weight_of current k))) [
    | inl e ↦ rw e (le_of_lt laws nought (weight_of current k) e)
    | inr e ↦ rw e (lt_irrefl nought)
  ]

  sum_over_nonneg :
      (f : String → F) (ms : List (NodeMetric F))
      → ((k : String) → nought ≼ f k)
      → nought ≼ sum_over ms f
  sum_over_nonneg f [] h = lt_irrefl nought
  sum_over_nonneg f (m ∷ ms) h =
      add_nonneg laws (f m.node_id) (sum_over ms f) (h m.node_id) (sum_over_nonneg f ms h)

  uniform_sum :
      (ms : List (NodeMetric F)) (d : Dict F)
      → 0 < length ms
      → sum_over ms (weight_of (foldl (uniform_step (one ⊘ fl.of_nat (length ms))) d ms)) ≡ one
  uniform_sum ms d h =
      let n = fl.of_nat (length ms) in
      sum_over-congr (weight_of (foldl (uniform_step (one ⊘ n)) d ms)) (λ _. one ⊘ n) ms
        (uniform-include (one ⊘ n) ms d)
      ∙ sum_over-const (one ⊘ n) ms
      ∙ mul_comm n (one ⊘ n)
      ∙ div-mul one n (of_nat_pos laws (length ms) h)

  -- Both branches of `normalizedCurrent` give the candidates weights that add up to 1.
  pub normalized_current-sum :
      (current : Dict F) (ms : List (NodeMetric F))
      → 0 < length ms
      → (sum_over ms (weight_of (normalized_current current ms)) ≡ one)
        × IsNonneg (normalized_current current ms)
  unfolding normalized_current
  normalized_current-sum current ms h =
      let d = (steps laws current ms ([], nought)).0 in
      let s = (steps laws current ms ([], nought)).1 in
      let r : IsRestriction current d = steps-IsRestriction laws current ms [] nought tt in
      let s_eq : s ≡ sum_over ms (share laws current) =
        steps_sum laws current ms [] nought ∙ nought-add laws (sum_over ms (share laws current)) in
      let same : sum_over ms (weight_of d) ≡ s =
        sum_over-congr (weight_of d) (share laws current) ms
          (each d r ms (steps-include laws current ms [] nought))
        ∙ sym s_eq in
      let s_nonneg : nought ≼ s =
        subst (λ t. nought ≼ t) (sym s_eq)
          (sum_over_nonneg (share laws current) ms (share_nonneg current)) in
      elim (Bool-cases (lt nought s)) [
        | inr e ↦
            rw (e, s_nonneg)
              (
                uniform_sum ms d h,
                uniform-IsNonneg (one ⊘ fl.of_nat (length ms)) ms d
                    (div_nonneg laws one (fl.of_nat (length ms))
                      (le_of_lt laws nought one nought-lt-one) (of_nat_pos laws (length ms) h))
                    (weaken d r),
              )
        | inl e ↦ rw e (
          sum_over-congr (weight_of (map_entries (λ _ w. w ⊘ s) d)) (λ k. weight_of d k ⊘ s) ms
                (each_div s d ms e)
              ∙ sum_over-div s (weight_of d) ms e
              ∙ ap (λ t. t ⊘ s) same
              ∙ div_self laws s e,
          div-IsNonneg s d e (weaken d r),
        )
      ]
    where
      each :
          (d : Dict F)
          → IsRestriction current d
          → (xs : List (NodeMetric F))
          → All
              (λ m.
                nought ≺ weight_of current m.node_id
                → lookup m.node_id d ≡ some (weight_of current m.node_id))
              xs
          → All (λ m. weight_of d m.node_id ≡ share laws current m.node_id) xs
      each d r [] k = tt
      each d r (m ∷ xs) k = (weight_of-steps laws current d m r k.0, each d r xs k.1)

      each_div :
          (s : F) (d : Dict F) (xs : List (NodeMetric F))
          → nought ≺ s
          → All
              (λ m. weight_of (map_entries (λ _ w. w ⊘ s) d) m.node_id ≡ weight_of d m.node_id ⊘ s)
              xs
      each_div s d [] e = tt
      each_div s d (m ∷ xs) e = (weight_of-div s d m.node_id e, each_div s d xs e)

      weaken : (d : Dict F) → IsRestriction current d → IsNonneg d
      weaken [] r = tt
      weaken ((k, v) ∷ d) r = (le_of_lt laws nought v r.0.1, weaken d r.1)
