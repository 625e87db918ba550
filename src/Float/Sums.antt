-- ===== src/Float/Sums.antt =====
-- Sums of exact numbers, division by a positive number, and positive literals.
use stream_pulse.Common.{ℕ, zero, suc, ◌<◌, ◌≡◌, sym, ap, subst, subst₂, ◌∙◌, String, [], ◌∷◌, ◌++◌}
use stream_pulse.Common.Dict.{Dict, Holds, map_entries}
use stream_pulse.Float.{Float, IsExact, ◌⊕◌, ◌⊖◌, ◌⊗◌, ◌⊘◌, nought, one, lit, abs, ◌≺◌, ◌≼◌}
use stream_pulse.Float.Laws.{
  nought-add, sub_self, add_interchange, mul-nought, add-mul, one-mul, eq_sub, lerp,
}
use stream_pulse.Float.Order.{
  le_of_lt, lt_of_lt_of_le, add-le-add, add_nonneg, add-le-add_right, le_of_mul-le-mul_right,
  div_pos, div_nonneg, mul_nonneg, sub_nonneg,
}
use stream_pulse.Float.Bounds.{abs-mul_le}

module _ {F : Type 0} ⦃fl : Float F⦄ where
  -- The values of a map, added up.
  abbrev pub total : Dict F → F
  total [] = nought
  total ((_, v) ∷ d) = v ⊕ total d

module _ {F : Type 0} ⦃fl : Float F⦄ (laws : IsExact F) where
  open laws use {
    add_comm, add_assoc, add-nought, sub-add, mul_comm, mul-add, mul-one, div-mul, of_nat-suc,
    lt_irrefl, le_antisymm, add-lt-add, nought-lt-one,
  }

  pub of_nat_nonneg : (n : ℕ) → nought ≼ fl.of_nat n
  of_nat_nonneg zero = lt_irrefl nought
  of_nat_nonneg (suc n) =
      rw (of_nat-suc n) (
        add_nonneg laws (fl.of_nat n) one (of_nat_nonneg n)
          (le_of_lt laws nought one nought-lt-one))

  pub of_nat_pos : (n : ℕ) → 0 < n → nought ≺ fl.of_nat n
  of_nat_pos zero h = elim h [ ]
  of_nat_pos (suc n) h = lt_of_lt_of_le laws nought one (fl.of_nat (suc n)) nought-lt-one (
      rw (of_nat-suc n) (
        subst (λ t. t ≼ fl.of_nat n ⊕ one) (nought-add laws one)
          (add-le-add_right laws nought (fl.of_nat n) one (of_nat_nonneg n))))

  pub lit_pos : (n d : ℕ) → 0 < n → 0 < d → fl.of_nat 0 ≺ lit n d
  lit_pos n d h k = div_pos laws (fl.of_nat n) (fl.of_nat d) (of_nat_pos n h) (of_nat_pos d k)

  pub lit_nonneg : (n d : ℕ) → 0 < d → fl.of_nat 0 ≼ lit n d
  lit_nonneg n d k = div_nonneg laws (fl.of_nat n) (fl.of_nat d) (of_nat_nonneg n) (of_nat_pos d k)

  pub add_pos : (a b : F) → nought ≺ a → nought ≼ b → nought ≺ a ⊕ b
  add_pos a b h k =
      lt_of_lt_of_le laws nought a (a ⊕ b) h
        (subst (λ t. t ≼ a ⊕ b) (add-nought a) (add-le-add laws a a nought b (lt_irrefl a) k))

  pub eq_div : (a b c : F) → nought ≺ b → c ⊗ b ≡ a → c ≡ a ⊘ b
  eq_div a b c h e =
      let same : c ⊗ b ≡ a ⊘ b ⊗ b = e ∙ sym (div-mul a b h) in
      le_antisymm c (a ⊘ b)
        (le_of_mul-le-mul_right laws b c (a ⊘ b) h
          (subst (λ t. c ⊗ b ≼ t) same (lt_irrefl (c ⊗ b))))
        (le_of_mul-le-mul_right laws b (a ⊘ b) c h
          (subst (λ t. t ≼ c ⊗ b) same (lt_irrefl (c ⊗ b))))

  pub div_self : (a : F) → nought ≺ a → a ⊘ a ≡ one
  div_self a h = sym (eq_div a a one h (one-mul laws a))

  pub add-div : (a b c : F) → nought ≺ c → (a ⊕ b) ⊘ c ≡ a ⊘ c ⊕ b ⊘ c
  add-div a b c h = sym (
      eq_div (a ⊕ b) c (a ⊘ c ⊕ b ⊘ c) h
        (add-mul laws (a ⊘ c) (b ⊘ c) c ∙ cc (div-mul a c h, div-mul b c h)))

  pub nought-div : (c : F) → nought ≺ c → nought ⊘ c ≡ nought
  nought-div c h = sym (eq_div nought c nought h (mul_comm nought c ∙ mul-nought laws c))

  pub sub-add-sub : (a b c d : F) → (a ⊖ b) ⊕ (c ⊖ d) ≡ (a ⊕ c) ⊖ (b ⊕ d)
  sub-add-sub a b c d =
      eq_sub laws (a ⊕ c) (b ⊕ d) ((a ⊖ b) ⊕ (c ⊖ d))
        (add_interchange laws (a ⊖ b) (c ⊖ d) b d ∙ cc (sub-add a b, sub-add c d))

  pub total-append : (d e : Dict F) → total (d ++ e) ≡ total d ⊕ total e
  total-append [] e = sym (nought-add laws (total e))
  total-append ((k, v) ∷ d) e =
      ap (λ t. v ⊕ t) (total-append d e) ∙ sym (add_assoc v (total d) (total e))

  pub total-div :
      (c : F) (d : Dict F) → nought ≺ c → total (map_entries (λ _ v. v ⊘ c) d) ≡ total d ⊘ c
  total-div c [] h = sym (nought-div c h)
  total-div c ((k, v) ∷ d) h = ap (λ t. v ⊘ c ⊕ t) (total-div c d h) ∙ sym (add-div v (total d) c h)

  pub total_nonneg : (d : Dict F) → Holds (λ _ v. nought ≼ v) d → nought ≼ total d
  total_nonneg [] h = lt_irrefl nought
  total_nonneg ((k, v) ∷ d) h = add_nonneg laws v (total d) h.0 (total_nonneg d h.1)

  -- Moving each entry by a fraction of the way moves the total by that fraction.
  pub total-lerp :
      (t : F) (from : String → F) (d : Dict F)
      → let before = total (map_entries (λ k _. from k) d) in
        total (map_entries (λ k v. from k ⊕ t ⊗ (v ⊖ from k)) d) ≡ before ⊕ t ⊗ (total d ⊖ before)
  total-lerp t from [] = sym (
      ap (λ s. nought ⊕ t ⊗ s) (sub_self laws nought)
      ∙ ap (λ s. nought ⊕ s) (mul-nought laws t)
      ∙ add-nought nought)
  total-lerp t from ((k, v) ∷ d) =
      let c = from k in
      let before = total (map_entries (λ k _. from k) d) in
      ap (λ s. c ⊕ t ⊗ (v ⊖ c) ⊕ s) (total-lerp t from d)
      ∙ add_interchange laws c (t ⊗ (v ⊖ c)) before (t ⊗ (total d ⊖ before))
      ∙ ap (λ s. (c ⊕ before) ⊕ s)
          (sym (mul-add t (v ⊖ c) (total d ⊖ before))
            ∙ ap (λ s. t ⊗ s) (sub-add-sub v c (total d) before))

  -- A move by a part of a difference is no longer than that part of its size.
  pub abs-lerp_sub : (c t v : F) → nought ≼ t → abs (c ⊕ t ⊗ (v ⊖ c) ⊖ c) ≼ t ⊗ abs (v ⊖ c)
  abs-lerp_sub c t v h =
      let part : c ⊕ t ⊗ (v ⊖ c) ⊖ c ≡ t ⊗ (v ⊖ c) =
        sym (eq_sub laws (c ⊕ t ⊗ (v ⊖ c)) c (t ⊗ (v ⊖ c)) (add_comm (t ⊗ (v ⊖ c)) c)) in
      rw part (abs-mul_le laws t (v ⊖ c) h)

  pub lerp_nonneg :
      (c t v : F) → nought ≼ t → t ≼ one → nought ≼ c → nought ≼ v → nought ≼ c ⊕ t ⊗ (v ⊖ c)
  lerp_nonneg c t v h k p q = rw (lerp laws c v t) (
      add_nonneg laws ((one ⊖ t) ⊗ c) (t ⊗ v)
        (mul_nonneg laws (one ⊖ t) c (sub_nonneg laws t one k) p) (mul_nonneg laws t v h q))

  pub sub-le-sub : (a b c : F) → a ≼ b → a ⊖ c ≼ b ⊖ c
  sub-le-sub a b c h =
      subst₂ (λ s t. s ≼ t) (add_neg a) (add_neg b) (add-le-add_right laws a b (nought ⊖ c) h)
    where
      add_neg : (x : F) → x ⊕ (nought ⊖ c) ≡ x ⊖ c
      add_neg x =
          eq_sub laws x c (x ⊕ (nought ⊖ c))
            (add_assoc x (nought ⊖ c) c ∙ ap (λ t. x ⊕ t) (sub-add nought c) ∙ add-nought x)
