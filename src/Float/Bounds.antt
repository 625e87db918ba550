-- ===== src/Float/Bounds.antt =====
-- `math.Max`, `math.Min` and `math.Abs` under the order of exact arithmetic.
use stream_pulse.Common.{◌≡◌, subst, inl, inr, arith, Bool-cases}
use stream_pulse.Float.{Float, IsExact, ◌⊖◌, ◌⊗◌, nought, lt, max, min, abs, ◌≼◌}
use stream_pulse.Float.Laws.{mul-nought, mul-sub, neg_neg}
use stream_pulse.Float.Order.{le_of_lt, le_trans, sub_nonneg, le_of_sub_nonneg, mul-le-mul_left}

module _ {F : Type 0} ⦃fl : Float F⦄ (laws : IsExact F) where
  open laws use {lt_irrefl, le_antisymm, add-nought, sub-add, add_comm}

  pub le-max_left : (a b : F) → a ≼ max a b
  le-max_left a b = ground (arith, lt_irrefl a, le_of_lt laws a b)

  pub le-max_right : (a b : F) → b ≼ max a b
  le-max_right a b = ground (arith, lt_irrefl b)

  pub max-le : (a b c : F) → a ≼ c → b ≼ c → max a b ≼ c
  max-le a b c h k = ground arith

  pub min-le_left : (a b : F) → min a b ≼ a
  min-le_left a b = ground (arith, lt_irrefl a, le_of_lt laws b a)

  pub min-le_right : (a b : F) → min a b ≼ b
  min-le_right a b = ground (arith, lt_irrefl b)

  pub le-min : (a b c : F) → c ≼ a → c ≼ b → c ≼ min a b
  le-min a b c h k = ground arith

  pub abs_le : (a b : F) → a ≼ b → nought ⊖ a ≼ b → abs a ≼ b
  abs_le a b h k = ground arith

  pub le-abs : (a : F) → a ≼ abs a
  le-abs a = elim (Bool-cases (lt a nought)) [
    | inl h ↦ rw h (
        le_trans laws a nought (nought ⊖ a) (le_of_lt laws a nought h)
          (sub_nonneg laws a nought (le_of_lt laws a nought h)))
    | inr h ↦ rw h (lt_irrefl a)
  ]

  pub neg-le-abs : (a : F) → nought ⊖ a ≼ abs a
  neg-le-abs a = elim (Bool-cases (lt a nought)) [
    | inl h ↦ rw h (lt_irrefl (nought ⊖ a))
    | inr h ↦ rw h (
        le_trans laws (nought ⊖ a) nought a
          (le_of_sub_nonneg laws (nought ⊖ a) nought (rw (neg_neg laws a) h)) h)
  ]

  pub abs_nonneg : (a : F) → nought ≼ abs a
  abs_nonneg a = elim (Bool-cases (lt a nought)) [
    | inl h ↦ rw h (sub_nonneg laws a nought (le_of_lt laws a nought h))
    | inr h ↦ rw h h
  ]

  pub abs-mul_le : (c a : F) → nought ≼ c → abs (c ⊗ a) ≼ c ⊗ abs a
  abs-mul_le c a h = abs_le (c ⊗ a) (c ⊗ abs a) (mul-le-mul_left laws c a (abs a) h (le-abs a)) (
      subst (λ t. t ⊖ c ⊗ a ≼ c ⊗ abs a) (mul-nought laws c)
        (subst (λ t. t ≼ c ⊗ abs a) (mul-sub laws c nought a)
          (mul-le-mul_left laws c (nought ⊖ a) (abs a) h (neg-le-abs a))))

  pub abs-of_nonneg : (a : F) → nought ≼ a → abs a ≡ a
  abs-of_nonneg a h = rw h
