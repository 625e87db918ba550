-- ===== src/Float/Order.antt =====
-- The order of exact arithmetic, and how it goes with the operations.
use stream_pulse.Common.{◌≡◌, sym, subst, ◌⊎◌, inl, inr, Bool-cases}
use stream_pulse.Float.{Float, IsExact, ◌⊕◌, ◌⊖◌, ◌⊗◌, ◌⊘◌, nought, lt, ◌≺◌, ◌≼◌}
use stream_pulse.Float.Laws.{nought-add, sub_self, mul-nought, mul-sub, nought-mul}

module _ {F : Type 0} ⦃fl : Float F⦄ (laws : IsExact F) where
  open laws use {
    add_comm, add-nought, sub-add, mul_comm, div-mul, lt_irrefl, lt_trans, le_antisymm, add-lt-add,
    mul-pos, nought-lt-one,
  }

  pub le_of_lt : (a b : F) → a ≺ b → a ≼ b
  le_of_lt a b h = elim (Bool-cases (lt b a)) [
    | inl k ↦ cc (lt_trans a b a h k, lt_irrefl a)
    | inr k ↦ k
  ]

  pub le_cases : (a b : F) → a ≼ b → (a ≺ b) ⊎ (a ≡ b)
  le_cases a b h = elim (Bool-cases (lt a b)) [ inl k ↦ inl k | inr k ↦ inr (le_antisymm a b h k) ]

  pub lt_of_lt_of_le : (a b c : F) → a ≺ b → b ≼ c → a ≺ c
  lt_of_lt_of_le a b c h k = elim (le_cases b c k) [
    | inl l ↦ lt_trans a b c h l
    | inr e ↦ subst (λ t. a ≺ t) e h
  ]

  pub le_trans : (a b c : F) → a ≼ b → b ≼ c → a ≼ c
  le_trans a b c h k = elim (le_cases a b h) [
    | inl l ↦ le_of_lt a c (lt_of_lt_of_le a b c l k)
    | inr e ↦ subst (λ t. t ≼ c) (sym e) k
  ]

  pub lt_of_le_of_lt : (a b c : F) → a ≼ b → b ≺ c → a ≺ c
  lt_of_le_of_lt a b c h k = elim (le_cases a b h) [
    | inl l ↦ lt_trans a b c l k
    | inr e ↦ subst (λ t. t ≺ c) (sym e) k
  ]

  pub add-le-add_right : (a b c : F) → a ≼ b → a ⊕ c ≼ b ⊕ c
  add-le-add_right a b c h = elim (le_cases a b h) [
    | inl l ↦ le_of_lt _ _ (add-lt-add a b c l)
    | inr e ↦ subst (λ t. a ⊕ c ≼ t ⊕ c) e (lt_irrefl (a ⊕ c))
  ]

  pub add-le-add : (a b c d : F) → a ≼ b → c ≼ d → a ⊕ c ≼ b ⊕ d
  add-le-add a b c d h k =
      le_trans (a ⊕ c) (b ⊕ c) (b ⊕ d) (add-le-add_right a b c h)
        (rw (add_comm b c, add_comm b d) (add-le-add_right c d b k))

  pub add_nonneg : (a b : F) → nought ≼ a → nought ≼ b → nought ≼ a ⊕ b
  add_nonneg a b h k = subst (λ t. t ≼ a ⊕ b) (add-nought nought) (add-le-add nought a nought b h k)

  pub sub_nonneg : (a b : F) → a ≼ b → nought ≼ b ⊖ a
  sub_nonneg a b h = elim (Bool-cases (lt (b ⊖ a) nought)) [
    | inl k ↦ cc (
      subst (λ t. t ≺ nought ⊕ a) (sub-add b a) (add-lt-add (b ⊖ a) nought a k),
      nought-add laws a,
      h,
    )
    | inr k ↦ k
  ]

  pub le_of_sub_nonneg : (a b : F) → nought ≼ b ⊖ a → a ≼ b
  le_of_sub_nonneg a b h =
      subst (λ t. t ≼ b) (nought-add laws a)
        (subst (λ t. nought ⊕ a ≼ t) (sub-add b a) (add-le-add_right nought (b ⊖ a) a h))

  pub mul_nonneg : (a b : F) → nought ≼ a → nought ≼ b → nought ≼ a ⊗ b
  mul_nonneg a b h k = elim (le_cases nought a h) [
    | inr e ↦ subst (λ t. nought ≼ t ⊗ b) e (rw (nought-mul laws b) (lt_irrefl nought))
    | inl l ↦ elim (le_cases nought b k) [
      | inl m ↦ le_of_lt _ _ (mul-pos a b l m)
      | inr e ↦ subst (λ t. nought ≼ a ⊗ t) e (rw (mul-nought laws a) (lt_irrefl nought))
    ]
  ]

  pub mul-le-mul_left : (c a b : F) → nought ≼ c → a ≼ b → c ⊗ a ≼ c ⊗ b
  mul-le-mul_left c a b h k =
      le_of_sub_nonneg (c ⊗ a) (c ⊗ b)
        (subst (λ t. nought ≼ t) (mul-sub laws c b a) (mul_nonneg c (b ⊖ a) h (sub_nonneg a b k)))

  pub mul-le-mul_right : (c a b : F) → nought ≼ c → a ≼ b → a ⊗ c ≼ b ⊗ c
  mul-le-mul_right c a b h k = rw (mul_comm a c, mul_comm b c) (mul-le-mul_left c a b h k)

  sub_pos : (a b : F) → a ≺ b → nought ≺ b ⊖ a
  sub_pos a b h = elim (Bool-cases (lt nought (b ⊖ a))) [
    | inl k ↦ k
    | inr k ↦ cc (
      subst (λ t. t ≼ nought ⊕ a) (sub-add b a) (add-le-add_right (b ⊖ a) nought a k),
      nought-add laws a,
      h,
    )
  ]

  mul-lt-mul_right : (c a b : F) → nought ≺ c → a ≺ b → a ⊗ c ≺ b ⊗ c
  mul-lt-mul_right c a b h k = elim (Bool-cases (lt (a ⊗ c) (b ⊗ c))) [
    | inl l ↦ l
    | inr l ↦
        let same : a ⊗ c ≡ b ⊗ c =
          le_antisymm _ _ (mul-le-mul_right c a b (le_of_lt _ _ h) (le_of_lt a b k)) l in
        cc (
          mul-pos (b ⊖ a) c (sub_pos a b k) h,
          mul_comm (b ⊖ a) c,
          mul-sub laws c b a,
          mul_comm c a,
          mul_comm c b,
          same,
          sub_self laws (b ⊗ c),
          lt_irrefl nought,
        )
  ]

  pub le_of_mul-le-mul_right : (c a b : F) → nought ≺ c → a ⊗ c ≼ b ⊗ c → a ≼ b
  le_of_mul-le-mul_right c a b h k = elim (Bool-cases (lt b a)) [
    | inl l ↦ cc (mul-lt-mul_right c b a h l, k)
    | inr l ↦ l
  ]

  pub div-le : (a b c : F) → nought ≺ b → a ≼ c ⊗ b → a ⊘ b ≼ c
  div-le a b c h k =
      le_of_mul-le-mul_right b (a ⊘ b) c h (subst (λ t. t ≼ c ⊗ b) (sym (div-mul a b h)) k)

  pub le-div : (a b c : F) → nought ≺ b → c ⊗ b ≼ a → c ≼ a ⊘ b
  le-div a b c h k =
      le_of_mul-le-mul_right b c (a ⊘ b) h (subst (λ t. c ⊗ b ≼ t) (sym (div-mul a b h)) k)

  pub div_nonneg : (a b : F) → nought ≼ a → nought ≺ b → nought ≼ a ⊘ b
  div_nonneg a b h k = le-div a b nought k (subst (λ t. t ≼ a) (sym (nought-mul laws b)) h)

  pub div_pos : (a b : F) → nought ≺ a → nought ≺ b → nought ≺ a ⊘ b
  div_pos a b h k = elim (Bool-cases (lt nought (a ⊘ b))) [
    | inl l ↦ l
    | inr l ↦ cc (
      mul-le-mul_right b (a ⊘ b) nought (le_of_lt nought b k) l,
      nought-mul laws b,
      div-mul a b k,
      h,
    )
  ]
