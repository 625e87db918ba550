-- ===== src/Float/Laws.antt =====
-- Ring laws of exact arithmetic.
use stream_pulse.Common.{◌≡◌, sym, ap, ◌∙◌}
use stream_pulse.Float.{Float, IsExact, ◌⊕◌, ◌⊖◌, ◌⊗◌, nought, one}

module _ {F : Type 0} ⦃fl : Float F⦄ (laws : IsExact F) where
  open laws use {add_comm, add_assoc, add-nought, sub-add, mul_comm, mul_assoc, mul-one, mul-add}

  pub nought-add : (a : F) → nought ⊕ a ≡ a
  nought-add a = add_comm nought a ∙ add-nought a

  add_right_neg : (c : F) → c ⊕ (nought ⊖ c) ≡ nought
  add_right_neg c = add_comm c (nought ⊖ c) ∙ sub-add nought c

  pub add_sub : (a b : F) → a ⊕ b ⊕ (nought ⊖ b) ≡ a
  add_sub a b = rw (add_assoc, add_right_neg b) (add-nought a)

  pub add_right_cancel : (a b c : F) → a ⊕ c ≡ b ⊕ c → a ≡ b
  add_right_cancel a b c e = sym (add_sub a c) ∙ ap (λ t. t ⊕ (nought ⊖ c)) e ∙ add_sub b c

  pub eq_sub : (a b c : F) → c ⊕ b ≡ a → c ≡ a ⊖ b
  eq_sub a b c e = add_right_cancel c (a ⊖ b) b (e ∙ sym (sub-add a b))

  pub sub_self : (a : F) → a ⊖ a ≡ nought
  sub_self a = sym (eq_sub a a nought (nought-add a))

  pub add_interchange : (a b c d : F) → (a ⊕ b) ⊕ (c ⊕ d) ≡ (a ⊕ c) ⊕ (b ⊕ d)
  add_interchange a b c d =
      add_assoc a b (c ⊕ d)
      ∙ ap (λ t. a ⊕ t) (sym (add_assoc b c d) ∙ ap (λ t. t ⊕ d) (add_comm b c) ∙ add_assoc c b d)
      ∙ sym (add_assoc a c (b ⊕ d))

  pub mul-nought : (a : F) → a ⊗ nought ≡ nought
  mul-nought a = add_right_cancel (a ⊗ nought) nought (a ⊗ nought) (
      sym (mul-add a nought nought)
      ∙ ap (λ t. a ⊗ t) (add-nought nought)
      ∙ sym (nought-add (a ⊗ nought)))

  pub add-mul : (a b c : F) → (a ⊕ b) ⊗ c ≡ a ⊗ c ⊕ b ⊗ c
  add-mul a b c = mul_comm (a ⊕ b) c ∙ mul-add c a b ∙ cc (mul_comm c a, mul_comm c b)

  pub mul-sub : (a b c : F) → a ⊗ (b ⊖ c) ≡ a ⊗ b ⊖ a ⊗ c
  mul-sub a b c =
      eq_sub (a ⊗ b) (a ⊗ c) (a ⊗ (b ⊖ c))
        (sym (mul-add a (b ⊖ c) c) ∙ ap (λ t. a ⊗ t) (sub-add b c))

  pub nought-mul : (a : F) → nought ⊗ a ≡ nought
  nought-mul a = mul_comm nought a ∙ mul-nought a

  pub one-mul : (a : F) → one ⊗ a ≡ a
  one-mul a = mul_comm one a ∙ mul-one a

  -- What a point between `a` and `b` is made of.
  pub lerp : (a b t : F) → a ⊕ t ⊗ (b ⊖ a) ≡ (one ⊖ t) ⊗ a ⊕ t ⊗ b
  lerp a b t = add_right_cancel (a ⊕ t ⊗ (b ⊖ a)) ((one ⊖ t) ⊗ a ⊕ t ⊗ b) (t ⊗ a) (left ∙ sym right)
    where
      left : a ⊕ t ⊗ (b ⊖ a) ⊕ t ⊗ a ≡ a ⊕ t ⊗ b
      left =
          add_assoc a (t ⊗ (b ⊖ a)) (t ⊗ a)
          ∙ ap (λ s. a ⊕ s) (sym (mul-add t (b ⊖ a) a) ∙ ap (λ s. t ⊗ s) (sub-add b a))

      right : (one ⊖ t) ⊗ a ⊕ t ⊗ b ⊕ t ⊗ a ≡ a ⊕ t ⊗ b
      right =
          add_assoc ((one ⊖ t) ⊗ a) (t ⊗ b) (t ⊗ a)
          ∙ ap (λ s. (one ⊖ t) ⊗ a ⊕ s) (add_comm (t ⊗ b) (t ⊗ a))
          ∙ sym (add_assoc ((one ⊖ t) ⊗ a) (t ⊗ a) (t ⊗ b))
          ∙ ap (λ s. s ⊕ t ⊗ b)
              (sym (add-mul (one ⊖ t) t a) ∙ ap (λ s. s ⊗ a) (sub-add one t) ∙ one-mul a)

  pub neg_neg : (a : F) → nought ⊖ (nought ⊖ a) ≡ a
  neg_neg a = sym (eq_sub nought (nought ⊖ a) a (add_right_neg a))
