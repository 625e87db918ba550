-- ===== src/Float.antt =====
-- The language's `float64`, as the services use it: an abstract type of finite numbers with the
-- operations of the source, and the exact arithmetic that the theorems on numbers assume.
-- Rounding errors, overflow and NaN are outside the model. `math.Inf` is a value of `Extended`, so
-- the types show where an infinity can arise.
pub mod Laws
pub mod Order
pub mod Bounds
pub mod Sums
pub mod Fraction
pub mod Rational
use stream_pulse.Common.{
  ℕ, zero, suc, Bool, true, false, not, ◌≡◌, ◌≢◌, ◌⊎◌, List, [], ◌∷◌, if◌then◌else◌,
}

pub record Float (F : Type 0) : Type 0 where
  pub add : F → F → F
  pub sub : F → F → F
  pub mul : F → F → F
  pub div : F → F → F
  pub lt : F → F → Bool
  -- `float64(n)` of an unsigned integer
  pub of_nat : ℕ → F

module _ {F : Type 0} ⦃fl : Float F⦄ where
  infixl 65 ◌⊕◌ ◌⊖◌
  infixl 70 ◌⊗◌ ◌⊘◌
  abbrev pub ◌⊕◌ : F → F → F
  ◌⊕◌ = fl.add

  abbrev pub ◌⊖◌ : F → F → F
  ◌⊖◌ = fl.sub

  abbrev pub ◌⊗◌ : F → F → F
  ◌⊗◌ = fl.mul

  abbrev pub ◌⊘◌ : F → F → F
  ◌⊘◌ = fl.div

  -- `a < b`; `a > b` is `lt b a`
  abbrev pub lt : F → F → Bool
  lt = fl.lt

  -- `a <= b`; `a >= b` is `le b a`
  abbrev pub le : F → F → Bool
  le a b = not (fl.lt b a)

  abbrev pub nought : F
  nought = fl.of_nat 0

  abbrev pub one : F
  one = fl.of_nat 1

  -- a decimal literal, `lit 35 100` for 0.35
  abbrev pub lit : ℕ → ℕ → F
  lit n d = fl.of_nat n ⊘ fl.of_nat d

  -- `math.Abs`, `math.Max`, `math.Min`
  abbrev pub abs : F → F
  abs a = if lt a nought then nought ⊖ a else a

  abbrev pub max : F → F → F
  max a b = if lt a b then b else a

  abbrev pub min : F → F → F
  min a b = if lt b a then b else a

  infix 4 ◌≼◌ ◌≺◌
  abbrev pub ◌≼◌ : F → F → Type 0
  a ≼ b = lt b a ≡ false

  abbrev pub ◌≺◌ : F → F → Type 0
  a ≺ b = lt a b ≡ true

-- A number, or an infinity.
pub data Extended (F : Type 0) : Type 0 where
  neg_inf : Extended F
  finite : F → Extended F
  pos_inf : Extended F

-- Exact arithmetic: an ordered field. Division is determined where the divisor is positive.
pub record IsExact (F : Type 0) ⦃fl : Float F⦄ : Type 0 where
  pub add_comm : (a b : F) → a ⊕ b ≡ b ⊕ a
  pub add_assoc : (a b c : F) → a ⊕ b ⊕ c ≡ a ⊕ (b ⊕ c)
  pub add-nought : (a : F) → a ⊕ nought ≡ a
  pub sub-add : (a b : F) → a ⊖ b ⊕ b ≡ a
  pub mul_comm : (a b : F) → a ⊗ b ≡ b ⊗ a
  pub mul_assoc : (a b c : F) → a ⊗ b ⊗ c ≡ a ⊗ (b ⊗ c)
  pub mul-one : (a : F) → a ⊗ one ≡ a
  pub mul-add : (a b c : F) → a ⊗ (b ⊕ c) ≡ a ⊗ b ⊕ a ⊗ c
  pub div-mul : (a b : F) → nought ≺ b → a ⊘ b ⊗ b ≡ a
  pub of_nat-suc : (n : ℕ) → fl.of_nat (suc n) ≡ fl.of_nat n ⊕ one
  pub lt_irrefl : (a : F) → a ≼ a
  pub lt_trans : (a b c : F) → a ≺ b → b ≺ c → a ≺ c
  pub le_antisymm : (a b : F) → a ≼ b → b ≼ a → a ≡ b
  pub add-lt-add : (a b c : F) → a ≺ b → a ⊕ c ≺ b ⊕ c
  pub mul-pos : (a b : F) → nought ≺ a → nought ≺ b → nought ≺ a ⊗ b
  pub nought-lt-one : fl.of_nat 0 ≺ fl.of_nat 1
