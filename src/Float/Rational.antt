-- ===== src/Float/Rational.antt =====
-- The rational numbers, as fractions up to cross-multiplication: exact arithmetic exists, and runs.
use mathlib.Core.Quot
use mathlib.Core.Quot.{Quot, Quot-set}
use mathlib.Core.HLevel.{Π_prop}
use stream_pulse.Common.{Bool, ◌≡◌, refl, arith}
use stream_pulse.Float.{Float, IsExact}
use stream_pulse.Float.Fraction.{Fraction, ◌∼◌, sum, negate, product, whole, inverse, less}
use stream_pulse.Float.Fraction

abbrev pub ℚ : Type 0
ℚ = Quot ◌∼◌

pub Bool_set : IsSet Bool
Bool_set = hlevel

pub sum_congr_right : (x y y' : Fraction) → y ∼ y' → sum x y ∼ sum x y'
sum_congr_right x y y' q = Fraction.∼_trans (sum x y) (sum y x) (sum x y') (Fraction.sum_comm x y) (
    Fraction.∼_trans (sum y x) (sum y' x) (sum x y') (Fraction.sum_congr_left y y' x q)
      (Fraction.sum_comm y' x))

pub product_congr_right : (x y y' : Fraction) → y ∼ y' → product x y ∼ product x y'
product_congr_right x y y' q =
    Fraction.∼_trans (product x y) (product y x) (product x y') (Fraction.product_comm x y) (
      Fraction.∼_trans (product y x) (product y' x) (product x y')
        (Fraction.product_congr_left y y' x q) (Fraction.product_comm y' x))

-- A binary operation that respects the equivalence in each argument.
module _ (f : Fraction → Fraction → Fraction) (left : (x x' y : Fraction) → x ∼ x' → f x y ∼ f x' y)
    (right : (x y y' : Fraction) → y ∼ y' → f x y ∼ f x y') where
  abbrev row : Fraction → ℚ → ℚ
  row x = Quot.lift Quot-set (λ y. Quot.mk (f x y)) (λ y y' q. Quot.sound (right x y y' q))

  pub row_congr : (x x' : Fraction) → x ∼ x' → (b : ℚ) → row x b ≡ row x' b
  row_congr x x' p = Quot.ind (λ b. Quot-set _ _) (λ y. Quot.sound (left x x' y p))

  abbrev lift₂ : ℚ → ℚ → ℚ
  lift₂ a b = Quot.lift Quot-set (λ x. row x b) (λ x x' p. row_congr x x' p b) a

abbrev less_row : Fraction → ℚ → Bool
less_row x =
    Quot.lift Bool_set (less x) (λ y y' q. Fraction.less_congr x y x y' (Fraction.∼_refl x) q)

pub less_row_congr : (x x' : Fraction) → x ∼ x' → (b : ℚ) → less_row x b ≡ less_row x' b
less_row_congr x x' p =
    Quot.ind (λ b. Bool_set _ _) (λ y. Fraction.less_congr x y x' y p (Fraction.∼_refl y))

abbrev less_ℚ : ℚ → ℚ → Bool
less_ℚ a b = Quot.lift Bool_set (λ x. less_row x b) (λ x x' p. less_row_congr x x' p b) a

abbrev quotient : Fraction → Fraction → Fraction
quotient x y = product x (inverse y)

pub quotient_congr_right : (x y y' : Fraction) → y ∼ y' → quotient x y ∼ quotient x y'
quotient_congr_right x y y' q =
    product_congr_right x (inverse y) (inverse y') (Fraction.inverse_congr y y' q)

abbrev difference : Fraction → Fraction → Fraction
difference x y = sum x (negate y)

pub difference_congr_right : (x y y' : Fraction) → y ∼ y' → difference x y ∼ difference x y'
difference_congr_right x y y' q =
    sum_congr_right x (negate y) (negate y') (Fraction.negate_congr y y' q)

instance abbrev pub rational_float : Float ℚ
rational_float = record {
  add = lift₂ sum Fraction.sum_congr_left sum_congr_right;
  sub = lift₂ difference (λ x x' y. Fraction.sum_congr_left x x' (negate y)) difference_congr_right;
  mul = lift₂ product Fraction.product_congr_left product_congr_right;
  div =
      lift₂ quotient (λ x x' y. Fraction.product_congr_left x x' (inverse y)) quotient_congr_right;
  lt = less_ℚ;
  of_nat = λ n. Quot.mk (whole n);
}

module _ {P : ℚ → ℚ → Type 0} (prop : (a b : ℚ) → IsProp (P a b)) where
  ind₂ : ((x y : Fraction) → P (Quot.mk x) (Quot.mk y)) → (a b : ℚ) → P a b
  ind₂ h a b = Quot.ind (λ a. prop a b) (λ x. Quot.ind (λ b. prop (Quot.mk x) b) (λ y. h x y) b) a

module _ {P : ℚ → ℚ → ℚ → Type 0} (prop : (a b c : ℚ) → IsProp (P a b c)) where
  ind₃ : ((x y z : Fraction) → P (Quot.mk x) (Quot.mk y) (Quot.mk z)) → (a b c : ℚ) → P a b c
  ind₃ h a b c =
      Quot.ind (λ a. prop a b c)
        (λ x.
          Quot.ind (λ b. prop (Quot.mk x) b c)
            (λ y. Quot.ind (λ c. prop (Quot.mk x) (Quot.mk y) c) (λ z. h x y z) c) b)
        a

pub Rational-IsExact : IsExact ℚ
Rational-IsExact = record {
  add_comm = ind₂ (λ a b. Quot-set _ _) (λ x y. Quot.sound (Fraction.sum_comm x y));
  add_assoc = ind₃ (λ a b c. Quot-set _ _) (λ x y z. Quot.sound (Fraction.sum_assoc x y z));
  add-nought = Quot.ind (λ a. Quot-set _ _) (λ x. Quot.sound (Fraction.sum-whole x));
  sub-add = ind₂ (λ a b. Quot-set _ _) (λ x y. Quot.sound (Fraction.sum-negate x y));
  mul_comm = ind₂ (λ a b. Quot-set _ _) (λ x y. Quot.sound (Fraction.product_comm x y));
  mul_assoc = ind₃ (λ a b c. Quot-set _ _) (λ x y z. Quot.sound (Fraction.product_assoc x y z));
  mul-one = Quot.ind (λ a. Quot-set _ _) (λ x. Quot.sound (Fraction.product-whole x));
  mul-add = ind₃ (λ a b c. Quot-set _ _) (λ x y z. Quot.sound (Fraction.product-sum x y z));
  div-mul =
      ind₂ (λ a b. Π_prop λ _. Quot-set _ _) (λ x y h. Quot.sound (Fraction.product-inverse x y h));
  of_nat-suc = λ n. Quot.sound (omega arith);
  lt_irrefl = Quot.ind (λ a. Bool_set _ _) Fraction.less_irrefl;
  lt_trans = ind₃ (λ a b c. Π_prop λ _. Π_prop λ _. Bool_set _ _) Fraction.less_trans;
  le_antisymm =
      ind₂ (λ a b. Π_prop λ _. Π_prop λ _. Quot-set _ _)
        (λ x y h k. Quot.sound (Fraction.∼_of_not_less x y h k));
  add-lt-add = ind₃ (λ a b c. Π_prop λ _. Bool_set _ _) Fraction.sum-less;
  mul-pos = ind₂ (λ a b. Π_prop λ _. Π_prop λ _. Bool_set _ _) Fraction.product_pos;
  nought-lt-one = refl;
}
