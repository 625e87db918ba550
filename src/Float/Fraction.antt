-- ===== src/Float/Fraction.antt =====
-- Fractions (pos - neg) / (suc den): the laws of exact arithmetic up to cross-multiplication.
use native.Mathlib.Nat.{eq_of_mul-eq-mul_right, lt_of_mul-lt-mul_left}
use stream_pulse.Common.{
  ℕ, suc, ◌+◌, ◌-◌, ◌*◌, ◌≡◌, ◌↔◌, ◌<◌, refl, sym, ap, subst, ◌∙◌, inl, inr, Bool-cases, Bool, true,
  false, arith, ltb, if◌then◌else◌,
}

pub record Fraction : Type 0 where
  pub plus : ℕ
  pub minus : ℕ
  pub den : ℕ

-- The denominator stays positive because `den` is one less.
abbrev pub below : Fraction → ℕ
below x = suc x.den

infix 4 ◌∼◌
abbrev pub ◌∼◌ : Fraction → Fraction → Type 0
x ∼ y = x.plus * below y + y.minus * below x ≡ y.plus * below x + x.minus * below y

abbrev pub sum : Fraction → Fraction → Fraction
sum x y = record {
  plus = x.plus * below y + y.plus * below x;
  minus = x.minus * below y + y.minus * below x;
  den = x.den * y.den + x.den + y.den;
}

abbrev pub negate : Fraction → Fraction
negate x = record { plus = x.minus; minus = x.plus; den = x.den }

abbrev pub product : Fraction → Fraction → Fraction
product x y = record {
  plus = x.plus * y.plus + x.minus * y.minus;
  minus = x.plus * y.minus + x.minus * y.plus;
  den = x.den * y.den + x.den + y.den;
}

abbrev pub whole : ℕ → Fraction
whole n = record { plus = n; minus = 0; den = 0 }

-- Zero where the divisor is not positive.
abbrev pub inverse : Fraction → Fraction
inverse x =
    if ltb x.minus x.plus
    then record { plus = below x; minus = 0; den = x.plus - x.minus - 1 }
    else whole 0

abbrev pub less : Fraction → Fraction → Bool
less x y = ltb (x.plus * below y + y.minus * below x) (y.plus * below x + x.minus * below y)

pub ∼_refl : (x : Fraction) → x ∼ x
∼_refl x = omega arith

pub ∼_trans : (x y z : Fraction) → x ∼ y → y ∼ z → x ∼ z
∼_trans x y z p q =
    eq_of_mul-eq-mul_right (below y) (omega arith) _ _
      (omega (arith, ap (λ (t : ℕ). t * below z) p, ap (λ (t : ℕ). t * below x) q))

-- `y` is `x` with numerator and denominator multiplied by `k`.
∼_of_scaled :
    (x y : Fraction) (k : ℕ)
    → y.plus ≡ k * x.plus
    → y.minus ≡ k * x.minus
    → below y ≡ k * below x
    → x ∼ y
∼_of_scaled x y k p n d = rw (p, n, d) (omega arith)

pub sum_congr_left : (x x' y : Fraction) → x ∼ x' → sum x y ∼ sum x' y
sum_congr_left x x' y p = omega (arith, ap (λ (t : ℕ). t * (below y * below y)) p)

pub sum_comm : (x y : Fraction) → sum x y ∼ sum y x
sum_comm x y = omega arith

pub sum_assoc : (x y z : Fraction) → sum (sum x y) z ∼ sum x (sum y z)
sum_assoc x y z =
    ∼_of_scaled (sum (sum x y) z) (sum x (sum y z)) 1 (omega arith) (omega arith) (omega arith)

pub sum-whole : (x : Fraction) → sum x (whole 0) ∼ x
sum-whole x = omega arith

pub negate_congr : (x x' : Fraction) → x ∼ x' → negate x ∼ negate x'
negate_congr x x' p = omega arith

pub sum-negate : (x y : Fraction) → sum (sum x (negate y)) y ∼ x
sum-negate x y = omega arith

pub product_congr_left : (x x' y : Fraction) → x ∼ x' → product x y ∼ product x' y
product_congr_left x x' y p =
    omega
      (arith, ap (λ (t : ℕ). t * (y.plus * below y)) p, ap (λ (t : ℕ). t * (y.minus * below y)) p)

pub product_comm : (x y : Fraction) → product x y ∼ product y x
product_comm x y = omega arith

pub product_assoc : (x y z : Fraction) → product (product x y) z ∼ product x (product y z)
product_assoc x y z = omega arith

pub product-whole : (x : Fraction) → product x (whole 1) ∼ x
product-whole x = omega arith

pub product-sum : (x y z : Fraction) → product x (sum y z) ∼ sum (product x y) (product x z)
product-sum x y z =
    ∼_of_scaled (product x (sum y z)) (sum (product x y) (product x z)) (below x) (omega arith)
      (omega arith) (omega arith)

less_iff :
    (x y : Fraction)
    → (less x y ≡ true)
      ↔ (x.plus * below y + y.minus * below x < y.plus * below x + x.minus * below y)
less_iff x y = ground arith

scale_lt : (a b k : ℕ) → a < b → a * suc k < b * suc k
scale_lt a b k h = grind arith

less_congr_left : (x x' y : Fraction) → x ∼ x' → less x y ≡ true → less x' y ≡ true
less_congr_left x x' y p h = (less_iff x' y).1 (
    lt_of_mul-lt-mul_left (below x)
      (omega (arith, scale_lt _ _ x'.den ((less_iff x y).0 h), ap (λ (t : ℕ). t * below y) p)))

less_congr_right : (x y y' : Fraction) → y ∼ y' → less x y ≡ true → less x y' ≡ true
less_congr_right x y y' p h = (less_iff x y').1 (
    lt_of_mul-lt-mul_left (below y)
      (omega (arith, scale_lt _ _ y'.den ((less_iff x y).0 h), ap (λ (t : ℕ). t * below x) p)))

Bool-ext : (a b : Bool) → (a ≡ true → b ≡ true) → (b ≡ true → a ≡ true) → a ≡ b
Bool-ext true b h k = sym (h refl)
Bool-ext false true h k = k refl
Bool-ext false false h k = refl

∼_sym : (x y : Fraction) → x ∼ y → y ∼ x
∼_sym x y p = omega arith

pub less_congr : (x y x' y' : Fraction) → x ∼ x' → y ∼ y' → less x y ≡ less x' y'
less_congr x y x' y' p q =
    Bool-ext _ _ (λ h. less_congr_right x' y y' q (less_congr_left x x' y p h))
      (λ h. less_congr_right x y' y (∼_sym y y' q) (less_congr_left x' x y' (∼_sym x x' p) h))

pub less_irrefl : (x : Fraction) → less x x ≡ false
less_irrefl x = ground arith

pub less_trans : (x y z : Fraction) → less x y ≡ true → less y z ≡ true → less x z ≡ true
less_trans x y z h k = (less_iff x z).1 (
    lt_of_mul-lt-mul_left (below y) (
      omega
        (arith, scale_lt _ _ z.den ((less_iff x y).0 h), scale_lt _ _ x.den ((less_iff y z).0 k))))

pub ∼_of_not_less : (x y : Fraction) → less y x ≡ false → less x y ≡ false → x ∼ y
∼_of_not_less x y h k = ground arith

pub sum-less : (x y z : Fraction) → less x y ≡ true → less (sum x z) (sum y z) ≡ true
sum-less x y z h =
    (less_iff (sum x z) (sum y z)).1
      (omega (arith, scale_lt _ _ z.den (scale_lt _ _ z.den ((less_iff x y).0 h))))

product_gap : (p n q m : ℕ) → n < p → m < q → p * m + n * q < p * q + n * m
product_gap p n q m h k =
    let e : p ≡ n + suc (p - n - 1) = omega arith in
    let f : q ≡ m + suc (q - m - 1) = omega arith in rw (e, f) (omega arith)

pub product_pos :
    (x y : Fraction)
    → less (whole 0) x ≡ true
    → less (whole 0) y ≡ true
    → less (whole 0) (product x y) ≡ true
product_pos x y h k = (less_iff (whole 0) (product x y)).1 (
    omega (
      arith,
      (less_iff (whole 0) x).0 h,
      (less_iff (whole 0) y).0 k,
      product_gap x.plus x.minus y.plus y.minus (ground arith) (ground arith),
    ))

sign_of : (x : Fraction) → less (whole 0) x ≡ true → ltb x.minus x.plus ≡ true
sign_of x h = ground arith

of_sign : (x : Fraction) → ltb x.minus x.plus ≡ true → less (whole 0) x ≡ true
of_sign x h = ground arith

sign_congr : (x x' : Fraction) → x ∼ x' → ltb x.minus x.plus ≡ ltb x'.minus x'.plus
sign_congr x x' p =
    Bool-ext _ _ (λ h. sign_of (x') (less_congr_right (whole 0) x x' p (of_sign x h)))
      (λ h. sign_of x (less_congr_right (whole 0) x' x (∼_sym x x' p) (of_sign x' h)))

product-inverse_at :
    (x : Fraction) (m d g : ℕ)
    → product
        (product x (record { plus = suc d; minus = 0; den = g }))
        (record { plus = m + suc g; minus = m; den = d })
      ∼ x
product-inverse_at x m d g = omega arith

pub product-inverse :
    (x y : Fraction) → less (whole 0) y ≡ true → product (product x (inverse y)) y ∼ x
product-inverse x y h =
    let g = y.plus - y.minus - 1 in
    let lt = (less_iff (whole 0) y).0 h in
    let test : ltb y.minus y.plus ≡ true = ground arith in
    let e : y.minus + suc g ≡ y.plus = omega arith in
    rw test (
      subst
        (λ t.
          product (product x (record { plus = below y; minus = 0; den = g }))
            (record { plus = t; minus = y.minus; den = y.den })
          ∼ x)
        e (product-inverse_at x y.minus y.den g))

inverse_congr_pos :
    (x x' : Fraction)
    → x ∼ x'
    → x.minus < x.plus
    → x'.minus < x'.plus
    → below x * suc (x'.plus - x'.minus - 1) + 0 * suc (x.plus - x.minus - 1)
      ≡ below x' * suc (x.plus - x.minus - 1) + 0 * suc (x'.plus - x'.minus - 1)
inverse_congr_pos x x' p h h' =
    let e : x.plus ≡ x.minus + suc (x.plus - x.minus - 1) = omega arith in
    let f : x'.plus ≡ x'.minus + suc (x'.plus - x'.minus - 1) = omega arith in
    omega (arith, ap (λ (t : ℕ). t * below x') e, ap (λ (t : ℕ). t * below x) f)

pub inverse_congr : (x x' : Fraction) → x ∼ x' → inverse x ∼ inverse x'
inverse_congr x x' p = elim (Bool-cases (ltb x.minus x.plus)) [
  | inl h ↦
      let same : ltb x.minus x.plus ≡ ltb x'.minus x'.plus = sign_congr x x' p in
      let h' : ltb x'.minus x'.plus ≡ true = sym same ∙ h in
      rw (h, h') (inverse_congr_pos x x' p (ground arith) (ground arith))
  | inr h ↦ let h' : ltb x'.minus x'.plus ≡ false = sym (sign_congr x x' p) ∙ h in rw (h, h') refl
]
