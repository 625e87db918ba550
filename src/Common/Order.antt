-- ===== src/Common/Order.antt =====
-- The order of strings: one of two different strings is before the other.
use Prim.Native.Nat.compare as compare_ℕ
use Prim.Native.Nat.{ℕ, zero, suc, Ordering, compare as compare_ℕ}
use Prim.Native.Char.{code}
use Prim.Native.String.compare
use Prim.Native.String.{String, [], ◌∷◌, compare, then}
use text.Mathlib.Text.{is_lt}
use text.Mathlib.TextEquality.{path_by_compare}
use mathlib.Core.Path.{◌≡◌, refl, sym, ap, ◌∙◌}
use mathlib.Core.Logic.{◌≢◌}
use mathlib.Core.Bool.{true, false}
use stream_pulse.Common.Sort.{string_less}

swap : Ordering → Ordering
swap Ordering.lt = Ordering.gt
swap Ordering.eq = Ordering.eq
swap Ordering.gt = Ordering.lt

numbers_swap : (m n : ℕ) → compare_ℕ n m ≡ swap (compare_ℕ m n)
unfolding swap
numbers_swap zero zero = refl
numbers_swap zero (suc n) = compare_ℕ.suc-zero n ∙ ap swap (sym (compare_ℕ.zero-suc n))
numbers_swap (suc m) zero = compare_ℕ.zero-suc m ∙ ap swap (sym (compare_ℕ.suc-zero m))
numbers_swap (suc m) (suc n) =
    compare_ℕ.suc-suc n m ∙ numbers_swap m n ∙ ap swap (sym (compare_ℕ.suc-suc m n))

then-swap : (o r : Ordering) → then (swap o) (swap r) ≡ swap (then o r)
unfolding swap
then-swap Ordering.lt r = refl
then-swap Ordering.eq r = refl
then-swap Ordering.gt r = refl

strings_swap : (s t : String) → compare t s ≡ swap (compare s t)
unfolding swap
strings_swap [] [] = refl
strings_swap [] (d ∷ t) = compare.cons-nil d t ∙ ap swap (sym (compare.nil-cons d t))
strings_swap (c ∷ s) [] = compare.nil-cons c s ∙ ap swap (sym (compare.cons-nil c s))
strings_swap (c ∷ s) (d ∷ t) =
    compare.cons-cons d c t s
    ∙ ap (λ o. then o (compare t s)) (numbers_swap (code c) (code d))
    ∙ ap (then (swap (compare_ℕ (code c) (code d)))) (strings_swap s t)
    ∙ then-swap (compare_ℕ (code c) (code d)) (compare s t)
    ∙ ap swap (sym (compare.cons-cons c d s t))

lt-of_swap : (o : Ordering) → o ≢ Ordering.eq → is_lt (swap o) ≡ false → is_lt o ≡ true
unfolding swap
lt-of_swap Ordering.lt ne h = refl
lt-of_swap Ordering.eq ne h = absurd (ne refl)
lt-of_swap Ordering.gt ne h = cc

pub string_less-connex : (s t : String) → s ≢ t → string_less t s ≡ false → string_less s t ≡ true
string_less-connex s t ne h =
    lt-of_swap (compare s t) (λ e. ne (path_by_compare s t e))
      (ap is_lt (sym (strings_swap s t)) ∙ h)
