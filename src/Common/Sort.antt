-- ===== src/Common/Sort.antt =====
-- `sort.Slice`, `sort.Strings`, `sort.Float64s`: a sort by a `less` test. Go's sort is not stable;
-- insertion sort gives one of the orders that it allows, the only one where no two keys are equal.
use Prim.Native.String.{String, compare}
use text.Mathlib.Text.{is_lt}
use mathlib.Core.List.{List, [], ◌∷◌}
use mathlib.Core.Path.{◌≡◌, refl}
use mathlib.Core.Bool.{Bool}
use native.Mathlib.Omega.{arith}
use stream_pulse.Common.Tests.{if◌then◌else◌, Bool-cases}
use Prim.Native.Nat.{suc}
use mathlib.Core.Logic.{inl, inr}
use stream_pulse.Common.Lists.{length, All}

-- `a < b` on strings
abbrev pub string_less : String → String → Bool
string_less a b = is_lt (compare a b)

module _ {ℓ} {A : Type ℓ} (less : A → A → Bool) where
  unfoldable pub insert_sorted : A → List A → List A
  insert_sorted a [] = a ∷ []
  insert_sorted a (x ∷ xs) = if less x a then x ∷ insert_sorted a xs else a ∷ x ∷ xs

  unfoldable pub sort : List A → List A
  unfolding insert_sorted
  sort [] = []
  sort (x ∷ xs) = insert_sorted x (sort xs)

  length-insert_sorted : (a : A) (xs : List A) → length (insert_sorted a xs) ≡ suc (length xs)
  unfolding insert_sorted
  length-insert_sorted a [] = refl
  length-insert_sorted a (x ∷ xs) = ground (arith, length-insert_sorted a xs)

  pub length-sort : (xs : List A) → length (sort xs) ≡ length xs
  unfolding sort
  length-sort [] = refl
  length-sort (x ∷ xs) = omega (arith, length-insert_sorted x (sort xs), length-sort xs)

  pub All-insert_sorted {κ} :
      (P : A → Type κ) (a : A) (xs : List A) → P a → All P xs → All P (insert_sorted a xs)
  unfolding insert_sorted
  All-insert_sorted P a [] p ps = (p, tt)
  All-insert_sorted P a (x ∷ xs) p ps = elim (Bool-cases (less x a)) [
    | inl e ↦ rw e (ps.0, All-insert_sorted P a xs p ps.1)
    | inr e ↦ rw e (p, ps)
  ]

  pub All-sort {κ} : (P : A → Type κ) (xs : List A) → All P xs → All P (sort xs)
  unfolding sort
  All-sort P [] ps = tt
  All-sort P (x ∷ xs) ps = All-insert_sorted P x (sort xs) ps.0 (All-sort P xs ps.1)
