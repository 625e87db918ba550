-- ===== src/Common/Dict.antt =====
-- A Go `map` with string keys, as an association list in the order of first insertion.
use mathlib.Core.Path.{◌≡◌, refl, ap, subst₂}
use mathlib.Core.Logic.{inl, inr}
use mathlib.Core.Option.{Option, none, some, some-injective}
use mathlib.Core.List.{List, [], ◌∷◌, ◌++◌}
use native.Mathlib.Omega.{arith}
use Prim.Native.String.{String}
use text.Mathlib.Text.{◌==◌}
use text.Mathlib.TextEquality.{eq_iff}
use stream_pulse.Common.Tests.{if◌then◌else◌, Bool-cases}
use stream_pulse.Common.Lists.{All}

abbrev pub Dict {ℓ} : Type ℓ → Type ℓ
Dict V = List (String × V)

module _ {ℓ} {V : Type ℓ} where
  abbrev pub lookup : String → Dict V → Option V
  lookup k [] = none
  lookup k ((j, v) ∷ m) = if j == k then some v else lookup k m

  -- `m[k] = v`
  abbrev pub insert : String → V → Dict V → Dict V
  insert k v [] = (k, v) ∷ []
  insert k v ((j, w) ∷ m) = if j == k then (k, v) ∷ m else (j, w) ∷ insert k v m

  -- `m[k]`, with the zero value `d` for a missing key
  abbrev pub get : String → Dict V → V → V
  get k m d = elim (lookup k m) [ none ↦ d | some v ↦ v ]

  pub lookup-insert :
      (k j : String) (v : V) (m : Dict V)
      → lookup j (insert k v m) ≡ (if k == j then some v else lookup j m)
  lookup-insert k j v [] = refl
  lookup-insert k j v ((i, w) ∷ m) =
      ground (arith, eq_iff k j, eq_iff i k, eq_iff i j, lookup-insert k j v m)

module _ {ℓ} {V : Type ℓ} where
  pub get-insert :
      (k j : String) (v d : V) (m : Dict V)
      → get j (insert k v m) d ≡ (if k == j then v else get j m d)
  get-insert k j v d m = ground (arith, lookup-insert k j v m)

  -- The values, as a loop over the map visits them.
  abbrev pub values : Dict V → List V
  values [] = []
  values ((_, v) ∷ m) = v ∷ values m

  -- A new map with a value computed from each entry.
  abbrev pub map_entries {κ} : {W : Type κ} → (String → V → W) → Dict V → Dict W
  map_entries f [] = []
  map_entries f ((k, v) ∷ m) = (k, f k v) ∷ map_entries f m

  -- No key is listed twice.
  abbrev pub HasDistinctKeys : Dict V → Type ℓ
  HasDistinctKeys [] = Unit
  HasDistinctKeys ((k, _) ∷ m) = (lookup k m ≡ none) × HasDistinctKeys m

  pub insert-HasDistinctKeys :
      (k : String) (v : V) (m : Dict V) → HasDistinctKeys m → HasDistinctKeys (insert k v m)
  insert-HasDistinctKeys k v [] h = (refl, tt)
  insert-HasDistinctKeys k v ((j, w) ∷ m) h =
      ground
        (arith, eq_iff k j, eq_iff j k, lookup-insert k j v m, insert-HasDistinctKeys k v m h.1)

  pub insert-eq-append :
      (k : String) (v : V) (m : Dict V) → lookup k m ≡ none → insert k v m ≡ m ++ ((k, v) ∷ [])
  insert-eq-append k v [] h = refl
  insert-eq-append k v ((j, w) ∷ m) h = ground (arith, insert-eq-append k v m)

  -- A predicate on values at their keys.
  abbrev pub Holds {κ} : (String → V → Type κ) → Dict V → Type κ
  Holds P = All (λ e. P e.0 e.1)

  pub insert-Holds {κ} :
      (P : String → V → Type κ) (k : String) (v : V) (m : Dict V)
      → P k v
      → Holds P m
      → Holds P (insert k v m)
  insert-Holds P k v [] p h = (p, tt)
  insert-Holds P k v ((j, w) ∷ m) p h = elim (Bool-cases (j == k)) [
    | inl e ↦ rw e (p, h.1)
    | inr e ↦ rw e (h.0, insert-Holds P k v m p h.1)
  ]

  pub lookup-Holds {κ} :
      (P : String → V → Type κ) (k : String) (v : V) (m : Dict V)
      → Holds P m
      → lookup k m ≡ some v
      → P k v
  lookup-Holds P k v [] h e = cc
  lookup-Holds P k v ((j, w) ∷ m) h e = elim (Bool-cases (j == k)) [
    | inl same ↦
        let here : some w ≡ some v = rw same at e in
        subst₂ P ((eq_iff j k).0 same) (some-injective _ _ here) h.0
    | inr other ↦ lookup-Holds P k v m h.1 (rw other at e)
  ]

  pub lookup-append :
      (k : String) (m n : Dict V)
      → lookup k (m ++ n) ≡ (elim (lookup k m) [ none ↦ lookup k n | some v ↦ some v ])
  lookup-append k [] n = refl
  lookup-append k ((j, w) ∷ m) n = ground (arith, lookup-append k m n)

module _ {ℓ κ} {V : Type ℓ} {W : Type κ} where
  pub lookup-map_entries :
      (f : String → V → W) (k : String) (m : Dict V)
      → lookup k (map_entries f m) ≡ (elim (lookup k m) [ none ↦ none | some v ↦ some (f k v) ])
  lookup-map_entries f k [] = refl
  lookup-map_entries f k ((j, v) ∷ m) = elim (Bool-cases (j == k)) [
    | inl same ↦ rw same (ap (λ i. some (f i v)) ((eq_iff j k).0 same))
    | inr other ↦ rw other (lookup-map_entries f k m)
  ]
