-- ===== src/App/Keys.antt =====
-- The key under which the service notes a scope tells valid scopes apart.
use Prim.Native.Char.{code}
use Prim.Native.String.append.{nil, cons}
use text.Mathlib.TextEquality.{Char-path}
use mathlib.Core.List.{append_assoc}
use stream_pulse.Common.{
  ℕ, ◌≡◌, ◌≢◌, refl, sym, ap, ap₂, ◌∙◌, String, ◌<>◌, true, ◌||◌, List, [], ◌∷◌, ◌++◌, arith, All,
}
use stream_pulse.Domain.{Scope, scope_key}
use stream_pulse.App.Scopes.{
  codes, all_of, is_lower, is_digit, is_mark, matches_location, validate_scope,
}

-- The code point of `|`, which ends the location in a key.
abbrev bar : ℕ
bar = 124

codes-append : (a b : String) → codes (a <> b) ≡ codes a ++ codes b
codes-append String.[] b = ap codes (nil b)
codes-append (String.◌∷◌ c a) b = ap codes (cons c a b) ∙ ap (λ cs. code c ∷ cs) (codes-append a b)

codes-injective : (a b : String) → codes a ≡ codes b → a ≡ b
codes-injective String.[] String.[] e = refl
codes-injective String.[] (String.◌∷◌ c b) e = cc
codes-injective (String.◌∷◌ c a) String.[] e = cc
codes-injective (String.◌∷◌ c a) (String.◌∷◌ d b) e =
    let head : code c ≡ code d = cc e in
    let tail : codes a ≡ codes b = cc e in
    ap₂ String.◌∷◌ (Char-path c d head) (codes-injective a b tail)

-- Two lists that are equal up to the first bar are equal before and after it.
split_at_bar :
    (xs ys cs ds : List ℕ)
    → All (λ x. x ≢ bar) xs
    → All (λ y. y ≢ bar) ys
    → xs ++ (bar ∷ cs) ≡ ys ++ (bar ∷ ds)
    → (xs ≡ ys) × (cs ≡ ds)
split_at_bar [] [] cs ds h k e = (refl, cc)
split_at_bar [] (y ∷ ys) cs ds h k e = absurd (k.0 (cc e))
split_at_bar (x ∷ xs) [] cs ds h k e = absurd (h.0 (cc e))
split_at_bar (x ∷ xs) (y ∷ ys) cs ds h k e =
    let rest : xs ++ (bar ∷ cs) ≡ ys ++ (bar ∷ ds) = cc e in
    let (same, after) = split_at_bar xs ys cs ds h.1 k.1 rest in (cc (same, e), after)

-- The pattern of a location leaves no room for a bar.
all_of-no_bar :
    (cs : List ℕ)
    → all_of (λ d. is_lower d || is_digit d || is_mark d) cs ≡ true
    → All (λ c. c ≢ bar) cs
all_of-no_bar [] h = tt
all_of-no_bar (c ∷ cs) h = (λ e. ground arith, all_of-no_bar cs (ground arith))

matches_location-no_bar : (cs : List ℕ) → matches_location cs ≡ true → All (λ c. c ≢ bar) cs
unfolding matches_location
matches_location-no_bar [] h = tt
matches_location-no_bar (c ∷ cs) h = (λ e. ground arith, all_of-no_bar cs (ground arith))

validate_scope-no_bar :
    (s : Scope) → validate_scope s ≡ true → All (λ c. c ≢ bar) (codes s.location)
unfolding validate_scope
validate_scope-no_bar s h = matches_location-no_bar (codes s.location) (ground arith)

codes-scope_key : (s : Scope) → codes (scope_key s) ≡ codes s.location ++ (bar ∷ codes s.network_id)
codes-scope_key s =
    codes-append (s.location <> "|") s.network_id
    ∙ ap (λ l. l ++ codes s.network_id) (codes-append s.location "|")
    ∙ append_assoc (codes s.location) (bar ∷ []) (codes s.network_id)

-- Two scopes that `validateScope` accepts are the same where their keys are.
pub scope_key-injective :
    (s t : Scope)
    → validate_scope s ≡ true
    → validate_scope t ≡ true
    → scope_key s ≡ scope_key t
    → s ≡ t
scope_key-injective s t h k e =
    let (same, rest) =
      split_at_bar (codes s.location) (codes t.location) (codes s.network_id) (codes t.network_id)
        (validate_scope-no_bar s h) (validate_scope-no_bar t k)
        (sym (codes-scope_key s) ∙ ap codes e ∙ codes-scope_key t) in
    ap₂ (λ l n. record { location = l; network_id = n })
      (codes-injective s.location t.location same) (codes-injective s.network_id t.network_id rest)
