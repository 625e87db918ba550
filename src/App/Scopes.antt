-- ===== src/App/Scopes.antt =====
-- `validateScope` of service.go: the two regular expressions, on code points.
use Prim.Native.Char.{code}
use stream_pulse.Common.{ℕ, String, Bool, true, false, ◌&&◌, ◌||◌, List, [], ◌∷◌, length, leb, ◌==◌}
use stream_pulse.Domain.{Scope}

abbrev pub codes : String → List ℕ
codes String.[] = []
codes (String.◌∷◌ c s) = code c ∷ codes s

abbrev pub within : ℕ → ℕ → ℕ → Bool
within low high c = leb low c && leb c high

-- `[a-z]`, `[A-Z]`, `[0-9]`, `[._-]`
abbrev pub is_lower : ℕ → Bool
is_lower = within 97 122

abbrev pub is_upper : ℕ → Bool
is_upper = within 65 90

abbrev pub is_digit : ℕ → Bool
is_digit = within 48 57

abbrev pub is_mark : ℕ → Bool
is_mark c = c == 46 || c == 95 || c == 45

abbrev pub is_hex : ℕ → Bool
is_hex c = is_digit c || within 97 102 c

abbrev pub all_of : (ℕ → Bool) → List ℕ → Bool
all_of p [] = true
all_of p (c ∷ cs) = p c && all_of p cs

-- What follows a literal prefix, and `false` without that prefix.
abbrev pub after_prefix : List ℕ → (List ℕ → Bool) → List ℕ → Bool
after_prefix [] p cs = p cs
after_prefix (a ∷ more) p [] = false
after_prefix (a ∷ more) p (c ∷ cs) = a == c && after_prefix more p cs

-- `^[a-z0-9][a-z0-9._-]{1,127}$`
unfoldable pub matches_location : List ℕ → Bool
matches_location [] = false
matches_location (c ∷ cs) =
    (is_lower c || is_digit c)
    && all_of (λ d. is_lower d || is_digit d || is_mark d) cs
    && leb 1 (length cs)
    && leb (length cs) 127

-- `^(as-synthetic-[A-Za-z0-9._-]+|anon:[0-9a-f]{16,64}|UNKNOWN)$`
unfoldable pub matches_network : List ℕ → Bool
matches_network cs =
    after_prefix (codes "as-synthetic-")
      (λ rest.
        all_of (λ d. is_upper d || is_lower d || is_digit d || is_mark d) rest
        && leb 1 (length rest))
      cs
    || after_prefix (codes "anon:")
        (λ rest. all_of is_hex rest && leb 16 (length rest) && leb (length rest) 64) cs
    || after_prefix (codes "UNKNOWN") (λ rest. leb (length rest) 0) cs

unfoldable pub validate_scope : Scope → Bool
unfolding matches_location matches_network
validate_scope scope =
    matches_location (codes scope.location) && matches_network (codes scope.network_id)
