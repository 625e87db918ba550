-- ===== src/Generator/Draws.antt =====
-- services/event-generator/internal/scenario/generator.go: what the generator takes from outside, and
-- the calls that draw random numbers or fail, in their order.
use stream_pulse.Common.{
  ℕ, zero, suc, ◌*◌, ◌/◌, ◌-◌, ◌%◌, ◌^◌, String, List, [], ◌∷◌, ltb, if◌then◌else◌,
}
use stream_pulse.Common.Dict.{Dict}
use stream_pulse.Common.Int.{ℤ, pos, negsuc, ◌-ℤ◌}
use stream_pulse.Common.Fallible.{Fallible, ok, err}
use stream_pulse.Time.{Time, Duration}
use stream_pulse.Generator.Events.{DeliveryEvent, RoutingEvent, PlayerEvent}

-- A random source with the state `G`: `Intn` and `Int63n`, `Float64`, `NormFloat64`, and the Zipf
-- distribution over the ranks of the content.
pub record Random (G : Type 0) (F : Type 0) : Type 0 where
  pub below : ℕ → G → ℕ × G
  pub uniform : G → F × G
  pub normal : G → F × G
  pub zipf : G → ℕ × G

-- The language's library: SHA-256 as hexadecimal digits and its first byte, decimal numbers plain and
-- padded with zeros to a width, instants in RFC 3339 form, rounding, and JSON, of the events and of a
-- map with values `J`.
pub record Tools (F : Type 0) (J : Type 0) : Type 0 where
  pub sha256_hex : String → String
  pub sha256_first : String → ℕ
  pub decimal : ℤ → String
  pub padded : ℕ → ℤ → String
  pub rfc3339_nano : Time → String
  pub round : F → F
  pub to_int64 : F → ℤ
  pub seconds : Duration → F
  pub delivery : DeliveryEvent F → Fallible String (List ℕ)
  pub routing : RoutingEvent F → Fallible String (List ℕ)
  pub player : PlayerEvent F → Fallible String (List ℕ)
  pub unmarshal_map : List ℕ → Fallible String (Dict J)
  pub marshal_map : Dict J → Fallible String (List ℕ)
  pub text_value : String → J

-- An index out of range panics; the encoding to JSON can return an error.
pub data Failure : Type 0 where
  panicked : Failure
  returned : String → Failure

abbrev pub Draw : Type 0 → Type 0 → Type 0
Draw G A = G → Fallible Failure (A × G)

abbrev pub continue :
    {G A B : Type 0} → Fallible Failure (A × G) → (A → Draw G B) → Fallible Failure (B × G)
continue (ok (a, g)) f = f a g
continue (err e) f = err e

infixl 5 ◌>>=◌
unfoldable pub ◌>>=◌ : {G A B : Type 0} → Draw G A → (A → Draw G B) → Draw G B
◌>>=◌ m f g = continue (m g) f

abbrev pub returning : {A : Type 0} → Fallible String A → Fallible Failure A
returning (ok a) = ok a
returning (err e) = err (returned e)

abbrev pub nth : {A : Type 0} → List A → ℕ → Fallible Failure A
nth [] i = err panicked
nth (x ∷ xs) zero = ok x
nth (x ∷ xs) (suc i) = nth xs i

module _ {G A : Type 0} where
  unfoldable pub pure : A → Draw G A
  pure a g = ok (a, g)

  unfoldable pub draw : (G → A × G) → Draw G A
  draw random g = ok (random g)

  abbrev pub with_state : G → Fallible Failure A → Fallible Failure (A × G)
  with_state g (ok a) = ok (a, g)
  with_state g (err e) = err e

  unfoldable pub attempt : Fallible String A → Draw G A
  attempt answer g = with_state g (returning answer)

  -- `xs[i]`
  unfoldable pub index : List A → ℕ → Draw G A
  index xs i g = with_state g (nth xs i)

-- A signed integer of 64 bits, of its bits and of an integer
abbrev pub signed : ℕ → ℤ
signed bits = if ltb bits (2 ^ 63) then pos bits else negsuc (2 ^ 64 - 1 - bits)

abbrev pub wrap_int64 : ℤ → ℤ
wrap_int64 (pos n) = signed (n % 2 ^ 64)
wrap_int64 (negsuc n) = signed (2 ^ 64 - 1 - n % 2 ^ 64)

unfoldable pub scale : ℕ → ℤ → ℤ
scale n (pos m) = pos (n * m)
scale n (negsuc m) = pos 0 -ℤ pos (n * suc m)

-- `n / d` of signed integers, which rounds towards zero
unfoldable pub divide : ℤ → ℤ → ℤ
divide (pos n) (pos d) = pos (n / d)
divide (pos n) (negsuc d) = pos 0 -ℤ pos (n / suc d)
divide (negsuc n) (pos d) = pos 0 -ℤ pos (suc n / d)
divide (negsuc n) (negsuc d) = pos (suc n / suc d)
