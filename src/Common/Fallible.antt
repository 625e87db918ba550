-- ===== src/Common/Fallible.antt =====
-- A Go call that returns a value and an `error`: one of the two.
use mathlib.Core.Path.{◌≡◌, refl, subst}

pub data Fallible {ℓ κ} (E : Type ℓ) (A : Type κ) : Type (ℓ ⊔ κ) where
  ok : A → Fallible E A
  err : E → Fallible E A

-- The value that an equation with `ok` determines.
pub ok-injective {ℓ κ} :
    {E : Type ℓ} {A : Type κ} {a b : A} → ◌≡◌ {A = Fallible E A} (ok a) (ok b) → a ≡ b
ok-injective e = cc

-- `if err != nil { return err }`, and what comes after
infixl 5 ◌>>=◌
unfoldable pub ◌>>=◌ {ℓ κ μ} :
    {E : Type ℓ} {A : Type κ} {B : Type μ} → Fallible E A → (A → Fallible E B) → Fallible E B
ok a >>= f = f a
err e >>= f = err e

-- The parts of a chain that succeeds.
pub >>=-eq-ok {ℓ κ μ} :
    {E : Type ℓ} {A : Type κ} {B : Type μ} (m : Fallible E A) (f : A → Fallible E B) {b : B}
    → (m >>= f) ≡ ok b
    → (a : A) × (m ≡ ok a) × (f a ≡ ok b)
unfolding ◌>>=◌
>>=-eq-ok (ok a) f h = (a, refl, h)
>>=-eq-ok (err e) f h = cc

-- A chain goes on with the value of its first call.
pub >>=-of_ok {ℓ κ μ} :
    {E : Type ℓ} {A : Type κ} {B : Type μ} (m : Fallible E A) (f : A → Fallible E B) (a : A)
    → m ≡ ok a
    → (m >>= f) ≡ f a
unfolding ◌>>=◌
>>=-of_ok m f a h = rw h refl

-- What a call promises of its value, where it succeeds.
pub Ensures {ℓ μ ν} : {E : Type ℓ} {B : Type μ} → (B → Type ν) → Fallible E B → Type (ℓ ⊔ μ ⊔ ν)
Ensures {B = B} P m = (b : B) → m ≡ ok b → P b

module _ {ℓ μ ν} {E : Type ℓ} {B : Type μ} (P : B → Type ν) where
  pub bind-Ensures {κ} :
      {A : Type κ} (m : Fallible E A) (f : A → Fallible E B)
      → ((a : A) → m ≡ ok a → Ensures P (f a))
      → Ensures P (m >>= f)
  unfolding Ensures
  bind-Ensures m f h b p = let (a, q, r) = >>=-eq-ok m f p in h a q b r

  pub use-Ensures : (m : Fallible E B) (b : B) → Ensures P m → m ≡ ok b → P b
  unfolding Ensures
  use-Ensures m b h e = h b e

pub ok-Ensures {ℓ μ ν} :
    (E : Type ℓ) {B : Type μ} (P : B → Type ν) (b : B) → P b → Ensures {E = E} P (ok b)
unfolding Ensures
ok-Ensures E P b p c h = subst P (ok-injective h) p
