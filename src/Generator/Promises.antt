-- ===== src/Generator/Promises.antt =====
-- What the generator's calls promise, and when they succeed.
use stream_pulse.Common.{
  ℕ, zero, suc, ◌<◌, ◌≡◌, ◌∙◌, refl, subst, ap, String, List, [], ◌∷◌, length, All, arith,
}
use stream_pulse.Common.Fallible.{Fallible, ok, err, ok-injective}
use stream_pulse.Generator.Draws.{
  Failure, Draw, continue, ◌>>=◌, pure, draw, returning, nth, with_state, attempt, index,
}

-- What a call promises of its value, where it succeeds.
pub Yields : {G A : Type 0} → (A → Type 0) → Draw G A → Type 0
Yields {G} {A} P m = (g h : G) (a : A) → m g ≡ ok (a, h) → P a

continue-Yields :
    {G A B : Type 0} (P : B → Type 0) (Q : A → Type 0) (f : A → Draw G B)
    (x : Fallible Failure (A × G)) (h : G) (b : B)
    → ((a : A) (g : G) → x ≡ ok (a, g) → Q a)
    → ((a : A) → Q a → Yields P (f a))
    → continue x f ≡ ok (b, h)
    → P b
unfolding Yields
continue-Yields P Q f (ok (a, g)) h b promise each e = each a (promise a g refl) g h b e
continue-Yields P Q f (err w) h b promise each e = cc

-- A chain promises what its rest does, given what its first call promises.
pub bind-Yields_of :
    {G A B : Type 0} (P : B → Type 0) (Q : A → Type 0) (m : Draw G A) (f : A → Draw G B)
    → Yields Q m
    → ((a : A) → Q a → Yields P (f a))
    → Yields P (m >>= f)
unfolding Yields ◌>>=◌
bind-Yields_of P Q m f promise each g h b e =
    continue-Yields P Q f (m g) h b (λ a k q. promise g k a q) each e

pub bind-Yields :
    {G A B : Type 0} (P : B → Type 0) (m : Draw G A) (f : A → Draw G B)
    → ((a : A) → Yields P (f a))
    → Yields P (m >>= f)
unfolding Yields
bind-Yields P m f each = bind-Yields_of P (λ _. Unit {0}) m f (λ _ _ _ _. tt) (λ a _. each a)

pub pure-Yields :
    (G : Type 0) {A : Type 0} (P : A → Type 0) (a : A) → P a → Yields {G = G} P (pure a)
unfolding Yields pure
pure-Yields G {A} P a p g h b e = subst P (ap (λ (x : A × G). x.0) (ok-injective e)) p

pub use-Yields :
    {G A : Type 0} (P : A → Type 0) (m : Draw G A) (g h : G) (a : A)
    → Yields P m
    → m g ≡ ok (a, h)
    → P a
unfolding Yields
use-Yields P m g h a promise e = promise g h a e

-- A call that succeeds from every state, and what it promises.
pub Succeeds : {G A : Type 0} → (A → Type 0) → Draw G A → Type 0
Succeeds {G} {A} P m = (g : G) → (a : A) × (h : G) × (m g ≡ ok (a, h)) × P a

pub bind-Succeeds :
    {G A B : Type 0} (P : B → Type 0) (Q : A → Type 0) (m : Draw G A) (f : A → Draw G B)
    → Succeeds Q m
    → ((a : A) → Q a → Succeeds P (f a))
    → Succeeds P (m >>= f)
unfolding Succeeds ◌>>=◌
bind-Succeeds P Q m f first each g =
    let (a, h, e, q) = first g in
    let (b, k, e1, p) = each a q h in (b, k, ap (λ x. continue x f) e ∙ e1, p)

pub pure-Succeeds :
    (G : Type 0) {A : Type 0} (P : A → Type 0) (a : A) → P a → Succeeds {G = G} P (pure a)
unfolding Succeeds pure
pure-Succeeds G P a p g = (a, g, refl, p)

pub draw-Succeeds :
    {G A : Type 0} (P : A → Type 0) (random : G → A × G)
    → ((g : G) → P (random g).0)
    → Succeeds P (draw random)
unfolding Succeeds draw
draw-Succeeds P random each g = ((random g).0, (random g).1, refl, each g)

pub attempt-Succeeds :
    (G : Type 0) {A : Type 0} (P : A → Type 0) (answer : Fallible String A) (a : A)
    → answer ≡ ok a
    → P a
    → Succeeds {G = G} P (attempt answer)
unfolding Succeeds attempt
attempt-Succeeds G P answer a e p g = (a, g, ap (λ x. with_state g (returning x)) e, p)

nothing-below : (i : ℕ) → ¬ (i < 0)
nothing-below i h = omega arith

nth-in_range :
    {A : Type 0} (P : A → Type 0) (xs : List A) (i : ℕ)
    → i < length xs
    → All P xs
    → (a : A) × (nth xs i ≡ ok a) × P a
nth-in_range P [] i h all = elim (nothing-below i h) [ ]
nth-in_range P (x ∷ xs) zero h all = (x, refl, all.0)
nth-in_range P (x ∷ xs) (suc i) h all = nth-in_range P xs i (omega (arith, h)) all.1

pub index-Succeeds :
    (G : Type 0) {A : Type 0} (P : A → Type 0) (xs : List A) (i : ℕ)
    → i < length xs
    → All P xs
    → Succeeds {G = G} P (index xs i)
unfolding Succeeds index
index-Succeeds G P xs i h all g =
    let (a, e, p) = nth-in_range P xs i h all in (a, g, ap (with_state g) e, p)

pub use-Succeeds :
    {G A : Type 0} (P : A → Type 0) (m : Draw G A) (g : G)
    → Succeeds P m
    → (a : A) × (h : G) × (m g ≡ ok (a, h)) × P a
unfolding Succeeds
use-Succeeds P m g h = h g
