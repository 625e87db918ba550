-- ===== src/Scoring/Candidates.antt =====
-- What the screening loop computes: the candidates in order, and the two counts.
use mathlib.Core.List.{append-nil, append_assoc}
use stream_pulse.Common.{
  ℕ, ◌+◌, ◌≤◌, ◌≡◌, ◌≢◌, refl, sym, inl, inr, Bool, true, false, not, ◌||◌, ◌&&◌, List, [], ◌∷◌,
  ◌++◌, foldl, arith, Bool-cases, All, length, if◌then◌else◌,
}
use stream_pulse.Common.Int.{ltb_ℤ, pos, ◌+ℤ◌, ◌-ℤ◌, ◌≤ℤ◌}
use stream_pulse.Time.{Time, Duration, max_duration, sub}
use stream_pulse.Float.{Float, ◌≺◌}
use stream_pulse.Domain.{NodeMetric}
use stream_pulse.Scoring.Types.{Config}
use stream_pulse.Scoring.Screening.{Screen, is_future, is_stale, is_unfit, screen_step, screen}
use stream_pulse.Scoring.Distinct.{HasDistinctNodes}

abbrev pub count {ℓ} : {A : Type ℓ} → (A → Bool) → List A → ℕ
count p [] = 0
count p (x ∷ xs) = (if p x then 1 else 0) + count p xs

module _ {F : Type 0} ⦃fl : Float F⦄ (config : Config F) (now : Time) where
  abbrev pub is_rejected : NodeMetric F → Bool
  is_rejected m = is_future config now m || is_stale config now m || is_unfit config m

  abbrev pub candidates : List (NodeMetric F) → List (NodeMetric F)
  candidates [] = []
  candidates (m ∷ ms) = if is_rejected m then candidates ms else m ∷ candidates ms

  -- Stale, and not from the future.
  abbrev pub counts_as_stale : NodeMetric F → Bool
  counts_as_stale m = not (is_future config now m) && is_stale config now m

  abbrev Screens : Screen F → List (NodeMetric F) → Screen F → Type 0
  Screens s ms r =
      (r.eligible ≡ s.eligible ++ candidates ms)
      × (r.stale_count ≡ s.stale_count + count counts_as_stale ms)
      × (r.future_count ≡ s.future_count + count (is_future config now) ms)

  foldl-screen_step-Screens :
      (ms : List (NodeMetric F)) (s : Screen F) → Screens s ms (foldl (screen_step config now) s ms)
  unfolding screen_step
  foldl-screen_step-Screens [] s = (sym (append-nil s.eligible), omega arith, omega arith)
  foldl-screen_step-Screens (m ∷ ms) s =
      let (kept, old, early) = foldl-screen_step-Screens ms (screen_step config now s m) in
      elim (Bool-cases (is_future config now m)) [
        | inl f ↦ ground (arith, f, kept, old, early)
        | inr f ↦
            ground (arith, f, kept, old, early, append_assoc s.eligible (m ∷ []) (candidates ms))
      ]

  pub screen_lem :
      (ms : List (NodeMetric F))
      → ((screen config now ms).eligible ≡ candidates ms)
        × ((screen config now ms).stale_count ≡ count counts_as_stale ms)
        × ((screen config now ms).future_count ≡ count (is_future config now) ms)
  unfolding screen
  screen_lem ms =
      let (kept, old, early) =
        foldl-screen_step-Screens ms
          (record { eligible = []; stale_count = 0; future_count = 0 }) in
      (kept, omega arith, omega arith)

  pub All-candidates :
      (P : NodeMetric F → Type 0) (ms : List (NodeMetric F)) → All P ms → All P (candidates ms)
  All-candidates P [] ps = tt
  All-candidates P (m ∷ ms) ps = elim (Bool-cases (is_rejected m)) [
    | inl e ↦ rw e (All-candidates P ms ps.1)
    | inr e ↦ rw e (ps.0, All-candidates P ms ps.1)
  ]

  pub candidates-HasDistinctNodes :
      (ms : List (NodeMetric F)) → HasDistinctNodes ms → HasDistinctNodes (candidates ms)
  candidates-HasDistinctNodes [] d = tt
  candidates-HasDistinctNodes (m ∷ ms) d = elim (Bool-cases (is_rejected m)) [
    | inl e ↦ rw e (candidates-HasDistinctNodes ms d.1)
    | inr e ↦
        rw e
          (All-candidates (λ x. x.node_id ≢ m.node_id) ms d.0, candidates-HasDistinctNodes ms d.1)
  ]

  pub candidates-accepted :
      (ms : List (NodeMetric F)) → All (λ m. is_rejected m ≡ false) (candidates ms)
  candidates-accepted [] = tt
  candidates-accepted (m ∷ ms) = elim (Bool-cases (is_rejected m)) [
    | inl e ↦ rw e (candidates-accepted ms)
    | inr e ↦ rw e (e, candidates-accepted ms)
  ]

  -- If every window is rejected, there are no candidates.
  pub candidates-none :
      (ms : List (NodeMetric F)) → All (λ m. is_rejected m ≡ true) ms → candidates ms ≡ []
  candidates-none [] h = refl
  candidates-none (m ∷ ms) h = rw h.0 (candidates-none ms h.1)

-- What the scorer promises of a node that it gives weight to.
pub record IsCandidate {F : Type 0} ⦃fl : Float F⦄ (config : Config F) (now : Time)
    (m : NodeMetric F) : Type 0 where
  pub not_future : m.window_end ≤ℤ now +ℤ config.future_tolerance
  pub fresh : now -ℤ m.window_end ≤ℤ config.stale_after
  pub healthy : m.healthy ≡ true
  pub sampled : config.minimum_samples ≤ m.requests
  pub unsaturated : m.saturation ≺ config.saturation_limit

-- Staleness can be told only below the longest `Duration`.
pub record CanExpire (stale_after : Duration) : Type 0 where
  pub nonneg : pos 0 ≤ℤ stale_after
  pub below : ¬ (max_duration ≤ℤ stale_after)

sub-le : (t u : Time) (d : Duration) → CanExpire d → ltb_ℤ d (sub t u) ≡ false → t -ℤ u ≤ℤ d
unfolding sub
sub-le t u d c h = ground arith

module _ {F : Type 0} ⦃fl : Float F⦄ (config : Config F) (now : Time) where
  pub accepted-IsCandidate :
      CanExpire config.stale_after
      → (m : NodeMetric F) → is_rejected config now m ≡ false
      → IsCandidate config now m
  accepted-IsCandidate c m h = record {
    not_future = ground arith;
    fresh = sub-le now m.window_end config.stale_after c (ground arith);
    healthy = ground arith;
    sampled = ground arith;
    unsaturated = ground arith;
  }

module _ {ℓ} {A : Type ℓ} (p : A → Bool) where
  pub count-le : (xs : List A) → count p xs ≤ length xs
  count-le [] = omega arith
  count-le (x ∷ xs) = ground (arith, count-le xs)

  pub All-of_count : (xs : List A) → count p xs ≡ length xs → All (λ x. p x ≡ true) xs
  All-of_count [] h = tt
  All-of_count (x ∷ xs) h = elim (Bool-cases (p x)) [
    | inl e ↦ (e, All-of_count xs (ground arith))
    | inr e ↦ absurd (ground (arith, count-le xs))
  ]

  pub count-of_All : (xs : List A) → All (λ x. p x ≡ true) xs → count p xs ≡ length xs
  count-of_All [] h = refl
  count-of_All (x ∷ xs) h = rw h.0 (omega (arith, count-of_All xs h.1))

  pub count-none : (xs : List A) → All (λ x. p x ≡ false) xs → count p xs ≡ 0
  count-none [] h = refl
  count-none (x ∷ xs) h = rw h.0 (omega (arith, count-none xs h.1))
