-- ===== src/Scoring/Errors.antt =====
-- When `Propose` reports that all windows are from the future, or all stale.
use stream_pulse.Common.{
  ℕ, ◌<◌, ◌≡◌, ◌≢◌, ◌↔◌, refl, ap, ◌∙◌, true, false, List, [], ◌∷◌, arith, All, All-map, length,
  ltb, if◌then◌else◌, ◌&&◌, ◌==◌,
}
use stream_pulse.Common.Dict.{Dict}
use stream_pulse.Common.Int.{◌+ℤ◌, ◌≤ℤ◌}
use stream_pulse.Common.Fallible.{Fallible, ok, err}
use stream_pulse.Time.{Time, sub}
use stream_pulse.Float.{Float, lt}
use stream_pulse.Domain.{NodeMetric, Signal}
use stream_pulse.Scoring.{
  Config, Result, ScoringError, insufficient_candidates, stale_metrics, future_metrics,
  no_material_benefit, propose, shortage, latest_by_node,
}
use stream_pulse.Scoring.Screening.{is_future}
use stream_pulse.Scoring.Report.{make_result}
use stream_pulse.Scoring.Candidates.{
  candidates, count, is_rejected, counts_as_stale, screen_lem, candidates-none, All-of_count,
  count-of_All, count-none,
}
use stream_pulse.Scoring.Outcome.{
  eligible, current, proposed, gain, length-eligible, propose_among_lem, propose_lem,
}

module _ {F : Type 0} ⦃fl : Float F⦄ (config : Config F) (now : Time)
    (metrics : List (NodeMetric F)) (requested : Dict F) (signals : Dict (Signal F)) where
  abbrev latest : List (NodeMetric F)
  latest = latest_by_node metrics

  abbrev few : ℕ
  few = length (eligible config now metrics requested signals)

  -- The window ends later than the clock allows for.
  abbrev pub IsEarly : NodeMetric F → Type 0
  IsEarly m = ¬ (m.window_end ≤ℤ now +ℤ config.future_tolerance)

  -- The branches of `Propose` over the number of candidates, the two counts, the number of nodes,
  -- the gain and the result.
  abbrev branches : (n f st l : ℕ) (g : F) → Result F → Fallible ScoringError (Result F)
  branches n f st l g q =
      if ltb n 2
      then err (
          if ltb 0 f && (f == l)
          then future_metrics
          else if ltb 0 st && (st == l)
          then stale_metrics
          else insufficient_candidates)
      else if lt g config.benefit_margin
      then err no_material_benefit
      else ok q

  future_branch :
      (n f st l : ℕ) (g : F) (q : Result F)
      → branches n f st l g q ≡ err future_metrics
      → (0 < f) × (f ≡ l)
  future_branch n f st l g q h = ground arith

  stale_branch :
      (n f st l : ℕ) (g : F) (q : Result F)
      → branches n f st l g q ≡ err stale_metrics
      → (0 < st) × (st ≡ l)
  stale_branch n f st l g q h = ground arith

  propose_branches :
      propose config now metrics requested signals
      ≡ branches few
          (count (is_future config now) latest)
          (count (counts_as_stale config now) latest)
          (length latest)
          (gain config now metrics requested signals)
          (make_result
            (eligible config now metrics requested signals)
            (current config now metrics requested signals)
            (proposed config now metrics requested signals)
            signals)
  unfolding shortage
  propose_branches = rw (
    propose_lem config now metrics requested signals,
    propose_among_lem config now metrics requested signals,
    (screen_lem config now latest).1,
    (screen_lem config now latest).2,
  )

  not_empty : {A : Type 0} (xs : List A) → 0 < length xs → xs ≢ []
  not_empty xs h e = absurd (omega (arith, ap length e))

  empty_few : candidates config now latest ≡ [] → few ≡ 0
  empty_few e = length-eligible config now metrics requested signals ∙ ap length e

  pos_of_ne : {A : Type 0} (xs : List A) → xs ≢ [] → 0 < length xs
  pos_of_ne [] h = absurd (h refl)
  pos_of_ne (x ∷ xs) h = omega arith

  -- The window is not from the future, and ended longer ago than metrics stay fresh.
  abbrev pub IsOld : NodeMetric F → Type 0
  IsOld m =
      (m.window_end ≤ℤ now +ℤ config.future_tolerance)
      × ¬ (sub now m.window_end ≤ℤ config.stale_after)

  -- `Propose` reports future metrics exactly when there is a node and the latest window of every
  -- node ends later than the clock, with its tolerance, allows.
  pub propose_future_iff :
      (propose config now metrics requested signals ≡ err future_metrics)
      ↔ ((latest_by_node metrics ≢ []) × All IsEarly (latest_by_node metrics))
  propose_future_iff = (
    λ h.
        let (some_early, all_early) = future_branch few _ _ _ _ _ (rw propose_branches at h) in
        (
          not_empty latest (omega arith),
          All-map (λ m. is_future config now m ≡ true) IsEarly (λ m e. ground arith) latest
              (All-of_count (is_future config now) latest all_early),
        ),
    λ (ne, early).
        let all : All (λ m. is_future config now m ≡ true) latest =
          All-map IsEarly (λ m. is_future config now m ≡ true) (λ m e. ground arith) latest early in
        let e = count-of_All (is_future config now) latest all in
        let none = candidates-none config now latest (
          All-map (λ m. is_future config now m ≡ true) (λ m. is_rejected config now m ≡ true)
            (λ m f. rw f) latest all) in
        rw (propose_branches, empty_few none) (ground (arith, pos_of_ne latest ne)),
  )

  stale-rejected :
      (m : NodeMetric F) → counts_as_stale config now m ≡ true → is_rejected config now m ≡ true
  stale-rejected m h = ground arith

  stale-not_future :
      (m : NodeMetric F) → counts_as_stale config now m ≡ true → is_future config now m ≡ false
  stale-not_future m h = ground arith

  -- `Propose` reports stale metrics exactly when there is a node and the latest window of every
  -- node is not from the future and ended longer ago than metrics stay fresh.
  pub propose_stale_iff :
      (propose config now metrics requested signals ≡ err stale_metrics)
      ↔ ((latest_by_node metrics ≢ []) × All IsOld (latest_by_node metrics))
  propose_stale_iff = (
    λ h.
        let (some_old, all_old) = stale_branch few _ _ _ _ _ (rw propose_branches at h) in
        (
          not_empty latest (omega arith),
          All-map (λ m. counts_as_stale config now m ≡ true) IsOld (λ m e. ground arith) latest
              (All-of_count (counts_as_stale config now) latest all_old),
        ),
    λ (ne, old).
        let all : All (λ m. counts_as_stale config now m ≡ true) latest =
          All-map IsOld (λ m. counts_as_stale config now m ≡ true) (λ m e. ground arith) latest
            old in
        let e = count-of_All (counts_as_stale config now) latest all in
        let no_future = count-none (is_future config now) latest (
          All-map (λ m. counts_as_stale config now m ≡ true) (λ m. is_future config now m ≡ false)
            stale-not_future latest all) in
        let none = candidates-none config now latest (
          All-map (λ m. counts_as_stale config now m ≡ true) (λ m. is_rejected config now m ≡ true)
            stale-rejected latest all) in
        rw (propose_branches, empty_few none) (ground (arith, pos_of_ne latest ne)),
  )
