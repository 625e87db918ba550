-- ===== src/Scoring/Outcome.antt =====
-- What `Propose` returns, error by error and for a success, over its parts.
use mathlib.Core.List.{Mem}
use stream_pulse.Common.{
  ℕ, ◌≤◌, ◌≡◌, refl, ap, ◌∙◌, false, List, [], ◌∷◌, arith, All, All-map, length, ltb, if◌then◌else◌,
}
use stream_pulse.Common.Dict.{Dict, Holds, HasDistinctKeys}
use stream_pulse.Common.Int.{pos, ◌≤ℤ◌}
use stream_pulse.Common.Fallible.{Fallible, ok, err}
use stream_pulse.Common.Sort.{length-sort, All-sort}
use stream_pulse.Time.{Time}
use stream_pulse.Float.{Float, lt, ◌⊖◌, ◌≼◌}
use stream_pulse.Domain.{NodeMetric, Signal}
use stream_pulse.Scoring.{
  Config, Result, ScoringError, no_material_benefit, propose, propose_among, shortage,
  latest_by_node,
}
use stream_pulse.Scoring.Screening.{screen, sort_by_node, node_less}
use stream_pulse.Scoring.Weights.{normalized_current, targets, step_factor, move_weights}
use stream_pulse.Scoring.Report.{weighted_penalty, make_result}
use stream_pulse.Scoring.Distinct.{
  HasDistinctNodes, latest_by_node-HasDistinctNodes, All-latest_by_node,
  sort_by_node-HasDistinctNodes,
}
use stream_pulse.Scoring.Newest.{All-mem}
use stream_pulse.Scoring.Candidates.{
  candidates, is_rejected, screen_lem, All-candidates, candidates-HasDistinctNodes,
  candidates-accepted, IsCandidate, CanExpire, accepted-IsCandidate,
}
use stream_pulse.Scoring.Evidence.{
  entries, Spans, make_result-evidence, make_result-Spans, Holds-entries, length-entries,
  entries-HasDistinctKeys,
}

All-zip {ℓ κ μ} :
    {A : Type ℓ} (P : A → Type κ) (Q : A → Type μ) (xs : List A)
    → All P xs
    → All Q xs
    → All (λ x. P x × Q x) xs
All-zip P Q [] p q = tt
All-zip P Q (x ∷ xs) p q = ((p.0, q.0), All-zip P Q xs p.1 q.1)

module _ {F : Type 0} ⦃fl : Float F⦄ (config : Config F) (now : Time)
    (metrics : List (NodeMetric F)) (requested : Dict F) (signals : Dict (Signal F)) where
  -- The candidates in the order in which they are weighed.
  abbrev pub eligible : List (NodeMetric F)
  eligible = sort_by_node (candidates config now (latest_by_node metrics))

  abbrev pub current : Dict F
  current = normalized_current requested eligible

  abbrev pub target : Dict F
  target = targets eligible signals

  abbrev pub proposed : Dict F
  proposed = move_weights (step_factor config.maximum_weight_step current target) current target

  pub eligible-HasDistinctNodes : HasDistinctNodes eligible
  eligible-HasDistinctNodes =
      sort_by_node-HasDistinctNodes _
        (candidates-HasDistinctNodes config now _ (latest_by_node-HasDistinctNodes metrics))

  pub All-eligible : (P : NodeMetric F → Type 0) → All P metrics → All P eligible
  unfolding sort_by_node
  All-eligible P h =
      All-sort node_less P _ (All-candidates config now P _ (All-latest_by_node P metrics h))

  eligible-accepted : All (λ m. is_rejected config now m ≡ false) eligible
  unfolding sort_by_node
  eligible-accepted =
      All-sort node_less (λ m. is_rejected config now m ≡ false)
        (candidates config now (latest_by_node metrics))
        (candidates-accepted config now (latest_by_node metrics))

  pub length-eligible : length eligible ≡ length (candidates config now (latest_by_node metrics))
  unfolding sort_by_node
  length-eligible = length-sort node_less (candidates config now (latest_by_node metrics))

  abbrev pub gain : F
  gain = weighted_penalty eligible current ⊖ weighted_penalty eligible proposed

  pub propose_among_lem : propose_among config eligible requested signals ≡ (
      if lt gain config.benefit_margin
      then err no_material_benefit
      else ok (make_result eligible current proposed signals))
  unfolding propose_among
  propose_among_lem = refl

  pub propose_lem : propose config now metrics requested signals ≡ (
      if ltb (length eligible) 2
      then err
          (shortage (screen config now (latest_by_node metrics)) (length (latest_by_node metrics)))
      else propose_among config eligible requested signals)
  unfolding propose
  propose_lem = rw (length-eligible, (screen_lem config now (latest_by_node metrics)).0)

  -- A success: at least two candidates, a gain of at least the margin, and the result made of them.
  pub propose-ok :
      (r : Result F)
      → propose config now metrics requested signals ≡ ok r
      → (2 ≤ length eligible)
        × (config.benefit_margin ≼ gain)
        × (r ≡ make_result eligible current proposed signals)
  propose-ok r e = split (length eligible) gain _ _ (rw (propose_lem, propose_among_lem) at e)
    where
      split :
          (n : ℕ) (g : F) (x : ScoringError) (q : Result F)
          → ◌≡◌ {A = Fallible ScoringError (Result F)}
              (if ltb n 2
                then err x
                else if lt g config.benefit_margin
                then err no_material_benefit
                else ok q)
              (ok r)
          → (2 ≤ n) × (config.benefit_margin ≼ g) × (r ≡ q)
      split n g x q h = ground arith

  -- If `Propose` succeeds, its evidence has at least two nodes, each under its own name and no two
  -- alike; the window of each is one of those given, is neither stale nor from the future, has
  -- enough requests, and is of a healthy node below the saturation limit. This holds for a
  -- `StaleAfter` that is not negative and below the longest duration.
  pub propose_evidence :
      (r : Result F)
      → CanExpire config.stale_after
      → propose config now metrics requested signals ≡ ok r
      → (2 ≤ length r.evidence)
        × HasDistinctKeys r.evidence
        × Holds (λ k m. (k ≡ m.node_id) × (IsCandidate config now m × Mem m metrics)) r.evidence
  propose_evidence r c e =
      let (enough, _, made) = propose-ok r e in
      let same : r.evidence ≡ entries eligible =
        ap (λ q. q.evidence) made
        ∙ make_result-evidence signals eligible current proposed eligible-HasDistinctNodes in
      rw same (
        omega (arith, length-entries eligible),
        entries-HasDistinctKeys eligible eligible-HasDistinctNodes,
        Holds-entries (λ m. IsCandidate config now m × Mem m metrics) eligible
            (All-zip (IsCandidate config now) (λ m. Mem m metrics) eligible
              (All-map (λ m. is_rejected config now m ≡ false) (IsCandidate config now)
                (accepted-IsCandidate config now c) eligible eligible-accepted)
              (All-eligible (λ m. Mem m metrics) (All-mem metrics))),
      )

  -- If `Propose` succeeds, and all windows start after the zero time, the window of the result
  -- spans the window of every candidate.
  pub propose-Spans :
      (r : Result F)
      → All (λ m. pos 1 ≤ℤ m.window_start) metrics
      → propose config now metrics requested signals ≡ ok r
      → All (Spans signals r) eligible
  propose-Spans r h e =
      let made = (propose-ok r e).2 in
      rw made (
        make_result-Spans signals eligible current proposed
          (All-eligible (λ m. pos 1 ≤ℤ m.window_start) h))
