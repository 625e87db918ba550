-- ===== src/System/Safety.antt =====
-- What every published recommendation promises, of the service with this detector and this scorer.
use mathlib.Core.List.{Mem}
use stream_pulse.Common.{
  ◌≤◌, ◌≡◌, refl, sym, ap, subst, inl, inr, List, [], ◌∷◌, All, All-append, length,
}
use stream_pulse.Common.Dict.{Dict, get, map_entries, Holds}
use stream_pulse.Common.Fallible.{Fallible, ok, err}
use stream_pulse.Time.{Time, add}
use stream_pulse.Float.{Float, IsExact, ◌⊖◌, nought, one, abs, ◌≼◌}
use stream_pulse.Float.Sums.{total}
use stream_pulse.Domain.{NodeMetric, Signal, Recommendation, EvaluationRequest}
use stream_pulse.Scoring.{Result, ScoringError, propose}
use stream_pulse.Scoring as Scoring
use stream_pulse.Scoring.Candidates.{IsCandidate, CanExpire}
use stream_pulse.Scoring.Factors.{HasSeverities}
use stream_pulse.Scoring.Outcome.{propose_evidence}
use stream_pulse.Scoring.Conservation.{propose_conserves, propose_step}
use stream_pulse.Detection as Detection
use stream_pulse.Detection.Signals.{IsSound, evaluate_signals}
use stream_pulse.App.Build.{Config, Library, Service, make_recommendation}
use stream_pulse.App.{Outside, State}
use stream_pulse.App.Effects.{IsWarranted, evaluate-Effect}
use stream_pulse.App.Dwell.{
  Reaches, start, evaluated, acknowledged, outcome_recorded, acknowledge-IsSameRecord,
  record_outcome-IsSameRecord,
}
use stream_pulse.System.{as_proposal, assemble}

module _ {F : Type 0} ⦃fl : Float F⦄ where
  as_proposal-ok :
      (x : Fallible ScoringError (Result F)) (p : Result F) → as_proposal x ≡ ok p → x ≡ ok p
  as_proposal-ok (ok a) p e = cc
  as_proposal-ok (err x) p e = cc

  sound-HasSeverities : (d : Dict (Signal F)) → Holds IsSound d → HasSeverities d
  sound-HasSeverities [] h = tt
  sound-HasSeverities ((k, s) ∷ d) h = (h.0.severity_nonneg, sound-HasSeverities d h.1)

module _ {F : Type 0} ⦃fl : Float F⦄ (config : Config) (detector : Detection.Config F)
    (scorer : Scoring.Config F) (library : Library F) where
  -- A recommendation in shadow mode that lives as long as is configured, whose weights add up to 1
  -- and move by no more than the maximum step, on the evidence of at least two fit nodes.
  pub record IsSafe (r : Recommendation F) : Type 0 where
    pub shadow : r.mode ≡ "shadow"
    pub lifetime : r.valid_until ≡ add r.created_at config.ttl
    pub whole : total r.proposed ≡ one
    pub whole_current : total (map_entries (λ k _. get k r.current nought) r.proposed) ≡ one
    pub steps :
        Holds
          (λ k w. (nought ≼ w) × (abs (w ⊖ get k r.current nought) ≼ scorer.maximum_weight_step))
          r.proposed
    pub enough : 2 ≤ length r.evidence
    pub fit : Holds (λ k m. (k ≡ m.node_id) × IsCandidate scorer r.created_at m) r.evidence

module _ {F : Type 0} ⦃fl : Float F⦄ (laws : IsExact F) (config : Config)
    (detector : Detection.Config F) (scorer : Scoring.Config F) (library : Library F)
    (step_nonneg : nought ≼ scorer.maximum_weight_step)
    (can_expire : CanExpire scorer.stale_after) where
  abbrev service : Service F
  service = assemble config detector scorer library

  abbrev IsSafeHere : Recommendation F → Type 0
  IsSafeHere = IsSafe config detector scorer library

  drop_source :
      (now : Time) (history : List (NodeMetric F)) (d : Dict (NodeMetric F))
      → Holds (λ k m. (k ≡ m.node_id) × (IsCandidate scorer now m × Mem m history)) d
      → Holds (λ k m. (k ≡ m.node_id) × IsCandidate scorer now m) d
  drop_source now history [] h = tt
  drop_source now history ((k, m) ∷ d) h = ((h.0.0, h.0.1.0), drop_source now history d h.1)

  made-IsSafe :
      (now : Time) (history : List (NodeMetric F)) (p : Result F) (request : EvaluationRequest F)
      → propose scorer now history request.current_weights (Detection.evaluate detector history)
        ≡ ok p
      → IsSafeHere
          (make_recommendation service now request.scope (Detection.evaluate detector history) p)
  unfolding make_recommendation assemble
  made-IsSafe now history p request e =
      let signals = Detection.evaluate detector history in
      let severe = sound-HasSeverities signals (evaluate_signals laws detector history) in
      let (whole, same) =
        propose_conserves laws scorer now history request.current_weights signals severe p e in
      let (enough, _, fit) =
        propose_evidence scorer now history request.current_weights signals p can_expire e in
      record {
        shadow = refl;
        lifetime = refl;
        whole = whole;
        whole_current = same;
        steps =
            propose_step laws scorer now history request.current_weights signals severe p
              step_nonneg e;
        enough = enough;
        fit = drop_source now history p.evidence fit;
      }

  IsWarranted-IsSafe :
      (o : Outside F) (request : EvaluationRequest F) (st : State F) (r : Recommendation F)
      → IsWarranted service o request st r
      → IsSafeHere r
  unfolding assemble
  IsWarranted-IsSafe o request st r w = subst IsSafeHere (sym w.made) (
      made-IsSafe o.now w.history w.proposal request (
        as_proposal-ok
          (propose scorer o.now w.history request.current_weights
            (Detection.evaluate detector w.history))
          w.proposal w.proposed))

  -- In exact arithmetic, with a maximum step that is not negative and a staleness limit that is not
  -- negative and below the longest duration: after any calls of the service, one after the other,
  -- every published recommendation is in shadow mode, lives for the configured time, has weights
  -- that are not negative, add up to 1 as the current ones do, and are within the maximum step of
  -- them, and rests on at least two nodes that were fit when it was made.
  pub published_safe : (st : State F) → Reaches service st → All IsSafeHere st.published
  published_safe _ start = tt
  published_safe _ (evaluated o request st h) = elim (evaluate-Effect service o request st) [
    | inl quiet ↦ subst (λ t. All IsSafeHere t.published) (sym quiet.1) (published_safe st h)
    | inr (r, w, e) ↦
        subst (λ t. All IsSafeHere t.published) (sym (ap (λ x. x.1) e))
          (All-append IsSafeHere st.published (r ∷ []) (published_safe st h)
            (IsWarranted-IsSafe o request st r w, tt))
  ]
  published_safe _ (acknowledged o id a st h) =
      subst (All IsSafeHere) (acknowledge-IsSameRecord o id a st).0 (published_safe st h)
  published_safe _ (outcome_recorded o id outcome st h) =
      subst (All IsSafeHere) (record_outcome-IsSameRecord o id outcome st).0 (published_safe st h)
