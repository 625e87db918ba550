-- ===== src/Scoring.antt =====
-- services/recommendation-api/internal/scoring/scorer.go: the weight scorer.
mod Types
pub mod Screening
pub mod Weights
pub mod Report
mod Distinct
pub mod Newest
pub mod Sorted
pub mod Candidates
mod Evidence
pub mod Outcome
pub mod Benefit
mod Errors
pub mod Factors
mod CurrentWeights
mod Uniform
mod Targets
mod Movement
pub mod Conservation
mod Tests
pub use Types.{
  Config, ScoringError, insufficient_candidates, stale_metrics, future_metrics, no_material_benefit,
  Result,
}
unfoldable pub use Screening.{latest_map, latest_by_node, sort_by_node}
use stream_pulse.Common.{
  ℕ, String, Bool, true, false, ◌&&◌, List, [], ◌∷◌, length, ltb, ◌==◌, if◌then◌else◌,
}
use stream_pulse.Common.Dict.{Dict}
use stream_pulse.Common.Fallible.{Fallible, ok, err}
use stream_pulse.Time.{Time}
use stream_pulse.Float.{Float, lt, ◌⊖◌}
use stream_pulse.Domain.{NodeMetric, Signal}
use Screening.{Screen, screen}
use Weights.{normalized_current, targets, step_factor, move_weights}
use Report.{weighted_penalty, make_result}

-- Which error too few candidates are reported as.
unfoldable pub shortage : {F : Type 0} → Screen F → ℕ → ScoringError
shortage s latest =
    if ltb 0 s.future_count && (s.future_count == latest)
    then future_metrics
    else if ltb 0 s.stale_count && (s.stale_count == latest)
    then stale_metrics
    else insufficient_candidates

module _ {F : Type 0} ⦃fl : Float F⦄ where
  -- `Propose` from the sorted candidates on.
  unfoldable pub propose_among :
      Config F → List (NodeMetric F) → Dict F → Dict (Signal F) → Fallible ScoringError (Result F)
  propose_among config eligible requested signals =
      let current = normalized_current requested eligible in
      let target = targets eligible signals in
      let lambda = step_factor config.maximum_weight_step current target in
      let proposed = move_weights lambda current target in
      let gain = weighted_penalty eligible current ⊖ weighted_penalty eligible proposed in
      if lt gain config.benefit_margin
      then err no_material_benefit
      else ok (make_result eligible current proposed signals)

  -- `Propose`
  unfoldable pub propose :
      Config F
      → Time
      → List (NodeMetric F)
      → Dict F
      → Dict (Signal F)
      → Fallible ScoringError (Result F)
  propose config now metrics current signals =
      let latest = latest_by_node metrics in
      let s = screen config now latest in
      if ltb (length s.eligible) 2
      then err (shortage s (length latest))
      else propose_among config (sort_by_node s.eligible) current signals
