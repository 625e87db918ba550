-- ===== src/System.antt =====
-- services/recommendation-api/cmd/server/main.go: the service with the detector and the scorer of
-- this repository.
pub mod Safety
mod Tests
mod MetricsTests
use stream_pulse.Common.{ℕ, List}
use stream_pulse.Common.Dict.{Dict}
use stream_pulse.Common.Fallible.{Fallible, ok, err}
use stream_pulse.Float.{Float}
use stream_pulse.Scoring.{ScoringError, propose}
use stream_pulse.Scoring as Scoring
use stream_pulse.Detection as Detection
use stream_pulse.App.Build.{Config, ProposalError, scoring, Library, Service}

abbrev pub as_proposal {ℓ} : {A : Type ℓ} → Fallible ScoringError A → Fallible ProposalError A
as_proposal (ok a) = ok a
as_proposal (err e) = err (scoring e)

module _ {F : Type 0} ⦃fl : Float F⦄ where
  -- `app.New(...)` with `detection.New(...)` and `scoring.New(...)`.
  unfoldable pub assemble : Config → Detection.Config F → Scoring.Config F → Library F → Service F
  unfolding propose Detection.evaluate
  assemble config detector scorer library = record {
    config = config;
    detect = Detection.evaluate detector;
    propose =
        λ now metrics current signals. as_proposal (propose scorer now metrics current signals);
    library = library;
  }
