-- ===== src/App/Build.antt =====
-- The parts of the recommendation service, and the recommendation that it makes of a proposal.
use stream_pulse.Common.{
  ℕ, ◌+◌, ◌%◌, ◌^◌, String, ◌<>◌, Bool, true, false, ◌||◌, Option, none, some, List, [], ◌∷◌, ◌++◌,
  foldl, if◌then◌else◌,
}
use stream_pulse.Common.Dict.{Dict, lookup, insert, get, values}
use stream_pulse.Common.Int.{ℤ}
use stream_pulse.Common.Fallible.{Fallible}
use stream_pulse.Common.Sort.{sort, string_less}
use stream_pulse.Time.{Time, Duration, add}
use stream_pulse.Float.{Float, ◌⊕◌, ◌⊗◌, ◌⊘◌, nought, one, lit, max, min}
use stream_pulse.Domain.{Scope, scope_key, NodeMetric, Signal, Recommendation}
use stream_pulse.Scoring.{ScoringError, Result}

pub record Config : Type 0 where
  pub history_windows : ℤ
  pub ttl : Duration
  pub minimum_dwell : Duration
  pub query_version : String
  pub model_version : String
  pub config_hash : String

-- An error of `WeightScorer`: one of the scorer's own, or another.
pub data ProposalError : Type 0 where
  scoring : ScoringError → ProposalError
  unexpected : String → ProposalError

-- What the service takes from its language's library: the hex of the first 12 bytes of a SHA-256,
-- an instant in RFC 3339 form, a decimal number, and rounding to the nearest integer.
pub record Library (F : Type 0) : Type 0 where
  pub sha256_prefix : String → String
  pub rfc3339_nano : Time → String
  pub decimal : ℤ → String
  pub round : F → F

-- `Service`, less its state and the world outside: `SignalDetector` and `WeightScorer` are interfaces.
pub record Service (F : Type 0) : Type 0 where
  pub config : Config
  pub detect : List (NodeMetric F) → Dict (Signal F)
  pub propose :
      Time → List (NodeMetric F) → Dict F → Dict (Signal F) → Fallible ProposalError (Result F)
  pub library : Library F

abbrev pub any_anomalous : {F : Type 0} → List (Signal F) → Bool
any_anomalous [] = false
any_anomalous (signal ∷ rest) = signal.anomalous || any_anomalous rest

abbrev pub has_anomaly : {F : Type 0} → Dict (Signal F) → Bool
has_anomaly signals = any_anomalous (values signals)

-- The loop of `sortedUnique` carries `seen` and `result`.
abbrev pub unique_step : Dict Bool × List String → String → Dict Bool × List String
unique_step (seen, result) value =
    if get value seen false
    then (seen, result)
    else (insert value true seen, result ++ (value ∷ []))

unfoldable pub sorted_unique : List String → List String
unfolding sort
sorted_unique values = sort string_less (foldl unique_step ([], []) values).1

module _ {F : Type 0} ⦃fl : Float F⦄ where
  -- `signals[nodeID].Severity`, 0 for a missing node
  abbrev pub severity_of : Option (Signal F) → F
  severity_of none = nought
  severity_of (some signal) = signal.severity

  -- The loop of `confidence` carries `samples`, of 64 bits, and `maxSeverity`.
  abbrev pub confidence_step : Dict (Signal F) → ℕ × F → String × NodeMetric F → ℕ × F
  confidence_step signals (samples, max_severity) (node_id, metric) = (
    (samples + metric.requests) % 2 ^ 64,
    max max_severity (severity_of (lookup node_id signals)),
  )

  unfoldable pub confidence : Library F → Dict (Signal F) → Dict (NodeMetric F) → F
  confidence library signals evidence =
      let (samples, max_severity) = foldl (confidence_step signals) (0, nought) evidence in
      let sample_factor = min one (fl.of_nat samples ⊘ fl.of_nat 3000) in
      library.round (
        min (lit 99 100) (lit 45 100 ⊕ lit 35 100 ⊗ max_severity ⊕ lit 20 100 ⊗ sample_factor)
        ⊗ fl.of_nat 1000)
      ⊘ fl.of_nat 1000

  abbrev pub recommendation_id : Library F → Scope → Time → String → String
  recommendation_id library scope window_end config_hash =
      "rec-"
      <> library.sha256_prefix
          (((scope_key scope <> "|") <> library.rfc3339_nano window_end <> "|") <> config_hash)

  unfoldable pub make_recommendation :
      Service F → Time → Scope → Dict (Signal F) → Result F → Recommendation F
  unfolding sorted_unique confidence
  make_recommendation s now scope signals proposal = record {
    schema_version = 1;
    recommendation_id = recommendation_id s.library scope proposal.window_end s.config.config_hash;
    created_at = now;
    valid_until = add now s.config.ttl;
    mode = "shadow";
    scope = scope;
    action = "adjust_node_weights";
    current = proposal.current;
    proposed = proposal.proposed;
    evidence_window = s.library.decimal s.config.history_windows <> "m";
    reason_codes = sorted_unique proposal.reason_codes;
    expected = proposal.expected;
    confidence = confidence s.library signals proposal.evidence;
    model_version = s.config.model_version;
    revision = 1;
    input_window_start = proposal.window_start;
    input_window_end = proposal.window_end;
    query_version = s.config.query_version;
    config_hash = s.config.config_hash;
    evidence = proposal.evidence;
  }
