-- ===== src/App.antt =====
-- services/recommendation-api/internal/app/service.go: the recommendation service.
pub mod Scopes
pub mod Build
pub mod Effects
pub mod Dwell
pub mod Keys
pub mod Audit
pub mod Interleaving
pub mod Failures
pub mod Metrics
use stream_pulse.Common.{
  ℕ, String, Bool, true, false, ◌&&◌, ◌||◌, Option, none, some, List, [], ◌∷◌, ◌++◌, if◌then◌else◌,
  str_eq,
}
use stream_pulse.Common.Dict.{Dict, lookup, insert}
use stream_pulse.Common.Int.{ℤ, ltb_ℤ, leb_ℤ}
use stream_pulse.Common.Fallible.{Fallible, ok, err}
use stream_pulse.Time.{Time, Duration, sub, is_zero}
use stream_pulse.Float.{Float}
use stream_pulse.Domain.{
  Scope, scope_key, NodeMetric, Signal, Recommendation, EvaluationRequest, EvaluationResult,
  Acknowledgement, Outcome,
}
use stream_pulse.Scoring.{
  ScoringError, insufficient_candidates, stale_metrics, future_metrics, no_material_benefit, Result,
  latest_by_node, sort_by_node,
}
use Scopes.{validate_scope}
use Build.{Config, ProposalError, scoring, unexpected, Service, has_anomaly, make_recommendation}

-- The errors of the service. A failed dependency comes with the call that failed and its message.
pub data AppError : Type 0 where
  invalid_request recommendation_not_found ttl_invariant_failed : AppError
  dependency_unavailable : String → String → AppError
  scorer_failed : ProposalError → AppError

-- The world outside as one call sees it: the clock, and the answers of ClickHouse, Kafka and the
-- audit store. An answer of `none` to a write is success.
pub record Outside (F : Type 0) : Type 0 where
  pub now : Time
  pub ping : Option String
  pub history : Scope → ℤ → Fallible String (List (NodeMetric F))
  pub latest_recommendation : Scope → Fallible String (Option (Recommendation F))
  pub publish : Recommendation F → Option String
  pub acknowledge : Acknowledgement → Option String
  pub outcome : Outcome F → Option String

-- The state: `lastGenerated`, and what was published and written to the audit store so far.
pub record State (F : Type 0) : Type 0 where
  pub last_generated : Dict Time
  pub published : List (Recommendation F)
  pub acknowledged : List Acknowledgement
  pub outcomes : List (Outcome F)

abbrev pub Reply : Type 0 → Type 0
Reply F = Fallible AppError (EvaluationResult F) × State F

abbrev pub is_missing : String → Bool
is_missing a = str_eq a ""

-- `ObservedAt`, or the clock where it is the zero time
abbrev pub observed : Time → Time → Time
observed now at = if is_zero at then now else at

-- `now.Sub(last) < s.config.MinimumDwell`, where there is a last time.
abbrev pub too_soon : Config → Time → Option Time → Bool
too_soon c now none = false
too_soon c now (some last) = ltb_ℤ (sub now last) c.minimum_dwell

module _ {F : Type 0} where
  abbrev pub initial : State F
  initial = record { last_generated = []; published = []; acknowledged = []; outcomes = [] }

  -- A Go `error` alone is an option, `none` for `nil`.
  abbrev pub ready : Outside F → Option AppError
  ready o = elim o.ping [ none ↦ none | some e ↦ some (dependency_unavailable "clickhouse" e) ]

  -- The service's own `latestByNode`, which sorts
  abbrev pub sorted_latest : List (NodeMetric F) → List (NodeMetric F)
  sorted_latest metrics = sort_by_node (latest_by_node metrics)

  abbrev pub latest_of :
      Fallible String (List (NodeMetric F)) → Fallible AppError (List (NodeMetric F))
  latest_of (err e) = err (dependency_unavailable "clickhouse history" e)
  latest_of (ok metrics) = ok (sorted_latest metrics)

  unfoldable pub metrics : Service F → Outside F → Scope → Fallible AppError (List (NodeMetric F))
  unfolding validate_scope
  metrics s o scope =
      if validate_scope scope
      then latest_of (o.history scope s.config.history_windows)
      else err invalid_request

  abbrev pub found :
      Fallible String (Option (Recommendation F)) → Fallible AppError (Recommendation F)
  found (err e) = err (dependency_unavailable "clickhouse latest recommendation" e)
  found (ok none) = err recommendation_not_found
  found (ok (some recommendation)) = ok recommendation

  unfoldable pub latest : Outside F → Scope → Fallible AppError (Recommendation F)
  unfolding validate_scope
  latest o scope =
      if validate_scope scope then found (o.latest_recommendation scope) else err invalid_request

  abbrev pub declined : String → EvaluationResult F
  declined code = record { generated = false; reason_codes = code ∷ []; recommendation = none }

  abbrev pub skip : String → State F → Reply F
  skip code st = (ok (declined code), st)

  abbrev pub generated_result : Recommendation F → EvaluationResult F
  generated_result r = record {
    generated = true;
    reason_codes = r.reason_codes;
    recommendation = some r;
  }

  -- `recordGeneration`, after the publication.
  abbrev pub after_publication : Time → Recommendation F → State F → State F
  after_publication now r st = record st {
    last_generated = insert (scope_key r.scope) now st.last_generated;
    published = st.published ++ (r ∷ []);
  }

  abbrev pub created_at : Option (Recommendation F) → Option Time
  created_at none = none
  created_at (some r) = some r.created_at

  abbrev pub refused : ProposalError → State F → Reply F
  refused (scoring stale_metrics) st = skip "STALE_METRICS" st
  refused (scoring future_metrics) st = skip "FUTURE_METRICS" st
  refused (scoring insufficient_candidates) st = skip "INSUFFICIENT_HEALTHY_CANDIDATES" st
  refused (scoring no_material_benefit) st = skip "BENEFIT_MARGIN_NOT_MET" st
  refused (unexpected e) st = (err (scorer_failed (unexpected e)), st)

  abbrev pub publication : Time → Recommendation F → Option String → State F → Reply F
  publication now r none st = (ok (generated_result r), after_publication now r st)
  publication now r (some e) st = (err (dependency_unavailable "kafka publish" e), st)

  -- `recommendation.ValidUntil.Sub(recommendation.CreatedAt) != s.config.TTL`
  abbrev pub keeps_ttl : Config → Recommendation F → Bool
  keeps_ttl c r =
      leb_ℤ (sub r.valid_until r.created_at) c.ttl && leb_ℤ c.ttl (sub r.valid_until r.created_at)

module _ {F : Type 0} ⦃fl : Float F⦄ (s : Service F) (o : Outside F)
    (request : EvaluationRequest F) where
  -- The stages of `Evaluate`, each from one answer on.
  unfoldable pub evaluate_proposal :
      Dict (Signal F) → Fallible ProposalError (Result F) → State F → Reply F
  unfolding make_recommendation sub
  evaluate_proposal signals (err e) st = refused e st
  evaluate_proposal signals (ok proposal) st =
      let r = make_recommendation s o.now request.scope signals proposal in
      if keeps_ttl s.config r
      then publication o.now r (o.publish r) st
      else (err ttl_invariant_failed, st)

  unfoldable pub evaluate_latest :
      List (NodeMetric F)
      → Dict (Signal F)
      → Fallible String (Option (Recommendation F))
      → State F
      → Reply F
  unfolding evaluate_proposal sub
  evaluate_latest history signals (err e) st =
      (err (dependency_unavailable "clickhouse latest recommendation" e), st)
  evaluate_latest history signals (ok latest) st =
      if too_soon s.config o.now (created_at latest)
      then skip "MINIMUM_DWELL_ACTIVE" st
      else evaluate_proposal signals (s.propose o.now history request.current_weights signals) st

  unfoldable pub evaluate_history : Fallible String (List (NodeMetric F)) → State F → Reply F
  unfolding evaluate_latest sub
  evaluate_history (err e) st = (err (dependency_unavailable "clickhouse history" e), st)
  evaluate_history (ok []) st = skip "INSUFFICIENT_HISTORY" st
  evaluate_history (ok (m ∷ ms)) st =
      let signals = s.detect (m ∷ ms) in
      if has_anomaly signals
      then if too_soon s.config o.now (lookup (scope_key request.scope) st.last_generated)
        then skip "MINIMUM_DWELL_ACTIVE" st
        else evaluate_latest (m ∷ ms) signals (o.latest_recommendation request.scope) st
      else skip "NO_ANOMALY" st

  -- `Evaluate`
  unfoldable pub evaluate : State F → Reply F
  unfolding evaluate_history validate_scope
  evaluate st =
      if validate_scope request.scope
      then evaluate_history (o.history request.scope s.config.history_windows) st
      else (err invalid_request, st)

module _ {F : Type 0} where
  unfoldable pub acknowledge :
      Outside F → String → Acknowledgement → State F → Option AppError × State F
  acknowledge o id a st =
      if is_missing id || is_missing a.actor || is_missing a.status
      then (some invalid_request, st)
      else let written = record a {
        recommendation_id = id;
        observed_at = observed o.now a.observed_at;
      } in
        elim (o.acknowledge written) [
          | none ↦ (none, record st { acknowledged = st.acknowledged ++ (written ∷ []) })
          | some e ↦ (some (dependency_unavailable "persist acknowledgement" e), st)
        ]

  unfoldable pub record_outcome :
      Outside F → String → Outcome F → State F → Option AppError × State F
  record_outcome o id outcome st =
      if is_missing id
      then (some invalid_request, st)
      else let written = record outcome {
        recommendation_id = id;
        observed_at = observed o.now outcome.observed_at;
      } in
        elim (o.outcome written) [
          | none ↦ (none, record st { outcomes = st.outcomes ++ (written ∷ []) })
          | some e ↦ (some (dependency_unavailable "persist outcome" e), st)
        ]
