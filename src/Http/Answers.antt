-- ===== src/Http/Answers.antt =====
-- Which answers the HTTP interface gives, of the service with this detector and this scorer.
use stream_pulse.Common.{
  ℕ, ◌==◌, ◌≡◌, refl, inl, inr, String, Bool, true, ◌||◌, Option, none, some, List, arith,
  Bool-cases,
}
use stream_pulse.Common.Dict.{Dict}
use stream_pulse.Common.Int.{◌≤ℤ◌}
use stream_pulse.Common.Fallible.{Fallible, ok, err}
use stream_pulse.Time.{min_duration, max_duration}
use stream_pulse.Float.{Float}
use stream_pulse.Domain.{
  Scope, NodeMetric, Signal, Recommendation, EvaluationRequest, Acknowledgement, Outcome,
}
use stream_pulse.Scoring.{
  ScoringError, insufficient_candidates, stale_metrics, future_metrics, no_material_benefit, Result,
  propose,
}
use stream_pulse.Scoring as Scoring
use stream_pulse.Detection as Detection
use stream_pulse.App.Scopes.{validate_scope}
use stream_pulse.App.Build.{Config, Library, Service}
use stream_pulse.App.{
  latest_of, AppError, invalid_request, recommendation_not_found, ttl_invariant_failed,
  dependency_unavailable, scorer_failed, Outside, State, Reply, too_soon, created_at, refused,
  publication, keeps_ttl, evaluate_proposal, evaluate_latest, evaluate_history, evaluate,
}
use stream_pulse.App.Failures.{IsForeseen, FailsForeseen, IsScorers, evaluate-FailsForeseen}
use stream_pulse.App as App
use stream_pulse.System.{as_proposal, assemble}
use stream_pulse.Http.Routes.{Endpoint, Routed, not_found, method_not_allowed, found, route}
use stream_pulse.Http.Routes as Routes
use stream_pulse.Http.{
  Json, Request, Payload, decode_json, write_error, or_error, metrics_list, recommendation, result,
  handle_evaluate, handle_acknowledge, handle_outcome, handle_ready, path_id, path_scope, call,
  dispatch, serve,
}

-- 200, 204, 400, 404, 405 and 503
abbrev pub is_documented : ℕ → Bool
is_documented n = n == 200 || n == 204 || n == 400 || n == 404 || n == 405 || n == 503

pub as_proposal-IsScorers :
    {F : Type 0} (x : Fallible ScoringError (Result F)) → IsScorers (as_proposal x)
as_proposal-IsScorers (ok p) = tt
as_proposal-IsScorers (err e) = tt

write_error-is_documented :
    (F : Type 0) (e : AppError) → IsForeseen e → is_documented (write_error {F = F} e).status ≡ true
write_error-is_documented F invalid_request h = refl
write_error-is_documented F recommendation_not_found h = refl
write_error-is_documented F (dependency_unavailable at e) h = refl
write_error-is_documented F ttl_invariant_failed h = elim h [ ]
write_error-is_documented F (scorer_failed e) h = elim h [ ]

or_error-is_documented :
    {F A : Type 0} (payload : A → Payload F) (answer : Fallible AppError A)
    → FailsForeseen answer
    → is_documented (or_error payload answer).status ≡ true
or_error-is_documented payload (ok a) h = refl
or_error-is_documented payload (err e) h = write_error-is_documented _ e h

module _ {F : Type 0} where
  handle_acknowledge-is_documented :
      (o : Outside F) (id : String) (a : Option Acknowledgement) (st : State F)
      → is_documented (handle_acknowledge o id a st).0.status ≡ true
  unfolding handle_acknowledge App.acknowledge
  handle_acknowledge-is_documented o id none st = refl
  handle_acknowledge-is_documented o id (some a) st = ground arith

  handle_outcome-is_documented :
      (o : Outside F) (id : String) (outcome : Option (Outcome F)) (st : State F)
      → is_documented (handle_outcome o id outcome st).0.status ≡ true
  unfolding handle_outcome App.record_outcome
  handle_outcome-is_documented o id none st = refl
  handle_outcome-is_documented o id (some outcome) st = ground arith

  handle_ready-is_documented : (o : Outside F) → is_documented (handle_ready o).status ≡ true
  handle_ready-is_documented o = ground arith

  latest_of-FailsForeseen :
      (answer : Fallible String (List (NodeMetric F))) → FailsForeseen (latest_of answer)
  latest_of-FailsForeseen (ok metrics) = tt
  latest_of-FailsForeseen (err e) = tt

  found-FailsForeseen :
      (answer : Fallible String (Option (Recommendation F))) → FailsForeseen (App.found answer)
  found-FailsForeseen (ok none) = tt
  found-FailsForeseen (ok (some r)) = tt
  found-FailsForeseen (err e) = tt

  metrics-FailsForeseen :
      (s : Service F) (o : Outside F) (scope : Scope) → FailsForeseen (App.metrics s o scope)
  unfolding App.metrics
  metrics-FailsForeseen s o scope = elim (Bool-cases (validate_scope scope)) [
    | inl e ↦ rw e (latest_of-FailsForeseen (o.history scope s.config.history_windows))
    | inr e ↦ rw e tt
  ]

  latest-FailsForeseen : (o : Outside F) (scope : Scope) → FailsForeseen (App.latest o scope)
  unfolding App.latest
  latest-FailsForeseen o scope = elim (Bool-cases (validate_scope scope)) [
    | inl e ↦ rw e (found-FailsForeseen (o.latest_recommendation scope))
    | inr e ↦ rw e tt
  ]

module _ {F : Type 0} ⦃fl : Float F⦄ (s : Service F) (low : min_duration ≤ℤ s.config.ttl)
    (high : s.config.ttl ≤ℤ max_duration)
    (scorers : (o : Outside F) (request : EvaluationRequest F) (history : List (NodeMetric F))
        (signals : Dict (Signal F))
      → IsScorers (s.propose o.now history request.current_weights signals))
    (json : Json F) (o : Outside F) where
  handle_evaluate-is_documented :
      (request : Option (EvaluationRequest F)) (st : State F)
      → is_documented (handle_evaluate s o request st).0.status ≡ true
  unfolding handle_evaluate
  handle_evaluate-is_documented none st = refl
  handle_evaluate-is_documented (some request) st =
      or_error-is_documented result (evaluate s o request st).0
        (evaluate-FailsForeseen s low high o request st (scorers o request))

  call-is_documented :
      (e : Endpoint) (values : List String) (body : List ℕ) (st : State F)
      → is_documented (call s json o e values body st).0.status ≡ true
  unfolding call
  call-is_documented Routes.health values body st = refl
  call-is_documented Routes.ready values body st = handle_ready-is_documented o
  call-is_documented Routes.metrics values body st =
      or_error-is_documented metrics_list (App.metrics s o (path_scope values))
        (metrics-FailsForeseen s o (path_scope values))
  call-is_documented Routes.latest values body st =
      or_error-is_documented recommendation (App.latest o (path_scope values))
        (latest-FailsForeseen o (path_scope values))
  call-is_documented Routes.evaluate values body st =
      handle_evaluate-is_documented (decode_json json.evaluation json.is_end body) st
  call-is_documented Routes.acknowledge values body st =
      handle_acknowledge-is_documented o (path_id values)
        (decode_json json.acknowledgement json.is_end body) st
  call-is_documented Routes.outcome values body st =
      handle_outcome-is_documented o (path_id values) (decode_json json.outcome json.is_end body) st

  dispatch-is_documented :
      (r : Routed) (body : List ℕ) (st : State F)
      → is_documented (dispatch s json o r body st).0.status ≡ true
  dispatch-is_documented not_found body st = refl
  dispatch-is_documented method_not_allowed body st = refl
  dispatch-is_documented (found e values) body st = call-is_documented e values body st

module _ {F : Type 0} ⦃fl : Float F⦄ (config : Config) (detector : Detection.Config F)
    (scorer : Scoring.Config F) (library : Library F) (low : min_duration ≤ℤ config.ttl)
    (high : config.ttl ≤ℤ max_duration) (json : Json F) (o : Outside F) where
  -- With a time to live in the range of `Duration`, every request to the assembled service is
  -- answered with 200, 204, 400, 404, 405 or 503; the status 500 for an internal error, which the
  -- code has for a broken time to live and for an unknown error of the scorer, does not occur.
  pub never_internal_error :
      (request : Request) (st : State F)
      → is_documented (serve (assemble config detector scorer library) json o request st).0.status
        ≡ true
  unfolding serve assemble
  never_internal_error request st =
      dispatch-is_documented (assemble config detector scorer library) low high
        (λ w r history signals.
          as_proposal-IsScorers (propose scorer w.now history r.current_weights signals))
        json o (route request.method request.path) request.body st
