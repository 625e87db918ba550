-- ===== src/Http.antt =====
-- services/recommendation-api/internal/httpapi/handler.go: the HTTP interface of the service.
pub mod Routes
pub mod Safety
pub mod Answers
pub mod Runs
mod Tests
use stream_pulse.Common.{
  ℕ, zero, suc, ◌^◌, String, ◌<>◌, Bool, true, false, ◌&&◌, Option, none, some, List, [], ◌∷◌,
  if◌then◌else◌, take,
}
use stream_pulse.Common.Fallible.{Fallible, ok, err}
use stream_pulse.Float.{Float}
use stream_pulse.Domain.{
  Scope, NodeMetric, Recommendation, EvaluationRequest, EvaluationResult, Acknowledgement, Outcome,
}
use stream_pulse.App.Build.{Service}
use stream_pulse.App.{
  AppError, invalid_request, recommendation_not_found, ttl_invariant_failed, dependency_unavailable,
  scorer_failed, Outside, State,
}
use stream_pulse.App as App
use Routes.{Method, Endpoint, Routed, route}
use Routes as Routes

-- `encoding/json`: each decoder gives a value and the bytes after it, and refuses unknown fields.
-- `is_end` tells whether another `Decode` of these bytes answers `io.EOF`.
pub record Json (F : Type 0) : Type 0 where
  pub evaluation : List ℕ → Fallible String (EvaluationRequest F × List ℕ)
  pub acknowledgement : List ℕ → Fallible String (Acknowledgement × List ℕ)
  pub outcome : List ℕ → Fallible String (Outcome F × List ℕ)
  pub is_end : List ℕ → Bool

-- What a handler gives to `writeJSON`, that it writes no body, or the mux's own text.
pub data Payload (F : Type 0) : Type 0 where
  empty mux_text : Payload F
  status_text error_text : String → Payload F
  metrics_list : List (NodeMetric F) → Payload F
  recommendation : Recommendation F → Payload F
  result : EvaluationResult F → Payload F

pub record Response (F : Type 0) : Type 0 where
  pub status : ℕ
  pub payload : Payload F

pub record Request : Type 0 where
  pub method : Method
  pub path : List String
  pub body : List ℕ

-- `decodeJSON`: of the first `1<<20` bytes, one value and nothing after it.
unfoldable pub decode_json :
    {A : Type 0} → (List ℕ → Fallible String (A × List ℕ)) → (List ℕ → Bool) → List ℕ → Option A
decode_json decode is_end body = elim (decode (take (2 ^ 20) body)) [
  | err e ↦ none
  | ok (value, rest) ↦ if is_end rest then some value else none
]

-- `err.Error()` of an error of the service.
abbrev pub message : AppError → String
message invalid_request = "invalid request"
message recommendation_not_found = "recommendation not found"
message ttl_invariant_failed = "internal TTL invariant failed"
message (dependency_unavailable call e) = "dependency unavailable: " <> (call <> (": " <> e))
message (scorer_failed e) = "scorer failed"

-- `pathScope`, of the values of the wildcards
abbrev pub path_scope : List String → Scope
path_scope (location ∷ network ∷ _) = record { location = location; network_id = network }
path_scope (location ∷ []) = record { location = location; network_id = "" }
path_scope [] = record { location = ""; network_id = "" }

abbrev pub path_id : List String → String
path_id (id ∷ _) = id
path_id [] = ""

module _ {F : Type 0} where
  abbrev pub respond : ℕ → Payload F → Response F
  respond status payload = record { status = status; payload = payload }

  -- `writeError`
  abbrev pub write_error : AppError → Response F
  write_error invalid_request = respond 400 (error_text (message invalid_request))
  write_error recommendation_not_found = respond 404 (error_text (message recommendation_not_found))
  write_error (dependency_unavailable call e) =
      respond 503 (error_text (message (dependency_unavailable call e)))
  write_error ttl_invariant_failed = respond 500 (error_text "internal error")
  write_error (scorer_failed e) = respond 500 (error_text "internal error")

  abbrev pub bad_body : Response F
  bad_body = respond 400 (error_text "invalid JSON body")

  abbrev pub or_error {ℓ} : {A : Type ℓ} → (A → Payload F) → Fallible AppError A → Response F
  or_error payload (ok a) = respond 200 (payload a)
  or_error payload (err e) = write_error e

  abbrev pub no_content : Option AppError → Response F
  no_content none = respond 204 empty
  no_content (some e) = write_error e

  abbrev pub handle_ready : Outside F → Response F
  handle_ready o = elim (App.ready o) [
    | none ↦ respond 200 (status_text "ready")
    | some e ↦ write_error e
  ]

-- A handler takes the body and the state.
module _ {F : Type 0} where
  unfoldable pub handle_acknowledge :
      Outside F → String → Option Acknowledgement → State F → Response F × State F
  unfolding App.acknowledge
  handle_acknowledge o id none st = (bad_body, st)
  handle_acknowledge o id (some a) st =
      let (answer, next) = App.acknowledge o id a st in (no_content answer, next)

  unfoldable pub handle_outcome :
      Outside F → String → Option (Outcome F) → State F → Response F × State F
  unfolding App.record_outcome
  handle_outcome o id none st = (bad_body, st)
  handle_outcome o id (some outcome) st =
      let (answer, next) = App.record_outcome o id outcome st in (no_content answer, next)

module _ {F : Type 0} ⦃fl : Float F⦄ (s : Service F) (o : Outside F) where
  unfoldable pub handle_evaluate : Option (EvaluationRequest F) → State F → Response F × State F
  unfolding App.evaluate
  handle_evaluate none st = (bad_body, st)
  handle_evaluate (some request) st =
      let (answer, next) = App.evaluate s o request st in (or_error result answer, next)

module _ {F : Type 0} ⦃fl : Float F⦄ (s : Service F) (json : Json F) (o : Outside F) where
  unfoldable pub call : Endpoint → List String → List ℕ → State F → Response F × State F
  unfolding App.metrics App.latest decode_json handle_evaluate handle_acknowledge handle_outcome
  call Routes.health values body st = (respond 200 (status_text "ok"), st)
  call Routes.ready values body st = (handle_ready o, st)
  call Routes.metrics values body st =
      (or_error metrics_list (App.metrics s o (path_scope values)), st)
  call Routes.latest values body st =
      (or_error recommendation (App.latest o (path_scope values)), st)
  call Routes.evaluate values body st =
      handle_evaluate s o (decode_json json.evaluation json.is_end body) st
  call Routes.acknowledge values body st =
      handle_acknowledge o (path_id values) (decode_json json.acknowledgement json.is_end body) st
  call Routes.outcome values body st =
      handle_outcome o (path_id values) (decode_json json.outcome json.is_end body) st

  abbrev pub dispatch : Routed → List ℕ → State F → Response F × State F
  dispatch Routes.not_found body st = (respond 404 mux_text, st)
  dispatch Routes.method_not_allowed body st = (respond 405 mux_text, st)
  dispatch (Routes.found endpoint values) body st = call endpoint values body st

  -- One request to the handler that `New` returns, on a path that the mux has cleaned.
  unfoldable pub serve : Request → State F → Response F × State F
  unfolding route call
  serve request st = dispatch (route request.method request.path) request.body st
