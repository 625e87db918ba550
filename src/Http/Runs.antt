-- ===== src/Http/Runs.antt =====
-- Many requests to the HTTP interface, one after the other.
use stream_pulse.Common.{ℕ, String, Option, none, some, List, [], ◌∷◌}
use stream_pulse.Float.{Float}
use stream_pulse.Domain.{EvaluationRequest, Acknowledgement, Outcome}
use stream_pulse.App.Build.{Service}
use stream_pulse.App.{Outside, State}
use stream_pulse.App.Dwell.{Reaches, evaluated, acknowledged, outcome_recorded}
use stream_pulse.Http.Routes.{Endpoint, Routed, not_found, method_not_allowed, found, route}
use stream_pulse.Http.Routes as Routes
use stream_pulse.Http.{
  Json, Request, decode_json, handle_evaluate, handle_acknowledge, handle_outcome, path_id, call,
  dispatch, serve,
}

module _ {F : Type 0} ⦃fl : Float F⦄ (s : Service F) (json : Json F) where
  -- The state after the requests, each with the world outside as it answers during the request.
  unfoldable pub serve_all : List (Outside F × Request) → State F → State F
  unfolding serve
  serve_all [] st = st
  serve_all ((o, request) ∷ rest) st = serve_all rest (serve s json o request st).1

  handle_evaluate-Reaches :
      (o : Outside F) (request : Option (EvaluationRequest F)) (st : State F)
      → Reaches s st
      → Reaches s (handle_evaluate s o request st).1
  unfolding handle_evaluate
  handle_evaluate-Reaches o none st h = h
  handle_evaluate-Reaches o (some request) st h = evaluated o request st h

  handle_acknowledge-Reaches :
      (o : Outside F) (id : String) (a : Option Acknowledgement) (st : State F)
      → Reaches s st
      → Reaches s (handle_acknowledge o id a st).1
  unfolding handle_acknowledge
  handle_acknowledge-Reaches o id none st h = h
  handle_acknowledge-Reaches o id (some a) st h = acknowledged o id a st h

  handle_outcome-Reaches :
      (o : Outside F) (id : String) (outcome : Option (Outcome F)) (st : State F)
      → Reaches s st
      → Reaches s (handle_outcome o id outcome st).1
  unfolding handle_outcome
  handle_outcome-Reaches o id none st h = h
  handle_outcome-Reaches o id (some outcome) st h = outcome_recorded o id outcome st h

  call-Reaches :
      (o : Outside F) (e : Endpoint) (values : List String) (body : List ℕ) (st : State F)
      → Reaches s st
      → Reaches s (call s json o e values body st).1
  unfolding call
  call-Reaches o Routes.health values body st h = h
  call-Reaches o Routes.ready values body st h = h
  call-Reaches o Routes.metrics values body st h = h
  call-Reaches o Routes.latest values body st h = h
  call-Reaches o Routes.evaluate values body st h =
      handle_evaluate-Reaches o (decode_json json.evaluation json.is_end body) st h
  call-Reaches o Routes.acknowledge values body st h =
      handle_acknowledge-Reaches o (path_id values)
        (decode_json json.acknowledgement json.is_end body) st h
  call-Reaches o Routes.outcome values body st h =
      handle_outcome-Reaches o (path_id values) (decode_json json.outcome json.is_end body) st h

  dispatch-Reaches :
      (o : Outside F) (r : Routed) (body : List ℕ) (st : State F)
      → Reaches s st
      → Reaches s (dispatch s json o r body st).1
  dispatch-Reaches o not_found body st h = h
  dispatch-Reaches o method_not_allowed body st h = h
  dispatch-Reaches o (found e values) body st h = call-Reaches o e values body st h

  serve-Reaches :
      (o : Outside F) (request : Request) (st : State F)
      → Reaches s st
      → Reaches s (serve s json o request st).1
  unfolding serve
  serve-Reaches o request st h =
      dispatch-Reaches o (route request.method request.path) request.body st h

  pub serve_all-Reaches :
      (requests : List (Outside F × Request)) (st : State F)
      → Reaches s st
      → Reaches s (serve_all requests st)
  unfolding serve_all
  serve_all-Reaches [] st h = h
  serve_all-Reaches ((o, request) ∷ rest) st h =
      serve_all-Reaches rest (serve s json o request st).1 (serve-Reaches o request st h)
