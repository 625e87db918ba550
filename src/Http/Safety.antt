-- ===== src/Http/Safety.antt =====
-- What a request to the HTTP interface can do to the service.
use stream_pulse.Common.{
  ℕ, ◌≤◌, ◌≡◌, ◌≢◌, refl, subst, inl, inr, String, Bool, true, false, Option, none, some, List, [],
  ◌∷◌, arith, All,
}
use stream_pulse.Float.{Float}
use stream_pulse.Domain.{EvaluationRequest, Acknowledgement, Outcome}
use stream_pulse.App.Build.{Service}
use stream_pulse.App.{Outside, State, AppError, is_missing, observed}
use stream_pulse.App as App
use stream_pulse.App.Effects.{evaluate-Effect}
use stream_pulse.Http.Routes.{
  Method, Endpoint, Route, Routed, not_found, method_not_allowed, found, allows, match, choose,
  select, routes, route,
}
use stream_pulse.Http.Routes as Routes
use stream_pulse.Http.{
  Json, Request, Response, decode_json, or_error, result, handle_evaluate, handle_acknowledge,
  handle_outcome, path_id, call, dispatch, serve,
}

module _ {F : Type 0} where
  -- A write without a body answers 204, and an error does not.
  abbrev Keeps : State F → Response F × State F → Type 0
  Keeps st reply = 400 ≤ reply.0.status → reply.1 ≡ st

module _ {F : Type 0} where
  handle_acknowledge-Keeps :
      (o : Outside F) (id : String) (a : Option Acknowledgement) (st : State F)
      → Keeps st (handle_acknowledge o id a st)
  unfolding handle_acknowledge App.acknowledge
  handle_acknowledge-Keeps o id none st h = refl
  handle_acknowledge-Keeps o id (some a) st h = ground arith

  handle_outcome-Keeps :
      (o : Outside F) (id : String) (outcome : Option (Outcome F)) (st : State F)
      → Keeps st (handle_outcome o id outcome st)
  unfolding handle_outcome App.record_outcome
  handle_outcome-Keeps o id none st h = refl
  handle_outcome-Keeps o id (some outcome) st h = ground arith

module _ {F : Type 0} ⦃fl : Float F⦄ (s : Service F) (o : Outside F) where
  handle_evaluate-Keeps :
      (request : Option (EvaluationRequest F)) (st : State F)
      → Keeps st (handle_evaluate s o request st)
  unfolding handle_evaluate
  handle_evaluate-Keeps none st h = refl
  handle_evaluate-Keeps (some request) st h = elim (evaluate-Effect s o request st) [
    | inl quiet ↦ quiet.1
    | inr (r, _, e) ↦
        let bad : 400 ≤ 200 = subst (λ x. 400 ≤ (or_error result x.0).status) e h in ground arith
  ]

module _ {F : Type 0} ⦃fl : Float F⦄ (s : Service F) (json : Json F) (o : Outside F) where
  call-Keeps :
      (e : Endpoint) (values : List String) (body : List ℕ) (st : State F)
      → Keeps st (call s json o e values body st)
  unfolding call
  call-Keeps Routes.health values body st h = refl
  call-Keeps Routes.ready values body st h = refl
  call-Keeps Routes.metrics values body st h = refl
  call-Keeps Routes.latest values body st h = refl
  call-Keeps Routes.evaluate values body st h =
      handle_evaluate-Keeps s o (decode_json json.evaluation json.is_end body) st h
  call-Keeps Routes.acknowledge values body st h =
      handle_acknowledge-Keeps o (path_id values)
        (decode_json json.acknowledgement json.is_end body) st h
  call-Keeps Routes.outcome values body st h =
      handle_outcome-Keeps o (path_id values) (decode_json json.outcome json.is_end body) st h

  dispatch-Keeps :
      (r : Routed) (body : List ℕ) (st : State F) → Keeps st (dispatch s json o r body st)
  dispatch-Keeps not_found body st h = refl
  dispatch-Keeps method_not_allowed body st h = refl
  dispatch-Keeps (found e values) body st h = call-Keeps e values body st h

  -- A request that is answered with a status of 400 or more leaves the service as it was.
  pub error_keeps_state :
      (request : Request) (st : State F)
      → 400 ≤ (serve s json o request st).0.status
      → (serve s json o request st).1 ≡ st
  unfolding serve
  error_keeps_state request st h =
      dispatch-Keeps (route request.method request.path) request.body st h

-- What the endpoints that take another method than POST have in common.
abbrev is_reader : Endpoint → Bool
is_reader Routes.health = true
is_reader Routes.ready = true
is_reader Routes.metrics = true
is_reader Routes.latest = true
is_reader Routes.evaluate = false
is_reader Routes.acknowledge = false
is_reader Routes.outcome = false

abbrev Reads : Routed → Type 0
Reads not_found = Unit
Reads method_not_allowed = Unit
Reads (found e values) = is_reader e ≡ true

abbrev ReadsWith : Method → Route → Type 0
ReadsWith method r = allows r.method method ≡ true → is_reader r.endpoint ≡ true

choose-Reads :
    (values : Option (List String)) (allowed : Bool) (e : Endpoint) (missed wrong : Routed)
    → (allowed ≡ true → is_reader e ≡ true)
    → Reads missed
    → Reads wrong
    → Reads (choose values allowed e missed wrong)
choose-Reads none allowed e missed wrong h m w = m
choose-Reads (some values) true e missed wrong h m w = h refl
choose-Reads (some values) false e missed wrong h m w = w

select-Reads :
    (method : Method) (path : List String) (known : Bool) (rs : List Route)
    → All (ReadsWith method) rs
    → Reads (select method path known rs)
select-Reads method path true [] h = tt
select-Reads method path false [] h = tt
select-Reads method path known (r ∷ rs) h =
    choose-Reads (match r.pattern path) (allows r.method method) r.endpoint
      (select method path known rs) (select method path true rs) h.0
      (select-Reads method path known rs h.1) (select-Reads method path true rs h.1)

not-post :
    (method : Method) → method ≢ Routes.post → allows Routes.post method ≡ true → false ≡ true
not-post Routes.get h e = e
not-post Routes.head h e = e
not-post Routes.post h e = elim (h refl) [ ]
not-post Routes.other h e = e

routes-ReadsWith : (method : Method) → method ≢ Routes.post → All (ReadsWith method) routes
routes-ReadsWith method h =
    let never = not-post method h in
    (λ _. refl, (λ _. refl, (λ _. refl, (λ _. refl, (never, (never, (never, tt)))))))

module _ {F : Type 0} ⦃fl : Float F⦄ (s : Service F) (json : Json F) (o : Outside F) where
  call-reader :
      (e : Endpoint) (values : List String) (body : List ℕ) (st : State F)
      → is_reader e ≡ true
      → (call s json o e values body st).1 ≡ st
  unfolding call
  call-reader Routes.health values body st h = refl
  call-reader Routes.ready values body st h = refl
  call-reader Routes.metrics values body st h = refl
  call-reader Routes.latest values body st h = refl
  call-reader Routes.evaluate values body st h = cc
  call-reader Routes.acknowledge values body st h = cc
  call-reader Routes.outcome values body st h = cc

  dispatch-reader :
      (r : Routed) (body : List ℕ) (st : State F) → Reads r → (dispatch s json o r body st).1 ≡ st
  dispatch-reader not_found body st h = refl
  dispatch-reader method_not_allowed body st h = refl
  dispatch-reader (found e values) body st h = call-reader e values body st h

  -- A request with another method than POST leaves the service as it was.
  pub only_post_writes :
      (request : Request) (st : State F)
      → request.method ≢ Routes.post
      → (serve s json o request st).1 ≡ st
  unfolding serve route
  only_post_writes request st h =
      dispatch-reader (route request.method request.path) request.body st
        (select-Reads request.method request.path false routes (routes-ReadsWith request.method h))
