-- ===== src/Http/Tests.antt =====
-- The HTTP interface on concrete requests.
use stream_pulse.Common.{◌≡◌, ◌≢◌, refl, true, [], ◌∷◌, arith}
use stream_pulse.Common.Fallible.{err}
use stream_pulse.Float.Rational.{ℚ, rational_float}
use stream_pulse.Scoring.{latest_by_node, sort_by_node}
use stream_pulse.App.Build.{Service}
use stream_pulse.App.Scopes.{validate_scope}
use stream_pulse.App.{Outside, initial, evaluate}
use stream_pulse.System.{assemble}
use stream_pulse.Samples.{now, config, detector, scorer, library, fine_at, json, evaluation}
use stream_pulse.Http.Routes.{get, post, route}
use stream_pulse.Http.{Request, call, decode_json, handle_evaluate, serve}
use stream_pulse.Http.Safety.{error_keeps_state, only_post_writes}
use stream_pulse.Http.Answers.{is_documented, never_internal_error}

abbrev service : Service ℚ
service = assemble config detector scorer library

abbrev metrics_request : Request
metrics_request = record {
  method = get;
  path = "v1" ∷ "scopes" ∷ "au-sydney" ∷ "as-synthetic-1221" ∷ "metrics" ∷ [];
  body = [];
}

-- ClickHouse does not answer.
abbrev broken : Outside ℚ
broken = record (fine_at now) { history = λ scope windows. err "connection refused" }

unavailable : (serve service json broken evaluation initial).0.status ≡ 503
unfolding serve route call decode_json handle_evaluate evaluate assemble validate_scope
unavailable = refl

found_metrics : (serve service json (fine_at now) metrics_request initial).0.status ≡ 200
unfolding serve route call assemble validate_scope latest_by_node sort_by_node
found_metrics = refl

error_keeps_state_example : (serve service json broken evaluation initial).1 ≡ initial
error_keeps_state_example =
    error_keeps_state service json broken evaluation initial (omega (arith, unavailable))

get-post : get ≢ post
get-post e = cc

only_post_writes_example : (serve service json (fine_at now) metrics_request initial).1 ≡ initial
only_post_writes_example =
    only_post_writes service json (fine_at now) metrics_request initial get-post

never_internal_error_example :
    is_documented (serve service json broken evaluation initial).0.status ≡ true
never_internal_error_example =
    never_internal_error config detector scorer library (omega arith) (omega arith) json broken
      evaluation initial
