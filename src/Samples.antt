-- ===== src/Samples.antt =====
-- Inputs for the tests, after those of the Go tests, in rational arithmetic.
use stream_pulse.Common.{ℕ, ◌*◌, ◌^◌, String, true, none, List, [], ◌∷◌}
use stream_pulse.Common.Int.{ℤ, pos}
use stream_pulse.Common.Fallible.{ok}
use stream_pulse.Time.{Time}
use stream_pulse.Float.{lit, nought}
use stream_pulse.Float.Rational.{ℚ, rational_float}
use stream_pulse.Domain.{Scope, NodeMetric, EvaluationRequest, Acknowledgement, Outcome}
use stream_pulse.Scoring as Scoring
use stream_pulse.Detection as Detection
use stream_pulse.App.Build.{Config, Library}
use stream_pulse.App.{Outside}
use stream_pulse.Http.Routes.{post}
use stream_pulse.Http.{Json, Request}
use stream_pulse.Repository.Requests.{Wire, ClickHouse}
use stream_pulse.Repository.Rows.{Codec, MetricRow}
use stream_pulse.Publisher.{Kafka}

abbrev pub seconds : ℕ → ℤ
seconds n = pos (n * 10 ^ 9)

-- Five seconds after the end of the windows below.
abbrev pub now : Time
now = seconds 1000

abbrev pub sydney : Scope
sydney = record { location = "au-sydney"; network_id = "as-synthetic-1221" }

abbrev pub node : String → ℕ → ℕ → ℕ → NodeMetric ℚ
node id p95 errors saturation = record {
  window_start = seconds 935;
  window_end = seconds 995;
  scope = sydney;
  node_id = id;
  requests = 500;
  error_rate = lit errors 1000;
  cache_hit_rate = lit 1 2;
  origin_ms = lit 20000 1;
  p50_ttfb_ms = lit p95 1;
  p95_ttfb_ms = lit p95 1;
  p99_ttfb_ms = lit p95 1;
  saturation = lit saturation 100;
  healthy = true;
}

abbrev pub scorer : Scoring.Config ℚ
scorer = record {
  minimum_samples = 100;
  stale_after = seconds 120;
  future_tolerance = seconds 5;
  saturation_limit = lit 85 100;
  maximum_weight_step = lit 20 100;
  benefit_margin = lit 1 10000;
}

abbrev pub two_nodes : List (NodeMetric ℚ)
two_nodes = node "edge-b" 45 2 40 ∷ node "edge-a" 220 120 70 ∷ []

-- A third node, so that the median of the location is a quiet node's.
abbrev pub three_nodes : List (NodeMetric ℚ)
three_nodes = node "edge-c" 50 2 40 ∷ two_nodes

abbrev pub detector : Detection.Config ℚ
detector = record {
  minimum_samples = 100;
  minimum_history = pos 5;
  ewma_alpha = lit 20 100;
  error_threshold = lit 2 100;
  latency_multiple = lit 2 1;
  robust_z_threshold = lit 3 1;
}

abbrev pub config : Config
config = record {
  history_windows = pos 15;
  ttl = seconds 120;
  minimum_dwell = seconds 60;
  query_version = "node-quality-v1";
  model_version = "rule-ewma-mad-v1";
  config_hash = "test";
}

-- Stand-ins with the types of the library's functions.
abbrev pub library : Library ℚ
library = record {
  sha256_prefix = λ text. text;
  rfc3339_nano = λ time. "";
  decimal = λ number. "15";
  round = λ value. value;
}

-- A world in which every call succeeds.
abbrev pub fine_at : Time → Outside ℚ
fine_at time = record {
  now = time;
  ping = none;
  history = λ scope windows. ok three_nodes;
  latest_recommendation = λ scope. ok none;
  publish = λ recommendation. none;
  acknowledge = λ acknowledgement. none;
  outcome = λ outcome. none;
}

abbrev pub request : EvaluationRequest ℚ
request = record { scope = sydney; current_weights = [] }

abbrev pub accepted : Acknowledgement
accepted = record {
  recommendation_id = "";
  actor = "operator";
  status = "accepted";
  observed_at = pos 0;
}

abbrev pub no_change : Outcome ℚ
no_change = record {
  recommendation_id = "";
  observed_at = pos 0;
  observed_delta = record {
    p95_ttfb_delta_ms = nought;
    error_rate_delta = nought;
    cost_units_delta = nought;
  };
  notes = "";
}

-- Stand-ins that read any body as one and the same value.
abbrev pub json : Json ℚ
json = record {
  evaluation = λ body. ok (request, []);
  acknowledgement = λ body. ok (accepted, []);
  outcome = λ body. ok (no_change, []);
  is_end = λ rest. true;
}

abbrev pub evaluation : Request
evaluation = record { method = post; path = "v1" ∷ "recommendations" ∷ "evaluate" ∷ []; body = [] }

-- ClickHouse answers every request.
abbrev pub wire : Wire
wire = record {
  send = λ request. ok (record { status = 200; body = [] });
  parse_url = λ text. ok (record { base = text; query = [] });
  refuse_url = λ url. none;
  trimmed_text = λ body. "";
  decimal = λ number. "15";
}

abbrev pub row : String → ℕ → ℕ → ℕ → MetricRow ℚ
row id p95 errors saturation = record {
  window_start = "2026-01-01 00:15:35";
  window_end = "2026-01-01 00:16:35";
  node_id = id;
  requests = 500;
  error_rate = lit errors 1000;
  cache_hit_rate = lit 1 2;
  origin_ms = lit 20000 1;
  p50_ttfb_ms = lit p95 1;
  p95_ttfb_ms = lit p95 1;
  p99_ttfb_ms = lit p95 1;
  saturation = lit saturation 100;
}

abbrev pub three_rows : List (MetricRow ℚ)
three_rows = row "edge-c" 50 2 40 ∷ row "edge-b" 45 2 40 ∷ row "edge-a" 220 120 70 ∷ []

-- Stand-ins that read every time as the end of the windows above, and every answer as these rows.
abbrev pub codec : Codec ℚ
codec = record {
  parse_in_utc = λ layout value. ok (seconds 995);
  rfc3339_nano = λ time. "2026-01-01T00:16:35Z";
  weights = λ json. ok [];
  evidence = λ json. ok [];
  metric_rows = λ body. ok three_rows;
  recommendation_rows = λ body. ok [];
  acknowledgement = λ written. ok [];
  outcome = λ written. ok [];
}

abbrev pub kafka : Kafka ℚ
kafka = record { marshal = λ r. ok []; write_messages = λ messages. none }

abbrev pub click_house : ClickHouse
click_house = record { endpoint = "http://clickhouse:8123/"; user = "streampulse"; password = "" }
