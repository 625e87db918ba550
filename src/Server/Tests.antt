-- ===== src/Server/Tests.antt =====
-- A server with a few settings and stand-ins for the parsers.
use stream_pulse.Common.{
  ◌≡◌, refl, String, true, List, [], ◌∷◌, All, arith, length, str_eq, if◌then◌else◌,
}
use stream_pulse.Common.Dict.{Dict, get}
use stream_pulse.Common.Int.{pos, ◌≤ℤ◌, ◌+ℤ◌, ◌-ℤ◌}
use stream_pulse.Common.Fallible.{ok, ◌>>=◌}
use stream_pulse.Time.{Duration, max_duration}
use stream_pulse.Float.{lit}
use stream_pulse.Float.Rational.{ℚ, rational_float, Rational-IsExact}
use stream_pulse.Detection as Detection
use stream_pulse.Scoring as Scoring
use stream_pulse.Scoring.Screening.{screen}
use stream_pulse.Scoring.Weights.{normalized_current, targets, step_factor, move_weights}
use stream_pulse.Scoring.Report.{weighted_penalty}
use stream_pulse.App.Build.{Config}
use stream_pulse.App.{Outside, initial}
use stream_pulse.App.Dwell.{AreApart}
use stream_pulse.System.{assemble}
use stream_pulse.System.Safety.{IsSafe}
use stream_pulse.Samples
use stream_pulse.Samples.{now, library, fine_at, json, evaluation}
use stream_pulse.Http.{Request, serve}
use stream_pulse.Http.Runs.{serve_all}
use stream_pulse.Http.Answers.{is_documented}
use stream_pulse.Server.{
  Environment, Server, seconds, env, env_int, env_float, env_duration, split_non_empty,
  detector_config, scorer_config, service_config, click_house_config, start,
}
use stream_pulse.Server.Settings.{IsReady, start-IsReady}
use stream_pulse.Server.Safety.{server-IsSafe, server_documented}

abbrev settings : Dict String
settings =
    ("METRICS_STALE_AFTER", "2m")
    ∷ ("MINIMUM_SAMPLES", "100")
    ∷ ("SATURATION_LIMIT", "0.85")
    ∷ ("BENEFIT_MARGIN", "0.0001")
    ∷ ("ERROR_RATE_THRESHOLD", "0.02")
    ∷ ("LATENCY_BASELINE_MULTIPLE", "2")
    ∷ ("ROBUST_Z_THRESHOLD", "3")
    ∷ []

abbrev numbers : Dict ℚ
numbers =
    ("0.85", lit 85 100)
    ∷ ("0.0001", lit 1 10000)
    ∷ ("0.02", lit 2 100)
    ∷ ("2", lit 2 1)
    ∷ ("3", lit 3 1)
    ∷ []

abbrev environment : Environment ℚ
environment = record {
  getenv = λ name. get name settings "";
  trim_space = λ text. text;
  split_commas = λ text. text ∷ [];
  atoi = λ text. if str_eq text "100" then ok (pos 100) else ok (pos 15);
  itoa = λ value. "15";
  parse_float = λ text. ok (get text numbers (lit 20 100));
  format_float = λ value. "0.2";
  parse_duration = λ text. if str_eq text "2m" then ok (seconds 120) else ok (seconds 60);
  format_duration = λ value. "1m0s";
  hash = λ detector scorer config. "test";
}

abbrev detector : Detection.Config ℚ
detector = record {
  minimum_samples = 100;
  minimum_history = pos 15;
  ewma_alpha = lit 20 100;
  error_threshold = lit 2 100;
  latency_multiple = lit 2 1;
  robust_z_threshold = lit 3 1;
}

abbrev scorer : Scoring.Config ℚ
scorer = record {
  minimum_samples = 100;
  stale_after = seconds 120;
  future_tolerance = seconds 60;
  saturation_limit = lit 85 100;
  maximum_weight_step = lit 20 100;
  benefit_margin = lit 1 10000;
}

abbrev config : Config
config = record {
  history_windows = pos 15;
  ttl = seconds 60;
  minimum_dwell = seconds 60;
  query_version = "node-quality-v1";
  model_version = "rule-ewma-mad-v1";
  config_hash = "test";
}

abbrev server : Server ℚ
server = record {
  detector = detector;
  scorer = scorer;
  config = config;
  click_house = record {
    endpoint = "http://clickhouse:8123";
    user = "streampulse";
    password = "streampulse-local";
    timeout = seconds 60;
  };
  brokers = "kafka:9092" ∷ [];
  topic = "cdn.recommendations.v1";
  service = assemble config detector scorer library;
  address = ":8090";
}

started : start environment library ≡ ok server
unfolding start ◌>>=◌ env env_int env_float env_duration split_non_empty detector_config
    scorer_config service_config click_house_config
started = refl

start-IsReady_example : IsReady environment library server
start-IsReady_example = start-IsReady environment library server started

in_range :
    (text : String) (d : Duration) → environment.parse_duration text ≡ ok d → d ≤ℤ max_duration
in_range text d h = ground arith

below : ¬ (max_duration ≤ℤ server.scorer.stale_after)
below = λ h. omega arith

-- The same request twice, ninety seconds apart.
abbrev requests : List (Outside ℚ × Request)
requests = (fine_at now, evaluation) ∷ (fine_at (Samples.seconds 1090), evaluation) ∷ []

publishes_twice : length (serve_all server.service json requests initial).published ≡ 2
unfolding serve_all serve assemble screen Scoring.latest_by_node ◌+ℤ◌ ◌-ℤ◌ Scoring.propose_among
    weighted_penalty Scoring.sort_by_node normalized_current move_weights targets step_factor
publishes_twice = refl

server-IsSafe_example :
    All
      (IsSafe server.config server.detector server.scorer library)
      (serve_all server.service json requests initial).published
    × AreApart server.config.minimum_dwell
        (serve_all server.service json requests initial).published
server-IsSafe_example =
    server-IsSafe environment library in_range server started Rational-IsExact below json requests

server_documented_example :
    is_documented (serve server.service json (fine_at now) evaluation initial).0.status ≡ true
server_documented_example =
    server_documented environment library in_range server started json (fine_at now) evaluation
      initial
