-- ===== src/Generator/RunTests.antt =====
-- A run of three requests with one node, and stand-ins for the random source and the library.
use stream_pulse.Common.{
  ℕ, suc, ◌+◌, ◌/◌, ◌≡◌, ◌≢◌, refl, String, Option, none, List, [], ◌∷◌, arith, eq_iff,
}
use stream_pulse.Common.Dict.{get}
use stream_pulse.Common.Int.{pos, pos_part}
use stream_pulse.Common.Fallible.{ok}
use stream_pulse.Float.{lit}
use stream_pulse.Float.Rational.{ℚ, rational_float}
use stream_pulse.Samples.{seconds}
use stream_pulse.Generator.Config.{delivery_topic_name}
use stream_pulse.Generator.Sink.{Record}
use stream_pulse.Generator.Events.{routing_topic, player_topic}
use stream_pulse.Generator.Draws.{Random, Tools}
use stream_pulse.Generator.Requests.{Generator, Facts, scheduled_at, facts}
use stream_pulse.Generator.Run.{run, total_requests}
use stream_pulse.Generator.Counts.{IsCounted, run-IsCounted}
use stream_pulse.Generator.Complete.{run-IsFull}
use stream_pulse.Generator.Success.{Works, IsTimely, facts-IsTimely}
use stream_pulse.Generator.Finish.{run_finishes}
use stream_pulse.Generator.Tests.{config, parse_time, valid}

-- The state counts the draws.
abbrev pub random : Random ℕ ℚ
random = record {
  below = λ n count. (0, suc count);
  uniform = λ count. (lit 1 2, suc count);
  normal = λ count. (lit 0 1, suc count);
  zipf = λ count. (1, suc count);
}

abbrev pub tools : Tools ℚ ℕ
tools = record {
  sha256_hex = λ text. text;
  sha256_first = λ text. 7;
  decimal = λ number. "1";
  padded = λ width number. "07";
  rfc3339_nano = λ time. "2026-01-01T00:00:00Z";
  round = λ value. value;
  to_int64 = λ value. pos 3;
  seconds = λ duration. lit 3 1;
  delivery = λ event. ok [];
  routing = λ event. ok [];
  player = λ event. ok [];
  unmarshal_map = λ value. ok [];
  marshal_map = λ entries. ok [];
  text_value = λ text. 0;
}

abbrev pub generator : Generator ℚ
generator = record { cfg = config; start = seconds 0; node_ids = "edge-a" ∷ [] }

works : Works ℕ ℚ ℕ random tools
works = record {
  in_range = λ n g h. omega (arith, h);
  routing = λ e. ([], refl);
  delivery = λ e. ([], refl);
  player = λ e. ([], refl);
  readable = λ e value h. ([], refl);
  marshal_map = λ d. ([], refl);
}

abbrev pub running : ℕ → Option String
running i = none

abbrev pub taken : List Record → Record → Option String
taken before r = none

run-IsCounted_example :
    IsCounted
      (delivery_topic_name generator.cfg)
      (run random tools generator running taken "" [] 0).1
run-IsCounted_example = run-IsCounted random tools generator running taken "" [] 0

run_finishes_example : (run random tools generator running taken "" [] 0).0 ≡ none
run_finishes_example =
    run_finishes random tools works generator running taken (λ i. refl) (λ before r. refl)
      parse_time "" [] 0 valid

finishes : (run random tools generator running taken "" [] 0).0 ≡ none
finishes =
    run_finishes random tools works generator running taken (λ i. refl) (λ before r. refl)
      parse_time "" [] 0 valid

not_routing : delivery_topic_name generator.cfg ≢ routing_topic
not_routing e = cc ((eq_iff (delivery_topic_name generator.cfg) routing_topic).1 e)

not_player : delivery_topic_name generator.cfg ≢ player_topic
not_player e = cc ((eq_iff (delivery_topic_name generator.cfg) player_topic).1 e)

run-IsFull_example :
    (get routing_topic
        (run random tools generator running taken "" [] 0).1.manifest.records_by_topic
        0
      ≡ pos_part (total_requests tools generator))
    × (get
          (delivery_topic_name generator.cfg)
          (run random tools generator running taken "" [] 0).1.manifest.records_by_topic
          0
        ≡ pos_part (total_requests tools generator)
          + (run random tools generator running taken "" [] 0).1.manifest.duplicate_records)
    × (get player_topic
          (run random tools generator running taken "" [] 0).1.manifest.records_by_topic
          0
        ≡ (pos_part (total_requests tools generator) + 3) / 4)
run-IsFull_example =
    run-IsFull random tools generator running taken not_routing not_player "" [] 0 finishes

facts-IsTimely_example :
    (f : Facts ℚ) × (next : ℕ) × (facts random tools generator 5 0 ≡ ok (f, next))
    × IsTimely (scheduled_at generator 5) generator.cfg.out_of_order_max f
facts-IsTimely_example = facts-IsTimely random tools works generator 5 parse_time 0 valid
