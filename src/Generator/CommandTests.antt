-- ===== src/Generator/CommandTests.antt =====
-- The command on a host that has the configuration of the tests in a file.
use stream_pulse.Common.{ℕ, ◌≡◌, ◌≢◌, refl, String, Option, none, List, [], ◌∷◌, map, false}
use stream_pulse.Common.Int.{pos}
use stream_pulse.Common.Fallible.{ok, err, ◌>>=◌}
use stream_pulse.Float.Rational.{ℚ, rational_float}
use stream_pulse.Generator.Config.{Config, validate}
use stream_pulse.Generator.Sink.{taken, write, write_all, close}
use stream_pulse.Generator.Targets.{Output, Writer, json_lines, kafka_target, kafka_closed}
use stream_pulse.Generator.Delivery.{content}
use stream_pulse.Generator.Delivered.{command_delivers}
use stream_pulse.Generator.Run.{Progress, run}
use stream_pulse.Generator.Command.{
  Flags, outside, Host, validated, load, validated_if, configure, open_target, command,
}
use stream_pulse.Generator.Written.{IsWritten, command-IsWritten}
use stream_pulse.Generator.Tests.{config, parse_time}
use stream_pulse.Generator.RunTests.{random, tools, running, generator}

abbrev output : Output
output = record { encode = λ before line. none; flush = λ lines. none; close = λ lines. none }

-- The broker takes every batch.
abbrev writer : Writer
writer = record { answer = λ before. taken; last = λ records. taken; close = λ records. none }

abbrev host : Host ℕ ℚ
host = record {
  read_file = λ path. ok [];
  parse_yaml = λ raw. ok config;
  parse_time = parse_time;
  parse_int = λ text. ok (pos 7);
  getenv = λ key. "";
  create = λ path. ok output;
  stdout = output;
  split_commas = λ text. text ∷ [];
  trim_space = λ text. text;
  connect = λ brokers. writer;
  done = running;
  seeded = λ cfg. 0;
  dir_of = λ path. ".";
  make_dirs = λ path. none;
  marshal_indent = λ manifest. ok [];
  write_file = λ path raw. none;
}

abbrev flags : Flags
flags = record {
  config = "baseline.yaml";
  output = "jsonl";
  output_file = "-";
  brokers = "";
  manifest = "run-manifest.json";
  git_commit = "";
  start_time = "";
  seed = "7";
  delivery_topic = "trial";
}

abbrev cfg : Config ℚ
cfg = record config { seed = pos 7; delivery_topic = "trial" }

configure_overrides : configure host flags ≡ ok cfg
unfolding configure load validated validated_if validate ◌>>=◌ stream_pulse.Common.Int.◌+ℤ◌
configure_overrides = refl

abbrev progress : Progress
progress =
    (run random tools (record generator { cfg = cfg }) running (json_lines output false).write "" []
      0).1

succeeds : command host random tools flags ≡ ok (cfg, progress)
unfolding command configure load validated validated_if validate open_target ◌>>=◌ run
    stream_pulse.Generator.Draws.◌>>=◌
succeeds = refl

command-IsWritten_example : IsWritten host tools "run-manifest.json" cfg progress
command-IsWritten_example = command-IsWritten host random tools flags cfg progress succeeds

-- Without a broker there is no run, and no manifest.
stops_early :
    command host random tools (record flags { output = "kafka" })
    ≡ err (outside "at least one Kafka broker is required")
unfolding command configure load validated validated_if validate open_target ◌>>=◌
    stream_pulse.Common.Int.◌+ℤ◌
stops_early = refl

abbrev to_kafka : Flags
to_kafka = record flags { output = "kafka"; brokers = "localhost:9092" }

abbrev sent : Progress
sent =
    (run random tools (record generator { cfg = cfg }) running (kafka_target writer).write "" []
      0).1

sends : command host random tools to_kafka ≡ ok (cfg, sent)
unfolding command configure load validated validated_if validate open_target ◌>>=◌ run
    stream_pulse.Generator.Draws.◌>>=◌ write write_all close
sends = refl

command_delivers_example :
    (first : String) × (others : List String) × (host.split_commas to_kafka.brokers
      ≡ first ∷ others)
    × (host.trim_space first ≢ "")
    × ((kafka_closed (host.connect (map host.trim_space (first ∷ others))) sent.emitted).1.log
        ≡ map content sent.emitted)
    × ((kafka_closed (host.connect (map host.trim_space (first ∷ others))) sent.emitted).1.messages
        ≡ [])
command_delivers_example = command_delivers host random tools to_kafka cfg sent refl sends
