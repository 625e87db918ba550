-- ===== src/Generator/Tests.antt =====
-- The generator's configuration, scenarios and sink at concrete inputs.
use stream_pulse.Common.{◌≡◌, ◌≢◌, ◌⊎◌, ◌<◌, refl, String, false, none, List, [], ◌∷◌, ◌++◌, length}
use stream_pulse.Common.Int.{pos, ◌+ℤ◌}
use stream_pulse.Common.Fallible.{Fallible, ok}
use stream_pulse.Time.{Time}
use stream_pulse.Float.{lit}
use stream_pulse.Float.Rational.{ℚ, rational_float, Rational-IsExact}
use stream_pulse.Samples.{seconds}
use stream_pulse.Generator.Config.{
  Config, Scenario, validate, check_settings, check_scenario, add_durations,
}
use stream_pulse.Generator.Scenario.{effects}
use stream_pulse.Generator.Rates.{HasRates, effects_rates}
use stream_pulse.Generator.Sink.{
  Record, Answer, taken, kafka_batch_size, message, write, write_all, flush, close,
}
use stream_pulse.Generator.Delivery.{held, messages_of, idle, delivered_once, write_keeps}

abbrev spike : Scenario ℚ
spike = record {
  at = seconds 60;
  kind = "node_5xx_spike";
  target = "edge-a";
  network = "";
  duration = seconds 60;
  added_latency_ms = lit 0 1;
  error_rate = lit 15 100;
  miss_rate = lit 0 1;
  target_capacity_rps = pos 0;
}

abbrev pub config : Config ℚ
config = record {
  seed = pos 42;
  start_time = "2026-01-01T00:00:00Z";
  duration = seconds 300;
  rate_per_second = pos 20;
  out_of_order_max = seconds 5;
  duplicate_rate = lit 1 100;
  schema_error_rate = lit 0 1;
  delivery_buckets = pos 0;
  delivery_topic = "";
  locations = record { name = "au-sydney"; networks = "as-synthetic-1221" ∷ [] } ∷ [];
  nodes = record { id = "edge-a"; base_ttfb_ms = lit 35 1; capacity_rps = pos 100 } ∷ [];
  content = record { count = pos 1000; popularity = "zipf" };
  scenarios = spike ∷ [];
}

abbrev pub parse_time : String → Fallible String Time
parse_time text = ok (seconds 0)

pub valid : validate parse_time config ≡ none
unfolding validate check_settings check_scenario add_durations ◌+ℤ◌
valid = refl

effects_rates_example : HasRates (effects config (seconds 90) "edge-a" "as-synthetic-1221")
effects_rates_example =
    effects_rates Rational-IsExact parse_time config (seconds 90) "edge-a" "as-synthetic-1221" valid

abbrev first : Record
first = record {
  topic = "cdn.delivery.v1";
  key = "a";
  value = 1 ∷ [];
  duplicate = false;
  schema_invalid = false;
}

abbrev second : Record
second = record {
  topic = "cdn.player.v1";
  key = "b";
  value = 2 ∷ [];
  duplicate = false;
  schema_invalid = false;
}

abbrev calls : List (Record × Answer)
calls = (first, taken) ∷ (second, taken) ∷ []

written : (write_all calls idle).0 ≡ none
unfolding write_all write flush
written = refl

closed : (close taken none (write_all calls idle).1).0 ≡ none
unfolding write_all write flush close
closed = refl

delivered_once_example :
    ((close taken none (write_all calls idle).1).1.log ≡ messages_of calls)
    × ((close taken none (write_all calls idle).1).1.messages ≡ [])
delivered_once_example = delivered_once calls taken none written closed

write_keeps_example :
    (((write first taken idle).0 ≡ none)
      × (held (write first taken idle).1 ≡ held idle ++ (message first ∷ []))
      × (length (write first taken idle).1.messages < kafka_batch_size))
    ⊎ (((write first taken idle).0 ≢ none)
        × ((write first taken idle).1.messages ≡ idle.messages ++ (message first ∷ [])))
write_keeps_example = write_keeps first taken idle
