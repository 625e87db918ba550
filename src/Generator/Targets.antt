-- ===== src/Generator/Targets.antt =====
-- services/event-generator/internal/sink/sink.go: the sinks as a run sees them, by the answers that
-- they give to the records.
use stream_pulse.Common.{
  ℕ, String, Bool, true, false, ◌||◌, Option, List, [], ◌∷◌, ◌++◌, map, str_eq, if◌then◌else◌,
}
use stream_pulse.Common.Fallible.{Fallible, ok, err}
use stream_pulse.Generator.Config.{or_else}
use stream_pulse.Generator.Sink.{Record, Answer, Kafka, write, write_all, close}
use stream_pulse.Generator.Delivery.{idle}

-- A sink that is open: its answers to the records, by those that it took before, and to `Close`.
pub record Target : Type 0 where
  pub write : List Record → Record → Option String
  pub close : List Record → Option String

-- `jsonEnvelope`
pub record Envelope : Type 0 where
  pub topic : String
  pub key : String
  pub value : List ℕ
  pub duplicate : Bool
  pub schema_invalid : Bool

abbrev pub envelope : Record → Envelope
envelope r = record {
  topic = r.topic;
  key = r.key;
  value = r.value;
  duplicate = r.duplicate;
  schema_invalid = r.schema_invalid;
}

-- A file behind the encoder and the buffer: the answers of `Encode`, `Flush` and `Close`, by the
-- envelopes before.
pub record Output : Type 0 where
  pub encode : List Envelope → Envelope → Option String
  pub flush : List Envelope → Option String
  pub close : List Envelope → Option String

-- The closer's answer, where there is a closer
abbrev pub close_lines : Output → Bool → List Record → Option String
close_lines out true records =
    or_else (out.flush (map envelope records)) (out.close (map envelope records))
close_lines out false records = out.flush (map envelope records)

abbrev pub json_lines : Output → Bool → Target
json_lines out has_closer = record {
  write = λ before r. out.encode (map envelope before) (envelope r);
  close = close_lines out has_closer;
}

abbrev pub to_file : Fallible String Output → Fallible String Target
to_file (ok file) = ok (json_lines file true)
to_file (err e) = err e

-- `NewJSONLines`
abbrev pub new_json_lines :
    (String → Fallible String Output) → Output → String → Fallible String Target
new_json_lines create stdout path =
    if str_eq path "" || str_eq path "-"
    then ok (json_lines stdout false)
    else to_file (create path)

-- The writer of the Kafka library: its answers to `WriteMessages` in the write that follows some
-- records and in `Close`, and to its own `Close`.
pub record Writer : Type 0 where
  pub answer : List Record → Answer
  pub last : List Record → Answer
  pub close : List Record → Option String

-- The records with the writer's answers, after those in `before`
abbrev pub answered : Writer → List Record → List Record → List (Record × Answer)
answered w before [] = []
answered w before (r ∷ rs) = (r, w.answer before) ∷ answered w (before ++ (r ∷ [])) rs

-- The sink after some records
abbrev pub kafka_after : Writer → List Record → Kafka
kafka_after w records = (write_all (answered w [] records) idle).1

-- The sink after `Close`
abbrev pub kafka_closed : Writer → List Record → Option String × Kafka
kafka_closed w records = close (w.last records) (w.close records) (kafka_after w records)

abbrev pub kafka_target : Writer → Target
kafka_target w = record {
  write = λ before r. (write r (w.answer before) (kafka_after w before)).0;
  close = λ records. (kafka_closed w records).0;
}

-- The brokers of a list, without the space around them
abbrev pub trimmed : (String → String) → List String → Fallible String (List String)
trimmed trim [] = err "at least one Kafka broker is required"
trimmed trim (b ∷ bs) =
    if str_eq (trim b) ""
    then err "at least one Kafka broker is required"
    else ok (map trim (b ∷ bs))

abbrev pub to_brokers :
    (List String → Writer) → Fallible String (List String) → Fallible String Target
to_brokers connect (ok brokers) = ok (kafka_target (connect brokers))
to_brokers connect (err e) = err e

-- `NewKafka`; `strings.Split`, `strings.TrimSpace` and the library's writer are parameters.
abbrev pub new_kafka :
    (String → List String)
    → (String → String)
    → (List String → Writer)
    → String
    → Fallible String Target
new_kafka split trim connect csv = to_brokers connect (trimmed trim (split csv))
