-- ===== src/Generator/Sink.antt =====
-- services/event-generator/internal/sink/sink.go: the Kafka sink, which sends its messages in batches.
use stream_pulse.Common.{
  ℕ, String, Bool, Option, none, some, List, [], ◌∷◌, ◌++◌, length, ltb, if◌then◌else◌,
}

-- `events.Record`
pub record Record : Type 0 where
  pub topic : String
  pub key : String
  pub value : List ℕ
  pub duplicate : Bool
  pub schema_invalid : Bool

-- `kafka.Message`, as far as the sink fills it in
pub record Message : Type 0 where
  pub topic : String
  pub key : String
  pub value : List ℕ

-- The answer of `WriteMessages`: all messages were taken, or an error, with what was taken before it.
pub data Answer : Type 0 where
  taken : Answer
  failed : String → List Message → Answer

-- The messages that wait, and those that the brokers have.
pub record Kafka : Type 0 where
  pub messages : List Message
  pub log : List Message

abbrev pub kafka_batch_size : ℕ
kafka_batch_size = 500

abbrev pub message : Record → Message
message r = record { topic = r.topic; key = r.key; value = r.value }

abbrev pub send : Answer → Kafka → Option String × Kafka
send taken s = (none, record { messages = []; log = s.log ++ s.messages })
send (failed e some_of) s = (some e, record s { log = s.log ++ some_of })

unfoldable pub flush : Answer → Kafka → Option String × Kafka
flush answer s = if ltb (length s.messages) 1 then (none, s) else send answer s

unfoldable pub write : Record → Answer → Kafka → Option String × Kafka
unfolding flush
write r answer s =
    let next : Kafka = record s { messages = s.messages ++ (message r ∷ []) } in
    if ltb (length next.messages) kafka_batch_size then (none, next) else flush answer next

-- `Close`, with the answer of the writer's own `Close`
unfoldable pub close : Answer → Option String → Kafka → Option String × Kafka
unfolding flush
close answer close_err s =
    let (flush_err, next) = flush answer s in
    (elim flush_err [ some e ↦ some e | none ↦ close_err ], next)

-- The records of a run, up to the first error, as `Run` emits them.
unfoldable pub write_all : List (Record × Answer) → Kafka → Option String × Kafka
unfolding write
write_all [] s = (none, s)
write_all ((r, answer) ∷ rest) s =
    let (e, next) = write r answer s in
    let after = write_all rest next in elim e [ some x ↦ (some x, next) | none ↦ after ]
