-- ===== src/Publisher.antt =====
-- services/recommendation-api/internal/publisher/kafka.go: the recommendations on their Kafka topic.

use stream_pulse.Common.{ℕ, String, Option, some, List, [], ◌∷◌}
use stream_pulse.Common.Fallible.{Fallible, ok, err}
use stream_pulse.Time.{Time}
use stream_pulse.Domain.{scope_key, Recommendation}

-- What the publisher takes from outside: `json.Marshal`, and the Kafka library's writer, which sends
-- a list of messages or returns an error. Messages with one key go to one partition.
pub record Message : Type 0 where
  pub key : String
  pub value : List ℕ
  pub time : Time

pub record Kafka (F : Type 0) : Type 0 where
  pub marshal : Recommendation F → Fallible String (List ℕ)
  pub write_messages : List Message → Option String

module _ {F : Type 0} (kafka : Kafka F) where
  abbrev pub message_of : Recommendation F → List ℕ → Message
  message_of r payload = record { key = scope_key r.scope; value = payload; time = r.created_at }

  abbrev pub write_payload : Recommendation F → Fallible String (List ℕ) → Option String
  write_payload r (err e) = some e
  write_payload r (ok payload) = kafka.write_messages (message_of r payload ∷ [])

  unfoldable pub publish : Recommendation F → Option String
  publish r = write_payload r (kafka.marshal r)
