-- ===== src/Wired.antt =====
-- services/recommendation-api/cmd/server/main.go: the service's world as main puts it together, of
-- the ClickHouse repository, which is the audit store too, the Kafka publisher and the clock.
mod Effects
mod Tests
use stream_pulse.Time.{Time}
use stream_pulse.Repository.Requests.{Wire, ClickHouse}
use stream_pulse.Repository.Rows.{Codec}
use stream_pulse.Repository.{
  ping, history, latest_recommendation, store_acknowledgement, store_outcome,
}
use stream_pulse.Publisher.{Kafka, publish}
use stream_pulse.App.{Outside}

module _ {F : Type 0} (c : ClickHouse) (w : Wire) (k : Codec F) (kafka : Kafka F) where
  unfoldable pub outside : Time → Outside F
  unfolding ping history latest_recommendation store_acknowledgement store_outcome publish
  outside now = record {
    now = now;
    ping = ping c w;
    history = history c w k;
    latest_recommendation = latest_recommendation c w k;
    publish = publish kafka;
    acknowledge = store_acknowledgement c w k;
    outcome = store_outcome c w k;
  }
