-- ===== src/Generator/Records.antt =====
-- services/event-generator/internal/scenario/generator.go, lines 150 to 250: the events of a request,
-- and the records that are made of them.
use stream_pulse.Common.{
  ℕ, ◌+◌, ◌/◌, ◌%◌, String, ◌<>◌, Bool, true, false, none, some, List, [], ◌∷◌, ◌++◌, length, ◌==◌,
  if◌then◌else◌,
}
use stream_pulse.Common.Dict.{Dict, insert}
use stream_pulse.Common.Int.{pos}
use stream_pulse.Common.Fallible.{Fallible, ok, err}
use stream_pulse.Float.{Float, ◌⊕◌, ◌⊖◌, ◌⊗◌, ◌⊘◌, lt, nought, one, max}
use stream_pulse.Generator.Config.{delivery_topic_name, delivery_key_bucket_count}
use stream_pulse.Generator.Sink.{Record}
use stream_pulse.Generator.Events.{
  DeliveryEvent, RoutingEvent, PlayerEvent, routing_topic, player_topic,
}
use stream_pulse.Generator.Draws.{Random, Tools, Draw, ◌>>=◌, pure, draw, attempt, index, divide}
use stream_pulse.Generator.Requests.{
  Generator, Facts, max_int, deterministic_id, stable_bucket, round3, facts,
}

abbrev pub bitrates : List ℕ
bitrates = 800000 ∷ 1500000 ∷ 3000000 ∷ []

abbrev pub plain : String → String → List ℕ → Record
plain topic key value = record {
  topic = topic;
  key = key;
  value = value;
  duplicate = false;
  schema_invalid = false;
}

-- The records of the routing and the delivery, of the player, and of a duplicate delivery.
abbrev pub records_of : Record → Record → List Record → Bool → List Record
records_of routing delivery player again =
    routing
    ∷ delivery
    ∷ (player ++ (if again then record delivery { duplicate = true } ∷ [] else []))

module _ {F J : Type 0} (t : Tools F J) where
  -- `broken["cache_status"] = "HOT"`
  abbrev pub break_status : Fallible String (Dict J) → Fallible String (List ℕ)
  break_status (ok broken) = t.marshal_map (insert "cache_status" (t.text_value "HOT") broken)
  break_status (err e) = err e

  abbrev pub delivery_value_of : Bool → List ℕ → Fallible String (List ℕ)
  delivery_value_of true value = break_status (t.unmarshal_map value)
  delivery_value_of false value = ok value

module _ {F J : Type 0} ⦃fl : Float F⦄ (t : Tools F J) (g : Generator F) (i : ℕ) where
  abbrev pub routing_event : Facts F → ℕ → RoutingEvent F
  routing_event f age = record {
    schema_version = 1;
    event_id = deterministic_id t g.cfg.seed (pos i) "routing";
    event_time = t.rfc3339_nano f.event_time;
    request_id = f.request_id;
    candidate_nodes = g.node_ids;
    selected_node = f.node.id;
    policy = "static-rendezvous";
    quality_snapshot_age_ms = age;
    selected_weight = one ⊘ fl.of_nat (length g.cfg.nodes);
    fallback_level = 0;
    reason_codes = "SYNTHETIC_BASELINE" ∷ [];
  }

  abbrev pub delivery_event : Facts F → ℕ → F → ℕ → DeliveryEvent F
  unfolding divide
  delivery_event f extra noise bitrate = record {
    schema_version = 1;
    event_id = deterministic_id t g.cfg.seed (pos i) "delivery";
    event_time = t.rfc3339_nano f.event_time;
    ingest_time = t.rfc3339_nano f.scheduled;
    request_id = f.request_id;
    session_id_hash = f.session;
    content_id = f.content_id;
    object_type = "segment";
    path_template = "/hls/{content_id}/{rendition}/{segment}.m4s";
    node_id = f.node.id;
    location = f.location.name;
    network_id = f.network;
    cache_status = f.cache_status;
    http_status = f.http_status;
    bytes_sent = 180000 + extra;
    ttfb_ms = round3 t f.ttfb;
    transfer_ms = round3 t (max one (fl.of_nat 30 ⊕ noise ⊗ fl.of_nat 5));
    origin_ms = round3 t f.origin;
    segment_duration_ms = 2000;
    bitrate_bps = bitrate;
    synthetic_node_rps =
        max_int (divide g.cfg.rate_per_second (pos (length g.cfg.nodes))) f.pressure_rps;
    synthetic_capacity_rps = f.node.capacity_rps;
    synthetic_labels = f.labels;
  }

  abbrev pub player_event : Facts F → DeliveryEvent F → PlayerEvent F
  player_event f delivery = record {
    schema_version = 1;
    event_id = deterministic_id t g.cfg.seed (pos i) "player";
    event_time = t.rfc3339_nano f.event_time;
    session_id_hash = f.session;
    content_id = f.content_id;
    event_type = "segment_complete";
    segment_sequence = i / 4;
    selected_bitrate_bps = delivery.bitrate_bps;
    download_ms = round3 t (f.ttfb ⊕ delivery.transfer_ms);
    buffer_ms = round3 t (max nought (fl.of_nat 8000 ⊖ f.ttfb));
    rebuffer_ms =
        if lt (fl.of_nat 120) f.ttfb then some (round3 t (f.ttfb ⊖ fl.of_nat 120)) else none;
  }

  abbrev pub delivery_key : Facts F → String
  delivery_key f =
      f.location.name
      <> ("|"
          <> (f.network
              <> ("|"
                  <> t.padded 2
                      (pos (stable_bucket t f.session (delivery_key_bucket_count g.cfg))))))

  unfoldable pub players : {G : Type 0} → Facts F → DeliveryEvent F → Bool → Draw G (List Record)
  unfolding pure attempt
  players f delivery true = do
    value ← attempt (t.player (player_event f delivery))
    pure (plain player_topic f.session value ∷ [])
  players f delivery false = pure []

module _ {G F J : Type 0} ⦃fl : Float F⦄ (random : Random G F) (t : Tools F J) (g : Generator F)
    (i : ℕ) where
  -- `generateRequest`
  unfoldable pub generate_request : Draw G (List Record)
  unfolding pure draw attempt index facts players divide
  generate_request = do
    f ← facts random t g i
    age ← draw (random.below 1000)
    extra ← draw (random.below 900000)
    noise ← draw random.normal
    choice ← draw (random.below 3)
    bitrate ← index bitrates choice
    let delivery = delivery_event t g i f extra noise bitrate
    routing_value ← attempt (t.routing (routing_event t g i f age))
    delivery_value ← attempt (t.delivery delivery)
    schema_luck ← draw random.uniform
    let invalid = lt schema_luck g.cfg.schema_error_rate
    value ← attempt (delivery_value_of t invalid delivery_value)
    player ← players t g i f delivery (i % 4 == 0)
    luck ← draw random.uniform
    pure (
        records_of (plain routing_topic f.request_id routing_value)
          (record {
            topic = delivery_topic_name g.cfg;
            key = delivery_key t g i f;
            value = value;
            duplicate = false;
            schema_invalid = invalid;
          })
          player (lt luck g.cfg.duplicate_rate))
