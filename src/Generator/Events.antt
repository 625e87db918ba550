-- ===== src/Generator/Events.antt =====
-- services/event-generator/internal/events/events.go: the events of the three topics.
use stream_pulse.Common.{ℕ, String, Option, List}
use stream_pulse.Common.Int.{ℤ}

abbrev pub delivery_topic : String
delivery_topic = "cdn.delivery.v1"

abbrev pub routing_topic : String
routing_topic = "cdn.routing.v1"

abbrev pub player_topic : String
player_topic = "cdn.player.v1"

pub record DeliveryEvent (F : Type 0) : Type 0 where
  pub schema_version : ℕ
  pub event_id : String
  pub event_time : String
  pub ingest_time : String
  pub request_id : String
  pub session_id_hash : String
  pub content_id : String
  pub object_type : String
  pub path_template : String
  pub node_id : String
  pub location : String
  pub network_id : String
  pub cache_status : String
  pub http_status : ℕ
  pub bytes_sent : ℕ
  pub ttfb_ms : F
  pub transfer_ms : F
  pub origin_ms : F
  pub segment_duration_ms : ℕ
  pub bitrate_bps : ℕ
  pub synthetic_node_rps : ℤ
  pub synthetic_capacity_rps : ℤ
  pub synthetic_labels : List String

pub record RoutingEvent (F : Type 0) : Type 0 where
  pub schema_version : ℕ
  pub event_id : String
  pub event_time : String
  pub request_id : String
  pub candidate_nodes : List String
  pub selected_node : String
  pub policy : String
  pub quality_snapshot_age_ms : ℕ
  pub selected_weight : F
  pub fallback_level : ℕ
  pub reason_codes : List String

pub record PlayerEvent (F : Type 0) : Type 0 where
  pub schema_version : ℕ
  pub event_id : String
  pub event_time : String
  pub session_id_hash : String
  pub content_id : String
  pub event_type : String
  pub segment_sequence : ℕ
  pub selected_bitrate_bps : ℕ
  pub download_ms : F
  pub buffer_ms : F
  pub rebuffer_ms : Option F
