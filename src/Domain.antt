-- ===== src/Domain.antt =====
-- services/recommendation-api/internal/domain/types.go: the records that the components exchange.
-- A Go `map[string]T` is a `Dict T`, an unsigned integer a natural number, a float an element of `F`.
use stream_pulse.Common.{ℕ, String, ◌<>◌, Bool, List, Option}
use stream_pulse.Common.Dict.{Dict}
use stream_pulse.Time.{Time}
use stream_pulse.Float.{Extended}

pub record Scope : Type 0 where
  pub location : String
  pub network_id : String

abbrev pub scope_key : Scope → String
scope_key s = (s.location <> "|") <> s.network_id

pub record NodeMetric (F : Type 0) : Type 0 where
  pub window_start : Time
  pub window_end : Time
  pub scope : Scope
  pub node_id : String
  pub requests : ℕ
  pub error_rate : F
  pub cache_hit_rate : F
  pub origin_ms : F
  pub p50_ttfb_ms : F
  pub p95_ttfb_ms : F
  pub p99_ttfb_ms : F
  pub saturation : F
  pub healthy : Bool

-- `robust_z` may be an infinity.
pub record Signal (F : Type 0) : Type 0 where
  pub node_id : String
  pub anomalous : Bool
  pub severity : F
  pub reason_codes : List String
  pub baseline_ms : F
  pub robust_z : Extended F

pub record ExpectedDelta (F : Type 0) : Type 0 where
  pub p95_ttfb_delta_ms : F
  pub error_rate_delta : F
  pub cost_units_delta : F

pub record Recommendation (F : Type 0) : Type 0 where
  pub schema_version : ℕ
  pub recommendation_id : String
  pub created_at : Time
  pub valid_until : Time
  pub mode : String
  pub scope : Scope
  pub action : String
  pub current : Dict F
  pub proposed : Dict F
  pub evidence_window : String
  pub reason_codes : List String
  pub expected : ExpectedDelta F
  pub confidence : F
  pub model_version : String
  pub revision : ℕ
  pub input_window_start : Time
  pub input_window_end : Time
  pub query_version : String
  pub config_hash : String
  pub evidence : Dict (NodeMetric F)

pub record EvaluationRequest (F : Type 0) : Type 0 where
  pub scope : Scope
  pub current_weights : Dict F

pub record EvaluationResult (F : Type 0) : Type 0 where
  pub generated : Bool
  pub reason_codes : List String
  pub recommendation : Option (Recommendation F)

pub record Acknowledgement : Type 0 where
  pub recommendation_id : String
  pub actor : String
  pub status : String
  pub observed_at : Time

pub record Outcome (F : Type 0) : Type 0 where
  pub recommendation_id : String
  pub observed_at : Time
  pub observed_delta : ExpectedDelta F
  pub notes : String
