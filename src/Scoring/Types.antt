-- ===== src/Scoring/Types.antt =====
-- The scorer's configuration, errors and result (scorer.go, lines 12 to 36).
use stream_pulse.Common.{ℕ, String, List}
use stream_pulse.Common.Dict.{Dict}
use stream_pulse.Time.{Time, Duration}
use stream_pulse.Domain.{NodeMetric, ExpectedDelta}

pub record Config (F : Type 0) : Type 0 where
  pub minimum_samples : ℕ
  pub stale_after : Duration
  pub future_tolerance : Duration
  pub saturation_limit : F
  pub maximum_weight_step : F
  pub benefit_margin : F

pub data ScoringError : Type 0 where
  insufficient_candidates stale_metrics future_metrics no_material_benefit : ScoringError

pub record Result (F : Type 0) : Type 0 where
  pub current : Dict F
  pub proposed : Dict F
  pub expected : ExpectedDelta F
  pub reason_codes : List String
  pub evidence : Dict (NodeMetric F)
  pub window_start : Time
  pub window_end : Time
