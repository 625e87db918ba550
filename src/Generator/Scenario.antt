-- ===== src/Generator/Scenario.antt =====
-- services/event-generator/internal/scenario/generator.go: the effects of the scenarios on a request.
use stream_pulse.Common.{
  String, Bool, true, false, ◌&&◌, List, [], ◌∷◌, ◌++◌, foldl, str_eq, if◌then◌else◌,
}
use stream_pulse.Common.Int.{ℤ, pos, ltb_ℤ, leb_ℤ}
use stream_pulse.Common.Sort.{sort, string_less}
use stream_pulse.Time.{Duration}
use stream_pulse.Float.{Float, ◌⊕◌, lt, nought}
use stream_pulse.Generator.Config.{Config, Scenario, add_durations}

-- The variables that the loop of `effects` carries.
pub record Effects (F : Type 0) : Type 0 where
  pub labels : List String
  pub latency_delta : F
  pub error_rate : F
  pub miss_rate : F
  pub popularity_shift : Bool
  pub pressure_rps : ℤ

module _ {F : Type 0} ⦃fl : Float F⦄ where
  abbrev pub max_float : F → F → F
  max_float a b = if lt b a then a else b

  abbrev pub no_effects : Effects F
  no_effects = record {
    labels = [];
    latency_delta = nought;
    error_rate = nought;
    miss_rate = nought;
    popularity_shift = false;
    pressure_rps = pos 0;
  }

  unfoldable pub is_active : Duration → Scenario F → Bool
  unfolding add_durations
  is_active elapsed item =
      leb_ℤ item.at elapsed && ltb_ℤ elapsed (add_durations item.at item.duration)

  abbrev pub label : Scenario F → Effects F → Effects F
  label item e = record e { labels = e.labels ++ (item.kind ∷ []) }

  abbrev pub add_latency : F → Effects F → Effects F
  add_latency ms e = record e { latency_delta = e.latency_delta ⊕ ms }

  abbrev pub raise_errors : F → Effects F → Effects F
  raise_errors rate e = record e { error_rate = max_float e.error_rate rate }

  -- The `switch`, where the scenario is active.
  unfoldable pub apply : String → String → Scenario F → Effects F → Effects F
  apply node_id network item e =
      let hits = str_eq item.target node_id in
      if str_eq item.kind "node_latency_spike"
      then if hits then label item (add_latency item.added_latency_ms e) else e
      else if str_eq item.kind "node_5xx_spike"
      then if hits then label item (raise_errors item.error_rate e) else e
      else if str_eq item.kind "isp_node_degradation"
      then if hits && str_eq item.network network
        then label item (raise_errors item.error_rate (add_latency item.added_latency_ms e))
        else e
      else if str_eq item.kind "popularity_shift"
      then label item
          (record e { popularity_shift = true; miss_rate = max_float e.miss_rate item.miss_rate })
      else if str_eq item.kind "capacity_pressure" && hits
      then label item
          (record (raise_errors item.error_rate
            (add_latency (max_float item.added_latency_ms (fl.of_nat 60)) e)) {
              pressure_rps = item.target_capacity_rps;
            })
      else e

  abbrev pub effects_step : Duration → String → String → Effects F → Scenario F → Effects F
  effects_step elapsed node_id network e item =
      if is_active elapsed item then apply node_id network item e else e

  unfoldable pub effects : Config F → Duration → String → String → Effects F
  unfolding is_active apply sort
  effects c elapsed node_id network =
      let e = foldl (effects_step elapsed node_id network) no_effects c.scenarios in
      record e { labels = sort string_less e.labels }
