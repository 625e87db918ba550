-- ===== src/Generator/Config.antt =====
-- services/event-generator/internal/config/config.go: the scenario file and its validation.
use stream_pulse.Common.{
  ◌*◌, ◌-◌, ◌^◌, String, Bool, not, ◌&&◌, ◌||◌, Option, none, some, List, [], ◌∷◌, length, ltb,
  str_eq, if◌then◌else◌,
}
use stream_pulse.Common.Int.{ℤ, pos, negsuc, ltb_ℤ, leb_ℤ, ◌+ℤ◌}
use stream_pulse.Common.Fallible.{Fallible, ok, err}
use stream_pulse.Time.{Time, Duration, max_duration, min_duration}
use stream_pulse.Float.{Float, le, lt, nought, one}

pub record Location : Type 0 where
  pub name : String
  pub networks : List String

pub record Node (F : Type 0) : Type 0 where
  pub id : String
  pub base_ttfb_ms : F
  pub capacity_rps : ℤ

pub record Content : Type 0 where
  pub count : ℤ
  pub popularity : String

pub record Scenario (F : Type 0) : Type 0 where
  pub at : Duration
  pub kind : String
  pub target : String
  pub network : String
  pub duration : Duration
  pub added_latency_ms : F
  pub error_rate : F
  pub miss_rate : F
  pub target_capacity_rps : ℤ

pub record Config (F : Type 0) : Type 0 where
  pub seed : ℤ
  pub start_time : String
  pub duration : Duration
  pub rate_per_second : ℤ
  pub out_of_order_max : Duration
  pub duplicate_rate : F
  pub schema_error_rate : F
  pub delivery_buckets : ℤ
  pub delivery_topic : String
  pub locations : List Location
  pub nodes : List (Node F)
  pub content : Content
  pub scenarios : List (Scenario F)

pub data ConfigError : Type 0 where
  bad_start_time : String → ConfigError
  bad_duration bad_out_of_order bad_rates bad_buckets too_few bad_location bad_node : ConfigError
  bad_timing exceeds_run bad_scenario_rates : String → ConfigError

-- The sum of two `Duration`s wraps around at 64 bits.
unfoldable pub add_durations : Duration → Duration → Duration
add_durations a b =
    let sum = a +ℤ b in
    if ltb_ℤ max_duration sum
    then sum +ℤ negsuc (2 ^ 64 - 1)
    else if ltb_ℤ sum min_duration
    then sum +ℤ pos (2 ^ 64)
    else sum

-- `if err := ...; err != nil { return err }`, and what comes after
abbrev pub or_else {ℓ} : {E : Type ℓ} → Option E → Option E → Option E
or_else (some e) rest = some e
or_else none rest = rest

-- The first error, as `return` in a loop gives it.
abbrev pub first_error {ℓ} : {A : Type ℓ} → (A → Option ConfigError) → List A → Option ConfigError
first_error f [] = none
first_error f (x ∷ xs) = or_else (f x) (first_error f xs)

-- `if bad { return e }`, and what comes after
abbrev pub guard : Bool → ConfigError → Option ConfigError → Option ConfigError
guard bad e rest = if bad then some e else rest

abbrev pub allowed : String → Bool
allowed kind =
    str_eq kind "node_latency_spike"
    || str_eq kind "node_5xx_spike"
    || str_eq kind "isp_node_degradation"
    || str_eq kind "popularity_shift"
    || str_eq kind "capacity_pressure"

abbrev pub start_error : Fallible String Time → Option ConfigError
start_error (ok start) = none
start_error (err e) = some (bad_start_time e)

abbrev pub check_location : Location → Option ConfigError
check_location l = guard (str_eq l.name "" || ltb (length l.networks) 1) bad_location none

module _ {F : Type 0} ⦃fl : Float F⦄ where
  abbrev pub valid_rate : F → Bool
  valid_rate v = le nought v && le v one

  abbrev pub check_node : Node F → Option ConfigError
  check_node n =
      guard (str_eq n.id "" || lt n.base_ttfb_ms nought || leb_ℤ n.capacity_rps (pos 0)) bad_node
        none

  unfoldable pub check_scenario : Config F → Scenario F → Option ConfigError
  unfolding add_durations
  check_scenario c s =
      guard (not (allowed s.kind) || leb_ℤ s.duration (pos 0) || ltb_ℤ s.at (pos 0))
        (bad_timing s.kind)
        (guard (ltb_ℤ c.duration (add_durations s.at s.duration)) (exceeds_run s.kind) (
          guard (not (valid_rate s.error_rate) || not (valid_rate s.miss_rate))
            (bad_scenario_rates s.kind) none))

  -- The checks of `Validate` that come before its loops.
  unfoldable pub check_settings : Config F → Option ConfigError → Option ConfigError
  check_settings c rest =
      guard (leb_ℤ c.duration (pos 0) || leb_ℤ c.rate_per_second (pos 0)) bad_duration (
        guard (ltb_ℤ c.out_of_order_max (pos 0) || ltb_ℤ (pos (30 * 10 ^ 9)) c.out_of_order_max)
          bad_out_of_order
          (guard (not (valid_rate c.duplicate_rate) || not (valid_rate c.schema_error_rate))
            bad_rates
            (guard (ltb_ℤ c.delivery_buckets (pos 0) || ltb_ℤ (pos 1024) c.delivery_buckets)
              bad_buckets
              (guard
                (ltb (length c.locations) 1
                  || ltb (length c.nodes) 1
                  || ltb_ℤ c.content.count (pos 2))
                too_few rest))))

  -- `Validate`; `time.Parse` is a parameter.
  unfoldable pub validate : (String → Fallible String Time) → Config F → Option ConfigError
  unfolding check_settings check_scenario
  validate parse_time c = or_else (start_error (parse_time c.start_time)) (
      check_settings c (
        or_else (first_error check_location c.locations)
          (or_else (first_error check_node c.nodes) (first_error (check_scenario c) c.scenarios))))

  abbrev pub delivery_key_bucket_count : Config F → ℤ
  delivery_key_bucket_count c =
      if leb_ℤ c.delivery_buckets (pos 0) && leb_ℤ (pos 0) c.delivery_buckets
      then pos 16
      else c.delivery_buckets

  abbrev pub delivery_topic_name : Config F → String
  delivery_topic_name c = if str_eq c.delivery_topic "" then "cdn.delivery.v1" else c.delivery_topic
