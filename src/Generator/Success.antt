-- ===== src/Generator/Success.antt =====
-- When a request's records are made without an error, and when its event takes place.
use native.Mathlib.Nat.{mod-lt}
use stream_pulse.Common.{
  ℕ, ◌+◌, ◌%◌, ◌≤◌, ◌<◌, ◌≡◌, refl, inl, inr, String, Bool, true, false, Option, none, List, [],
  ◌∷◌, length, All, All-map, arith, Bool-cases,
}
use stream_pulse.Common.Dict.{Dict}
use stream_pulse.Common.Int.{pos, ltb_ℤ, ◌≤ℤ◌, ◌+ℤ◌, ◌-ℤ◌, -ℤ_parts, +ℤ_parts, pos_part}
use stream_pulse.Common.Fallible.{Fallible, ok}
use stream_pulse.Time.{Time, Duration}
use stream_pulse.Float.{Float}
use stream_pulse.Generator.Config.{Config, Location, check_location, check_settings, validate}
use stream_pulse.Generator.Rates.{or_else-none, first_error-All, check_settings-none}
use stream_pulse.Generator.Events.{DeliveryEvent, RoutingEvent, PlayerEvent}
use stream_pulse.Generator.Draws.{Random, Tools, draw}
use stream_pulse.Generator.Promises.{
  Succeeds, bind-Succeeds, pure-Succeeds, draw-Succeeds, index-Succeeds, use-Succeeds,
}
use stream_pulse.Generator.Requests.{
  Generator, Facts, jitter_within, content_rank, origin_of, scheduled_at, facts,
}

-- What the library documents: `Intn(n)` is below `n`; the events have JSON, which can be read as a
-- map, and such a map has JSON.
pub record Works (G F J : Type 0) (random : Random G F) (t : Tools F J) : Type 0 where
  pub in_range : (n : ℕ) (g : G) → 1 ≤ n → (random.below n g).0 < n
  pub routing : (e : RoutingEvent F) → (value : List ℕ) × (t.routing e ≡ ok value)
  pub delivery : (e : DeliveryEvent F) → (value : List ℕ) × (t.delivery e ≡ ok value)
  pub player : (e : PlayerEvent F) → (value : List ℕ) × (t.player e ≡ ok value)
  pub readable :
      (e : DeliveryEvent F) (value : List ℕ)
      → t.delivery e ≡ ok value
      → (d : Dict J) × (t.unmarshal_map value ≡ ok d)
  pub marshal_map : (d : Dict J) → (value : List ℕ) × (t.marshal_map d ≡ ok value)

abbrev pub Any : {A : Type 0} → A → Type 0
Any a = Unit {0}

pub All-Any : {A : Type 0} (xs : List A) → All Any xs
All-Any [] = tt
All-Any (x ∷ xs) = (tt, All-Any xs)

abbrev HasNetwork : Location → Type 0
HasNetwork l = 1 ≤ length l.networks

-- There is something to choose from.
pub record HasPlaces {F : Type 0} (c : Config F) : Type 0 where
  pub locations : 1 ≤ length c.locations
  pub networks : All HasNetwork c.locations
  pub nodes : 1 ≤ length c.nodes
  pub limit : pos 0 ≤ℤ c.out_of_order_max

module _ {F : Type 0} ⦃fl : Float F⦄ (c : Config F) where
  check_settings-places :
      (rest : Option _)
      → check_settings c rest ≡ none
      → (1 ≤ length c.locations) × (1 ≤ length c.nodes)
  unfolding check_settings
  check_settings-places rest h = ground arith

  check_settings-limit :
      (rest : Option _) → check_settings c rest ≡ none → pos 0 ≤ℤ c.out_of_order_max
  unfolding check_settings
  check_settings-limit rest h = ground arith

  check_location-HasNetwork : (l : Location) → check_location l ≡ none → HasNetwork l
  check_location-HasNetwork l h = ground arith

  pub validate-HasPlaces :
      (parse_time : String → Fallible String Time) → validate parse_time c ≡ none → HasPlaces c
  unfolding validate
  validate-HasPlaces parse_time h =
      let settings = (or_else-none _ _ h).1 in
      let (locations, nodes) = check_settings-places _ settings in
      let checked = (or_else-none _ _ (check_settings-none c _ settings)).0 in
      record {
        locations = locations;
        networks =
            All-map (λ l. check_location l ≡ none) HasNetwork check_location-HasNetwork c.locations
              (first_error-All check_location c.locations checked);
        nodes = nodes;
        limit = check_settings-limit _ settings;
      }

module _ {G F J : Type 0} ⦃fl : Float F⦄ (random : Random G F) (t : Tools F J)
    (works : Works G F J random t) where
  pub below-Succeeds : (n : ℕ) → 1 ≤ n → Succeeds (λ k. k < n) (draw (random.below n))
  below-Succeeds n h = draw-Succeeds _ _ (λ g. works.in_range n g h)

  pub Any-Succeeds : {A : Type 0} (d : G → A × G) → Succeeds Any (draw d)
  Any-Succeeds d = draw-Succeeds Any d (λ g. tt)

  jitter_within-Succeeds :
      (limit : Duration)
      → pos 0 ≤ℤ limit
      → Succeeds (λ n. pos n ≤ℤ limit) (jitter_within random limit)
  unfolding jitter_within
  jitter_within-Succeeds limit low = elim (Bool-cases (ltb_ℤ (pos 0) limit)) [
    | inl e ↦ rw e (
        draw-Succeeds _ _
          (λ g. ground (arith, works.in_range (pos_part limit + 1) g (omega arith))))
    | inr e ↦ rw e (pure-Succeeds G _ 0 (ground arith))
  ]

  content_rank-Succeeds :
      (c : Config F) (shift : Bool) (rank : ℕ) → Succeeds Any (content_rank random c shift rank)
  unfolding content_rank
  content_rank-Succeeds c true rank =
      bind-Succeeds _ Any _ _ (Any-Succeeds _) (λ n _. pure-Succeeds G _ _ tt)
  content_rank-Succeeds c false rank = pure-Succeeds G _ _ tt

  origin_of-Succeeds :
      (latency ttfb : F) (misses : Bool) → Succeeds Any (origin_of random latency ttfb misses)
  unfolding origin_of
  origin_of-Succeeds latency ttfb true =
      bind-Succeeds _ Any _ _ (Any-Succeeds _) (λ n _. pure-Succeeds G _ _ tt)
  origin_of-Succeeds latency ttfb false = pure-Succeeds G _ _ tt

-- The event takes place at the scheduled time, or earlier by no more than the limit.
pub record IsTimely {F : Type 0} (scheduled : Time) (limit : Duration) (f : Facts F) : Type 0 where
  pub on_schedule : f.scheduled ≡ scheduled
  pub not_after : f.event_time ≤ℤ scheduled
  pub not_before : scheduled ≤ℤ f.event_time +ℤ limit

timely :
    (scheduled : Time) (jitter : ℕ) (limit : Duration)
    → pos jitter ≤ℤ limit
    → (scheduled -ℤ pos jitter ≤ℤ scheduled) × (scheduled ≤ℤ scheduled -ℤ pos jitter +ℤ limit)
timely scheduled jitter limit h =
    ground (arith, -ℤ_parts scheduled (pos jitter), +ℤ_parts (scheduled -ℤ pos jitter) limit)

module _ {G F J : Type 0} ⦃fl : Float F⦄ (random : Random G F) (t : Tools F J)
    (works : Works G F J random t) (g : Generator F) (places : HasPlaces g.cfg) (i : ℕ) where
  pub facts-Succeeds :
      Succeeds (IsTimely (scheduled_at g i) g.cfg.out_of_order_max) (facts random t g i)
  unfolding facts
  facts-Succeeds =
      bind-Succeeds _ _ _ _ (jitter_within-Succeeds random t works _ places.limit) (λ jitter within.
        bind-Succeeds _ _ _ _ (below-Succeeds random t works _ places.locations) (λ at here.
          bind-Succeeds _ _ _ _ (index-Succeeds G HasNetwork _ at here places.networks)
            (λ location some_networks.
              bind-Succeeds _ _ _ _ (below-Succeeds random t works _ some_networks)
                (λ through there.
                  bind-Succeeds _ Any _ _ (index-Succeeds G Any _ through there (All-Any _))
                    (λ network _.
                      bind-Succeeds _ Any _ _
                        (index-Succeeds G Any _ (i % length g.cfg.nodes) (mod-lt i places.nodes)
                          (All-Any _))
                        (λ node _.
                          bind-Succeeds _ Any _ _ (Any-Succeeds random t works _) (λ rank _.
                            bind-Succeeds _ Any _ _
                              (content_rank-Succeeds random t works g.cfg _ rank)
                              (λ content _.
                                bind-Succeeds _ Any _ _ (Any-Succeeds random t works _)
                                  (λ cache_luck _.
                                    bind-Succeeds _ Any _ _ (Any-Succeeds random t works _)
                                      (λ error_luck _.
                                        bind-Succeeds _ Any _ _ (Any-Succeeds random t works _)
                                          (λ noise _.
                                            bind-Succeeds _ Any _ _
                                              (origin_of-Succeeds random t works _ _ _)
                                              (λ times _.
                                                let (after, before) =
                                                  timely (scheduled_at g i) jitter
                                                    g.cfg.out_of_order_max within in
                                                pure-Succeeds G _ _ (record {
                                                  on_schedule = refl;
                                                  not_after = after;
                                                  not_before = before;
                                                })))))))))))))

module _ {G F J : Type 0} ⦃fl : Float F⦄ (random : Random G F) (t : Tools F J)
    (works : Works G F J random t) (g : Generator F) (i : ℕ) where
  -- With a configuration that `Validate` accepts and random numbers in their range: the choices of a
  -- request always succeed, and its event takes place at the scheduled time, or earlier by no more
  -- than the configured limit of disorder.
  pub facts-IsTimely :
      (parse_time : String → Fallible String Time) (state : G)
      → validate parse_time g.cfg ≡ none
      → (f : Facts F) × (next : G) × (facts random t g i state ≡ ok (f, next))
        × IsTimely (scheduled_at g i) g.cfg.out_of_order_max f
  facts-IsTimely parse_time state valid =
      use-Succeeds _ _ state
        (facts-Succeeds random t works g (validate-HasPlaces g.cfg parse_time valid) i)
