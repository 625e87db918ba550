-- ===== src/Generator/Requests.antt =====
-- services/event-generator/internal/scenario/generator.go: the records of one request.
use Prim.Native.String.{slice}
use stream_pulse.Common.{
  ℕ, ◌+◌, ◌/◌, ◌%◌, ◌^◌, String, ◌<>◌, Bool, true, false, List, length, if◌then◌else◌,
}
use stream_pulse.Common.Int.{ℤ, pos, pos_part, ltb_ℤ, ◌+ℤ◌, ◌-ℤ◌}
use stream_pulse.Time.{Time, Duration, sub, add}
use stream_pulse.Float.{Float, ◌⊕◌, ◌⊗◌, ◌⊘◌, lt, nought, one, lit, max}
use stream_pulse.Generator.Config.{Config, Location, Node}
use stream_pulse.Generator.Scenario.{effects, max_float}
use stream_pulse.Generator.Draws.{
  Random, Tools, Draw, ◌>>=◌, pure, draw, index, wrap_int64, scale, divide,
}

-- `Generator`, less its random source
pub record Generator (F : Type 0) : Type 0 where
  pub cfg : Config F
  pub start : Time
  pub node_ids : List String

-- What a request draws before its events are made.
pub record Facts (F : Type 0) : Type 0 where
  pub scheduled : Time
  pub event_time : Time
  pub location : Location
  pub network : String
  pub node : Node F
  pub session : String
  pub request_id : String
  pub content_id : String
  pub cache_status : String
  pub http_status : ℕ
  pub ttfb : F
  pub origin : F
  pub pressure_rps : ℤ
  pub labels : List String

abbrev pub max_int : ℤ → ℤ → ℤ
max_int a b = if ltb_ℤ b a then a else b

module _ {F J : Type 0} (t : Tools F J) where
  abbrev pub deterministic_id : ℤ → ℤ → String → String
  deterministic_id seed index kind =
      kind
      <> ("-"
          <> slice (t.sha256_hex (t.decimal seed <> (":" <> (t.decimal index <> (":" <> kind))))) 0
              24)

  abbrev pub session_of : ℤ → ℕ → String
  session_of seed index =
      "sha256:"
      <> t.sha256_hex ("session:" <> (t.decimal seed <> (":" <> t.decimal (pos (index / 8)))))

  -- `int(sum[0]) % buckets`, where `buckets` is positive
  abbrev pub stable_bucket : String → ℤ → ℕ
  stable_bucket value buckets = t.sha256_first value % pos_part buckets

module _ {F : Type 0} where
  -- `step` and `scheduled`
  unfoldable pub scheduled_at : Generator F → ℕ → Time
  unfolding scale divide
  scheduled_at g i =
      add g.start (wrap_int64 (scale i (divide (pos (10 ^ 9)) g.cfg.rate_per_second)))

module _ {F J : Type 0} ⦃fl : Float F⦄ (t : Tools F J) where
  -- `round3`
  abbrev pub round3 : F → F
  round3 value = t.round (value ⊗ fl.of_nat 1000) ⊘ fl.of_nat 1000

module _ {G F : Type 0} (random : Random G F) where
  unfoldable pub jitter_within : Duration → Draw G ℕ
  unfolding draw pure
  jitter_within limit =
      if ltb_ℤ (pos 0) limit then draw (random.below (pos_part limit + 1)) else pure 0

  unfoldable pub content_rank : Config F → Bool → ℕ → Draw G ℤ
  unfolding draw pure ◌+ℤ◌
  content_rank cfg true rank = do
    shift ← draw (random.below 10)
    pure (cfg.content.count +ℤ pos shift)
  content_rank cfg false rank = pure (pos rank)

module _ {G F : Type 0} ⦃fl : Float F⦄ (random : Random G F) where
  -- The time to the first byte with the origin's part, and that part
  unfoldable pub origin_of : F → F → Bool → Draw G (F × F)
  unfolding draw pure
  origin_of latency_delta ttfb false = pure (ttfb, nought)
  origin_of latency_delta ttfb true = do
    noise ← draw random.normal
    let origin = max one (fl.of_nat 35 ⊕ noise ⊗ fl.of_nat 5 ⊕ latency_delta ⊗ lit 4 10)
    pure (ttfb ⊕ origin, origin)

module _ {G F J : Type 0} ⦃fl : Float F⦄ (random : Random G F) (t : Tools F J) where
  -- `generateRequest`, up to its events
  unfoldable pub facts : Generator F → ℕ → Draw G (Facts F)
  unfolding draw pure index jitter_within content_rank origin_of scheduled_at effects sub ◌-ℤ◌
  facts g i = do
    jitter ← jitter_within random g.cfg.out_of_order_max
    let event_time = scheduled_at g i -ℤ pos jitter
    at ← draw (random.below (length g.cfg.locations))
    location ← index g.cfg.locations at
    through ← draw (random.below (length location.networks))
    network ← index location.networks through
    node ← index g.cfg.nodes (i % length g.cfg.nodes)
    rank ← draw random.zipf
    let e = effects g.cfg (sub event_time g.start) node.id network
    content ← content_rank random g.cfg e.popularity_shift rank
    cache_luck ← draw random.uniform
    let misses = lt cache_luck (max_float (lit 8 100) e.miss_rate)
    error_luck ← draw random.uniform
    let fails = lt error_luck (max_float (lit 2 1000) e.error_rate)
    noise ← draw random.normal
    times ←
        origin_of random e.latency_delta
          (max nought (node.base_ttfb_ms ⊕ noise ⊗ fl.of_nat 3 ⊕ e.latency_delta)) misses
    pure (record {
      scheduled = scheduled_at g i;
      event_time = event_time;
      location = location;
      network = network;
      node = node;
      session = session_of t g.cfg.seed i;
      request_id = deterministic_id t g.cfg.seed (pos i) "request";
      content_id = "content-" <> t.padded 6 content;
      cache_status = if misses then "MISS" else "HIT";
      http_status = if fails then 503 else 200;
      ttfb = times.0;
      origin = times.1;
      pressure_rps = e.pressure_rps;
      labels = e.labels;
    })
