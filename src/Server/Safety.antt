-- ===== src/Server/Safety.antt =====
-- What a running server promises, over all requests that it may get.
use stream_pulse.Common.{◌≡◌, sym, subst, String, true, List, All, arith}
use stream_pulse.Common.Int.{pos, ◌≤ℤ◌}
use stream_pulse.Common.Fallible.{ok}
use stream_pulse.Time.{Duration, min_duration, max_duration}
use stream_pulse.Float.{Float, IsExact}
use stream_pulse.App.Build.{Config, Library}
use stream_pulse.App.{Outside, State, initial}
use stream_pulse.Detection as Detection
use stream_pulse.Scoring as Scoring
use stream_pulse.App.Dwell.{Reaches, start as first, AreApart, published_apart}
use stream_pulse.System.{assemble}
use stream_pulse.System.Safety.{IsSafe, published_safe}
use stream_pulse.Http.{Json, Request, serve}
use stream_pulse.Http.Runs.{serve_all, serve_all-Reaches}
use stream_pulse.Http.Answers.{is_documented, never_internal_error}
use stream_pulse.Server.{Environment, Server, start}
use stream_pulse.Server.Settings.{IsParsed, IsReady, start-IsReady}

positive-nonneg : (d : Duration) → pos 1 ≤ℤ d → pos 0 ≤ℤ d
positive-nonneg d h = omega arith

positive-min : (d : Duration) → pos 1 ≤ℤ d → min_duration ≤ℤ d
positive-min d h = omega arith

assembled_apart :
    {F : Type 0} ⦃fl : Float F⦄ (config : Config) (detector : Detection.Config F)
    (scorer : Scoring.Config F) (library : Library F)
    → pos 0 ≤ℤ config.minimum_dwell
    → config.minimum_dwell ≤ℤ max_duration
    → (st : State F) → Reaches (assemble config detector scorer library) st
    → AreApart config.minimum_dwell st.published
unfolding assemble
assembled_apart config detector scorer library low high st h =
    published_apart (assemble config detector scorer library) low high st h

module _ {F : Type 0} ⦃fl : Float F⦄ (e : Environment F) (library : Library F)
    (in_range : (text : String) (d : Duration) → e.parse_duration text ≡ ok d → d ≤ℤ max_duration)
    (server : Server F) (started : start e library ≡ ok server) where
  is_ready : IsReady e library server
  is_ready = start-IsReady e library server started

  parsed-le : (d : Duration) → IsParsed e d → d ≤ℤ max_duration
  parsed-le d p = in_range p.0 d p.1

  -- In exact arithmetic, with a parser that gives durations only, and a staleness limit that is not
  -- the longest duration: whatever requests a server that started gets, and whatever the clock,
  -- ClickHouse, Kafka and the audit store answer, each recommendation that it publishes is in shadow
  -- mode, lives for the configured time, has weights that are not negative, add up to 1 as the
  -- current ones do and are within the maximum step of them, and rests on at least two nodes that
  -- were fit when it was made; and two of one scope are at least the dwell time apart.
  pub server-IsSafe :
      (laws : IsExact F)
      → ¬ (max_duration ≤ℤ server.scorer.stale_after)
      → (json : Json F) (requests : List (Outside F × Request))
      → All
          (IsSafe server.config server.detector server.scorer library)
          (serve_all server.service json requests initial).published
        × AreApart server.config.minimum_dwell
            (serve_all server.service json requests initial).published
  server-IsSafe laws below json requests =
      let w = is_ready in
      let s = assemble server.config server.detector server.scorer library in
      let reached = serve_all-Reaches s json requests initial first in
      subst
        (λ x.
          All (IsSafe server.config server.detector server.scorer library)
            (serve_all x json requests initial).published
          × AreApart server.config.minimum_dwell (serve_all x json requests initial).published)
        (sym w.service)
        (
          published_safe laws server.config server.detector server.scorer library w.scorer.step
              (record {
                nonneg = positive-nonneg server.scorer.stale_after w.scorer.stale.1;
                below = below;
              })
              (serve_all s json requests initial) reached,
          assembled_apart server.config server.detector server.scorer library
              (positive-nonneg server.config.minimum_dwell w.config.dwell.1)
              (parsed-le server.config.minimum_dwell w.config.dwell.0)
              (serve_all s json requests initial) reached,
        )

  -- With a parser that gives durations only, a server that started answers every request with 200,
  -- 204, 400, 404, 405 or 503.
  pub server_documented :
      (json : Json F) (o : Outside F) (request : Request) (st : State F)
      → is_documented (serve server.service json o request st).0.status ≡ true
  server_documented json o request st =
      let w = is_ready in
      rw w.service (
        never_internal_error server.config server.detector server.scorer library
          (positive-min server.config.ttl w.config.ttl.1)
          (parsed-le server.config.ttl w.config.ttl.0) json o request st)
