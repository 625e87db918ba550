-- ===== src/Generator/Finish.antt =====
-- A run with a valid configuration ends without an error, unless the context or `emit` gives one.
use stream_pulse.Common.{
  ℕ, zero, suc, ◌≡◌, ◌∙◌, refl, ap, String, Bool, true, false, Option, none, some, List, [], ◌∷◌,
  arith,
}
use stream_pulse.Common.Dict.{Dict, insert}
use stream_pulse.Common.Int.{pos_part}
use stream_pulse.Common.Fallible.{Fallible, ok}
use stream_pulse.Time.{Time}
use stream_pulse.Float.{Float}
use stream_pulse.Generator.Config.{validate, delivery_topic_name}
use stream_pulse.Generator.Sink.{Record}
use stream_pulse.Generator.Events.{DeliveryEvent}
use stream_pulse.Generator.Draws.{Random, Tools}
use stream_pulse.Generator.Promises.{
  Succeeds, bind-Succeeds, pure-Succeeds, attempt-Succeeds, index-Succeeds, use-Succeeds,
}
use stream_pulse.Generator.Requests.{Generator, Facts}
use stream_pulse.Generator.Records.{
  bitrates, players, player_event, delivery_event, routing_event, break_status, delivery_value_of,
  generate_request,
}
use stream_pulse.Generator.Run.{
  RunError, Progress, advance, emit_all, go_on, unless, as_error, with_request, not_emitted,
  cancelled, run_requests, run, first_manifest, total_requests,
}
use stream_pulse.Generator.Success.{
  Works, Any, All-Any, HasPlaces, below-Succeeds, Any-Succeeds, facts-Succeeds, validate-HasPlaces,
}

module _ {G F J : Type 0} ⦃fl : Float F⦄ (random : Random G F) (t : Tools F J)
    (works : Works G F J random t) (g : Generator F) (places : HasPlaces g.cfg) (i : ℕ) where
  delivery_value_of-Succeeds :
      (e : DeliveryEvent F) (value : List ℕ) (invalid : Bool)
      → t.delivery e ≡ ok value
      → (v : List ℕ) × (delivery_value_of t invalid value ≡ ok v)
  delivery_value_of-Succeeds e value true h =
      let (d, read) = works.readable e value h in
      let (v, written) = works.marshal_map (insert "cache_status" (t.text_value "HOT") d) in
      (v, ap (break_status t) read ∙ written)
  delivery_value_of-Succeeds e value false h = (value, refl)

  players-Succeeds :
      (f : Facts F) (delivery : DeliveryEvent F) (wanted : Bool)
      → Succeeds {G = G} Any (players t g i f delivery wanted)
  unfolding players
  players-Succeeds f delivery true =
      let (v, made) = works.player (player_event t g i f delivery) in
      bind-Succeeds _ Any _ _ (attempt-Succeeds G Any _ v made tt)
        (λ value _. pure-Succeeds G _ _ tt)
  players-Succeeds f delivery false = pure-Succeeds G _ _ tt

  generate_request-Succeeds : Succeeds Any (generate_request random t g i)
  unfolding generate_request
  generate_request-Succeeds =
      bind-Succeeds _ _ _ _ (facts-Succeeds random t works g places i) (λ f _.
        bind-Succeeds _ Any _ _ (Any-Succeeds random t works _) (λ age _.
          bind-Succeeds _ Any _ _ (Any-Succeeds random t works _) (λ extra _.
            bind-Succeeds _ Any _ _ (Any-Succeeds random t works _) (λ noise _.
              bind-Succeeds _ _ _ _ (below-Succeeds random t works 3 (omega arith)) (λ choice low.
                bind-Succeeds _ Any _ _
                  (index-Succeeds G Any bitrates choice low (All-Any bitrates))
                  (λ bitrate _.
                    let (rv, routed) = works.routing (routing_event t g i f age) in
                    let (dv, delivered) =
                      works.delivery (delivery_event t g i f extra noise bitrate) in
                    bind-Succeeds _ Any _ _ (attempt-Succeeds G Any _ rv routed tt)
                      (λ routing_value _.
                        bind-Succeeds _
                          (λ v. t.delivery (delivery_event t g i f extra noise bitrate) ≡ ok v) _ _
                          (attempt-Succeeds G _ _ dv delivered delivered)
                          (λ delivery_value made.
                            bind-Succeeds _ Any _ _ (Any-Succeeds random t works _)
                              (λ schema_luck _.
                                let (v, valued) =
                                  delivery_value_of-Succeeds
                                    (delivery_event t g i f extra noise bitrate) delivery_value _
                                    made in
                                bind-Succeeds _ Any _ _ (attempt-Succeeds G Any _ v valued tt)
                                  (λ value _.
                                    bind-Succeeds _ Any _ _
                                      (players-Succeeds f
                                        (delivery_event t g i f extra noise bitrate) _)
                                      (λ player _.
                                        bind-Succeeds _ Any _ _ (Any-Succeeds random t works _)
                                          (λ luck _. pure-Succeeds G _ _ tt))))))))))))

emit_all-none :
    (emit : List Record → Record → Option String) (delivery : String)
    → ((before : List Record) (r : Record) → emit before r ≡ none)
    → (rs : List Record) (p : Progress) → (emit_all emit delivery rs p).0 ≡ none
unfolding emit_all
emit_all-none emit delivery fine [] p = refl
emit_all-none emit delivery fine (r ∷ rs) p =
    ap
      (λ x.
        (unless (as_error not_emitted x) p (emit_all emit delivery rs (advance delivery r p))).0)
      (fine p.emitted r)
    ∙ emit_all-none emit delivery fine rs (advance delivery r p)

go_on-finishes :
    (done : Option RunError × Progress) (k : Progress → Option RunError × Progress)
    → done.0 ≡ none
    → ((q : Progress) → (k q).0 ≡ none)
    → (go_on done k).0 ≡ none
go_on-finishes (none, p) k h each = each p
go_on-finishes (some e, p) k h each = cc

module _ {G F J : Type 0} ⦃fl : Float F⦄ (random : Random G F) (t : Tools F J)
    (works : Works G F J random t) (g : Generator F) (done : ℕ → Option String)
    (emit : List Record → Record → Option String) (running : (i : ℕ) → done i ≡ none)
    (fine : (before : List Record) (r : Record) → emit before r ≡ none) where
  run_requests-none :
      (places : HasPlaces g.cfg) (left i : ℕ) (state : G) (p : Progress)
      → (run_requests random t g done emit left i state p).0 ≡ none
  unfolding run_requests
  run_requests-none places zero i state p = refl
  run_requests-none places (suc left) i state p =
      let (records, next, made, _) =
        use-Succeeds Any _ state (generate_request-Succeeds random t works g places i) in
      ap
        (λ x.
          (unless (as_error cancelled x) p (
            with_request (generate_request random t g i state) p (λ records next.
              go_on (emit_all emit (delivery_topic_name g.cfg) records p)
                (λ q. run_requests random t g done emit left (suc i) next q)))).0)
        (running i)
      ∙ ap
          (λ x.
            (with_request x p (λ records next.
              go_on (emit_all emit (delivery_topic_name g.cfg) records p)
                (λ q. run_requests random t g done emit left (suc i) next q))).0)
          made
      ∙ go_on-finishes (emit_all emit (delivery_topic_name g.cfg) records p) _
          (emit_all-none emit (delivery_topic_name g.cfg) fine records p)
          (λ q. run_requests-none places left (suc i) next q)

  -- With a configuration that `Validate` accepts, random numbers in their range and JSON for the
  -- events: a run ends without an error if the context is not done and every `emit` succeeds. In
  -- particular no index is out of range.
  pub run_finishes :
      (parse_time : String → Fallible String Time) (git_commit : String) (versions : Dict String)
      (state : G)
      → validate parse_time g.cfg ≡ none
      → (run random t g done emit git_commit versions state).0 ≡ none
  unfolding run
  run_finishes parse_time git_commit versions state valid =
      run_requests-none (validate-HasPlaces g.cfg parse_time valid) (pos_part (total_requests t g))
        0 state (record { manifest = first_manifest t g git_commit versions; emitted = [] })
