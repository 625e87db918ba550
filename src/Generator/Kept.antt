-- ===== src/Generator/Kept.antt =====
-- What each record that the sink takes keeps, a run keeps.
use stream_pulse.Common.{ℕ, zero, suc, ◌≡◌, refl, String, Option, none, some, List, [], ◌∷◌}
use stream_pulse.Common.Dict.{Dict}
use stream_pulse.Common.Int.{pos_part}
use stream_pulse.Common.Fallible.{Fallible, ok, err}
use stream_pulse.Float.{Float}
use stream_pulse.Generator.Config.{delivery_topic_name}
use stream_pulse.Generator.Sink.{Record}
use stream_pulse.Generator.Draws.{Random, Tools, Failure}
use stream_pulse.Generator.Requests.{Generator}
use stream_pulse.Generator.Records.{generate_request}
use stream_pulse.Generator.Run.{
  RunError, Progress, advance, emit_all, go_on, run_requests, run, first_manifest, unless, as_error,
  with_request, not_emitted, cancelled, total_requests,
}

module _ (P : Progress → Type 0) where
  unless_keeps :
      (e : Option RunError) (p : Progress) (rest : Option RunError × Progress)
      → P p
      → (e ≡ none → P rest.1)
      → P (unless e p rest).1
  unless_keeps none p rest h k = k refl
  unless_keeps (some e) p rest h k = h

  with_request_keeps :
      {G : Type 0} (answer : Fallible Failure (List Record × G)) (p : Progress)
      (k : List Record → G → Option RunError × Progress)
      → P p
      → ((records : List Record) (state : G) → P (k records state).1)
      → P (with_request answer p k).1
  with_request_keeps (err e) p k h next = h
  with_request_keeps (ok (records, state)) p k h next = next records state

  go_on_keeps :
      (done : Option RunError × Progress) (k : Progress → Option RunError × Progress)
      → P done.1
      → ((q : Progress) → P q → P (k q).1)
      → P (go_on done k).1
  go_on_keeps (none, p) k h next = next p h
  go_on_keeps (some e, p) k h next = h

as_error-none : (kind : String → RunError) (e : Option String) → as_error kind e ≡ none → e ≡ none
as_error-none kind none h = refl
as_error-none kind (some e) h = let bad : some (kind e) ≡ none = h in cc

emit_all_keeps :
    (emit : List Record → Record → Option String) (delivery : String) (P : Progress → Type 0)
    (step : (r : Record) (p : Progress) → P p → emit p.emitted r ≡ none → P (advance delivery r p))
    (rs : List Record) (p : Progress)
    → P p
    → P (emit_all emit delivery rs p).1
unfolding emit_all
emit_all_keeps emit delivery P step [] p h = h
emit_all_keeps emit delivery P step (r ∷ rs) p h =
    unless_keeps P (as_error not_emitted (emit p.emitted r)) p
      (emit_all emit delivery rs (advance delivery r p)) h
      (λ taken.
        emit_all_keeps emit delivery P step rs (advance delivery r p)
          (step r p h (as_error-none not_emitted (emit p.emitted r) taken)))

module _ {G F J : Type 0} ⦃fl : Float F⦄ (random : Random G F) (t : Tools F J) (g : Generator F)
    (done : ℕ → Option String) (emit : List Record → Record → Option String) (P : Progress → Type 0)
    (step : (r : Record) (p : Progress)
      → P p
      → emit p.emitted r ≡ none
      → P (advance (delivery_topic_name g.cfg) r p)) where
  run_requests_keeps :
      (left i : ℕ) (state : G) (p : Progress)
      → P p
      → P (run_requests random t g done emit left i state p).1
  unfolding run_requests
  run_requests_keeps zero i state p h = h
  run_requests_keeps (suc left) i state p h =
      let delivery = delivery_topic_name g.cfg in
      unless_keeps P (as_error cancelled (done i)) p _ h (λ _.
        with_request_keeps P (generate_request random t g i state) p _ h (λ records next.
          go_on_keeps P (emit_all emit delivery records p) _
            (emit_all_keeps emit delivery P step records p h)
            (λ q k. run_requests_keeps left (suc i) next q k)))

  -- What holds at the start, and what a record keeps that the sink takes, holds at the end.
  pub run_keeps :
      (git_commit : String) (versions : Dict String) (state : G)
      → P (record { manifest = first_manifest t g git_commit versions; emitted = [] })
      → P (run random t g done emit git_commit versions state).1
  unfolding run
  run_keeps git_commit versions state h =
      run_requests_keeps (pos_part (total_requests t g)) 0 state
        (record { manifest = first_manifest t g git_commit versions; emitted = [] }) h
