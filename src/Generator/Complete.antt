-- ===== src/Generator/Complete.antt =====
-- What a run emits that ends without an error.
use mathlib.Core.List.{append_assoc, append-nil}
use stream_pulse.Common.{
  ℕ, zero, suc, ◌+◌, ◌/◌, ◌%◌, ◌≡◌, ◌≢◌, ◌∙◌, refl, sym, ap, subst, String, Option, none, some,
  List, [], ◌∷◌, ◌++◌, arith, str_eq, ◌==◌, if◌then◌else◌,
}
use stream_pulse.Common.Dict.{Dict, get}
use stream_pulse.Common.Int.{pos_part}
use stream_pulse.Common.Fallible.{Fallible, ok, err}
use stream_pulse.Float.{Float}
use stream_pulse.Generator.Config.{delivery_topic_name}
use stream_pulse.Generator.Sink.{Record}
use stream_pulse.Generator.Events.{routing_topic, player_topic}
use stream_pulse.Generator.Draws.{Random, Tools, Failure}
use stream_pulse.Generator.Promises.{use-Yields}
use stream_pulse.Generator.Requests.{Generator}
use stream_pulse.Generator.Records.{generate_request}
use stream_pulse.Generator.Shape.{IsRequest, generate_request-IsRequest}
use stream_pulse.Generator.Run.{
  RunError, Progress, advance, emit_all, go_on, unless, as_error, with_request, not_emitted,
  cancelled, run_requests, run, first_manifest, total_requests,
}
use stream_pulse.Generator.Counts.{run-IsCounted}
use stream_pulse.Generator.Totals.{
  on, again, tally_append, request-routing, request-player, request-delivery,
}

unless-none :
    (e : Option RunError) (p : Progress) (rest : Option RunError × Progress)
    → (unless e p rest).0 ≡ none
    → unless e p rest ≡ rest
unless-none none p rest h = refl
unless-none (some e) p rest h = cc

go_on-none :
    (done : Option RunError × Progress) (k : Progress → Option RunError × Progress)
    → (go_on done k).0 ≡ none
    → (done.0 ≡ none) × (go_on done k ≡ k done.1)
go_on-none (none, p) k h = (refl, refl)
go_on-none (some e, p) k h = cc

with_request-none :
    {G : Type 0} (answer : Fallible Failure (List Record × G)) (p : Progress)
    (k : List Record → G → Option RunError × Progress)
    → (with_request answer p k).0 ≡ none
    → (records : List Record) × (state : G) × (answer ≡ ok (records, state))
      × (with_request answer p k ≡ k records state)
with_request-none (ok (records, state)) p k h = (records, state, refl, refl)
with_request-none (err e) p k h = cc

emit_all-emitted :
    (emit : List Record → Record → Option String) (delivery : String) (rs : List Record)
    (p : Progress)
    → (emit_all emit delivery rs p).0 ≡ none
    → (emit_all emit delivery rs p).1.emitted ≡ p.emitted ++ rs
unfolding emit_all
emit_all-emitted emit delivery [] p h = sym (append-nil _)
emit_all-emitted emit delivery (r ∷ rs) p h =
    let same =
      unless-none (as_error not_emitted (emit p.emitted r)) p
        (emit_all emit delivery rs (advance delivery r p)) h in
    ap (λ (x : Option RunError × Progress). x.1.emitted) same
    ∙ emit_all-emitted emit delivery rs (advance delivery r p)
        (sym (ap (λ (x : Option RunError × Progress). x.0) same) ∙ h)
    ∙ append_assoc p.emitted (r ∷ []) rs

-- The records of `n` requests: a routing each, a delivery each besides the duplicates, and a player's
-- for each fourth.
pub record IsFull (name : String) (n : ℕ) (emitted : List Record) : Type 0 where
  pub routing : on routing_topic emitted ≡ n
  pub delivery : on name emitted ≡ n + again emitted
  pub player : on player_topic emitted ≡ (n + 3) / 4

next_player :
    (n before more : ℕ)
    → before ≡ (n + 3) / 4
    → more ≡ (if n % 4 == 0 then 1 else 0)
    → before + more ≡ (suc n + 3) / 4
next_player n before more h k = ground (arith, h, k)

IsFull-request :
    (name : String) (n : ℕ) (emitted records : List Record)
    → name ≢ routing_topic
    → name ≢ player_topic
    → IsFull name n emitted
    → IsRequest name n records
    → IsFull name (suc n) (emitted ++ records)
IsFull-request name n emitted records not_routing not_player full h = record {
  routing =
      tally_append (λ r. str_eq r.topic routing_topic) emitted records
      ∙ omega (arith, full.routing, request-routing name n records h not_routing not_player);
  delivery =
      tally_append (λ r. str_eq r.topic name) emitted records
      ∙ omega (
        arith,
        full.delivery,
        request-delivery name n records h not_routing not_player,
        tally_append (λ r. r.duplicate) emitted records,
      );
  player =
      tally_append (λ r. str_eq r.topic player_topic) emitted records
      ∙ next_player n (on player_topic emitted) (on player_topic records) full.player
          (request-player name n records h not_routing not_player);
}

module _ {G F J : Type 0} ⦃fl : Float F⦄ (random : Random G F) (t : Tools F J) (g : Generator F)
    (done : ℕ → Option String) (emit : List Record → Record → Option String)
    (not_routing : delivery_topic_name g.cfg ≢ routing_topic)
    (not_player : delivery_topic_name g.cfg ≢ player_topic) where
  run_requests-IsFull :
      (left i n : ℕ) (state : G) (p : Progress)
      → i + left ≡ n
      → IsFull (delivery_topic_name g.cfg) i p.emitted
      → (run_requests random t g done emit left i state p).0 ≡ none
      → IsFull
          (delivery_topic_name g.cfg)
          n
          (run_requests random t g done emit left i state p).1.emitted
  unfolding run_requests
  run_requests-IsFull zero i n state p e full h =
      subst (λ m. IsFull (delivery_topic_name g.cfg) m p.emitted) (omega (arith, e)) full
  run_requests-IsFull (suc left) i n state p e full h =
      let name = delivery_topic_name g.cfg in
      let same = unless-none (as_error cancelled (done i)) p _ h in
      let h1 = sym (ap (λ (x : Option RunError × Progress). x.0) same) ∙ h in
      let (records, next, made, same1) =
        with_request-none (generate_request random t g i state) p _ h1 in
      let h2 = sym (ap (λ (x : Option RunError × Progress). x.0) same1) ∙ h1 in
      let (sent, same2) =
        go_on-none (emit_all emit name records p)
          (λ q. run_requests random t g done emit left (suc i) next q) h2 in
      let h3 = sym (ap (λ (x : Option RunError × Progress). x.0) same2) ∙ h2 in
      let shape =
        use-Yields (IsRequest name i) (generate_request random t g i) state next records
          (generate_request-IsRequest random t g i) made in
      let q = (emit_all emit name records p).1 in
      let grown : IsFull name (suc i) q.emitted =
        subst (IsFull name (suc i)) (sym (emit_all-emitted emit name records p sent))
          (IsFull-request name i p.emitted records not_routing not_player full shape) in
      subst (λ (x : Option RunError × Progress). IsFull name n x.1.emitted)
        (sym (same ∙ same1 ∙ same2))
        (run_requests-IsFull left (suc i) n next q (omega (arith, e)) grown h3)

  pub finished :
      (git_commit : String) (versions : Dict String) (state : G)
      → (run random t g done emit git_commit versions state).0 ≡ none
      → IsFull
          (delivery_topic_name g.cfg)
          (pos_part (total_requests t g))
          (run random t g done emit git_commit versions state).1.emitted
  unfolding run
  finished git_commit versions state h =
      run_requests-IsFull (pos_part (total_requests t g)) 0 (pos_part (total_requests t g)) state
        (record { manifest = first_manifest t g git_commit versions; emitted = [] }) (omega arith)
        (record { routing = refl; delivery = refl; player = refl }) h

  -- Where the delivery topic is not that of the routings or of the players: the manifest of a run
  -- that ends without an error counts one routing record for each request, one delivery record for
  -- each and one for each duplicate, and a player's record for each fourth request.
  pub run-IsFull :
      (git_commit : String) (versions : Dict String) (state : G)
      → (run random t g done emit git_commit versions state).0 ≡ none
      → (get routing_topic
            (run random t g done emit git_commit versions state).1.manifest.records_by_topic
            0
          ≡ pos_part (total_requests t g))
        × (get
              (delivery_topic_name g.cfg)
              (run random t g done emit git_commit versions state).1.manifest.records_by_topic
              0
            ≡ pos_part (total_requests t g)
              + (run random t g done emit git_commit versions state).1.manifest.duplicate_records)
        × (get player_topic
              (run random t g done emit git_commit versions state).1.manifest.records_by_topic
              0
            ≡ (pos_part (total_requests t g) + 3) / 4)
  run-IsFull git_commit versions state h =
      let counted = run-IsCounted random t g done emit git_commit versions state in
      let full = finished git_commit versions state h in
      (
        counted.topics routing_topic ∙ full.routing,
        counted.topics (delivery_topic_name g.cfg)
            ∙ full.delivery
            ∙ ap (λ n. pos_part (total_requests t g) + n) (sym counted.duplicates),
        counted.topics player_topic ∙ full.player,
      )
