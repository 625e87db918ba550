-- ===== src/Generator/Delivered.antt =====
-- What the brokers have after a command that sends to Kafka.
use mathlib.Core.List.{append_assoc, append-nil}
use stream_pulse.Common.{
  str_eq, eq_iff, ◌≢◌, Bool-cases, ◌≡◌, ◌∙◌, refl, sym, ap, subst, String, Option-cases, inl, inr,
  none, List, [], ◌∷◌, ◌++◌, map,
}
use stream_pulse.Common.Fallible.{Fallible, ok, err, ok-injective}
use stream_pulse.Float.{Float}
use stream_pulse.Generator.Config.{Config, delivery_topic_name}
use stream_pulse.Generator.Sink.{Record, Answer, Kafka, write, write_all}
use stream_pulse.Generator.Delivery.{
  idle, content, messages_of, write_all-step, write_all-stop, delivered_once,
}
use stream_pulse.Generator.Targets.{
  Target, Writer, answered, kafka_closed, kafka_target, trimmed, to_brokers, new_kafka,
}
use stream_pulse.Generator.Draws.{Random, Tools}
use stream_pulse.Generator.Requests.{Generator}
use stream_pulse.Generator.Run.{Progress, advance, run}
use stream_pulse.Generator.Kept.{run_keeps}
use stream_pulse.Generator.Command.{Flags, Host, open_target, settle, component_versions, command}
use stream_pulse.Generator.Written.{settle-ok, from_outside-ok, command-HasRun}

answered-messages :
    (w : Writer) (before rs : List Record) → messages_of (answered w before rs) ≡ map content rs
answered-messages w before [] = refl
answered-messages w before (r ∷ rs) =
    ap (λ ms. content r ∷ ms) (answered-messages w (before ++ (r ∷ [])) rs)

answered-last :
    (w : Writer) (before rs : List Record) (r : Record)
    → answered w before (rs ++ (r ∷ []))
      ≡ answered w before rs ++ ((r, w.answer (before ++ rs)) ∷ [])
answered-last w before [] r = ap (λ b. (r, w.answer b) ∷ []) (sym (append-nil before))
answered-last w before (q ∷ rs) r =
    ap (λ l. (q, w.answer before) ∷ l) (answered-last w (before ++ (q ∷ [])) rs r)
    ∙ ap (λ b. (q, w.answer before) ∷ answered w (before ++ (q ∷ [])) rs ++ ((r, w.answer b) ∷ []))
        (append_assoc before (q ∷ []) rs)

write_all-last :
    (rs : List (Record × Answer)) (r : Record) (answer : Answer) (s : Kafka)
    → (write_all rs s).0 ≡ none
    → (write r answer (write_all rs s).1).0 ≡ none
    → (write_all (rs ++ ((r, answer) ∷ [])) s).0 ≡ none
unfolding write_all
write_all-last [] r answer s h k = ap (λ x. x.0) (write_all-step r answer [] s k)
write_all-last ((q, a) ∷ rest) r answer s h k = elim (Option-cases (write q a s).0) [
  | inr (x, e) ↦ cc (h, write_all-stop q a rest s x e)
  | inl e ↦
      let step = write_all-step q a rest s e in
      ap (λ x. x.0) (write_all-step q a (rest ++ ((r, answer) ∷ [])) s e)
      ∙ write_all-last rest r answer (write q a s).1 (ap (λ x. x.0) (sym step) ∙ h)
          (ap (λ x. (write r answer x.1).0) (sym step) ∙ k)
]

-- So far the sink took all that was emitted.
HasTaken : Writer → Progress → Type 0
HasTaken w p = (write_all (answered w [] p.emitted) idle).0 ≡ none

advance-HasTaken :
    (w : Writer) (delivery : String) (r : Record) (p : Progress)
    → HasTaken w p
    → (kafka_target w).write p.emitted r ≡ none
    → HasTaken w (advance delivery r p)
unfolding HasTaken
advance-HasTaken w delivery r p h k =
    ap (λ l. (write_all l idle).0) (answered-last w [] p.emitted r)
    ∙ write_all-last (answered w [] p.emitted) r (w.answer p.emitted) idle h k

to_brokers-ok :
    (connect : List String → Writer) (answer : Fallible String (List String)) (target : Target)
    → to_brokers connect answer ≡ ok target
    → (brokers : List String) × (answer ≡ ok brokers) × (kafka_target (connect brokers) ≡ target)
to_brokers-ok connect (ok brokers) target h = (brokers, refl, ok-injective h)
to_brokers-ok connect (err e) target h = cc

trimmed-ok :
    (trim : String → String) (items brokers : List String)
    → trimmed trim items ≡ ok brokers
    → (first : String) × (others : List String) × (items ≡ first ∷ others)
      × (trim first ≢ "")
      × (map trim (first ∷ others) ≡ brokers)
trimmed-ok trim [] brokers h = cc
trimmed-ok trim (b ∷ bs) brokers h = elim (Bool-cases (str_eq (trim b) "")) [
  | inl e ↦ cc (rw e at h)
  | inr e ↦ (b, bs, refl, λ same. cc ((eq_iff (trim b) "").1 same, e), ok-injective (rw e at h))
]

opened-kafka :
    {G F : Type 0} ⦃fl : Float F⦄ (host : Host G F) (flags : Flags) (target : Target)
    → flags.output ≡ "kafka"
    → open_target host flags ≡ ok target
    → (first : String) × (others : List String) × (host.split_commas flags.brokers ≡ first ∷ others)
      × (host.trim_space first ≢ "")
      × (kafka_target (host.connect (map host.trim_space (first ∷ others))) ≡ target)
unfolding open_target
opened-kafka host flags target e h =
    let (brokers, parsed, same) = to_brokers-ok host.connect _ target (
      from_outside-ok (new_kafka host.split_commas host.trim_space host.connect flags.brokers)
        target (rw e at h)) in
    let (first, others, given, named, made) =
      trimmed-ok host.trim_space (host.split_commas flags.brokers) brokers parsed in
    (first, others, given, named, ap (λ l. kafka_target (host.connect l)) made ∙ same)

module _ {G F J : Type 0} ⦃fl : Float F⦄ (host : Host G F) (random : Random G F)
    (t : Tools F J) where
  settled_delivers :
      (w : Writer) (flags : Flags) (g : Generator F) (state : G) (p : Progress)
      → settle host random t flags (kafka_target w) (
          run random t g host.done
            (kafka_target w).write
            flags.git_commit
            (component_versions host)
            state)
        ≡ ok p
      → ((kafka_closed w p.emitted).1.log ≡ map content p.emitted)
        × ((kafka_closed w p.emitted).1.messages ≡ [])
  unfolding HasTaken write_all
  settled_delivers w flags g state p settled =
      let emit = (kafka_target w).write in
      let versions = component_versions host in
      let out = run random t g host.done emit flags.git_commit versions state in
      let (_, same, closed, _) = settle-ok host random t flags (kafka_target w) out p settled in
      let took : HasTaken w p = subst (HasTaken w) same (
        run_keeps random t g host.done emit (HasTaken w)
          (λ r q. advance-HasTaken w (delivery_topic_name g.cfg) r q) flags.git_commit versions
          state refl) in
      let (all, rest) =
        delivered_once (answered w [] p.emitted) (w.last p.emitted) (w.close p.emitted) took
          closed in
      (all ∙ answered-messages w [] p.emitted, rest)

  -- Where the command sends to Kafka and succeeds: the list of brokers has a first one, which is not
  -- empty; the sink is connected to all of them without the space around them; and after `Close` they
  -- have exactly the messages of the topics, keys and values of the run's records, each once and in
  -- their order, and none waits in the sink.
  pub command_delivers :
      (flags : Flags) (cfg : Config F) (p : Progress)
      → flags.output ≡ "kafka"
      → command host random t flags ≡ ok (cfg, p)
      → (first : String) × (others : List String) × (host.split_commas flags.brokers
          ≡ first ∷ others)
        × (host.trim_space first ≢ "")
        × ((kafka_closed (host.connect (map host.trim_space (first ∷ others))) p.emitted).1.log
            ≡ map content p.emitted)
        × ((kafka_closed (host.connect (map host.trim_space (first ∷ others))) p.emitted).1.messages
            ≡ [])
  command_delivers flags cfg p e h =
      let ran = command-HasRun host random t flags cfg p h in
      let (first, others, given, named, same) = opened-kafka host flags ran.target e ran.opened in
      let state = host.seeded cfg in
      let w = host.connect (map host.trim_space (first ∷ others)) in
      let (all, rest) = settled_delivers w flags ran.g state p (
        subst
          (λ (x : Target).
            settle host random t flags x (
              run random t ran.g host.done x.write flags.git_commit (component_versions host) state)
            ≡ ok p)
          (sym same) ran.settled) in
      (first, others, given, named, all, rest)
