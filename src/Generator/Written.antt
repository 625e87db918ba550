-- ===== src/Generator/Written.antt =====
-- What holds of a manifest that the generator's command writes.
use stream_pulse.Common.{
  ℕ, List, [], ◌∷◌, ◌++◌, inl, inr, Bool-cases, str_eq, if◌then◌else◌, eq_iff, ◌≡◌, ◌≢◌, ◌∙◌, refl,
  sym, ap, subst, String, Bool, true, false, ◌||◌, Option, none, some, arith,
}
use stream_pulse.Common.Int.{pos_part}
use stream_pulse.Common.Fallible.{Fallible, ok, err, >>=-eq-ok, ok-injective}
use stream_pulse.Generator.Rates.{or_else-none}
use stream_pulse.Time.{Time}
use stream_pulse.Float.{Float}
use stream_pulse.Generator.Config.{Config, validate, delivery_topic_name}
use stream_pulse.Generator.Events.{routing_topic, player_topic}
use stream_pulse.Generator.Targets.{Target}
use stream_pulse.Generator.Draws.{Random, Tools}
use stream_pulse.Generator.Requests.{Generator}
use stream_pulse.Generator.Run.{
  Manifest, RunError, Progress, generator_from, new_generator, run, total_requests,
}
use stream_pulse.Generator.Counts.{IsCounted, run-IsCounted}
use stream_pulse.Generator.Complete.{IsFull, finished}
use stream_pulse.Generator.Command.{
  Flags, CommandError, outside, invalid, stopped, Host, from_outside, is_given, checked, validated,
  load, with_start_time, with_seed, with_delivery_topic, is_overridden, validated_if, configure,
  component_versions, settle, command, write_json, write_encoded, open_target,
}

pub from_outside-ok :
    {A : Type 0} (answer : Fallible String A) (a : A) → from_outside answer ≡ ok a → answer ≡ ok a
from_outside-ok (ok b) a h = cc
from_outside-ok (err e) a h = cc

checked-ok :
    {A E : Type 0} (kind : E → CommandError) (e : Option E) (a b : A)
    → checked kind e a ≡ ok b
    → (e ≡ none) × (a ≡ b)
checked-ok kind none a b h = (refl, ok-injective h)
checked-ok kind (some e) a b h = let bad : err (kind e) ≡ ok b = h in cc

generator_from-ok :
    {F : Type 0} (cfg : Config F) (answer : Fallible String Time) (g : Generator F)
    → generator_from cfg answer ≡ ok g
    → g.cfg ≡ cfg
generator_from-ok cfg (ok start) g h = ap (λ (x : Generator _). x.cfg) (sym (ok-injective h))
generator_from-ok cfg (err e) g h = cc

three_false : (a b c : Bool) → (a || b || c) ≡ false → (a ≡ false) × (b ≡ false) × (c ≡ false)
three_false a b c h = ground arith

module _ {G F : Type 0} ⦃fl : Float F⦄ (host : Host G F) where
  abbrev IsValid : Config F → Type 0
  IsValid cfg = validate host.parse_time cfg ≡ none

  validated-ok : (cfg out : Config F) → validated host cfg ≡ ok out → (cfg ≡ out) × IsValid out
  unfolding validated
  validated-ok cfg out h =
      let (valid, same) = checked-ok invalid (validate host.parse_time cfg) cfg out h in
      (same, subst IsValid same valid)

  load-IsValid : (path : String) (cfg : Config F) → load host path ≡ ok cfg → IsValid cfg
  unfolding load
  load-IsValid path cfg h =
      let (raw, _, h1) = >>=-eq-ok _ _ h in
      let (parsed, _, h2) = >>=-eq-ok _ _ h1 in (validated-ok parsed cfg h2).1

  validated_if-IsValid :
      (b : Bool) (c cfg : Config F)
      → (b ≡ false → IsValid c)
      → validated_if host b c ≡ ok cfg
      → IsValid cfg
  unfolding validated_if
  validated_if-IsValid true c cfg valid h = (validated-ok c cfg h).1
  validated_if-IsValid false c cfg valid h = subst IsValid (ok-injective h) (valid refl)

  -- Without an override the configuration stays as it was loaded.
  with_start_time-same :
      (text : String) (c : Config F) → is_given text ≡ false → with_start_time host text c ≡ c
  with_start_time-same text c h = rw h refl

  with_delivery_topic-same :
      (text : String) (c : Config F) → is_given text ≡ false → with_delivery_topic host text c ≡ c
  with_delivery_topic-same text c h = rw h refl

  with_seed-same :
      (text : String) (c : Config F) → is_given text ≡ false → with_seed host text c ≡ ok c
  with_seed-same text c h = rw h refl

  none_given :
      (flags : Flags)
      → is_overridden host flags ≡ false
      → (is_given flags.start_time ≡ false)
        × (is_given flags.seed ≡ false)
        × (is_given flags.delivery_topic ≡ false)
  none_given flags h =
      three_false (is_given flags.start_time) (is_given flags.seed) (is_given flags.delivery_topic)
        h

  configure-IsValid : (flags : Flags) (cfg : Config F) → configure host flags ≡ ok cfg → IsValid cfg
  unfolding configure
  configure-IsValid flags cfg h =
      let (loaded, p, h1) = >>=-eq-ok _ _ h in
      let (seeded, q, h2) = >>=-eq-ok _ _ h1 in
      validated_if-IsValid (is_overridden host flags)
        (with_delivery_topic host flags.delivery_topic seeded) cfg
        (λ plain.
          let (no_start, no_seed, no_topic) = none_given flags plain in
          let kept : loaded ≡ seeded = ok-injective (
            sym (with_seed-same flags.seed loaded no_seed)
            ∙ ap (with_seed host flags.seed)
                (sym (with_start_time-same flags.start_time loaded no_start))
            ∙ q) in
          subst IsValid (kept ∙ sym (with_delivery_topic-same flags.delivery_topic seeded no_topic))
            (load-IsValid flags.config loaded p))
        h2

-- The manifest is in the file: its folder was made, unless that is `.`, and the file was written with
-- the manifest in JSON and a line break.
pub record IsInFile {G F : Type 0} (host : Host G F) (path : String) (manifest : Manifest)
    : Type 0 where
  pub encoded : List ℕ
  pub marshalled : host.marshal_indent manifest ≡ ok encoded
  pub folder : host.dir_of path ≢ "." → host.make_dirs (host.dir_of path) ≡ none
  pub taken : host.write_file path (encoded ++ (b'\n' ∷ [])) ≡ none

module _ {G F : Type 0} (host : Host G F) where
  write_encoded-none :
      (path : String) (answer : Fallible String (List ℕ))
      → write_encoded host path answer ≡ none
      → (encoded : List ℕ) × (answer ≡ ok encoded)
        × (host.write_file path (encoded ++ (b'\n' ∷ [])) ≡ none)
  write_encoded-none path (ok raw) h = (raw, refl, h)
  write_encoded-none path (err e) h = cc

  write_json-IsInFile :
      (path : String) (manifest : Manifest)
      → write_json host path manifest ≡ none
      → IsInFile host path manifest
  write_json-IsInFile path manifest h =
      let dir = host.dir_of path in
      let (made, written) =
        or_else-none (if str_eq dir "." then none else host.make_dirs dir)
          (write_encoded host path (host.marshal_indent manifest)) h in
      let (encoded, marshalled, taken) =
        write_encoded-none path (host.marshal_indent manifest) written in
      record {
        encoded = encoded;
        marshalled = marshalled;
        folder = λ ne. elim (Bool-cases (str_eq (host.dir_of path) ".")) [
          | inl e ↦ absurd (ne ((eq_iff (host.dir_of path) ".").0 e))
          | inr e ↦ rw e at made
        ];
        taken = taken;
      }

-- What a manifest that the command writes tells of the run.
pub record IsWritten {G F J : Type 0} ⦃fl : Float F⦄ (host : Host G F) (t : Tools F J)
    (path : String) (cfg : Config F) (p : Progress) : Type 0 where
  pub valid : IsValid host cfg
  pub written : IsInFile host path p.manifest
  pub counted : IsCounted (delivery_topic_name cfg) p
  pub full :
      (g : Generator F)
      → new_generator host.parse_time cfg ≡ ok g
      → delivery_topic_name cfg ≢ routing_topic
      → delivery_topic_name cfg ≢ player_topic
      → IsFull (delivery_topic_name cfg) (pos_part (total_requests t g)) p.emitted

module _ {G F J : Type 0} ⦃fl : Float F⦄ (host : Host G F) (random : Random G F)
    (t : Tools F J) where
  pub settle-ok :
      (flags : Flags) (target : Target) (out : Option RunError × Progress) (p : Progress)
      → settle host random t flags target out ≡ ok p
      → (out.0 ≡ none)
        × (out.1 ≡ p)
        × (target.close p.emitted ≡ none)
        × (write_json host flags.manifest p.manifest ≡ none)
  settle-ok flags target (failed, q) p h =
      let (p1, e1, h1) = >>=-eq-ok _ _ h in
      let (p2, e2, h2) = >>=-eq-ok _ _ h1 in
      let (no_failure, same1) = checked-ok stopped failed q p1 e1 in
      let (closed, same2) = checked-ok outside (target.close q.emitted) p1 p2 e2 in
      let (written, same3) =
        checked-ok outside (write_json host flags.manifest p2.manifest) p2 p h2 in
      let same = same1 ∙ same2 ∙ same3 in
      (
        no_failure,
        same,
        subst (λ (x : Progress). target.close x.emitted ≡ none) same closed,
        subst (λ (x : Progress). write_json host flags.manifest x.manifest ≡ none) same3 written,
      )

  -- The run behind a success
  pub record HasRun (flags : Flags) (cfg : Config F) (p : Progress) : Type 0 where
    pub g : Generator F
    pub target : Target
    pub configured : configure host flags ≡ ok cfg
    pub made : from_outside (new_generator host.parse_time cfg) ≡ ok g
    pub opened : open_target host flags ≡ ok target
    pub settled :
        settle host random t flags target (
          run random t g host.done target.write flags.git_commit
            (component_versions host)
            (host.seeded cfg))
        ≡ ok p

  pub command-HasRun :
      (flags : Flags) (cfg : Config F) (p : Progress)
      → command host random t flags ≡ ok (cfg, p)
      → HasRun flags cfg p
  unfolding command
  command-HasRun flags cfg p h =
      let (cfg1, configured, h1) = >>=-eq-ok _ _ h in
      let (generator, made, h2) = >>=-eq-ok _ _ h1 in
      let (target, opened, h3) = >>=-eq-ok _ _ h2 in
      let (q, settled, h4) = >>=-eq-ok _ _ h3 in
      subst (λ (x : Config F × Progress). HasRun flags x.0 x.1) (ok-injective h4)
        (record {
          g = generator;
          target = target;
          configured = configured;
          made = made;
          opened = opened;
          settled = settled;
        })

  HasRun-IsWritten :
      (flags : Flags) (cfg : Config F) (p : Progress)
      → HasRun flags cfg p
      → IsWritten host t flags.manifest cfg p
  HasRun-IsWritten flags cfg p ran =
      let g = ran.g in
      let target = ran.target in
      let state = host.seeded cfg in
      let versions = component_versions host in
      let out = run random t g host.done target.write flags.git_commit versions state in
      let (no_failure, same, _, written) = settle-ok flags target out p ran.settled in
      let new = from_outside-ok (new_generator host.parse_time cfg) g ran.made in
      let own : g.cfg ≡ cfg = generator_from-ok cfg (host.parse_time cfg.start_time) g new in
      record {
        valid = configure-IsValid host flags cfg ran.configured;
        written = write_json-IsInFile host flags.manifest p.manifest written;
        counted =
            subst (λ c. IsCounted (delivery_topic_name c) p) own
              (subst (IsCounted (delivery_topic_name g.cfg)) same
                (run-IsCounted random t g host.done target.write flags.git_commit versions state));
        full = λ other again not_routing not_player.
            let kept : g ≡ other = ok-injective (sym new ∙ again) in
            let found =
              finished random t g host.done target.write
                (subst (λ c. delivery_topic_name c ≢ routing_topic) (sym own) not_routing)
                (subst (λ c. delivery_topic_name c ≢ player_topic) (sym own) not_player)
                flags.git_commit versions state no_failure in
            subst
              (λ c. IsFull (delivery_topic_name c) (pos_part (total_requests t other)) p.emitted)
              own
              (subst
                (λ x. IsFull (delivery_topic_name g.cfg) (pos_part (total_requests t x)) p.emitted)
                kept
                (subst
                  (λ (x : Progress).
                    IsFull (delivery_topic_name g.cfg) (pos_part (total_requests t g)) x.emitted)
                  same found));
      }

  -- Where the command succeeds, the configuration that it used is valid, whichever flags override
  -- the file; the manifest's folder was made, unless it is `.`, and the manifest's file was written
  -- with its JSON and a line break; and its counters are what a count of the records gives that
  -- the sink took; and where the delivery topic is neither that of the routings nor of the players,
  -- there is one routing record for each request, one delivery record for each and one for each
  -- duplicate, and a player's record for each fourth request.
  pub command-IsWritten :
      (flags : Flags) (cfg : Config F) (p : Progress)
      → command host random t flags ≡ ok (cfg, p)
      → IsWritten host t flags.manifest cfg p
  command-IsWritten flags cfg p h = HasRun-IsWritten flags cfg p (command-HasRun flags cfg p h)
