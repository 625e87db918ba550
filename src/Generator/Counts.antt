-- ===== src/Generator/Counts.antt =====
-- The manifest of a run against the records that it emitted.
use stream_pulse.Common.{
  ℕ, ◌+◌, ◌≡◌, ◌∙◌, refl, sym, ap, inl, inr, String, Bool, ◌&&◌, Option, List, [], ◌∷◌, ◌++◌,
  str_eq, eq_iff, Bool-cases, arith, if◌then◌else◌,
}
use stream_pulse.Common.Dict.{Dict, get, get-insert}
use stream_pulse.Float.{Float}
use stream_pulse.Generator.Config.{delivery_topic_name}
use stream_pulse.Generator.Sink.{Record}
use stream_pulse.Generator.Draws.{Random, Tools}
use stream_pulse.Generator.Requests.{Generator}
use stream_pulse.Generator.Kept.{run_keeps}
use stream_pulse.Generator.Run.{Progress, increment, advance, run, first_manifest}

-- How many of the records pass a test
abbrev pub tally : (Record → Bool) → List Record → ℕ
tally test [] = 0
tally test (r ∷ rs) = let rest = tally test rs in if test r then rest + 1 else rest

tally-append :
    (test : Record → Bool) (rs : List Record) (r : Record)
    → tally test (rs ++ (r ∷ [])) ≡ (if test r then tally test rs + 1 else tally test rs)
tally-append test [] r = refl
tally-append test (q ∷ rs) r = ground (arith, tally-append test rs r)

get-increment :
    (key k : String) (counts : Dict ℕ)
    → get k (increment key counts) 0 ≡ (if str_eq key k then get k counts 0 + 1 else get k counts 0)
get-increment key k counts =
    ground (arith, get-insert key k (get key counts 0 + 1) 0 counts, eq_iff key k)

-- The counters are what a count of the emitted records gives.
pub record IsCounted (delivery : String) (p : Progress) : Type 0 where
  pub topics :
      (topic : String)
      → get topic p.manifest.records_by_topic 0 ≡ tally (λ r. str_eq r.topic topic) p.emitted
  pub keys :
      (key : String)
      → get key p.manifest.delivery_records_by_key 0
        ≡ tally (λ r. str_eq r.topic delivery && str_eq r.key key) p.emitted
  pub duplicates : p.manifest.duplicate_records ≡ tally (λ r. r.duplicate) p.emitted
  pub schema_errors : p.manifest.schema_error_records ≡ tally (λ r. r.schema_invalid) p.emitted

advance-keys :
    (delivery key : String) (r : Record) (rs : List Record) (counts : Dict ℕ)
    → get key counts 0 ≡ tally (λ x. str_eq x.topic delivery && str_eq x.key key) rs
    → get key (if str_eq r.topic delivery then increment r.key counts else counts) 0
      ≡ tally (λ x. str_eq x.topic delivery && str_eq x.key key) (rs ++ (r ∷ []))
advance-keys delivery key r rs counts h =
    let before = tally (λ x. str_eq x.topic delivery && str_eq x.key key) rs in
    let after : tally (λ x. str_eq x.topic delivery && str_eq x.key key) (rs ++ (r ∷ []))
        ≡ (if str_eq r.topic delivery && str_eq r.key key then before + 1 else before) =
      tally-append (λ x. str_eq x.topic delivery && str_eq x.key key) rs r in
    elim (Bool-cases (str_eq r.topic delivery)) [
      | inl e ↦ rw e (
          get-increment r.key key counts
          ∙ ap (λ n. if str_eq r.key key then n + 1 else n) h
          ∙ ap (λ b. if b && str_eq r.key key then before + 1 else before) (sym e)
          ∙ sym after)
      | inr e ↦
          rw e
            (h ∙ ap (λ b. if b && str_eq r.key key then before + 1 else before) (sym e) ∙ sym after)
    ]

advance-IsCounted :
    (delivery : String) (r : Record) (p : Progress)
    → IsCounted delivery p
    → IsCounted delivery (advance delivery r p)
advance-IsCounted delivery r p h = record {
  topics = λ topic.
      get-increment r.topic topic p.manifest.records_by_topic
      ∙ ap (λ n. if str_eq r.topic topic then n + 1 else n) (h.topics topic)
      ∙ sym (tally-append (λ x. str_eq x.topic topic) p.emitted r);
  keys =
      λ key. advance-keys delivery key r p.emitted p.manifest.delivery_records_by_key (h.keys key);
  duplicates =
      ap (λ n. if r.duplicate then n + 1 else n) h.duplicates
      ∙ sym (tally-append (λ x. x.duplicate) p.emitted r);
  schema_errors =
      ap (λ n. if r.schema_invalid then n + 1 else n) h.schema_errors
      ∙ sym (tally-append (λ x. x.schema_invalid) p.emitted r);
}

module _ {G F J : Type 0} ⦃fl : Float F⦄ (random : Random G F) (t : Tools F J) (g : Generator F)
    (done : ℕ → Option String) (emit : List Record → Record → Option String) where
  -- However a run ends, the counters of its manifest are what a count of the emitted records gives:
  -- the records of each topic, those of the delivery topic under each key, the duplicates, and those
  -- with an invalid schema.
  pub run-IsCounted :
      (git_commit : String) (versions : Dict String) (state : G)
      → IsCounted (delivery_topic_name g.cfg) (run random t g done emit git_commit versions state).1
  unfolding run first_manifest
  run-IsCounted git_commit versions state =
      run_keeps random t g done emit (IsCounted (delivery_topic_name g.cfg))
        (λ r p h taken. advance-IsCounted (delivery_topic_name g.cfg) r p h) git_commit versions
        state
        (record {
          topics = λ topic. refl;
          keys = λ key. refl;
          duplicates = refl;
          schema_errors = refl;
        })
