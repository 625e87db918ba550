-- ===== src/Generator/Command.antt =====
-- services/event-generator/cmd/generator/main.go, with `Load` of internal/config/config.go.
use stream_pulse.Common.{
  ℕ, String, Bool, true, false, ◌||◌, not, Option, none, some, List, [], ◌∷◌, ◌++◌, str_eq,
  if◌then◌else◌,
}
use stream_pulse.Common.Dict.{Dict, insert}
use stream_pulse.Common.Int.{ℤ}
use stream_pulse.Common.Fallible.{Fallible, ok, err, ◌>>=◌}
use stream_pulse.Time.{Time}
use stream_pulse.Float.{Float}
use stream_pulse.Generator.Config.{Config, ConfigError, validate, or_else}
use stream_pulse.Generator.Targets.{Target, Output, Writer, new_json_lines, new_kafka}
use stream_pulse.Generator.Draws.{Random, Tools}
use stream_pulse.Generator.Run.{Manifest, RunError, Progress, new_generator, run}

-- The flags, parsed.
pub record Flags : Type 0 where
  pub config : String
  pub output : String
  pub output_file : String
  pub brokers : String
  pub manifest : String
  pub git_commit : String
  pub start_time : String
  pub seed : String
  pub delivery_topic : String

-- What the command ends with, where it does not succeed.
pub data CommandError : Type 0 where
  outside : String → CommandError
  invalid : ConfigError → CommandError
  stopped : RunError → CommandError

-- Files, the environment, YAML, JSON, `time.Parse` and `strconv.ParseInt`, the
-- Kafka library, and the context's
-- error before each request. A random source is seeded by a number.
pub record Host (G : Type 0) (F : Type 0) : Type 0 where
  pub read_file : String → Fallible String (List ℕ)
  pub parse_yaml : List ℕ → Fallible String (Config F)
  pub parse_time : String → Fallible String Time
  pub parse_int : String → Fallible String ℤ
  pub getenv : String → String
  pub create : String → Fallible String Output
  pub stdout : Output
  pub split_commas : String → List String
  pub trim_space : String → String
  pub connect : List String → Writer
  pub done : ℕ → Option String
  pub seeded : Config F → G
  pub dir_of : String → String
  pub make_dirs : String → Option String
  pub marshal_indent : Manifest → Fallible String (List ℕ)
  pub write_file : String → List ℕ → Option String

abbrev pub from_outside : {A : Type 0} → Fallible String A → Fallible CommandError A
from_outside (ok a) = ok a
from_outside (err e) = err (outside e)

abbrev pub is_given : String → Bool
is_given text = not (str_eq text "")

-- `check` of an error
abbrev pub checked : {A E : Type 0} → (E → CommandError) → Option E → A → Fallible CommandError A
checked kind none a = ok a
checked kind (some e) a = err (kind e)

-- `append(raw, '\n')` is 10 at the end.
module _ {G F : Type 0} (host : Host G F) where
  abbrev pub write_encoded : String → Fallible String (List ℕ) → Option String
  write_encoded path (ok raw) = host.write_file path (raw ++ (10 ∷ []))
  write_encoded path (err e) = some e

  -- `writeJSON`; an error for the directory `.` is left to the file.
  abbrev pub write_json : String → Manifest → Option String
  write_json path manifest =
      let written = write_encoded path (host.marshal_indent manifest) in
      let dir = host.dir_of path in
      or_else (if str_eq dir "." then none else host.make_dirs dir) written

module _ {G F : Type 0} ⦃fl : Float F⦄ (host : Host G F) where
  unfoldable pub validated : Config F → Fallible CommandError (Config F)
  unfolding validate
  validated cfg = checked invalid (validate host.parse_time cfg) cfg

  -- `Load`
  unfoldable pub load : String → Fallible CommandError (Config F)
  unfolding validated
  load path = do
    raw ← from_outside (host.read_file path)
    cfg ← from_outside (host.parse_yaml raw)
    validated cfg

  abbrev pub with_start_time : String → Config F → Config F
  with_start_time text cfg = if is_given text then record cfg { start_time = text } else cfg

  abbrev pub with_seed : String → Config F → Fallible CommandError (Config F)
  with_seed text cfg =
      if is_given text
      then (do seed ← from_outside (host.parse_int text); ok (record cfg { seed = seed }))
      else ok cfg

  abbrev pub with_delivery_topic : String → Config F → Config F
  with_delivery_topic text cfg = if is_given text then record cfg { delivery_topic = text } else cfg

  abbrev pub is_overridden : Flags → Bool
  is_overridden flags =
      is_given flags.start_time || is_given flags.seed || is_given flags.delivery_topic

  unfoldable pub validated_if : Bool → Config F → Fallible CommandError (Config F)
  unfolding validated
  validated_if true cfg = validated cfg
  validated_if false cfg = ok cfg

  -- The configuration that a run uses.
  unfoldable pub configure : Flags → Fallible CommandError (Config F)
  unfolding load validated validated_if
  configure flags = do
    loaded ← load flags.config
    seeded ← with_seed flags.seed (with_start_time flags.start_time loaded)
    validated_if (is_overridden flags) (with_delivery_topic flags.delivery_topic seeded)

  unfoldable pub open_target : Flags → Fallible CommandError Target
  open_target flags =
      if str_eq flags.output "jsonl"
      then from_outside (new_json_lines host.create host.stdout flags.output_file)
      else if str_eq flags.output "kafka"
      then from_outside (new_kafka host.split_commas host.trim_space host.connect flags.brokers)
      else err (outside "unsupported output")

  -- `componentVersions`
  abbrev pub versions_of : List String → Dict String
  versions_of [] = []
  versions_of (key ∷ keys) =
      let rest = versions_of keys in
      if is_given (host.getenv key) then insert key (host.getenv key) rest else rest

  abbrev pub component_versions : Dict String
  component_versions = versions_of (
      "FLINK_VERSION" ∷ "KAFKA_VERSION" ∷ "CLICKHOUSE_VERSION" ∷ "GRAFANA_VERSION"
      ∷ "VECTOR_VERSION" ∷ [])

module _ {G F J : Type 0} ⦃fl : Float F⦄ (host : Host G F) (random : Random G F)
    (t : Tools F J) where
  -- From the end of the run on: the sink is closed, whether or not the run succeeded. After a run
  -- that failed the answer of `Close` has no effect, so the sink is that of the records it took.
  abbrev pub settle : Flags → Target → Option RunError × Progress → Fallible CommandError Progress
  settle flags target (failed, p) =
      let closed = target.close p.emitted in
      (do
        p1 ← checked stopped failed p
        p2 ← checked outside closed p1
        checked outside (write_json host flags.manifest p2.manifest) p2)

  -- `main`, as far as it goes: the run whose manifest is written, or the error that ends it.
  unfoldable pub command : Flags → Fallible CommandError (Config F × Progress)
  unfolding configure open_target run
  command flags = do
    cfg ← configure host flags
    generator ← from_outside (new_generator host.parse_time cfg)
    target ← open_target host flags
    p ← settle flags target (
        run random t generator host.done target.write flags.git_commit (component_versions host)
          (host.seeded cfg))
    ok (cfg, p)
