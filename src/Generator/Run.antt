-- ===== src/Generator/Run.antt =====
-- services/event-generator/internal/scenario/generator.go: a run, and the manifest that it keeps.
use stream_pulse.Common.{
  ℕ, zero, suc, ◌+◌, String, Option, none, some, List, [], ◌∷◌, ◌++◌, map, str_eq, if◌then◌else◌,
}
use stream_pulse.Common.Dict.{Dict, get, insert}
use stream_pulse.Common.Int.{ℤ, pos, negsuc, pos_part, ◌+ℤ◌}
use stream_pulse.Common.Fallible.{Fallible, ok, err}
use stream_pulse.Time.{Time, add}
use stream_pulse.Float.{Float, ◌⊖◌, ◌⊗◌, nought}
use stream_pulse.Generator.Config.{Config, Scenario, Node, add_durations, delivery_topic_name}
use stream_pulse.Generator.Sink.{Record}
use stream_pulse.Generator.Draws.{Random, Tools, Failure}
use stream_pulse.Generator.Requests.{Generator, deterministic_id}
use stream_pulse.Generator.Records.{generate_request}

pub record LabelWindow : Type 0 where
  pub kind : String
  pub start : String
  pub finish : String
  pub target : String
  pub network : String

-- The counters are natural numbers, below the range of `int64`.
pub record Manifest : Type 0 where
  pub run_id : String
  pub seed : ℤ
  pub git_commit : String
  pub simulation_start : String
  pub simulation_end : String
  pub rate_per_second : ℤ
  pub base_requests : ℤ
  pub records_by_topic : Dict ℕ
  pub delivery_records_by_key : Dict ℕ
  pub duplicate_records : ℕ
  pub schema_error_records : ℕ
  pub expected_labels : List LabelWindow
  pub versions : Dict String

-- The error of the context, of a request, or of `emit`
pub data RunError : Type 0 where
  cancelled : String → RunError
  failed : Failure → RunError
  not_emitted : String → RunError

-- The manifest so far, and the records that were emitted.
pub record Progress : Type 0 where
  pub manifest : Manifest
  pub emitted : List Record

abbrev pub increment : String → Dict ℕ → Dict ℕ
increment key counts = insert key (get key counts 0 + 1) counts

-- The counters after one record
abbrev pub count_record : String → Record → Manifest → Manifest
count_record delivery r m = record m {
  records_by_topic = increment r.topic m.records_by_topic;
  delivery_records_by_key =
      if str_eq r.topic delivery
      then increment r.key m.delivery_records_by_key
      else m.delivery_records_by_key;
  duplicate_records = if r.duplicate then m.duplicate_records + 1 else m.duplicate_records;
  schema_error_records =
      if r.schema_invalid then m.schema_error_records + 1 else m.schema_error_records;
}

abbrev pub advance : String → Record → Progress → Progress
advance delivery r p = record {
  manifest = count_record delivery r p.manifest;
  emitted = p.emitted ++ (r ∷ []);
}

-- `if err != nil { return manifest, err }`, and what comes after
abbrev pub unless :
    Option RunError → Progress → Option RunError × Progress → Option RunError × Progress
unless none p rest = rest
unless (some e) p rest = (some e, p)

abbrev pub as_error : (String → RunError) → Option String → Option RunError
as_error kind none = none
as_error kind (some e) = some (kind e)

-- The records of a request; `emit` answers by what was emitted before.
unfoldable pub emit_all :
    (List Record → Record → Option String)
    → String
    → List Record
    → Progress
    → Option RunError × Progress
emit_all emit delivery [] p = (none, p)
emit_all emit delivery (r ∷ rs) p =
    let rest = emit_all emit delivery rs (advance delivery r p) in
    unless (as_error not_emitted (emit p.emitted r)) p rest

abbrev pub go_on :
    Option RunError × Progress
    → (Progress → Option RunError × Progress)
    → Option RunError × Progress
go_on (none, p) k = k p
go_on (some e, p) k = (some e, p)

abbrev pub with_request :
    {G : Type 0}
    → Fallible Failure (List Record × G)
    → Progress
    → (List Record → G → Option RunError × Progress)
    → Option RunError × Progress
with_request (err e) p k = (some (failed e), p)
with_request (ok (records, state)) p k = k records state

module _ {F : Type 0} where
  abbrev pub generator_from : Config F → Fallible String Time → Fallible String (Generator F)
  generator_from cfg (ok start) =
      ok (record { cfg = cfg; start = start; node_ids = map (λ (n : Node F). n.id) cfg.nodes })
  generator_from cfg (err e) = err e

  -- `New`; `time.Parse` is a parameter.
  abbrev pub new_generator :
      (String → Fallible String Time) → Config F → Fallible String (Generator F)
  new_generator parse_time cfg = generator_from cfg (parse_time cfg.start_time)

module _ {F J : Type 0} (t : Tools F J) (g : Generator F) where
  abbrev pub label_window : Scenario F → LabelWindow
  unfolding add_durations
  label_window item = record {
    kind = item.kind;
    start = t.rfc3339_nano (add g.start item.at);
    finish = t.rfc3339_nano (add g.start (add_durations item.at item.duration));
    target = item.target;
    network = item.network;
  }

  abbrev pub label_windows : List LabelWindow
  label_windows = map label_window g.cfg.scenarios

module _ {F : Type 0} ⦃fl : Float F⦄ where
  abbrev pub of_int : ℤ → F
  of_int (pos n) = fl.of_nat n
  of_int (negsuc n) = nought ⊖ fl.of_nat (suc n)

module _ {F J : Type 0} ⦃fl : Float F⦄ (t : Tools F J) (g : Generator F) where
  abbrev pub total_requests : ℤ
  total_requests = t.to_int64 (t.round (t.seconds g.cfg.duration ⊗ of_int g.cfg.rate_per_second))

  unfoldable pub first_manifest : String → Dict String → Manifest
  unfolding ◌+ℤ◌ add_durations
  first_manifest git_commit versions = record {
    run_id = deterministic_id t g.cfg.seed total_requests "run";
    seed = g.cfg.seed;
    git_commit = git_commit;
    simulation_start = t.rfc3339_nano g.start;
    simulation_end = t.rfc3339_nano (add g.start g.cfg.duration);
    rate_per_second = g.cfg.rate_per_second;
    base_requests = total_requests;
    records_by_topic = [];
    delivery_records_by_key = [];
    duplicate_records = 0;
    schema_error_records = 0;
    expected_labels = label_windows t g;
    versions = versions;
  }

module _ {G F J : Type 0} ⦃fl : Float F⦄ (random : Random G F) (t : Tools F J) (g : Generator F)
    (done : ℕ → Option String) (emit : List Record → Record → Option String) where
  -- The requests from `i` on, of which `left` are left; `done` is the context's error before each.
  unfoldable pub run_requests : ℕ → ℕ → G → Progress → Option RunError × Progress
  unfolding generate_request emit_all
  run_requests zero i state p = (none, p)
  run_requests (suc left) i state p = unless (as_error cancelled (done i)) p (
      with_request (generate_request random t g i state) p (λ records next.
        go_on (emit_all emit (delivery_topic_name g.cfg) records p)
          (λ q. run_requests left (suc i) next q)))

  -- `Run`
  unfoldable pub run : String → Dict String → G → Option RunError × Progress
  unfolding first_manifest run_requests
  run git_commit versions state =
      run_requests (pos_part (total_requests t g)) 0 state
        (record { manifest = first_manifest t g git_commit versions; emitted = [] })
