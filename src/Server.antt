-- ===== src/Server.antt =====
-- services/recommendation-api/cmd/server/main.go: the settings that the server reads when it starts.
mod Settings
mod Safety
mod Tests
use stream_pulse.Common.{
  ℕ, ◌-◌, ◌*◌, ◌%◌, ◌^◌, String, ◌<>◌, Bool, true, ◌==◌, List, [], ◌∷◌, str_eq, if◌then◌else◌,
}
use stream_pulse.Common.Int.{ℤ, pos, negsuc, leb_ℤ}
use stream_pulse.Common.Fallible.{Fallible, ok, err, ◌>>=◌}
use stream_pulse.Time.{Duration}
use stream_pulse.Float.{Float, lt, nought, lit}
use stream_pulse.Scoring as Scoring
use stream_pulse.Detection as Detection
use stream_pulse.App.Build.{Config, Library, Service}
use stream_pulse.System.{assemble}
use stream_pulse.App.Scopes.{codes, after_prefix}

-- The environment, and the functions of the language's library that read and print its values:
-- `os.Getenv`, `strings.TrimSpace`, `strings.Split` at commas, `strconv`, `time.ParseDuration`, and
-- the JSON and the SHA-256 of `configHash`, which panics for an infinity or a NaN: a server that
-- starts has read finite numbers only.
pub record Environment (F : Type 0) : Type 0 where
  pub getenv : String → String
  pub trim_space : String → String
  pub split_commas : String → List String
  pub atoi : String → Fallible String ℤ
  pub itoa : ℤ → String
  pub parse_float : String → Fallible String F
  pub format_float : F → String
  pub parse_duration : String → Fallible String Duration
  pub format_duration : Duration → String
  pub hash : Detection.Config F → Scoring.Config F → Config → String

-- What `main` hands to `repository.NewClickHouse`.
pub record ClickHouseConfig : Type 0 where
  pub endpoint : String
  pub user : String
  pub password : String
  pub timeout : Duration

-- What `main` has built when it starts to listen.
pub record Server (F : Type 0) : Type 0 where
  pub detector : Detection.Config F
  pub scorer : Scoring.Config F
  pub config : Config
  pub click_house : ClickHouseConfig
  pub brokers : List String
  pub topic : String
  pub service : Service F
  pub address : String

abbrev pub seconds : ℕ → Duration
seconds n = pos (n * 10 ^ 9)

-- `uint64(value)` of a signed integer
abbrev pub to_uint64 : ℤ → ℕ
to_uint64 (pos n) = n % 2 ^ 64
to_uint64 (negsuc n) = 2 ^ 64 - 1 - n % 2 ^ 64

-- `log.Fatalf("invalid %s", name)` ends the program.
abbrev pub invalid {ℓ} : {A : Type ℓ} → String → Fallible String A
invalid name = err ("invalid " <> name)

module _ {F : Type 0} (e : Environment F) where
  unfoldable pub env : String → String → String
  env name fallback =
      let value = e.trim_space (e.getenv name) in if str_eq value "" then fallback else value

  abbrev pub positive : String → Fallible String ℤ → Fallible String ℤ
  positive name (ok value) = if leb_ℤ value (pos 0) then invalid name else ok value
  positive name (err _) = invalid name

  unfoldable pub env_int : String → ℤ → Fallible String ℤ
  unfolding env
  env_int name fallback = positive name (e.atoi (env name (e.itoa fallback)))

  unfoldable pub env_duration : String → Duration → Fallible String Duration
  unfolding env
  env_duration name fallback =
      positive name (e.parse_duration (env name (e.format_duration fallback)))

  -- The loop of `splitNonEmpty`
  abbrev pub non_empty : List String → List String
  non_empty [] = []
  non_empty (item ∷ items) =
      let trimmed = e.trim_space item in
      let rest = non_empty items in if str_eq trimmed "" then rest else trimmed ∷ rest

  abbrev pub some_broker : List String → Fallible String (List String)
  some_broker [] = err "KAFKA_BROKERS must contain at least one broker"
  some_broker (broker ∷ brokers) = ok (broker ∷ brokers)

  unfoldable pub split_non_empty : String → Fallible String (List String)
  split_non_empty value = some_broker (non_empty (e.split_commas value))

module _ {F : Type 0} ⦃fl : Float F⦄ (e : Environment F) where
  abbrev pub nonneg : String → Fallible String F → Fallible String F
  nonneg name (ok value) = if lt value nought then invalid name else ok value
  nonneg name (err _) = invalid name

  unfoldable pub env_float : String → F → Fallible String F
  unfolding env
  env_float name fallback = nonneg name (e.parse_float (env e name (e.format_float fallback)))

  unfoldable pub detector_config : Fallible String (Detection.Config F)
  unfolding env_int env_float
  detector_config = do
    samples ← env_int e "MINIMUM_SAMPLES" (pos 100)
    history ← env_int e "MINIMUM_HISTORY_WINDOWS" (pos 5)
    alpha ← env_float "EWMA_ALPHA" (lit 20 100)
    errors ← env_float "ERROR_RATE_THRESHOLD" (lit 2 100)
    multiple ← env_float "LATENCY_BASELINE_MULTIPLE" (lit 2 1)
    z ← env_float "ROBUST_Z_THRESHOLD" (lit 3 1)
    ok (record {
      minimum_samples = to_uint64 samples;
      minimum_history = history;
      ewma_alpha = alpha;
      error_threshold = errors;
      latency_multiple = multiple;
      robust_z_threshold = z;
    })

  unfoldable pub scorer_config : Fallible String (Scoring.Config F)
  unfolding env_int env_float env_duration
  scorer_config = do
    samples ← env_int e "MINIMUM_SAMPLES" (pos 100)
    stale ← env_duration e "METRICS_STALE_AFTER" (seconds 120)
    tolerance ← env_duration e "METRICS_FUTURE_TOLERANCE" (seconds 5)
    limit ← env_float "SATURATION_LIMIT" (lit 85 100)
    step ← env_float "MAXIMUM_WEIGHT_STEP" (lit 20 100)
    margin ← env_float "BENEFIT_MARGIN" (lit 1 10000)
    ok (record {
      minimum_samples = to_uint64 samples;
      stale_after = stale;
      future_tolerance = tolerance;
      saturation_limit = limit;
      maximum_weight_step = step;
      benefit_margin = margin;
    })

module _ {F : Type 0} (e : Environment F) where
  -- `serviceConfig`, before its hash is set
  unfoldable pub service_config : Fallible String Config
  unfolding env_int env_duration
  service_config = do
    windows ← env_int e "HISTORY_WINDOWS" (pos 15)
    ttl ← env_duration e "RECOMMENDATION_TTL" (seconds 120)
    dwell ← env_duration e "MINIMUM_DWELL" (seconds 60)
    ok (record {
      history_windows = windows;
      ttl = ttl;
      minimum_dwell = dwell;
      query_version = "node-quality-v1";
      model_version = "rule-ewma-mad-v1";
      config_hash = "";
    })

  unfoldable pub click_house_config : Fallible String ClickHouseConfig
  unfolding env env_duration
  click_house_config = do
    timeout ← env_duration e "CLICKHOUSE_TIMEOUT" (seconds 3)
    ok (record {
      endpoint = env e "CLICKHOUSE_URL" "http://clickhouse:8123";
      user = env e "CLICKHOUSE_USER" "streampulse";
      password = env e "CLICKHOUSE_PASSWORD" "streampulse-local";
      timeout = timeout;
    })

module _ {F : Type 0} ⦃fl : Float F⦄ (e : Environment F) (library : Library F) where
  -- `main`, up to the server that listens; an error is what it logs before it ends.
  unfoldable pub start : Fallible String (Server F)
  unfolding env detector_config scorer_config service_config click_house_config split_non_empty
      assemble
  start = do
    detector ← detector_config e
    scorer ← scorer_config e
    plain ← service_config e
    let config = record plain { config_hash = e.hash detector scorer plain }
    click_house ← click_house_config e
    brokers ← split_non_empty e (env e "KAFKA_BROKERS" "kafka:9092")
    ok (record {
      detector = detector;
      scorer = scorer;
      config = config;
      click_house = click_house;
      brokers = brokers;
      topic = env e "KAFKA_RECOMMENDATION_TOPIC" "cdn.recommendations.v1";
      service = assemble config detector scorer library;
      address = env e "HTTP_ADDR" ":8090";
    })

-- `strings.HasPrefix(address, ":")`
abbrev pub starts_at_port : String → Bool
starts_at_port address = after_prefix (codes ":") (λ _. true) (codes address)

-- The exit code of `runHealthcheck`, where `get` is the status that an address answers with.
unfoldable pub run_healthcheck : {F : Type 0} → Environment F → (String → Fallible String ℕ) → ℕ
unfolding env
run_healthcheck e get =
    let address = env e "HTTP_ADDR" ":8090" in
    let host = if starts_at_port address then "127.0.0.1" <> address else address in
    elim (get ("http://" <> (host <> "/healthz"))) [
      | err _ ↦ 1
      | ok status ↦ if status == 200 then 0 else 1
    ]
