-- ===== src/Server/Settings.antt =====
-- What a server that starts has read.
use stream_pulse.Common.{
  ◌≤◌, ◌≡◌, ◌≢◌, refl, ap, subst, inl, inr, String, List, [], ◌∷◌, arith, str_eq, eq_iff,
  Bool-cases, length, All,
}
use stream_pulse.Common.Int.{ℤ, pos, leb_ℤ, ◌≤ℤ◌}
use stream_pulse.Common.Fallible.{
  Fallible, ok, err, ok-injective, Ensures, bind-Ensures, ok-Ensures, use-Ensures,
}
use stream_pulse.Time.{Duration}
use stream_pulse.Float.{Float, nought, ◌≼◌}
use stream_pulse.Scoring as Scoring
use stream_pulse.App.Build.{Config, Library}
use stream_pulse.System.{assemble}
use stream_pulse.Server.{
  Environment, Server, invalid, positive, nonneg, env_int, env_float, env_duration, env, non_empty,
  some_broker, split_non_empty, scorer_config, service_config, start,
}

-- A duration that the parser gives for some text.
abbrev pub IsParsed : {F : Type 0} → Environment F → Duration → Type 0
IsParsed e d = (text : String) × (e.parse_duration text ≡ ok d)

module _ {F : Type 0} (e : Environment F) where
  positive-ok :
      (name : String) (answer : Fallible String ℤ) (d : ℤ)
      → positive e name answer ≡ ok d
      → (answer ≡ ok d) × (pos 1 ≤ℤ d)
  positive-ok name (ok value) d h = elim (Bool-cases (leb_ℤ value (pos 0))) [
    | inl p ↦ let bad : invalid name ≡ ok d = rw p at h in cc
    | inr p ↦
        let same : value ≡ d = ok-injective (rw p at h) in
        (ap ok same, subst (λ x. pos 1 ≤ℤ x) same (ground arith))
  ]
  positive-ok name (err _) d h = let bad : invalid name ≡ ok d = h in cc

  env_duration-ok :
      (name : String) (fallback d : Duration)
      → env_duration e name fallback ≡ ok d
      → IsParsed e d × (pos 1 ≤ℤ d)
  unfolding env_duration
  env_duration-ok name fallback d h =
      let text = env e name (e.format_duration fallback) in
      let (read, least) = positive-ok name (e.parse_duration text) d h in ((text, read), least)

  env_int-ok : (name : String) (fallback d : ℤ) → env_int e name fallback ≡ ok d → pos 1 ≤ℤ d
  unfolding env_int
  env_int-ok name fallback d h = (positive-ok name (e.atoi (env e name (e.itoa fallback))) d h).1

  non_empty-All : (items : List String) → All (λ item. item ≢ "") (non_empty e items)
  non_empty-All [] = tt
  non_empty-All (item ∷ items) = elim (Bool-cases (str_eq (e.trim_space item) "")) [
    | inl p ↦ rw p (non_empty-All items)
    | inr p ↦ rw p (λ q. cc (p, (eq_iff (e.trim_space item) "").1 q), non_empty-All items)
  ]

  some_broker-ok :
      (items brokers : List String)
      → some_broker e items ≡ ok brokers
      → (items ≡ brokers) × (1 ≤ length brokers)
  some_broker-ok [] brokers h = cc
  some_broker-ok (i ∷ items) brokers h =
      let same = ok-injective h in (same, subst (λ l. 1 ≤ length l) same (omega arith))

  split_non_empty-ok :
      (value : String) (brokers : List String)
      → split_non_empty e value ≡ ok brokers
      → All (λ item. item ≢ "") brokers × (1 ≤ length brokers)
  unfolding split_non_empty
  split_non_empty-ok value brokers h =
      let (same, some_left) = some_broker-ok (non_empty e (e.split_commas value)) brokers h in
      (subst (All (λ item. item ≢ "")) same (non_empty-All (e.split_commas value)), some_left)

module _ {F : Type 0} ⦃fl : Float F⦄ (e : Environment F) where
  nonneg-ok :
      (name : String) (answer : Fallible String F) (v : F)
      → nonneg e name answer ≡ ok v
      → nought ≼ v
  nonneg-ok name (ok value) v h = ground arith
  nonneg-ok name (err _) v h = cc

  env_float-ok : (name : String) (fallback v : F) → env_float e name fallback ≡ ok v → nought ≼ v
  unfolding env_float
  env_float-ok name fallback v h =
      nonneg-ok name (e.parse_float (env e name (e.format_float fallback))) v h

  pub record IsScorerConfig (c : Scoring.Config F) : Type 0 where
    pub stale : IsParsed e c.stale_after × (pos 1 ≤ℤ c.stale_after)
    pub tolerance : pos 1 ≤ℤ c.future_tolerance
    pub limit : nought ≼ c.saturation_limit
    pub step : nought ≼ c.maximum_weight_step
    pub margin : nought ≼ c.benefit_margin

  scorer_config-ok : Ensures IsScorerConfig (scorer_config e)
  unfolding scorer_config
  scorer_config-ok = bind-Ensures _ _ _ (λ samples _. bind-Ensures _ _ _ (λ stale p.
      bind-Ensures _ _ _ (λ tolerance q. bind-Ensures _ _ _ (λ limit r.
        bind-Ensures _ _ _ (λ step t. bind-Ensures _ _ _ (λ margin u. ok-Ensures _ _ _ (record {
          stale = env_duration-ok e _ _ _ p;
          tolerance = (env_duration-ok e _ _ _ q).1;
          limit = env_float-ok _ _ _ r;
          step = env_float-ok _ _ _ t;
          margin = env_float-ok _ _ _ u;
        })))))))

module _ {F : Type 0} (e : Environment F) where
  pub record IsServiceConfig (c : Config) : Type 0 where
    pub windows : pos 1 ≤ℤ c.history_windows
    pub ttl : IsParsed e c.ttl × (pos 1 ≤ℤ c.ttl)
    pub dwell : IsParsed e c.minimum_dwell × (pos 1 ≤ℤ c.minimum_dwell)

  service_config-ok : Ensures IsServiceConfig (service_config e)
  unfolding service_config
  service_config-ok = bind-Ensures _ _ _ (λ windows p. bind-Ensures _ _ _ (λ ttl q.
      bind-Ensures _ _ _ (λ dwell r. ok-Ensures _ _ _ (record {
        windows = env_int-ok e _ _ _ p;
        ttl = env_duration-ok e _ _ _ q;
        dwell = env_duration-ok e _ _ _ r;
      }))))

  IsServiceConfig-hash :
      (hash : String) (c : Config)
      → IsServiceConfig c
      → IsServiceConfig (record c { config_hash = hash })
  IsServiceConfig-hash hash c w = record { windows = w.windows; ttl = w.ttl; dwell = w.dwell }

module _ {F : Type 0} ⦃fl : Float F⦄ (e : Environment F) (library : Library F) where
  -- What the server has built, and that its settings are in range.
  pub record IsReady (server : Server F) : Type 0 where
    pub service : server.service ≡ assemble server.config server.detector server.scorer library
    pub scorer : IsScorerConfig e server.scorer
    pub config : IsServiceConfig e server.config
    pub brokers : All (λ item. item ≢ "") server.brokers × (1 ≤ length server.brokers)

  start-Ensures : Ensures IsReady (start e library)
  unfolding start
  start-Ensures = bind-Ensures _ _ _ (λ detector _. bind-Ensures _ _ _ (λ scorer p.
      bind-Ensures _ _ _ (λ plain q. bind-Ensures _ _ _ (λ click_house _.
        bind-Ensures _ _ _ (λ brokers r. ok-Ensures _ _ _ (record {
          service = refl;
          scorer = use-Ensures _ _ _ (scorer_config-ok e) p;
          config = IsServiceConfig-hash e _ _ (use-Ensures _ _ _ (service_config-ok e) q);
          brokers = split_non_empty-ok e _ _ r;
        }))))))

  -- A server that starts has a service of the settings that it read, of which the durations and the
  -- number of windows are positive and the scorer's limit, step and margin not negative, and at
  -- least one broker, none of them empty.
  pub start-IsReady : (server : Server F) → start e library ≡ ok server → IsReady server
  start-IsReady server h = use-Ensures IsReady (start e library) server start-Ensures h
