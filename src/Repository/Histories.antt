-- ===== src/Repository/Histories.antt =====
-- What the repository makes of the rows of ClickHouse.
use stream_pulse.Common.{◌≡◌, ◌∙◌, ◌↔◌, refl, subst, true, ◌||◌, ltb, List, [], ◌∷◌, arith, All}
use stream_pulse.Common.Int.{ℤ}
use stream_pulse.Common.Fallible.{ok, >>=-eq-ok, >>=-of_ok, ok-injective}
use stream_pulse.Float.{Float, le}
use stream_pulse.Domain.{Scope, NodeMetric}
use stream_pulse.Scoring as Scoring
use stream_pulse.Scoring.Screening.{is_unfit}
use stream_pulse.Repository.Requests.{Wire, ClickHouse}
use stream_pulse.Repository.Answers.{
  IsAnswered, wrapped-ok, query_json-answered, answered-query_json,
}
use stream_pulse.Repository.Rows.{Codec, MetricRow, parse_click_house_time, metric_of, metrics_of}
use stream_pulse.Repository.{history_query, window_limit, history}

module _ {F : Type 0} (k : Codec F) (scope : Scope) where
  -- A metric that says what its row does, for this scope, and that is healthy.
  pub record IsReading (row : MetricRow F) (m : NodeMetric F) : Type 0 where
    pub window_start : parse_click_house_time k row.window_start ≡ ok m.window_start
    pub window_end : parse_click_house_time k row.window_end ≡ ok m.window_end
    pub of_scope : m.scope ≡ scope
    pub node_id : m.node_id ≡ row.node_id
    pub requests : m.requests ≡ row.requests
    pub error_rate : m.error_rate ≡ row.error_rate
    pub cache_hit_rate : m.cache_hit_rate ≡ row.cache_hit_rate
    pub origin_ms : m.origin_ms ≡ row.origin_ms
    pub p50_ttfb_ms : m.p50_ttfb_ms ≡ row.p50_ttfb_ms
    pub p95_ttfb_ms : m.p95_ttfb_ms ≡ row.p95_ttfb_ms
    pub p99_ttfb_ms : m.p99_ttfb_ms ≡ row.p99_ttfb_ms
    pub saturation : m.saturation ≡ row.saturation
    pub healthy : m.healthy ≡ true

  -- One metric for each row, in their order.
  abbrev pub Readings : List (MetricRow F) → List (NodeMetric F) → Type 0
  Readings [] [] = Unit
  Readings [] (m ∷ ms) = ⊥
  Readings (row ∷ rows) [] = ⊥
  Readings (row ∷ rows) (m ∷ ms) = IsReading row m × Readings rows ms

  metric_of-IsReading :
      (row : MetricRow F) (m : NodeMetric F) → metric_of k scope row ≡ ok m → IsReading row m
  unfolding metric_of
  metric_of-IsReading row m h =
      let (start, p, h1) = >>=-eq-ok _ _ h in
      let (finish, q, h2) = >>=-eq-ok _ _ h1 in
      subst (IsReading row) (ok-injective h2) (record {
        window_start = (wrapped-ok "parse window_start: " _ start).0 p;
        window_end = (wrapped-ok "parse window_end: " _ finish).0 q;
        of_scope = refl;
        node_id = refl;
        requests = refl;
        error_rate = refl;
        cache_hit_rate = refl;
        origin_ms = refl;
        p50_ttfb_ms = refl;
        p95_ttfb_ms = refl;
        p99_ttfb_ms = refl;
        saturation = refl;
        healthy = refl;
      })

  IsReading-metric_of :
      (row : MetricRow F) (m : NodeMetric F) → IsReading row m → metric_of k scope row ≡ ok m
  unfolding metric_of
  IsReading-metric_of row m h =
      >>=-of_ok _ _ m.window_start ((wrapped-ok "parse window_start: " _ _).1 h.window_start)
      ∙ >>=-of_ok _ _ m.window_end ((wrapped-ok "parse window_end: " _ _).1 h.window_end)
      ∙ cc

  metrics_of-Readings :
      (rows : List (MetricRow F)) (ms : List (NodeMetric F))
      → metrics_of k scope rows ≡ ok ms
      → Readings rows ms
  unfolding metrics_of
  metrics_of-Readings [] [] h = tt
  metrics_of-Readings [] (m ∷ ms) h = cc
  metrics_of-Readings (row ∷ rows) ms h =
      let (m, p, h1) = >>=-eq-ok _ _ h in
      let (rest, q, h2) = >>=-eq-ok _ _ h1 in
      subst (Readings (row ∷ rows)) (ok-injective h2)
        (metric_of-IsReading row m p, metrics_of-Readings rows rest q)

  Readings-metrics_of :
      (rows : List (MetricRow F)) (ms : List (NodeMetric F))
      → Readings rows ms
      → metrics_of k scope rows ≡ ok ms
  unfolding metrics_of
  Readings-metrics_of [] [] h = refl
  Readings-metrics_of [] (m ∷ ms) h = elim h [ ]
  Readings-metrics_of (row ∷ rows) [] h = elim h [ ]
  Readings-metrics_of (row ∷ rows) (m ∷ ms) h =
      >>=-of_ok _ _ m (IsReading-metric_of row m h.0)
      ∙ >>=-of_ok _ _ ms (Readings-metrics_of rows ms h.1)

  Readings-healthy :
      (rows : List (MetricRow F)) (ms : List (NodeMetric F))
      → Readings rows ms
      → All (λ m. (m.scope ≡ scope) × (m.healthy ≡ true)) ms
  Readings-healthy rows [] h = tt
  Readings-healthy [] (m ∷ ms) h = elim h [ ]
  Readings-healthy (row ∷ rows) (m ∷ ms) h =
      ((h.0.of_scope, h.0.healthy), Readings-healthy rows ms h.1)

module _ {F : Type 0} ⦃fl : Float F⦄ (config : Scoring.Config F) where
  -- The test of a candidate, without its test of the node's health.
  abbrev pub IsBusy : NodeMetric F → Type 0
  IsBusy m =
      is_unfit config m
      ≡ (ltb m.requests config.minimum_samples || le config.saturation_limit m.saturation)

  healthy-IsBusy :
      (scope : Scope) (ms : List (NodeMetric F))
      → All (λ m. (m.scope ≡ scope) × (m.healthy ≡ true)) ms
      → All IsBusy ms
  healthy-IsBusy scope [] h = tt
  healthy-IsBusy scope (m ∷ ms) h = (ground arith, healthy-IsBusy scope ms h.1)

module _ {F : Type 0} (c : ClickHouse) (w : Wire) (k : Codec F) (scope : Scope) where
  -- ClickHouse answered the query of the history with these rows.
  abbrev pub HasRows : ℤ → List (MetricRow F) → Type 0
  HasRows windows = IsAnswered c w k.metric_rows history_query (
      ("param_location", scope.location)
      ∷ ("param_network", scope.network_id)
      ∷ ("param_windows", w.decimal (window_limit c w k windows))
      ∷ [])

  -- `History` gives metrics exactly if ClickHouse answered the query, with the scope and the number
  -- of windows as parameters, with rows of which they are the readings: one for each row, in order,
  -- both times parsed, of the scope that was asked for, healthy, and the rest as the row says.
  pub history_iff :
      (windows : ℤ) (ms : List (NodeMetric F))
      → (history c w k scope windows ≡ ok ms)
        ↔ ((rows : List (MetricRow F)) × HasRows windows rows × Readings k scope rows ms)
  unfolding history
  history_iff windows ms = (
    λ h.
        let (rows, p, q) = >>=-eq-ok _ _ h in
        (rows, query_json-answered c w _ _ _ rows p, metrics_of-Readings k scope rows ms q),
    λ (rows, p, q).
        >>=-of_ok _ _ rows (answered-query_json c w _ _ _ rows p)
        ∙ Readings-metrics_of k scope rows ms q,
  )

module _ {F : Type 0} ⦃fl : Float F⦄ (c : ClickHouse) (w : Wire) (k : Codec F)
    (config : Scoring.Config F) (scope : Scope) where
  -- Of the metrics that `History` gives, the scorer's test of the health of a node rejects none: its
  -- test of a candidate is that of the number of requests and of the saturation.
  pub history-IsBusy :
      (windows : ℤ) (ms : List (NodeMetric F))
      → history c w k scope windows ≡ ok ms
      → All (IsBusy config) ms
  history-IsBusy windows ms h =
      let (rows, _, q) = (history_iff c w k scope windows ms).0 h in
      healthy-IsBusy config scope ms (Readings-healthy k scope rows ms q)
