-- ===== src/Repository/Newest.antt =====
-- The latest recommendation that the repository reads.
use stream_pulse.Common.{
  ◌≡◌, ◌≢◌, ◌⊎◌, inl, inr, ◌↔◌, refl, sym, ◌∙◌, false, subst, String, Option, none, some, List, [],
  ◌∷◌, Bool-cases, str_eq, eq_iff,
}
use stream_pulse.Common.Dict.{Dict}
use stream_pulse.Common.Fallible.{ok, >>=-eq-ok, >>=-of_ok, ok-injective}
use stream_pulse.Domain.{Scope, NodeMetric, Recommendation}
use stream_pulse.Repository.Requests.{Wire, ClickHouse}
use stream_pulse.Repository.Answers.{
  IsAnswered, wrapped-ok, query_json-answered, answered-query_json,
}
use stream_pulse.Repository.Rows.{
  Codec, RecommendationRow, parse_click_house_time, evidence_of, recommendation_of,
}
use stream_pulse.Repository.{latest_query, newest_of, latest_recommendation}

str_ne : (s t : String) → str_eq s t ≡ false → s ≢ t
str_ne s t e same = cc ((eq_iff s t).1 same, e)

ne_str : (s t : String) → s ≢ t → str_eq s t ≡ false
ne_str s t ne = elim (Bool-cases (str_eq s t)) [
  | inl e ↦ absurd (ne ((eq_iff s t).0 e))
  | inr e ↦ e
]

module _ {F : Type 0} (k : Codec F) (asked : Scope) where
  -- The evidence that a row has: none where its text is empty or an empty object.
  abbrev pub IsEvidence : String → Dict (NodeMetric F) → Type 0
  IsEvidence json evidence =
      (((json ≡ "") ⊎ (json ≡ "{}")) × (evidence ≡ []))
      ⊎ ((json ≢ "") × (json ≢ "{}") × (k.evidence json ≡ ok evidence))

  evidence_of-IsEvidence :
      (json : String) (evidence : Dict (NodeMetric F))
      → evidence_of k json ≡ ok evidence
      → IsEvidence json evidence
  evidence_of-IsEvidence json evidence h = elim (Bool-cases (str_eq json "")) [
    | inl e ↦ inl (inl ((eq_iff json "").0 e), sym (ok-injective (rw e at h)))
    | inr e ↦ elim (Bool-cases (str_eq json "{}")) [
      | inl f ↦ inl (inr ((eq_iff json "{}").0 f), sym (ok-injective (rw (e, f) at h)))
      | inr f ↦ inr (
        str_ne json "" e,
        str_ne json "{}" f,
        (wrapped-ok "decode evidence: " (k.evidence json) evidence).0 (rw (e, f) at h),
      )
    ]
  ]

  IsEvidence-evidence_of :
      (json : String) (evidence : Dict (NodeMetric F))
      → IsEvidence json evidence
      → evidence_of k json ≡ ok evidence
  IsEvidence-evidence_of json evidence (inl (inl e, empty)) = rw (e, empty) refl
  IsEvidence-evidence_of json evidence (inl (inr e, empty)) = rw (e, empty) refl
  IsEvidence-evidence_of json evidence (inr (ne, nf, read)) =
      rw (ne_str json "" ne, ne_str json "{}" nf)
        ((wrapped-ok "decode evidence: " (k.evidence json) evidence).1 read)

  -- What a recommendation takes from its row.
  pub record IsStored (row : RecommendationRow F) (r : Recommendation F) : Type 0 where
    pub of_scope : r.scope ≡ asked
    pub schema_version : r.schema_version ≡ 1
    pub id : r.recommendation_id ≡ row.recommendation_id
    pub revision : r.revision ≡ row.revision
    pub created_at : parse_click_house_time k row.created_at ≡ ok r.created_at
    pub valid_until : parse_click_house_time k row.valid_until ≡ ok r.valid_until
    pub mode : r.mode ≡ row.mode
    pub action : r.action ≡ row.action
    pub current : k.weights row.current_json ≡ ok r.current
    pub proposed : k.weights row.proposed_json ≡ ok r.proposed
    pub evidence_window : r.evidence_window ≡ row.evidence_window
    pub reason_codes : r.reason_codes ≡ row.reason_codes
    pub p95_delta : r.expected.p95_ttfb_delta_ms ≡ row.expected_p95
    pub error_delta : r.expected.error_rate_delta ≡ row.expected_error
    pub cost_delta : r.expected.cost_units_delta ≡ row.expected_cost
    pub confidence : r.confidence ≡ row.confidence
    pub model_version : r.model_version ≡ row.model_version
    pub window_start : parse_click_house_time k row.input_window_start ≡ ok r.input_window_start
    pub window_end : parse_click_house_time k row.input_window_end ≡ ok r.input_window_end
    pub query_version : r.query_version ≡ row.query_version
    pub config_hash : r.config_hash ≡ row.config_hash
    pub evidence : IsEvidence row.evidence_json r.evidence

  recommendation_of-IsStored :
      (row : RecommendationRow F) (r : Recommendation F)
      → recommendation_of k asked row ≡ ok r
      → IsStored row r
  unfolding recommendation_of
  recommendation_of-IsStored row r h =
      let (created, p1, h1) = >>=-eq-ok _ _ h in
      let (valid, p2, h2) = >>=-eq-ok _ _ h1 in
      let (current, p3, h3) = >>=-eq-ok _ _ h2 in
      let (proposed, p4, h4) = >>=-eq-ok _ _ h3 in
      let (start, p5, h5) = >>=-eq-ok _ _ h4 in
      let (finish, p6, h6) = >>=-eq-ok _ _ h5 in
      let (evidence, p7, h7) = >>=-eq-ok _ _ h6 in
      subst (IsStored row) (ok-injective h7) (record {
        of_scope = refl;
        schema_version = refl;
        mode = refl;
        action = refl;
        evidence_window = refl;
        reason_codes = refl;
        p95_delta = refl;
        error_delta = refl;
        cost_delta = refl;
        confidence = refl;
        model_version = refl;
        query_version = refl;
        config_hash = refl;
        id = refl;
        revision = refl;
        created_at = p1;
        valid_until = p2;
        current = (wrapped-ok "decode current weights: " _ current).0 p3;
        proposed = (wrapped-ok "decode proposed weights: " _ proposed).0 p4;
        window_start = (wrapped-ok "parse input_window_start: " _ start).0 p5;
        window_end = (wrapped-ok "parse input_window_end: " _ finish).0 p6;
        evidence = evidence_of-IsEvidence row.evidence_json evidence p7;
      })

  IsStored-recommendation_of :
      (row : RecommendationRow F) (r : Recommendation F)
      → IsStored row r
      → recommendation_of k asked row ≡ ok r
  unfolding recommendation_of
  IsStored-recommendation_of row r h =
      >>=-of_ok _ _ r.created_at h.created_at
      ∙ >>=-of_ok _ _ r.valid_until h.valid_until
      ∙ >>=-of_ok _ _ r.current ((wrapped-ok "decode current weights: " _ _).1 h.current)
      ∙ >>=-of_ok _ _ r.proposed ((wrapped-ok "decode proposed weights: " _ _).1 h.proposed)
      ∙ >>=-of_ok _ _ r.input_window_start
          ((wrapped-ok "parse input_window_start: " _ _).1 h.window_start)
      ∙ >>=-of_ok _ _ r.input_window_end
          ((wrapped-ok "parse input_window_end: " _ _).1 h.window_end)
      ∙ >>=-of_ok _ _ r.evidence (IsEvidence-evidence_of row.evidence_json r.evidence h.evidence)
      ∙ cc

module _ {F : Type 0} (c : ClickHouse) (w : Wire) (k : Codec F) (asked : Scope) where
  -- ClickHouse answered the query of the latest recommendation with these rows.
  abbrev pub HasNewest : List (RecommendationRow F) → Type 0
  HasNewest =
      IsAnswered c w k.recommendation_rows latest_query
        (("param_location", asked.location) ∷ ("param_network", asked.network_id) ∷ [])

  -- What an answer says of the rows.
  abbrev pub IsFirst : List (RecommendationRow F) → Option (Recommendation F) → Type 0
  IsFirst [] none = Unit
  IsFirst [] (some r) = ⊥
  IsFirst (row ∷ rows) none = ⊥
  IsFirst (row ∷ rows) (some r) = IsStored k asked row r

  newest_of-IsFirst :
      (rows : List (RecommendationRow F)) (answer : Option (Recommendation F))
      → newest_of c w k asked rows ≡ ok answer
      → IsFirst rows answer
  newest_of-IsFirst [] none h = tt
  newest_of-IsFirst [] (some r) h = cc (ok-injective h)
  newest_of-IsFirst (row ∷ rows) none h = let (r, _, q) = >>=-eq-ok _ _ h in cc (ok-injective q)
  newest_of-IsFirst (row ∷ rows) (some r) h =
      let (read, p, q) = >>=-eq-ok _ _ h in
      let same : read ≡ r = cc (ok-injective q) in
      recommendation_of-IsStored k asked row r
        (subst (λ x. recommendation_of k asked row ≡ ok x) same p)

  IsFirst-newest_of :
      (rows : List (RecommendationRow F)) (answer : Option (Recommendation F))
      → IsFirst rows answer
      → newest_of c w k asked rows ≡ ok answer
  IsFirst-newest_of [] none h = refl
  IsFirst-newest_of [] (some r) h = elim h [ ]
  IsFirst-newest_of (row ∷ rows) none h = elim h [ ]
  IsFirst-newest_of (row ∷ rows) (some r) h =
      >>=-of_ok _ _ r (IsStored-recommendation_of k asked row r h)

  -- `LatestRecommendation` gives an answer exactly if ClickHouse answered the query for the scope with
  -- rows that say it: none where there is no row; and otherwise a recommendation for that scope that
  -- is what the first row says in every field. Its times, both maps of weights and its evidence are
  -- those that the row's texts parse to, with no evidence for an empty text or object; its schema
  -- version is 1; and all else is the row's.
  pub latest_recommendation_newest :
      (answer : Option (Recommendation F))
      → (latest_recommendation c w k asked ≡ ok answer)
        ↔ ((rows : List (RecommendationRow F)) × HasNewest rows × IsFirst rows answer)
  unfolding latest_recommendation
  latest_recommendation_newest answer = (
    λ h.
        let (rows, p, q) = >>=-eq-ok _ _ h in
        (rows, query_json-answered c w _ _ _ rows p, newest_of-IsFirst rows answer q),
    λ (rows, p, q).
        >>=-of_ok _ _ rows (answered-query_json c w _ _ _ rows p) ∙ IsFirst-newest_of rows answer q,
  )
