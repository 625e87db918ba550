-- ===== src/Scoring/Distinct.antt =====
-- One window for each node: the latest, and what is true of all windows stays true of it.
use stream_pulse.Common.{
  ◌≡◌, ◌≢◌, refl, sym, subst, ◌∙◌, inl, inr, none, List, [], ◌∷◌, foldl, arith, String, Bool,
  Bool-cases, All, str_eq, eq_iff,
}
use stream_pulse.Common.Dict.{
  Dict, lookup, values, HasDistinctKeys, insert-HasDistinctKeys, Holds, insert-Holds,
}
use stream_pulse.Common.Sort.{insert_sorted, sort, All-insert_sorted, All-sort}
use stream_pulse.Domain.{NodeMetric}
use stream_pulse.Scoring.Screening.{
  replaces, latest_step, latest_map, latest_by_node, node_less, sort_by_node,
}

module _ {F : Type 0} where
  -- No two windows are of one node.
  abbrev pub HasDistinctNodes : List (NodeMetric F) → Type 0
  HasDistinctNodes [] = Unit
  HasDistinctNodes (m ∷ ms) = All (λ x. x.node_id ≢ m.node_id) ms × HasDistinctNodes ms

  -- Every window stands under its node.
  abbrev pub IsKeyed : Dict (NodeMetric F) → Type 0
  IsKeyed = Holds (λ k m. m.node_id ≡ k)

  latest_step-HasDistinctKeys :
      (d : Dict (NodeMetric F)) (m : NodeMetric F)
      → HasDistinctKeys d
      → HasDistinctKeys (latest_step d m)
  latest_step-HasDistinctKeys d m h = ground (arith, insert-HasDistinctKeys m.node_id m d h)

  latest_step-Holds :
      (P : String → NodeMetric F → Type 0) (d : Dict (NodeMetric F)) (m : NodeMetric F)
      → P m.node_id m
      → Holds P d
      → Holds P (latest_step d m)
  latest_step-Holds P d m p h = elim (Bool-cases (replaces m (lookup m.node_id d))) [
    | inl e ↦ rw e (insert-Holds P m.node_id m d p h)
    | inr e ↦ rw e h
  ]

  foldl-latest_step-HasDistinctKeys :
      (ms : List (NodeMetric F)) (d : Dict (NodeMetric F))
      → HasDistinctKeys d
      → HasDistinctKeys (foldl latest_step d ms)
  foldl-latest_step-HasDistinctKeys [] d h = h
  foldl-latest_step-HasDistinctKeys (m ∷ ms) d h =
      foldl-latest_step-HasDistinctKeys ms (latest_step d m) (latest_step-HasDistinctKeys d m h)

  foldl-latest_step-Holds :
      (P : String → NodeMetric F → Type 0) (ms : List (NodeMetric F)) (d : Dict (NodeMetric F))
      → All (λ m. P m.node_id m) ms
      → Holds P d
      → Holds P (foldl latest_step d ms)
  foldl-latest_step-Holds P [] d ps h = h
  foldl-latest_step-Holds P (m ∷ ms) d ps h =
      foldl-latest_step-Holds P ms (latest_step d m) ps.1 (latest_step-Holds P d m ps.0 h)

  pub latest_map-Holds :
      (P : String → NodeMetric F → Type 0) (ms : List (NodeMetric F))
      → All (λ m. P m.node_id m) ms
      → Holds P (latest_map ms)
  unfolding latest_map
  latest_map-Holds P ms ps = foldl-latest_step-Holds P ms [] ps tt

  pub latest_map-HasDistinctKeys : (ms : List (NodeMetric F)) → HasDistinctKeys (latest_map ms)
  unfolding latest_map
  latest_map-HasDistinctKeys ms = foldl-latest_step-HasDistinctKeys ms [] tt

  All-refl : (ms : List (NodeMetric F)) → All (λ m. m.node_id ≡ m.node_id) ms
  All-refl [] = tt
  All-refl (m ∷ ms) = (refl, All-refl ms)

  pub latest_map-IsKeyed : (ms : List (NodeMetric F)) → IsKeyed (latest_map ms)
  latest_map-IsKeyed ms = latest_map-Holds (λ k m. m.node_id ≡ k) ms (All-refl ms)

  values-All :
      (P : NodeMetric F → Type 0) (d : Dict (NodeMetric F))
      → Holds (λ _ m. P m) d
      → All P (values d)
  values-All P [] h = tt
  values-All P ((k, m) ∷ d) h = (h.0, values-All P d h.1)

  keys_ne :
      (k : String) (d : Dict (NodeMetric F))
      → lookup k d ≡ none
      → IsKeyed d
      → All (λ m. m.node_id ≢ k) (values d)
  keys_ne k [] h keyed = tt
  keys_ne k ((j, m) ∷ d) h keyed = elim (Bool-cases (str_eq j k)) [
    | inl same ↦ cc (rw same at h)
    | inr other ↦
        (λ e. cc ((eq_iff j k).1 (sym keyed.0 ∙ e), other), keys_ne k d (rw other at h) keyed.1)
  ]

  values-HasDistinctNodes :
      (d : Dict (NodeMetric F)) → HasDistinctKeys d → IsKeyed d → HasDistinctNodes (values d)
  values-HasDistinctNodes [] h keyed = tt
  values-HasDistinctNodes ((k, m) ∷ d) h keyed = (
    subst (λ j. All (λ x. x.node_id ≢ j) (values d)) (sym keyed.0) (keys_ne k d h.0 keyed.1),
    values-HasDistinctNodes d h.1 keyed.1,
  )

  pub latest_by_node-HasDistinctNodes :
      (ms : List (NodeMetric F)) → HasDistinctNodes (latest_by_node ms)
  unfolding latest_by_node
  latest_by_node-HasDistinctNodes ms =
      values-HasDistinctNodes (latest_map ms) (latest_map-HasDistinctKeys ms)
        (latest_map-IsKeyed ms)

  pub All-latest_by_node :
      (P : NodeMetric F → Type 0) (ms : List (NodeMetric F)) → All P ms → All P (latest_by_node ms)
  unfolding latest_by_node
  All-latest_by_node P ms ps = values-All P (latest_map ms) (latest_map-Holds (λ _ m. P m) ms ps)

  insert_sorted-HasDistinctNodes :
      (less : NodeMetric F → NodeMetric F → Bool) (m : NodeMetric F) (ms : List (NodeMetric F))
      → All (λ x. x.node_id ≢ m.node_id) ms
      → HasDistinctNodes ms
      → HasDistinctNodes (insert_sorted less m ms)
  unfolding insert_sorted
  insert_sorted-HasDistinctNodes less m [] new d = (tt, tt)
  insert_sorted-HasDistinctNodes less m (x ∷ xs) new d = elim (Bool-cases (less x m)) [
    | inl e ↦ rw e (
      All-insert_sorted less (λ y. y.node_id ≢ x.node_id) m xs (λ same. new.0 (sym same)) d.0,
      insert_sorted-HasDistinctNodes less m xs new.1 d.1,
    )
    | inr e ↦ rw e (new, d)
  ]

  pub sort_by_node-HasDistinctNodes :
      (ms : List (NodeMetric F)) → HasDistinctNodes ms → HasDistinctNodes (sort_by_node ms)
  unfolding sort_by_node
  sort_by_node-HasDistinctNodes [] d = tt
  sort_by_node-HasDistinctNodes (m ∷ ms) d =
      insert_sorted-HasDistinctNodes node_less m (sort node_less ms)
        (All-sort node_less (λ x. x.node_id ≢ m.node_id) ms d.0)
        (sort_by_node-HasDistinctNodes ms d.1)
