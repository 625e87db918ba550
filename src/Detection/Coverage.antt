-- ===== src/Detection/Coverage.antt =====
-- Which nodes the detector gives a signal.
use stream_pulse.Common.{
  ◌≡◌, ◌≢◌, refl, sym, ap, ◌∙◌, inl, inr, String, none, some, List, [], ◌∷◌, ◌++◌, foldl, All,
  All-map, Bool-cases, Option-cases, str_eq, eq_iff,
}
use stream_pulse.Common.Dict.{
  Dict, lookup, insert, get, map_entries, HasDistinctKeys, insert-HasDistinctKeys, lookup-insert,
  lookup-map_entries,
}
use stream_pulse.Float.{Float}
use stream_pulse.Domain.{NodeMetric}
use stream_pulse.Detection.{Config, by_node, by_node_step, evaluate}

module _ {ℓ κ} {V : Type ℓ} {W : Type κ} (f : String → V → W) where
  map_entries-missing :
      (k : String) (d : Dict V) → lookup k d ≡ none → lookup k (map_entries f d) ≡ none
  map_entries-missing k d h =
      lookup-map_entries f k d ∙ ap (λ o. elim o [ none ↦ none | some v ↦ some (f k v) ]) h

  map_entries-present :
      (k : String) (d : Dict V) → lookup k d ≢ none → lookup k (map_entries f d) ≢ none
  map_entries-present k d h e = elim (Option-cases (lookup k d)) [
    | inl missing ↦ h missing
    | inr (v, found) ↦ cc (
      e,
      lookup-map_entries f k d ∙ ap (λ o. elim o [ none ↦ none | some v ↦ some (f k v) ]) found,
    )
  ]

  map_entries-HasDistinctKeys : (d : Dict V) → HasDistinctKeys d → HasDistinctKeys (map_entries f d)
  map_entries-HasDistinctKeys [] h = tt
  map_entries-HasDistinctKeys ((k, v) ∷ d) h =
      (map_entries-missing k d h.0, map_entries-HasDistinctKeys d h.1)

module _ {F : Type 0} where
  abbrev pub IsGrouped : Dict (List (NodeMetric F)) → NodeMetric F → Type 0
  IsGrouped d m = lookup m.node_id d ≢ none

  lookup-insert_self :
      (k : String) (v : List (NodeMetric F)) (d : Dict (List (NodeMetric F)))
      → lookup k (insert k v d) ≡ some v
  lookup-insert_self k v d = rw (lookup-insert k k v d, (eq_iff k k).1 refl)

  insert-present :
      (k j : String) (v : List (NodeMetric F)) (d : Dict (List (NodeMetric F)))
      → lookup j d ≢ none
      → lookup j (insert k v d) ≢ none
  insert-present k j v d h e = elim (Bool-cases (str_eq k j)) [
    | inl same ↦
        let found : lookup j (insert k v d) ≡ some v = rw (lookup-insert k j v d, same) in
        cc (e, found)
    | inr other ↦
        let kept : lookup j (insert k v d) ≡ lookup j d = rw (lookup-insert k j v d, other) in
        h (sym kept ∙ e)
  ]

  steps-keep :
      (ms : List (NodeMetric F)) (d : Dict (List (NodeMetric F))) (x : NodeMetric F)
      → IsGrouped d x
      → IsGrouped (foldl by_node_step d ms) x
  steps-keep [] d x h = h
  steps-keep (m ∷ ms) d x h =
      steps-keep ms (by_node_step d m) x
        (insert-present m.node_id x.node_id (get m.node_id d [] ++ (m ∷ [])) d h)

  steps-group :
      (ms : List (NodeMetric F)) (d : Dict (List (NodeMetric F)))
      → All (IsGrouped (foldl by_node_step d ms)) ms
  steps-group [] d = tt
  steps-group (m ∷ ms) d =
      (steps-keep ms (by_node_step d m) m (here m d), steps-group ms (by_node_step d m))
    where
      here : (m : NodeMetric F) (d : Dict (List (NodeMetric F))) → IsGrouped (by_node_step d m) m
      here m d e = cc (e, lookup-insert_self m.node_id (get m.node_id d [] ++ (m ∷ [])) d)

  steps-HasDistinctKeys :
      (ms : List (NodeMetric F)) (d : Dict (List (NodeMetric F)))
      → HasDistinctKeys d
      → HasDistinctKeys (foldl by_node_step d ms)
  steps-HasDistinctKeys [] d h = h
  steps-HasDistinctKeys (m ∷ ms) d h =
      steps-HasDistinctKeys ms (by_node_step d m)
        (insert-HasDistinctKeys m.node_id (get m.node_id d [] ++ (m ∷ [])) d h)

module _ {F : Type 0} ⦃fl : Float F⦄ where
  -- `Evaluate` gives every node of the history a signal, and no node two.
  pub evaluate_covers :
      (c : Config F) (history : List (NodeMetric F))
      → All (λ m. lookup m.node_id (evaluate c history) ≢ none) history
        × HasDistinctKeys (evaluate c history)
  unfolding evaluate by_node
  evaluate_covers c history =
      let groups = foldl by_node_step [] history in
      (
        All-map (IsGrouped groups) (λ m. lookup m.node_id (evaluate c history) ≢ none)
            (λ m h.
              map_entries-present _ m.node_id (by_node history)
                (map_entries-present _ m.node_id groups h))
            history (steps-group history []),
        map_entries-HasDistinctKeys _ (by_node history)
            (map_entries-HasDistinctKeys _ groups (steps-HasDistinctKeys history [] tt)),
      )
