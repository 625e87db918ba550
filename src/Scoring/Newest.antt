-- ===== src/Scoring/Newest.antt =====
-- `latestByNode` keeps, for each node, a window that no other window of the node ends after.
use mathlib.Core.List.{Mem, mem-cons_self, mem-cons_of_mem}
use stream_pulse.Common.{
  ◌≡◌, ◌⊎◌, sym, subst, String, ap, ◌∙◌, inl, inr, true, some, List, [], ◌∷◌, foldl, arith,
  Bool-cases, Option-cases, All, All-map, str_eq, eq_iff,
}
use stream_pulse.Common.Dict.{Dict, lookup, lookup-insert, lookup-Holds, values}
use stream_pulse.Common.Int.{◌≤ℤ◌}
use stream_pulse.Domain.{NodeMetric}
use stream_pulse.Scoring.Screening.{replaces, latest_step, latest_map, latest_by_node}
use stream_pulse.Scoring.Distinct.{
  HasDistinctNodes, latest_map-IsKeyed, latest_by_node-HasDistinctNodes, All-latest_by_node,
}

-- Some element has the property.
abbrev pub Some : {A : Type 0} → (A → Type 0) → List A → Type 0
Some P [] = ⊥
Some P (x ∷ xs) = P x ⊎ Some P xs

module _ {F : Type 0} where
  -- The map has a window of the node that ends no earlier.
  abbrev pub IsCovered : Dict (NodeMetric F) → NodeMetric F → Type 0
  IsCovered d x =
      (m : NodeMetric F) × (lookup x.node_id d ≡ some m) × (x.window_end ≤ℤ m.window_end)

  latest_step-covers : (d : Dict (NodeMetric F)) (m : NodeMetric F) → IsCovered (latest_step d m) m
  latest_step-covers d m = elim (Option-cases (lookup m.node_id d)) [
    | inl e ↦ rw e (
      m,
      ground (arith, eq_iff m.node_id m.node_id, lookup-insert m.node_id m.node_id m d),
      omega arith,
    )
    | inr (current, e) ↦ elim (Bool-cases (replaces m (lookup m.node_id d))) [
      | inl r ↦ rw r (
        m,
        ground (arith, eq_iff m.node_id m.node_id, lookup-insert m.node_id m.node_id m d),
        omega arith,
      )
      | inr r ↦ rw r (current, e, ground arith)
    ]
  ]

  latest_step-IsCovered :
      (d : Dict (NodeMetric F)) (m x : NodeMetric F) → IsCovered d x → IsCovered (latest_step d m) x
  latest_step-IsCovered d m x (old, e, le) = elim (Bool-cases (replaces m (lookup m.node_id d))) [
    | inr r ↦ rw r (old, e, le)
    | inl r ↦ elim (Bool-cases (str_eq m.node_id x.node_id)) [
      | inr other ↦ rw r (old, ground (arith, lookup-insert m.node_id x.node_id m d), le)
      | inl same ↦
          let same_id : m.node_id ≡ x.node_id = (eq_iff m.node_id x.node_id).0 same in
          let found : lookup m.node_id d ≡ some old = ap (λ k. lookup k d) same_id ∙ e in
          let newer : replaces m (some old) ≡ true = rw found at r in
          rw r (m, ground (arith, lookup-insert m.node_id x.node_id m d), ground arith)
    ]
  ]

  foldl-latest_step-IsCovered :
      (ms : List (NodeMetric F)) (d : Dict (NodeMetric F)) (x : NodeMetric F)
      → IsCovered d x
      → IsCovered (foldl latest_step d ms) x
  foldl-latest_step-IsCovered [] d x h = h
  foldl-latest_step-IsCovered (m ∷ ms) d x h =
      foldl-latest_step-IsCovered ms (latest_step d m) x (latest_step-IsCovered d m x h)

  foldl-latest_step-covers :
      (ms : List (NodeMetric F)) (d : Dict (NodeMetric F))
      → All (IsCovered (foldl latest_step d ms)) ms
  foldl-latest_step-covers [] d = tt
  foldl-latest_step-covers (m ∷ ms) d = (
    foldl-latest_step-IsCovered ms (latest_step d m) m (latest_step-covers d m),
    foldl-latest_step-covers ms (latest_step d m),
  )

  pub All-mem : (ms : List (NodeMetric F)) → All (λ m. Mem m ms) ms
  All-mem [] = tt
  All-mem (m ∷ ms) = (
    mem-cons_self,
    All-map (λ x. Mem x ms) (λ x. Mem x (m ∷ ms)) (λ x. mem-cons_of_mem m) ms (All-mem ms),
  )

  lookup-Some :
      (P : NodeMetric F → Type 0) (k : String) (m : NodeMetric F) (d : Dict (NodeMetric F))
      → lookup k d ≡ some m
      → P m
      → Some P (values d)
  lookup-Some P k m [] e p = cc
  lookup-Some P k m ((j, v) ∷ d) e p = elim (Bool-cases (str_eq j k)) [
    | inl same ↦ let found : v ≡ m = cc (rw same at e) in inl (subst P (sym found) p)
    | inr other ↦ inr (lookup-Some P k m d (rw other at e) p)
  ]

  -- A window of the same node that ends no earlier
  abbrev pub IsNoEarlier : NodeMetric F → NodeMetric F → Type 0
  IsNoEarlier x m = (m.node_id ≡ x.node_id) × (x.window_end ≤ℤ m.window_end)

  IsCovered-Some :
      (ms : List (NodeMetric F)) (x : NodeMetric F)
      → IsCovered (latest_map ms) x
      → Some (IsNoEarlier x) (latest_by_node ms)
  unfolding latest_by_node
  IsCovered-Some ms x (m, found, le) =
      lookup-Some (IsNoEarlier x) x.node_id m (latest_map ms) found (
        lookup-Holds (λ k v. v.node_id ≡ k) x.node_id m (latest_map ms) (latest_map-IsKeyed ms)
            found,
        le,
      )

  -- `latestByNode` returns windows that it was given, no two of one node; and for every window that
  -- it was given it returns one of the same node that ends no earlier.
  pub latest_by_node_newest :
      (ms : List (NodeMetric F))
      → All (λ m. Mem m ms) (latest_by_node ms)
        × HasDistinctNodes (latest_by_node ms)
        × All (λ x. Some (IsNoEarlier x) (latest_by_node ms)) ms
  unfolding latest_map
  latest_by_node_newest ms = (
    All-latest_by_node (λ m. Mem m ms) ms (All-mem ms),
    latest_by_node-HasDistinctNodes ms,
    All-map (IsCovered (latest_map ms)) (λ x. Some (IsNoEarlier x) (latest_by_node ms))
        (IsCovered-Some ms) ms (foldl-latest_step-covers ms []),
  )
