-- ===== src/Scoring/Sorted.antt =====
-- The windows of `latestByNode`, in the order of their nodes.
use mathlib.Core.List.{Mem}
use stream_pulse.Common.{
  ◌≡◌, ◌≢◌, sym, inl, inr, ◌⊎◌, Bool, true, List, [], ◌∷◌, Bool-cases, All, All-map,
}
use stream_pulse.Common.Sort.{insert_sorted, sort, All-sort}
use stream_pulse.Common.Order.{string_less-connex}
use stream_pulse.Domain.{NodeMetric}
use stream_pulse.Scoring.Screening.{latest_by_node, node_less, sort_by_node}
use stream_pulse.Scoring.Distinct.{HasDistinctNodes}
use stream_pulse.Scoring.Newest.{Some, IsNoEarlier, latest_by_node_newest}

Some-insert_sorted :
    {A : Type 0} (less : A → A → Bool) (P : A → Type 0) (a : A) (xs : List A)
    → P a ⊎ Some P xs
    → Some P (insert_sorted less a xs)
unfolding insert_sorted
Some-insert_sorted less P a [] h = h
Some-insert_sorted less P a (x ∷ xs) h = elim (Bool-cases (less x a)) [
  | inr e ↦ rw e h
  | inl e ↦ rw e (elim h [
    | inl p ↦ inr (Some-insert_sorted less P a xs (inl p))
    | inr later ↦ elim later [
      | inl p ↦ inl p
      | inr more ↦ inr (Some-insert_sorted less P a xs (inr more))
    ]
  ])
]

Some-sort :
    {A : Type 0} (less : A → A → Bool) (P : A → Type 0) (xs : List A)
    → Some P xs
    → Some P (sort less xs)
unfolding sort
Some-sort less P [] h = h
Some-sort less P (x ∷ xs) (inl p) = Some-insert_sorted less P x (sort less xs) (inl p)
Some-sort less P (x ∷ xs) (inr h) =
    Some-insert_sorted less P x (sort less xs) (inr (Some-sort less P xs h))

module _ {F : Type 0} where
  abbrev pub StartsAfter : NodeMetric F → List (NodeMetric F) → Type 0
  StartsAfter m [] = Unit
  StartsAfter m (x ∷ xs) = node_less m x ≡ true

  -- Each window's node is before the next one's.
  abbrev pub IsAscending : List (NodeMetric F) → Type 0
  IsAscending [] = Unit
  IsAscending (m ∷ ms) = StartsAfter m ms × IsAscending ms

  insert_sorted-StartsAfter :
      (y a : NodeMetric F) (xs : List (NodeMetric F))
      → node_less y a ≡ true
      → StartsAfter y xs
      → StartsAfter y (insert_sorted node_less a xs)
  unfolding insert_sorted
  insert_sorted-StartsAfter y a [] h k = h
  insert_sorted-StartsAfter y a (x ∷ xs) h k = elim (Bool-cases (node_less x a)) [
    | inl e ↦ rw e k
    | inr e ↦ rw e h
  ]

  insert_sorted-IsAscending :
      (a : NodeMetric F) (xs : List (NodeMetric F))
      → All (λ x. x.node_id ≢ a.node_id) xs
      → IsAscending xs
      → IsAscending (insert_sorted node_less a xs)
  unfolding insert_sorted
  insert_sorted-IsAscending a [] new h = (tt, tt)
  insert_sorted-IsAscending a (x ∷ xs) new h = elim (Bool-cases (node_less x a)) [
    | inl e ↦
        rw e (insert_sorted-StartsAfter x a xs e h.0, insert_sorted-IsAscending a xs new.1 h.1)
    | inr e ↦ rw e (string_less-connex a.node_id x.node_id (λ same. new.0 (sym same)) e, h)
  ]

  sort_by_node-IsAscending :
      (ms : List (NodeMetric F)) → HasDistinctNodes ms → IsAscending (sort_by_node ms)
  unfolding sort_by_node sort
  sort_by_node-IsAscending [] d = tt
  sort_by_node-IsAscending (m ∷ ms) d =
      insert_sorted-IsAscending m (sort node_less ms)
        (All-sort node_less (λ x. x.node_id ≢ m.node_id) ms d.0) (sort_by_node-IsAscending ms d.1)

  sorted-Some :
      (ms : List (NodeMetric F)) (x : NodeMetric F)
      → Some (IsNoEarlier x) (latest_by_node ms)
      → Some (IsNoEarlier x) (sort_by_node (latest_by_node ms))
  unfolding sort_by_node
  sorted-Some ms x h = Some-sort node_less (IsNoEarlier x) (latest_by_node ms) h

  pub sorted_newest :
      (ms : List (NodeMetric F))
      → All (λ m. Mem m ms) (sort_by_node (latest_by_node ms))
        × IsAscending (sort_by_node (latest_by_node ms))
        × All (λ x. Some (IsNoEarlier x) (sort_by_node (latest_by_node ms))) ms
  unfolding sort_by_node
  sorted_newest ms =
      let (given, distinct, covered) = latest_by_node_newest ms in
      (
        All-sort node_less (λ m. Mem m ms) (latest_by_node ms) given,
        sort_by_node-IsAscending (latest_by_node ms) distinct,
        All-map (λ x. Some (IsNoEarlier x) (latest_by_node ms))
            (λ x. Some (IsNoEarlier x) (sort_by_node (latest_by_node ms))) (sorted-Some ms) ms
            covered,
      )
