-- ===== src/Scoring/Evidence.antt =====
-- What the loop over the candidates leaves in the result.
use mathlib.Core.List.{append_assoc, append-nil}
use stream_pulse.Common.{
  suc, ◌≡◌, ◌≢◌, refl, sym, ap, ◌∙◌, Option, none, String, List, [], ◌∷◌, ◌++◌, foldl, arith, All,
  length, eq_iff,
}
use stream_pulse.Common.Dict.{
  Dict, lookup, insert, Holds, HasDistinctKeys, insert-eq-append, lookup-insert,
}
use stream_pulse.Common.Int.{pos, ◌≤ℤ◌}
use stream_pulse.Float.{Float}
use stream_pulse.Domain.{NodeMetric, Signal}
use stream_pulse.Scoring.Types.{Result}
use stream_pulse.Scoring.Distinct.{HasDistinctNodes}
use stream_pulse.Scoring.Report.{collect_step, make_result, expected_delta}

module _ {F : Type 0} where
  abbrev pub entries : List (NodeMetric F) → Dict (NodeMetric F)
  entries [] = []
  entries (m ∷ ms) = (m.node_id, m) ∷ entries ms

  -- A new node keeps the others new.
  pub insert_fresh {ℓ} :
      {V : Type ℓ} (v : V) (m : NodeMetric F) (ms : List (NodeMetric F)) (d : Dict V)
      → All (λ x. x.node_id ≢ m.node_id) ms
      → All (λ x. lookup x.node_id d ≡ none) ms
      → All (λ x. lookup x.node_id (insert m.node_id v d) ≡ none) ms
  insert_fresh v m [] d ne new = tt
  insert_fresh v m (x ∷ xs) d ne new = (
    ground (arith, lookup-insert m.node_id x.node_id v d, eq_iff m.node_id x.node_id, ne.0, new.0),
    insert_fresh v m xs d ne.1 new.1,
  )

module _ {F : Type 0} ⦃fl : Float F⦄ (signals : Dict (Signal F)) where
  collected : Result F → List (NodeMetric F) → Result F
  collected r ms = foldl (collect_step signals) r ms

  collected-evidence :
      (ms : List (NodeMetric F)) (r : Result F)
      → HasDistinctNodes ms
      → All (λ x. lookup x.node_id r.evidence ≡ none) ms
      → (collected r ms).evidence ≡ r.evidence ++ entries ms
  unfolding collected collect_step
  collected-evidence [] r d new = sym (append-nil r.evidence)
  collected-evidence (m ∷ ms) r d new =
      collected-evidence ms (collect_step signals r m) d.1
        (insert_fresh m m ms r.evidence d.0 new.1)
      ∙ ap (λ e. e ++ entries ms) (insert-eq-append m.node_id m r.evidence new.0)
      ∙ append_assoc r.evidence ((m.node_id, m) ∷ []) (entries ms)

  collected-weights :
      (ms : List (NodeMetric F)) (r : Result F)
      → ((collected r ms).current ≡ r.current)
        × ((collected r ms).proposed ≡ r.proposed)
        × ((collected r ms).expected ≡ r.expected)
  unfolding collected collect_step
  collected-weights [] r = (refl, refl, refl)
  collected-weights (m ∷ ms) r = collected-weights ms (collect_step signals r m)

  -- The window of the result spans that of `x`.
  abbrev pub Spans : Result F → NodeMetric F → Type 0
  Spans r x = (r.window_start ≤ℤ x.window_start) × (x.window_end ≤ℤ r.window_end)

  -- Before the first window the start is the zero time, and after it an instant later than that.
  abbrev IsStarted : Result F → Type 0
  IsStarted r = pos 1 ≤ℤ r.window_start

  collect_step-Spans :
      (r : Result F) (m : NodeMetric F)
      → pos 0 ≤ℤ r.window_start
      → pos 1 ≤ℤ m.window_start
      → IsStarted (collect_step signals r m) × Spans (collect_step signals r m) m
  unfolding collect_step
  collect_step-Spans r m n h = ground arith

  collect_step-keeps :
      (r : Result F) (m x : NodeMetric F)
      → pos 1 ≤ℤ m.window_start
      → IsStarted r
      → Spans r x
      → Spans (collect_step signals r m) x
  unfolding collect_step
  collect_step-keeps r m x h s k = ground arith

  collected-keeps :
      (ms : List (NodeMetric F)) (r : Result F) (x : NodeMetric F)
      → All (λ m. pos 1 ≤ℤ m.window_start) ms
      → IsStarted r
      → Spans r x
      → Spans (collected r ms) x
  unfolding collected
  collected-keeps [] r x h s k = k
  collected-keeps (m ∷ ms) r x h s k =
      collected-keeps ms (collect_step signals r m) x h.1
        (collect_step-Spans r m (omega arith) h.0).0 (collect_step-keeps r m x h.0 s k)

  collected-Spans :
      (ms : List (NodeMetric F)) (r : Result F)
      → All (λ m. pos 1 ≤ℤ m.window_start) ms
      → pos 0 ≤ℤ r.window_start
      → All (Spans (collected r ms)) ms
  unfolding collected
  collected-Spans [] r h n = tt
  collected-Spans (m ∷ ms) r h n =
      let (started, here) = collect_step-Spans r m n h.0 in
      let r' = collect_step signals r m in
      (collected-keeps ms r' m h.1 started here, collected-Spans ms r' h.1 (omega (arith, started)))

  module _ (eligible : List (NodeMetric F)) (current proposed : Dict F) where
    pub make_result-evidence :
        HasDistinctNodes eligible
        → (make_result eligible current proposed signals).evidence ≡ entries eligible
    unfolding make_result collected
    make_result-evidence d = collected-evidence eligible _ d (All-new eligible)
      where
        All-new :
            (ms : List (NodeMetric F)) → All (λ x. ◌≡◌ {A = Option (NodeMetric F)} none none) ms
        All-new [] = tt
        All-new (m ∷ ms) = (refl, All-new ms)

    pub make_result-weights :
        let r = make_result eligible current proposed signals in
        (r.current ≡ current)
        × (r.proposed ≡ proposed)
        × (r.expected ≡ expected_delta eligible current proposed)
    unfolding make_result collected
    make_result-weights = collected-weights eligible _

    pub make_result-Spans :
        All (λ m. pos 1 ≤ℤ m.window_start) eligible
        → All (Spans (make_result eligible current proposed signals)) eligible
    unfolding make_result collected
    make_result-Spans h = collected-Spans eligible _ h (omega arith)

module _ {F : Type 0} (P : NodeMetric F → Type 0) where
  pub Holds-entries :
      (ms : List (NodeMetric F)) → All P ms → Holds (λ k m. (k ≡ m.node_id) × P m) (entries ms)
  Holds-entries [] h = tt
  Holds-entries (m ∷ ms) h = ((refl, h.0), Holds-entries ms h.1)

pub length-entries : {F : Type 0} (ms : List (NodeMetric F)) → length (entries ms) ≡ length ms
length-entries [] = refl
length-entries (m ∷ ms) = ap suc (length-entries ms)

entries_new :
    {F : Type 0} (k : String) (ms : List (NodeMetric F))
    → All (λ x. x.node_id ≢ k) ms
    → lookup k (entries ms) ≡ none
entries_new k [] h = refl
entries_new k (m ∷ ms) h = ground (arith, eq_iff m.node_id k, h.0, entries_new k ms h.1)

pub entries-HasDistinctKeys :
    {F : Type 0} (ms : List (NodeMetric F)) → HasDistinctNodes ms → HasDistinctKeys (entries ms)
entries-HasDistinctKeys [] d = tt
entries-HasDistinctKeys (m ∷ ms) d = (entries_new m.node_id ms d.0, entries-HasDistinctKeys ms d.1)
