-- ===== src/Detection/Signals.antt =====
-- What the signals of the detector promise.
use stream_pulse.Common.{
  ◌≡◌, refl, sym, ap, inl, inr, String, Bool, true, false, not, List, [], ◌∷◌, ◌++◌, arith,
  Bool-cases, length,
}
use stream_pulse.Common.Dict.{Dict, Holds, map_entries}
use stream_pulse.Common.Int.{pos, leb_ℤ}
use stream_pulse.Float.{Float, IsExact, Extended, ◌⊖◌, ◌⊘◌, lit, nought, one, max, min, ◌≼◌}
use stream_pulse.Float.Order.{le_of_lt, le_trans}
use stream_pulse.Float.Bounds.{le-max_left, max-le, min-le_left}
use stream_pulse.Domain.{NodeMetric, Signal}
use stream_pulse.Detection.{
  Config, append_unique, split_last, quiet, rule_fires, apply_rule, raise, apply_history,
  node_signal, evaluate, by_node, remember, raise_latency, raise_error, miss_anomaly, error_anomaly,
  latency_anomaly, error_delta, own_baseline, past_p95, robust_z,
}
use stream_pulse.Detection.Statistics.{clamp01}

abbrev is_empty : List String → Bool
is_empty [] = true
is_empty (c ∷ cs) = false

append_unique-not_empty : (cs : List String) (c : String) → is_empty (append_unique cs c) ≡ false
append_unique-not_empty [] c = refl
append_unique-not_empty (x ∷ xs) c = ground arith

append-not_empty : (cs : List String) (c : String) → is_empty (cs ++ (c ∷ [])) ≡ false
append-not_empty [] c = refl
append-not_empty (x ∷ xs) c = refl

module _ {F : Type 0} ⦃fl : Float F⦄ where
  -- The signal of node `k`, its severity from 0 to 1, anomalous exactly when it gives a reason.
  pub record IsSound (k : String) (s : Signal F) : Type 0 where
    pub named : k ≡ s.node_id
    pub severity_nonneg : nought ≼ s.severity
    pub severity-le : s.severity ≼ one
    pub explained : s.anomalous ≡ not (is_empty s.reason_codes)

module _ {F : Type 0} ⦃fl : Float F⦄ (laws : IsExact F) where
  open laws use {lt_irrefl, nought-lt-one}

  clamp01_nonneg : (v : F) → nought ≼ clamp01 v
  clamp01_nonneg v = le-max_left laws nought (min one v)

  clamp01-le : (v : F) → clamp01 v ≼ one
  clamp01-le v =
      max-le laws nought (min one v) one (le_of_lt laws nought one nought-lt-one)
        (min-le_left laws one v)

  quiet-IsSound : (k : String) (b : F) → IsSound k (quiet k b)
  quiet-IsSound k b = record {
    named = refl;
    severity_nonneg = lt_irrefl nought;
    severity-le = le_of_lt laws nought one nought-lt-one;
    explained = refl;
  }

  apply_rule-IsSound :
      (c : Config F) (b : F) (m : NodeMetric F) (k : String) (s : Signal F)
      → IsSound k s
      → IsSound k (apply_rule c b m s)
  unfolding apply_rule
  apply_rule-IsSound c b m k s h = elim (Bool-cases (rule_fires c b m)) [
    | inr e ↦ rw e h
    | inl e ↦ rw e (record {
      named = h.named;
      severity_nonneg = clamp01_nonneg _;
      severity-le = clamp01-le _;
      explained = ap not (sym (append-not_empty s.reason_codes _));
    })
  ]

  raise-IsSound :
      (found : Bool) (v : F) (code k : String) (s : Signal F)
      → IsSound k s
      → IsSound k (raise found v code s)
  unfolding raise
  raise-IsSound false v code k s h = h
  raise-IsSound true v code k s h = record {
    named = h.named;
    severity_nonneg = max_nonneg s.severity (clamp01 v) h.severity_nonneg;
    severity-le = max-le laws s.severity (clamp01 v) one h.severity-le (clamp01-le v);
    explained = ap not (sym (append_unique-not_empty s.reason_codes code));
  }
    where
      max_nonneg : (a b : F) → nought ≼ a → nought ≼ max a b
      max_nonneg a b p = le_trans laws nought a (max a b) p (le-max_left laws a b)

  remember-IsSound :
      (k : String) (s : Signal F) (b : F) (z : Extended F)
      → IsSound k s
      → IsSound k (record s { baseline_ms = b; robust_z = z })
  remember-IsSound k s b z h = record {
    named = h.named;
    severity_nonneg = h.severity_nonneg;
    severity-le = h.severity-le;
    explained = h.explained;
  }

  apply_history-IsSound :
      (c : Config F) (past : List (NodeMetric F)) (m : NodeMetric F) (k : String) (s : Signal F)
      → IsSound k s
      → IsSound k (apply_history c past m s)
  unfolding apply_history
  apply_history-IsSound c past m k s h =
      let noted = remember c past m s in
      let timed = raise_latency c past m noted in
      let failed = raise_error c past m timed in
      raise-IsSound (miss_anomaly past m) (one ⊖ m.cache_hit_rate) "MAD_CACHE_MISS_ANOMALY" k failed
        (raise-IsSound (error_anomaly c past m) (error_delta c past m ⊘ lit 20 100)
          "EWMA_ERROR_RATE_ANOMALY" k timed
          (raise-IsSound (latency_anomaly c past m)
            ((m.p95_ttfb_ms ⊘ own_baseline c past ⊖ one) ⊘ fl.of_nat 2) "EWMA_MAD_LATENCY_ANOMALY" k
            noted
            (remember-IsSound k s (own_baseline c past) (robust_z m.p95_ttfb_ms (past_p95 past))
              h)))

  node_signal-IsSound :
      (c : Config F) (b : F) (k : String) (ms : List (NodeMetric F))
      → IsSound k (node_signal c b k ms)
  unfolding node_signal
  node_signal-IsSound c b k [] = quiet-IsSound k b
  node_signal-IsSound c b k (m ∷ ms) =
      let past = (split_last m ms).0 in
      let rule = apply_rule-IsSound c b (split_last m ms).1 k (quiet k b) (quiet-IsSound k b) in
      elim (Bool-cases (leb_ℤ c.minimum_history (pos (length past)))) [
        | inl e ↦ rw e (apply_history-IsSound c past (split_last m ms).1 k _ rule)
        | inr e ↦ rw e rule
      ]

  map_entries-IsSound :
      (c : Config F) (b : F) (d : Dict (List (NodeMetric F)))
      → Holds IsSound (map_entries (node_signal c b) d)
  map_entries-IsSound c b [] = tt
  map_entries-IsSound c b ((k, ms) ∷ d) = (node_signal-IsSound c b k ms, map_entries-IsSound c b d)

  -- In exact arithmetic, each signal that `Evaluate` returns stands under its node's name, its
  -- severity is from 0 to 1, and it is anomalous exactly when it gives a reason.
  pub evaluate_signals :
      (c : Config F) (history : List (NodeMetric F)) → Holds IsSound (evaluate c history)
  unfolding evaluate
  evaluate_signals c history = map_entries-IsSound c _ (by_node history)
