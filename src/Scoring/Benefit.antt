-- ===== src/Scoring/Benefit.antt =====
-- What a successful proposal improves, in the terms of its own evidence.
use stream_pulse.Common.{◌≡◌, sym, ap, subst, ◌∙◌, List, [], ◌∷◌}
use stream_pulse.Common.Dict.{Dict, get}
use stream_pulse.Common.Fallible.{ok}
use stream_pulse.Time.{Time}
use stream_pulse.Float.{Float, IsExact, ◌⊕◌, ◌⊖◌, ◌⊗◌, ◌⊘◌, nought, one, lit, max, ◌≼◌}
use stream_pulse.Float.Laws.{nought-add, sub_self, mul-sub}
use stream_pulse.Float.Sums.{sub-add-sub}
use stream_pulse.Domain.{NodeMetric, Signal}
use stream_pulse.Scoring.{Config, Result, propose}
use stream_pulse.Scoring.Report.{penalty, weighted_from, weighted_penalty, expected_delta}
use stream_pulse.Scoring.Evidence.{entries, make_result-weights, make_result-evidence}
use stream_pulse.Scoring.Outcome.{
  eligible, current, proposed, eligible-HasDistinctNodes, propose-ok,
}

module _ {F : Type 0} ⦃fl : Float F⦄ where
  -- A sum over the nodes of the evidence: what each weight changes by, times a value of the node.
  abbrev pub moved : Dict F → Dict F → (NodeMetric F → F) → Dict (NodeMetric F) → F
  moved before after value [] = nought
  moved before after value ((k, m) ∷ evidence) =
      (get k after nought ⊖ get k before nought) ⊗ value m ⊕ moved before after value evidence

  -- The origin's milliseconds for each request
  abbrev pub origin_cost : NodeMetric F → F
  origin_cost m = m.origin_ms ⊘ max (fl.of_nat m.requests) one

  -- What the scorer weighs: the latency and the origin's cost in seconds, the errors, the misses of
  -- the cache, and the saturation.
  abbrev pub burden : NodeMetric F → F
  burden m =
      lit 35 100 ⊗ m.p95_ttfb_ms ⊘ fl.of_nat 1000
      ⊕ lit 25 100 ⊗ m.error_rate
      ⊕ lit 15 100 ⊗ (one ⊖ m.cache_hit_rate)
      ⊕ lit 15 100 ⊗ origin_cost m ⊘ fl.of_nat 1000
      ⊕ lit 10 100 ⊗ m.saturation

module _ {F : Type 0} ⦃fl : Float F⦄ (laws : IsExact F) where
  weighted_from-add :
      (value : NodeMetric F → F) (w : Dict F) (acc : F) (ms : List (NodeMetric F))
      → weighted_from acc ms w value ≡ acc ⊕ weighted_from nought ms w value
  unfolding weighted_from
  weighted_from-add value w acc [] = sym (laws.add-nought acc)
  weighted_from-add value w acc (m ∷ ms) =
      let here = get m.node_id w nought ⊗ value m in
      weighted_from-add value w (acc ⊕ here) ms
      ∙ laws.add_assoc acc here (weighted_from nought ms w value)
      ∙ ap (λ x. acc ⊕ x)
          (sym (
            weighted_from-add value w (nought ⊕ here) ms
            ∙ ap (λ x. x ⊕ weighted_from nought ms w value) (nought-add laws here)))

  weighted_from-step :
      (value : NodeMetric F → F) (w : Dict F) (m : NodeMetric F) (ms : List (NodeMetric F))
      → weighted_from nought (m ∷ ms) w value
        ≡ get m.node_id w nought ⊗ value m ⊕ weighted_from nought ms w value
  unfolding weighted_from
  weighted_from-step value w m ms =
      let here = get m.node_id w nought ⊗ value m in
      weighted_from-add value w (nought ⊕ here) ms
      ∙ ap (λ x. x ⊕ weighted_from nought ms w value) (nought-add laws here)

  sub-mul : (a b c : F) → a ⊗ c ⊖ b ⊗ c ≡ (a ⊖ b) ⊗ c
  sub-mul a b c =
      cc (laws.mul_comm a c, laws.mul_comm b c, mul-sub laws c a b, laws.mul_comm (a ⊖ b) c)

  -- The change of a weighted sum is the sum of what the weights change by.
  moved-weighted :
      (value : NodeMetric F → F) (before after : Dict F) (ms : List (NodeMetric F))
      → weighted_from nought ms after value ⊖ weighted_from nought ms before value
        ≡ moved before after value (entries ms)
  unfolding weighted_from
  moved-weighted value before after [] = sub_self laws nought
  moved-weighted value before after (m ∷ ms) =
      let a = get m.node_id after nought in
      let b = get m.node_id before nought in
      let above = weighted_from nought ms after value in
      let below = weighted_from nought ms before value in
      ap (λ x. x ⊖ weighted_from nought (m ∷ ms) before value) (weighted_from-step value after m ms)
      ∙ ap (λ x. a ⊗ value m ⊕ above ⊖ x) (weighted_from-step value before m ms)
      ∙ sym (sub-add-sub laws (a ⊗ value m) (b ⊗ value m) above below)
      ∙ ap (λ x. x ⊕ (above ⊖ below)) (sub-mul a b (value m))
      ∙ ap (λ x. (a ⊖ b) ⊗ value m ⊕ x) (moved-weighted value before after ms)

module _ {F : Type 0} ⦃fl : Float F⦄ (laws : IsExact F) (config : Config F) (now : Time)
    (metrics : List (NodeMetric F)) (requested : Dict F) (signals : Dict (Signal F)) where
  -- In exact arithmetic: if `Propose` succeeds, then over the nodes of its evidence the move from the
  -- current to the proposed weights takes away at least the benefit margin from the weighted burden
  -- (latency, errors, cache misses, the origin's cost and saturation); and the expected changes that
  -- it reports are the sums of what each node's weight gains times the node's latency, error rate
  -- and origin cost for a request.
  pub propose_benefit :
      (r : Result F)
      → propose config now metrics requested signals ≡ ok r
      → (config.benefit_margin ≼ moved r.proposed r.current burden r.evidence)
        × (r.expected.p95_ttfb_delta_ms
            ≡ moved r.current r.proposed (λ m. m.p95_ttfb_ms) r.evidence)
        × (r.expected.error_rate_delta ≡ moved r.current r.proposed (λ m. m.error_rate) r.evidence)
        × (r.expected.cost_units_delta ≡ moved r.current r.proposed origin_cost r.evidence)
  unfolding weighted_penalty penalty expected_delta
  propose_benefit r e =
      let ms = eligible config now metrics requested signals in
      let cur = current config now metrics requested signals in
      let pro = proposed config now metrics requested signals in
      let (_, clears, made) = propose-ok config now metrics requested signals r e in
      let (c, p, x) = make_result-weights signals ms cur pro in
      let found : r.evidence ≡ entries ms =
        ap (λ q. q.evidence) made
        ∙ make_result-evidence signals ms cur pro
            (eligible-HasDistinctNodes config now metrics requested signals) in
      let c_eq : r.current ≡ cur = ap (λ q. q.current) made ∙ c in
      let p_eq : r.proposed ≡ pro = ap (λ q. q.proposed) made ∙ p in
      let x_eq : r.expected ≡ expected_delta ms cur pro = ap (λ q. q.expected) made ∙ x in
      rw (c_eq, p_eq, x_eq, found)
        (
          subst (λ g. config.benefit_margin ≼ g) (moved-weighted laws burden pro cur ms) clears,
          moved-weighted laws (λ m. m.p95_ttfb_ms) cur pro ms,
          moved-weighted laws (λ m. m.error_rate) cur pro ms,
          moved-weighted laws origin_cost cur pro ms,
        )
