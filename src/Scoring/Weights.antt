-- ===== src/Scoring/Weights.antt =====
-- The second half of `Propose`: the current weights, the target weights, and the bounded move.
use stream_pulse.Common.{
  ℕ, suc, ◌^◌, String, Bool, ◌&&◌, Option, none, some, List, [], ◌∷◌, map, foldl, length, get_or,
  ◌==◌, if◌then◌else◌,
}
use stream_pulse.Common.Dict.{Dict, lookup, insert, get, map_entries}
use stream_pulse.Float.{
  Float, Extended, neg_inf, finite, pos_inf, ◌⊕◌, ◌⊖◌, ◌⊗◌, ◌⊘◌, lt, le, nought, one, lit, abs, max,
  min,
}
use stream_pulse.Domain.{NodeMetric, Signal}

-- `latency`, `errorsFactor`, `qoe`, `cost` and `saturation`, indexed like the candidates.
pub record Factors (F : Type 0) : Type 0 where
  pub latency : List F
  pub errors_factor : List F
  pub qoe : List F
  pub cost : List F
  pub saturation : List F

module _ {F : Type 0} ⦃fl : Float F⦄ where
  -- `normalizedCurrent`: the loop over the candidates carries the map and the sum.
  abbrev pub current_step : Dict F → Dict F × F → NodeMetric F → Dict F × F
  current_step current (result, sum) metric =
      let weight = get metric.node_id current nought in
      if lt nought weight
      then (insert metric.node_id weight result, sum ⊕ weight)
      else (result, sum)

  abbrev pub uniform_step : F → Dict F → NodeMetric F → Dict F
  uniform_step weight result metric = insert metric.node_id weight result

  -- `sum == 0`
  abbrev pub is_nought : F → Bool
  is_nought a = le a nought && le nought a

  unfoldable pub normalized_current : Dict F → List (NodeMetric F) → Dict F
  normalized_current current metrics =
      let (result, sum) = foldl (current_step current) ([], nought) metrics in
      if is_nought sum
      then foldl (uniform_step (one ⊘ fl.of_nat (length metrics))) result metrics
      else map_entries (λ _ weight. weight ⊘ sum) result

  -- `math.Min` and `math.Max` with a bound that starts as an infinity.
  abbrev pub min_with : Extended F → F → Extended F
  min_with neg_inf v = neg_inf
  min_with (finite a) v = finite (min a v)
  min_with pos_inf v = finite v

  abbrev pub max_with : Extended F → F → Extended F
  max_with neg_inf v = finite v
  max_with (finite a) v = finite (max a v)
  max_with pos_inf v = pos_inf

  -- The bounds are infinite where there is no value, and then nothing is rescaled.
  unfoldable pub rescale : Extended F → Extended F → List F → List F
  rescale (finite minimum) (finite maximum) values =
      if lt (abs (maximum ⊖ minimum)) (lit 1 (10 ^ 12))
      then map (λ _. nought) values
      else map (λ v. (v ⊖ minimum) ⊘ (maximum ⊖ minimum)) values
  rescale _ _ values = values

  unfoldable pub normalized : List (NodeMetric F) → (NodeMetric F → F) → List F
  unfolding rescale
  normalized metrics value =
      let values = map value metrics in
      rescale (foldl min_with pos_inf values) (foldl max_with neg_inf values) values

  -- The origin time for each request, 0 where there is none.
  abbrev pub origin_cost : NodeMetric F → F
  origin_cost metric =
      if metric.requests == 0 then nought else metric.origin_ms ⊘ fl.of_nat metric.requests

  unfoldable pub factors : List (NodeMetric F) → Factors F
  unfolding normalized
  factors eligible = record {
    latency = normalized eligible (λ metric. metric.p95_ttfb_ms);
    errors_factor = normalized eligible (λ metric. metric.error_rate);
    qoe = normalized eligible (λ metric. one ⊖ metric.cache_hit_rate);
    cost = normalized eligible origin_cost;
    saturation = normalized eligible (λ metric. metric.saturation);
  }

  -- `0.25 * signal.Severity` for an anomalous node
  abbrev pub surcharge : Option (Signal F) → F → F
  surcharge none penalty = penalty
  surcharge (some signal) penalty =
      if signal.anomalous then penalty ⊕ lit 25 100 ⊗ signal.severity else penalty

  -- `0.35*latency[i] + 0.25*errorsFactor[i] + 0.15*qoe[i] + 0.15*cost[i] + 0.10*saturation[i]`
  abbrev pub base_penalty : Factors F → ℕ → F
  base_penalty f i =
      lit 35 100 ⊗ get_or f.latency i nought
      ⊕ lit 25 100 ⊗ get_or f.errors_factor i nought
      ⊕ lit 15 100 ⊗ get_or f.qoe i nought
      ⊕ lit 15 100 ⊗ get_or f.cost i nought
      ⊕ lit 10 100 ⊗ get_or f.saturation i nought

  unfoldable pub target_weight : Factors F → Dict (Signal F) → ℕ → NodeMetric F → F
  target_weight f signals i metric =
      one ⊘ (lit 5 100 ⊕ surcharge (lookup metric.node_id signals) (base_penalty f i))

  -- The loop over the candidates from index `i` on carries `target` and `targetSum`.
  unfoldable pub targets_from :
      Factors F → Dict (Signal F) → ℕ → List (NodeMetric F) → Dict F × F → Dict F × F
  unfolding target_weight
  targets_from f signals i [] acc = acc
  targets_from f signals i (metric ∷ rest) (target, sum) =
      let weight = target_weight f signals i metric in
      targets_from f signals (suc i) rest (insert metric.node_id weight target, sum ⊕ weight)

  unfoldable pub targets : List (NodeMetric F) → Dict (Signal F) → Dict F
  unfolding factors targets_from
  targets eligible signals =
      let (target, sum) = targets_from (factors eligible) signals 0 eligible ([], nought) in
      map_entries (λ _ weight. weight ⊘ sum) target

  -- `lambda`, lowered for each node that would move too far.
  abbrev pub lower : F → Dict F → F → String × F → F
  lower step current lambda (node_id, target_weight) =
      let delta = abs (target_weight ⊖ get node_id current nought) in
      if lt step delta then min lambda (step ⊘ delta) else lambda

  unfoldable pub step_factor : F → Dict F → Dict F → F
  step_factor step current target = foldl (lower step current) one target

  abbrev pub moved : F → Dict F → String → F → F
  moved lambda current node_id target_weight =
      get node_id current nought ⊕ lambda ⊗ (target_weight ⊖ get node_id current nought)

  unfoldable pub move_weights : F → Dict F → Dict F → Dict F
  move_weights lambda current target = map_entries (moved lambda current) target
