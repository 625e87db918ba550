-- ===== src/Scoring/Screening.antt =====
-- The first half of `Propose`: the latest window of each node, and which nodes are candidates.
use stream_pulse.Common.{
  ℕ, suc, Bool, true, not, ◌||◌, Option, none, some, List, [], ◌∷◌, ◌++◌, foldl, ltb, if◌then◌else◌,
}
use stream_pulse.Common.Dict.{Dict, lookup, insert, values}
use stream_pulse.Common.Int.{ltb_ℤ}
use stream_pulse.Common.Sort.{sort, string_less}
use stream_pulse.Time.{Time, after, add, sub}
use stream_pulse.Float.{Float, le}
use stream_pulse.Domain.{NodeMetric}
use stream_pulse.Scoring.Types.{Config}

module _ {F : Type 0} where
  -- `!ok || metric.WindowEnd.After(current.WindowEnd)`
  abbrev pub replaces : NodeMetric F → Option (NodeMetric F) → Bool
  replaces metric none = true
  replaces metric (some current) = after metric.window_end current.window_end

  abbrev pub latest_step : Dict (NodeMetric F) → NodeMetric F → Dict (NodeMetric F)
  latest_step latest metric =
      if replaces metric (lookup metric.node_id latest)
      then insert metric.node_id metric latest
      else latest

  -- The map that `latestByNode` builds.
  unfoldable pub latest_map : List (NodeMetric F) → Dict (NodeMetric F)
  latest_map = foldl latest_step []

  unfoldable pub latest_by_node : List (NodeMetric F) → List (NodeMetric F)
  unfolding latest_map
  latest_by_node metrics = values (latest_map metrics)

  -- `eligible[i].NodeID < eligible[j].NodeID`
  abbrev pub node_less : NodeMetric F → NodeMetric F → Bool
  node_less a b = string_less a.node_id b.node_id

  unfoldable pub sort_by_node : List (NodeMetric F) → List (NodeMetric F)
  unfolding sort
  sort_by_node = sort node_less

-- The variables of the loop over the latest windows.
pub record Screen (F : Type 0) : Type 0 where
  pub eligible : List (NodeMetric F)
  pub stale_count : ℕ
  pub future_count : ℕ

module _ {F : Type 0} ⦃fl : Float F⦄ where
  abbrev pub is_future : Config F → Time → NodeMetric F → Bool
  is_future config now metric = after metric.window_end (add now config.future_tolerance)

  abbrev pub is_stale : Config F → Time → NodeMetric F → Bool
  is_stale config now metric = ltb_ℤ config.stale_after (sub now metric.window_end)

  abbrev pub is_unfit : Config F → NodeMetric F → Bool
  is_unfit config metric =
      not metric.healthy
      || ltb metric.requests config.minimum_samples
      || le config.saturation_limit metric.saturation

  unfoldable pub screen_step : Config F → Time → Screen F → NodeMetric F → Screen F
  screen_step config now s metric =
      if is_future config now metric
      then record s { future_count = suc s.future_count }
      else if is_stale config now metric
      then record s { stale_count = suc s.stale_count }
      else if is_unfit config metric
      then s
      else record s { eligible = s.eligible ++ (metric ∷ []) }

  unfoldable pub screen : Config F → Time → List (NodeMetric F) → Screen F
  unfolding screen_step sub
  screen config now =
      foldl (screen_step config now) (record { eligible = []; stale_count = 0; future_count = 0 })
