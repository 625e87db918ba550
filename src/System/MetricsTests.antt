-- ===== src/System/MetricsTests.antt =====
-- The assembled service asked for the metrics of one location.
use mathlib.Core.List.{Mem}
use stream_pulse.Common.{◌≡◌, refl, List, All}
use stream_pulse.Common.Fallible.{ok}
use stream_pulse.Float.Rational.{ℚ, rational_float}
use stream_pulse.Domain.{NodeMetric}
use stream_pulse.Scoring.{latest_by_node, sort_by_node}
use stream_pulse.Scoring.Screening.{latest_map}
use stream_pulse.Scoring.Newest.{Some, IsNoEarlier}
use stream_pulse.Scoring.Sorted.{IsAscending}
use stream_pulse.App.Build.{Service}
use stream_pulse.App.Scopes.{validate_scope}
use stream_pulse.App.{Outside, sorted_latest, metrics}
use stream_pulse.App.Metrics.{metrics_newest}
use stream_pulse.System.{assemble}
use stream_pulse.Samples.{now, config, detector, scorer, library, fine_at, sydney, three_nodes}

abbrev service : Service ℚ
service = assemble config detector scorer library

abbrev outside : Outside ℚ
outside = fine_at now

abbrev ordered : List (NodeMetric ℚ)
ordered = sorted_latest three_nodes

answers : metrics service outside sydney ≡ ok ordered
unfolding metrics assemble validate_scope latest_by_node latest_map sort_by_node
answers = refl

metrics_newest_example :
    (history : List (NodeMetric ℚ)) × (outside.history sydney service.config.history_windows
      ≡ ok history)
    × All (λ m. Mem m history) ordered
    × IsAscending ordered
    × All (λ x. Some (IsNoEarlier x) ordered) history
metrics_newest_example = metrics_newest service outside sydney ordered answers
