-- ===== src/Detection/Tests.antt =====
-- The detector run on three nodes of one location.
use stream_pulse.Common.{◌≡◌, ◌≢◌, none, All, refl, String, true, List, [], ◌∷◌}
use stream_pulse.Common.Dict.{Dict, lookup, HasDistinctKeys, Holds}
use stream_pulse.Common.Int.{◌+ℤ◌, ◌-ℤ◌}
use stream_pulse.Float.Rational.{ℚ, rational_float, Rational-IsExact}
use stream_pulse.Domain.{Signal}
use stream_pulse.Detection.{evaluate, by_node, median, node_signal, apply_rule, apply_history}
use stream_pulse.Detection.Signals.{IsSound, evaluate_signals}
use stream_pulse.Detection.Coverage.{evaluate_covers}
use stream_pulse.Samples.{detector, three_nodes}

abbrev anomalous_nodes : Dict (Signal ℚ) → List String
anomalous_nodes [] = []
anomalous_nodes ((k, s) ∷ rest) =
    let others = anomalous_nodes rest in elim s.anomalous [ true ↦ k ∷ others | _ ↦ others ]

slow_node_found : anomalous_nodes (evaluate detector three_nodes) ≡ "edge-a" ∷ []
unfolding evaluate by_node median node_signal apply_rule apply_history ◌+ℤ◌ ◌-ℤ◌
slow_node_found = refl

evaluate_signals_example : Holds IsSound (evaluate detector three_nodes)
evaluate_signals_example = evaluate_signals Rational-IsExact detector three_nodes

evaluate_covers_example :
    All (λ m. lookup m.node_id (evaluate detector three_nodes) ≢ none) three_nodes
    × HasDistinctKeys (evaluate detector three_nodes)
evaluate_covers_example = evaluate_covers detector three_nodes
