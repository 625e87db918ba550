-- ===== src/App/Metrics.antt =====
-- What `Service.Metrics` answers.
use mathlib.Core.List.{Mem}
use stream_pulse.Common.{◌≡◌, refl, subst, inl, inr, String, List, Bool-cases, All}
use stream_pulse.Common.Fallible.{Fallible, ok, err, ok-injective}
use stream_pulse.Domain.{Scope, NodeMetric}
use stream_pulse.Scoring.Newest.{Some, IsNoEarlier}
use stream_pulse.Scoring.Sorted.{IsAscending, sorted_newest}
use stream_pulse.App.Scopes.{validate_scope}
use stream_pulse.App.Build.{Service}
use stream_pulse.App.{Outside, sorted_latest, latest_of, metrics}

module _ {F : Type 0} where
  latest_of-ok :
      (answer : Fallible String (List (NodeMetric F))) (ms : List (NodeMetric F))
      → latest_of answer ≡ ok ms
      → (history : List (NodeMetric F)) × (answer ≡ ok history) × (sorted_latest history ≡ ms)
  latest_of-ok (ok history) ms h = (history, refl, ok-injective h)
  latest_of-ok (err e) ms h = cc

  -- The windows that `Metrics` answers with are of the repository's history, in the order of their
  -- nodes' names, one for a node; and for every window of the history one of the same node is among
  -- them that ends no earlier.
  pub metrics_newest :
      (s : Service F) (o : Outside F) (scope : Scope) (ms : List (NodeMetric F))
      → metrics s o scope ≡ ok ms
      → (history : List (NodeMetric F)) × (o.history scope s.config.history_windows ≡ ok history)
        × All (λ m. Mem m history) ms
        × IsAscending ms
        × All (λ x. Some (IsNoEarlier x) ms) history
  unfolding metrics
  metrics_newest s o scope ms h = elim (Bool-cases (validate_scope scope)) [
    | inr e ↦ cc (rw e at h)
    | inl e ↦
        let (history, given, same) = latest_of-ok _ ms (rw e at h) in
        let (members, ascending, newest) = sorted_newest history in
        (
          history,
          given,
          subst (All (λ m. Mem m history)) same members,
          subst IsAscending same ascending,
          subst (λ x. All (λ y. Some (IsNoEarlier y) x) history) same newest,
        )
  ]
