-- ===== src/Wired/Tests.antt =====
-- The service with ClickHouse and Kafka that answer every request.
use stream_pulse.Common.{length, ◌≡◌, ◌≢◌, ◌⊎◌, refl, none, [], ◌∷◌}
use stream_pulse.Common.Fallible.{ok, ◌>>=◌}
use stream_pulse.Float.Rational.{ℚ, rational_float}
use stream_pulse.Domain.{Recommendation, Acknowledgement}
use stream_pulse.Common.Int.{◌+ℤ◌, ◌-ℤ◌}
use stream_pulse.Scoring.{propose_among}
use stream_pulse.Scoring.Screening.{screen, latest_by_node, sort_by_node}
use stream_pulse.Scoring.Weights.{normalized_current, targets, step_factor, move_weights}
use stream_pulse.Scoring.Report.{weighted_penalty}
use stream_pulse.App.Build.{Service}
use stream_pulse.App.{initial, evaluate, generated_result, after_publication, acknowledge}
use stream_pulse.App.Effects.{IsUntouched}
use stream_pulse.Repository.Requests.{insert_json_each_row}
use stream_pulse.Repository.{store_acknowledgement}
use stream_pulse.System.{assemble}
use stream_pulse.Samples.{
  now, config, detector, scorer, library, request, wire, codec, kafka, click_house, accepted,
}
use stream_pulse.Wired.{outside}
use stream_pulse.Wired.Effects.{IsBacked, evaluate-IsBacked, IsStored, acknowledge-IsStored}

abbrev service : Service ℚ
service = assemble config detector scorer library

evaluate-IsBacked_example :
    IsUntouched initial
      (evaluate service (outside click_house wire codec kafka now) request initial)
    ⊎ ((r : Recommendation ℚ) × IsBacked service click_house wire codec kafka now request r
        × (evaluate service (outside click_house wire codec kafka now) request initial
            ≡ (ok (generated_result r), after_publication now r initial)))
evaluate-IsBacked_example =
    evaluate-IsBacked service click_house wire codec kafka now request initial

acknowledge-IsStored_example :
    (((acknowledge (outside click_house wire codec kafka now) "rec-1" accepted initial).0 ≢ none)
      × ((acknowledge (outside click_house wire codec kafka now) "rec-1" accepted initial).1
          ≡ initial))
    ⊎ ((x : Acknowledgement) × IsStored click_house wire codec now "rec-1" accepted x
        × (acknowledge (outside click_house wire codec kafka now) "rec-1" accepted initial
            ≡ (none, record initial { acknowledged = x ∷ [] })))
acknowledge-IsStored_example =
    acknowledge-IsStored click_house wire codec kafka now "rec-1" accepted initial

-- The acknowledgement above is the second case of its theorem: it is stored.
stores :
    (acknowledge (outside click_house wire codec kafka now) "rec-1" accepted initial).1
    ≡ record initial {
      acknowledged = record accepted { recommendation_id = "rec-1"; observed_at = now } ∷ [];
    }
unfolding acknowledge outside store_acknowledgement insert_json_each_row ◌>>=◌
stores = refl

-- The evaluation above is the second case of its theorem: it publishes.
publishes :
    length (evaluate service (outside click_house wire codec kafka now) request initial).1.published
    ≡ 1
unfolding evaluate outside assemble ◌>>=◌ screen latest_by_node ◌+ℤ◌ ◌-ℤ◌ propose_among
    weighted_penalty sort_by_node normalized_current move_weights targets step_factor
publishes = refl
