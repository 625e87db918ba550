-- ===== src/Wired/Effects.antt =====
-- What the service's calls mean for ClickHouse and Kafka.
use stream_pulse.Common.{
  ℕ, ◌≤◌, ◌≡◌, ◌≢◌, ◌⊎◌, refl, sym, ap, inl, inr, String, ◌<>◌, true, false, none, List, [], ◌∷◌,
  ◌++◌, length,
}
use stream_pulse.Common.Fallible.{Fallible, ok, err}
use stream_pulse.Time.{Time, is_zero}
use stream_pulse.Float.{Float}
use stream_pulse.Domain.{NodeMetric, Recommendation, EvaluationRequest, Acknowledgement}
use stream_pulse.Scoring.{Result}
use stream_pulse.App.Build.{Service, make_recommendation}
use stream_pulse.App.{State, generated_result, after_publication, evaluate, acknowledge}
use stream_pulse.App.Effects.{IsUntouched, IsWarranted, evaluate-Effect}
use stream_pulse.App.Audit.{acknowledge-IsGiven}
use stream_pulse.Repository.Requests.{Wire, ClickHouse}
use stream_pulse.Repository.Rows.{Codec, MetricRow, acknowledgement_row}
use stream_pulse.Repository.Answers.{IsInserted, inserted}
use stream_pulse.Repository.Histories.{Readings, HasRows, history_iff}
use stream_pulse.Repository.{store_acknowledgement}
use stream_pulse.Publisher.{Kafka, write_payload, publish}
use stream_pulse.Wired.{outside}

module _ {F : Type 0} (kafka : Kafka F) where
  -- Kafka took one message: the recommendation in JSON, under the location and the network of its
  -- scope with a bar between them, with the time at which the recommendation was made.
  pub record IsSent (r : Recommendation F) : Type 0 where
    pub payload : List ℕ
    pub marshalled : kafka.marshal r ≡ ok payload
    pub taken :
        kafka.write_messages (
          record {
            key = (r.scope.location <> "|") <> r.scope.network_id;
            value = payload;
            time = r.created_at;
          }
          ∷ [])
        ≡ none

  write_payload-IsSent :
      (r : Recommendation F) (answer : Fallible String (List ℕ))
      → kafka.marshal r ≡ answer
      → write_payload kafka r answer ≡ none
      → IsSent r
  write_payload-IsSent r (ok payload) e h = record { payload = payload; marshalled = e; taken = h }
  write_payload-IsSent r (err _) e h = cc

  publish-IsSent : (r : Recommendation F) → publish kafka r ≡ none → IsSent r
  unfolding publish
  publish-IsSent r h = write_payload-IsSent r (kafka.marshal r) refl h

module _ {F : Type 0} ⦃fl : Float F⦄ (s : Service F) (c : ClickHouse) (w : Wire) (k : Codec F)
    (kafka : Kafka F) (now : Time) where
  -- A recommendation made of a proposal of the scorer on the rows that ClickHouse has for its scope.
  pub record IsBacked (request : EvaluationRequest F) (r : Recommendation F) : Type 0 where
    pub rows : List (MetricRow F)
    pub metrics : List (NodeMetric F)
    pub answered : HasRows c w k request.scope s.config.history_windows rows
    pub readings : Readings k request.scope rows metrics
    pub nonempty : 1 ≤ length metrics
    pub proposal : Result F
    pub proposed : s.propose now metrics request.current_weights (s.detect metrics) ≡ ok proposal
    pub made : r ≡ make_recommendation s now request.scope (s.detect metrics) proposal
    pub of_scope : r.scope ≡ request.scope
    pub sent : IsSent kafka r

  IsWarranted-IsBacked :
      (request : EvaluationRequest F) (st : State F) (r : Recommendation F)
      → IsWarranted s (outside c w k kafka now) request st r
      → IsBacked request r
  unfolding outside make_recommendation
  IsWarranted-IsBacked request st r h =
      let (rows, answered, readings) =
        (history_iff c w k request.scope s.config.history_windows h.history).0 h.read in
      record {
        rows = rows;
        metrics = h.history;
        answered = answered;
        readings = readings;
        nonempty = h.nonempty;
        proposal = h.proposal;
        proposed = h.proposed;
        made = h.made;
        of_scope = ap (λ (x : Recommendation F). x.scope) h.made;
        sent = publish-IsSent kafka r h.accepted;
      }

  -- In the server's world, a call of `Evaluate` changes nothing and names no recommendation, or
  -- publishes one for the scope of the request: ClickHouse answered the query of the history with
  -- rows, at least one, that could all be read, the recommendation is made of the proposal on their
  -- readings, and Kafka took it in a message of its own, encoded in JSON, under the location and the
  -- network of the scope with a bar between them, with the time at which it was made.
  pub evaluate-IsBacked :
      (request : EvaluationRequest F) (st : State F)
      → IsUntouched st (evaluate s (outside c w k kafka now) request st)
        ⊎ ((r : Recommendation F) × IsBacked request r
            × (evaluate s (outside c w k kafka now) request st
                ≡ (ok (generated_result r), after_publication now r st)))
  unfolding outside
  evaluate-IsBacked request st = elim (evaluate-Effect s (outside c w k kafka now) request st) [
    | inl quiet ↦ inl quiet
    | inr (r, warranted, e) ↦ inr (r, IsWarranted-IsBacked request st r warranted, e)
  ]

module _ {F : Type 0} (c : ClickHouse) (w : Wire) (k : Codec F) (now : Time) where
  -- `x` is what was given as an acknowledgement of recommendation `id`, with the clock's time where it
  -- had none, and is complete; and ClickHouse took the row of these four values.
  pub record IsStored (id : String) (a x : Acknowledgement) : Type 0 where
    pub of_id : x.recommendation_id ≡ id
    pub actor : x.actor ≡ a.actor
    pub status : x.status ≡ a.status
    pub has_id : id ≢ ""
    pub has_actor : a.actor ≢ ""
    pub has_status : a.status ≢ ""
    pub given_time : is_zero a.observed_at ≡ false → x.observed_at ≡ a.observed_at
    pub clock_time : is_zero a.observed_at ≡ true → x.observed_at ≡ now
    pub row :
        IsInserted c w "INSERT INTO streampulse.recommendation_acknowledgements FORMAT JSONEachRow"
          (k.acknowledgement (record {
            recommendation_id = id;
            actor = a.actor;
            status = a.status;
            observed_at = k.rfc3339_nano x.observed_at;
          }))

module _ {F : Type 0} (c : ClickHouse) (w : Wire) (k : Codec F) (kafka : Kafka F) (now : Time) where
  -- In the server's world `Acknowledge` returns an error and changes nothing; or the id, the actor and
  -- the status that it was given are not empty, ClickHouse has taken one row of these three and of
  -- the time, which is the given one, or the clock's where none was given, and the same
  -- acknowledgement is noted as written.
  pub acknowledge-IsStored :
      (id : String) (a : Acknowledgement) (st : State F)
      → (((acknowledge (outside c w k kafka now) id a st).0 ≢ none)
          × ((acknowledge (outside c w k kafka now) id a st).1 ≡ st))
        ⊎ ((x : Acknowledgement) × IsStored c w k now id a x
            × (acknowledge (outside c w k kafka now) id a st
                ≡ (none, record st { acknowledged = st.acknowledged ++ (x ∷ []) })))
  unfolding outside store_acknowledgement
  acknowledge-IsStored id a st = elim (acknowledge-IsGiven (outside c w k kafka now) id a st) [
    | inl failed ↦ inl failed
    | inr (x, given, e) ↦ inr (
      x,
      record {
        of_id = given.of_id;
        actor = given.actor;
        status = given.status;
        has_id = given.has_id;
        has_actor = given.has_actor;
        has_status = given.has_status;
        given_time = given.given_time;
        clock_time = given.clock_time;
        row =
            rw (sym given.of_id, sym given.actor, sym given.status)
              (inserted c w _ (k.acknowledgement (acknowledgement_row k x)) given.taken);
      },
      e,
    )
  ]
