-- ===== src/Generator/Shape.antt =====
-- Which records a request gives.
use stream_pulse.Common.{
  ℕ, ◌%◌, ◌≡◌, refl, String, Bool, true, false, List, length, All, ◌==◌, if◌then◌else◌,
}
use stream_pulse.Float.{Float}
use stream_pulse.Generator.Config.{delivery_topic_name}
use stream_pulse.Generator.Sink.{Record}
use stream_pulse.Generator.Events.{DeliveryEvent, routing_topic, player_topic}
use stream_pulse.Generator.Draws.{Random, Tools}
use stream_pulse.Generator.Promises.{Yields, bind-Yields, bind-Yields_of, pure-Yields}
use stream_pulse.Generator.Requests.{Generator, Facts}
use stream_pulse.Generator.Records.{records_of, players, delivery_event, generate_request}

-- The records of request `i`: the routing, the delivery on its topic, the player's for each fourth
-- request, and it may be the delivery again, marked as a duplicate.
pub record IsRequest (delivery_name : String) (i : ℕ) (records : List Record) : Type 0 where
  pub routing : Record
  pub delivery : Record
  pub player : List Record
  pub again : Bool
  pub same : records ≡ records_of routing delivery player again
  pub routing_on : routing.topic ≡ routing_topic
  pub delivery_on : delivery.topic ≡ delivery_name
  pub original : (routing.duplicate ≡ false) × (delivery.duplicate ≡ false)
  pub player_on : All (λ r. (r.topic ≡ player_topic) × (r.duplicate ≡ false)) player
  pub fourth : length player ≡ (if i % 4 == 0 then 1 else 0)

-- At most one record of the player.
abbrev IsPlayers : Bool → List Record → Type 0
IsPlayers wanted rs =
    All (λ r. (r.topic ≡ player_topic) × (r.duplicate ≡ false)) rs
    × (length rs ≡ (if wanted then 1 else 0))

module _ {F J : Type 0} ⦃fl : Float F⦄ (t : Tools F J) (g : Generator F) (i : ℕ) where
  players-IsPlayers :
      (G : Type 0) (f : Facts F) (delivery : DeliveryEvent F) (wanted : Bool)
      → Yields {G = G} (IsPlayers wanted) (players t g i f delivery wanted)
  unfolding players
  players-IsPlayers G f delivery true =
      bind-Yields _ _ _ (λ value. pure-Yields _ _ _ (((refl, refl), tt), refl))
  players-IsPlayers G f delivery false = pure-Yields _ _ _ (tt, refl)

module _ {G F J : Type 0} ⦃fl : Float F⦄ (random : Random G F) (t : Tools F J) (g : Generator F)
    (i : ℕ) where
  pub generate_request-IsRequest :
      Yields (IsRequest (delivery_topic_name g.cfg) i) (generate_request random t g i)
  unfolding generate_request
  generate_request-IsRequest = bind-Yields _ _ _ (λ f. bind-Yields _ _ _ (λ age.
      bind-Yields _ _ _ (λ extra. bind-Yields _ _ _ (λ noise. bind-Yields _ _ _ (λ choice.
        bind-Yields _ _ _ (λ bitrate. bind-Yields _ _ _ (λ routing_value.
          bind-Yields _ _ _ (λ delivery_value. bind-Yields _ _ _ (λ schema_luck.
            bind-Yields _ _ _ (λ value.
              bind-Yields_of _ (IsPlayers (i % 4 == 0)) _ _
                (players-IsPlayers t g i G f (delivery_event t g i f extra noise bitrate) _)
                (λ player ps. bind-Yields _ _ _ (λ luck. pure-Yields _ _ _ (record {
                  routing = _;
                  delivery = _;
                  player = player;
                  again = _;
                  same = refl;
                  routing_on = refl;
                  delivery_on = refl;
                  original = (refl, refl);
                  player_on = ps.0;
                  fourth = ps.1;
                })))))))))))))
