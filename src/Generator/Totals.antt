-- ===== src/Generator/Totals.antt =====
-- What a run emits that ends without an error.
use stream_pulse.Common.{
  ℕ, ◌+◌, ◌%◌, ◌≡◌, ◌≢◌, ◌∙◌, refl, sym, ap, String, Bool, true, false, List, [], ◌∷◌, ◌++◌, length,
  All, str_eq, eq_iff, arith, ◌==◌, if◌then◌else◌,
}
use stream_pulse.Generator.Sink.{Record}
use stream_pulse.Generator.Events.{routing_topic, player_topic}
use stream_pulse.Generator.Records.{records_of}
use stream_pulse.Generator.Shape.{IsRequest}
use stream_pulse.Generator.Counts.{tally}

pub tally_append :
    (test : Record → Bool) (xs ys : List Record)
    → tally test (xs ++ ys) ≡ tally test xs + tally test ys
tally_append test [] ys = omega arith
tally_append test (x ∷ xs) ys = ground (arith, tally_append test xs ys)

-- The records on a topic, and those that are duplicates
abbrev pub on : String → List Record → ℕ
on topic = tally (λ r. str_eq r.topic topic)

abbrev pub again : List Record → ℕ
again = tally (λ r. r.duplicate)

on-All :
    (here there : String) (rs : List Record)
    → All (λ r. (r.topic ≡ here) × (r.duplicate ≡ false)) rs
    → (on there rs ≡ (if str_eq here there then length rs else 0)) × (again rs ≡ 0)
on-All here there [] h = (ground arith, refl)
on-All here there (r ∷ rs) h =
    let ih = on-All here there rs h.1 in
    (rw (h.0.0) (ground (arith, ih.0)), ground (arith, ih.1, h.0.1))

abbrev one_if : Bool → ℕ
one_if test = if test then 1 else 0

records_of-tally :
    (test : Record → Bool) (routing delivery : Record) (player : List Record) (extra : Bool)
    → tally test (records_of routing delivery player extra)
      ≡ one_if (test routing)
        + (one_if (test delivery)
            + (tally test player
                + (if extra then one_if (test (record delivery { duplicate = true })) else 0)))
records_of-tally test routing delivery player true =
    ground (arith, tally_append test player (record delivery { duplicate = true } ∷ []))
records_of-tally test routing delivery player false = ground (arith, tally_append test player [])

differ : (s t : String) → s ≢ t → str_eq s t ≡ false
differ s t h = ground (arith, eq_iff s t)

module _ (name : String) (i : ℕ) (records : List Record) (h : IsRequest name i records)
    (not_routing : name ≢ routing_topic) (not_player : name ≢ player_topic) where
  delivery-differs : (topic : String) → name ≢ topic → str_eq h.delivery.topic topic ≡ false
  delivery-differs topic n = rw h.delivery_on (differ name topic n)

  pub request-routing : on routing_topic records ≡ 1
  request-routing =
      let by_shape =
        records_of-tally (λ r. str_eq r.topic routing_topic) h.routing h.delivery h.player
          h.again in
      let first : str_eq h.routing.topic routing_topic ≡ true = rw h.routing_on refl in
      let others = on-All player_topic routing_topic h.player h.player_on in
      ap (on routing_topic) h.same
      ∙ ground (arith, by_shape, first, delivery-differs routing_topic not_routing, others.0)

  pub request-player : on player_topic records ≡ (if i % 4 == 0 then 1 else 0)
  request-player =
      let by_shape =
        records_of-tally (λ r. str_eq r.topic player_topic) h.routing h.delivery h.player h.again in
      let first : str_eq h.routing.topic player_topic ≡ false = rw h.routing_on refl in
      let others = on-All player_topic player_topic h.player h.player_on in
      ap (on player_topic) h.same
      ∙ ground
          (arith, by_shape, first, delivery-differs player_topic not_player, others.0, h.fourth)

  pub request-delivery : on name records ≡ 1 + again records
  request-delivery =
      let by_shape =
        records_of-tally (λ r. str_eq r.topic name) h.routing h.delivery h.player h.again in
      let repeated = records_of-tally (λ r. r.duplicate) h.routing h.delivery h.player h.again in
      let first : str_eq h.routing.topic name ≡ false =
        rw h.routing_on (differ routing_topic name (λ e. not_routing (sym e))) in
      let second : str_eq h.delivery.topic name ≡ true =
        rw h.delivery_on ((eq_iff name name).1 refl) in
      let others = on-All player_topic name h.player h.player_on in
      let apart : str_eq player_topic name ≡ false =
        differ player_topic name (λ e. not_player (sym e)) in
      ap (on name) h.same
      ∙ ground (
        arith, by_shape, repeated, first, second, others.0, others.1, apart, h.original.0,
        h.original.1,
      )
      ∙ ap (λ rs. 1 + again rs) (sym h.same)
