-- ===== src/App/Audit.antt =====
-- What the two calls that write to the audit store do.
use stream_pulse.Common.{
  ◌≡◌, ◌≢◌, ◌⊎◌, refl, inl, inr, String, true, false, ◌||◌, eq_iff, none, [], ◌∷◌, ◌++◌, arith,
  Bool-cases, Option-cases,
}
use stream_pulse.Time.{is_zero}
use stream_pulse.Domain.{Acknowledgement}
use stream_pulse.App.{Outside, State, acknowledge, is_missing, observed}

module _ {F : Type 0} (o : Outside F) (id : String) where
  -- An acknowledgement of recommendation `id`, complete and with a time, that the store has taken.
  pub record IsComplete (a : Acknowledgement) : Type 0 where
    pub of_id : a.recommendation_id ≡ id
    pub has_id : is_missing id ≡ false
    pub has_actor : is_missing a.actor ≡ false
    pub has_status : is_missing a.status ≡ false
    pub has_time : is_zero a.observed_at ≡ false
    pub taken : o.acknowledge a ≡ none

  -- What was given as an acknowledgement of recommendation `id`, complete, with the clock's time where
  -- it had none; and the store has taken it.
  pub record IsGiven (a x : Acknowledgement) : Type 0 where
    pub of_id : x.recommendation_id ≡ id
    pub actor : x.actor ≡ a.actor
    pub status : x.status ≡ a.status
    pub has_id : id ≢ ""
    pub has_actor : a.actor ≢ ""
    pub has_status : a.status ≢ ""
    pub given_time : is_zero a.observed_at ≡ false → x.observed_at ≡ a.observed_at
    pub clock_time : is_zero a.observed_at ≡ true → x.observed_at ≡ o.now
    pub taken : o.acknowledge x ≡ none

  not_missing : (text : String) → is_missing text ≡ false → text ≢ ""
  not_missing text e same = cc ((eq_iff text "").1 same, e)

  missing_ne : (text : String) → text ≢ "" → is_missing text ≡ false
  missing_ne text ne = elim (Bool-cases (is_missing text)) [
    | inl e ↦ absurd (ne ((eq_iff text "").0 e))
    | inr e ↦ e
  ]

  -- `Acknowledge` returns an error and changes nothing, or returns none and adds what was given.
  pub acknowledge-IsGiven :
      (a : Acknowledgement) (st : State F)
      → (((acknowledge o id a st).0 ≢ none) × ((acknowledge o id a st).1 ≡ st))
        ⊎ ((x : Acknowledgement) × IsGiven a x
            × (acknowledge o id a st
                ≡ (none, record st { acknowledged = st.acknowledged ++ (x ∷ []) })))
  unfolding acknowledge
  acknowledge-IsGiven a st =
      elim (Bool-cases (is_missing id || is_missing a.actor || is_missing a.status)) [
        | inl e ↦ rw e (inl (λ h. cc h, refl))
        | inr e ↦
            let written : Acknowledgement = record a {
              recommendation_id = id;
              observed_at = observed o.now a.observed_at;
            } in
            elim (Option-cases (o.acknowledge written)) [
              | inr (m, f) ↦ rw (e, f) (inl (λ h. cc h, refl))
              | inl f ↦
                  rw (e, f)
                    (inr (
                      written,
                      record {
                        of_id = refl;
                        actor = refl;
                        status = refl;
                        has_id = not_missing id (ground arith);
                        has_actor = not_missing a.actor (ground arith);
                        has_status = not_missing a.status (ground arith);
                        given_time = λ z. rw z refl;
                        clock_time = λ z. rw z refl;
                        taken = f;
                      },
                      refl,
                    ))
            ]
      ]

  given_time_set :
      (a x : Acknowledgement) → is_zero o.now ≡ false → IsGiven a x → is_zero x.observed_at ≡ false
  given_time_set a x clock h = elim (Bool-cases (is_zero a.observed_at)) [
    | inl e ↦ rw (h.clock_time e) clock
    | inr e ↦ rw (h.given_time e) e
  ]

  -- Where the clock is not at the zero time: `Acknowledge` either returns an error and leaves the
  -- state as it is, or returns none and adds to what is written one acknowledgement of the given
  -- recommendation, with an actor, a status and a time, that the store has taken.
  pub acknowledge-IsComplete :
      (a : Acknowledgement) (st : State F)
      → is_zero o.now ≡ false
      → (((acknowledge o id a st).0 ≢ none) × ((acknowledge o id a st).1 ≡ st))
        ⊎ ((w : Acknowledgement) × IsComplete w
            × (acknowledge o id a st
                ≡ (none, record st { acknowledged = st.acknowledged ++ (w ∷ []) })))
  acknowledge-IsComplete a st clock = elim (acknowledge-IsGiven a st) [
    | inl failed ↦ inl failed
    | inr (x, given, e) ↦ inr (
      x,
      record {
        of_id = given.of_id;
        has_id = missing_ne id given.has_id;
        has_actor = rw given.actor (missing_ne a.actor given.has_actor);
        has_status = rw given.status (missing_ne a.status given.has_status);
        has_time = given_time_set a x clock given;
        taken = given.taken;
      },
      e,
    )
  ]
