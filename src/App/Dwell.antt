-- ===== src/App/Dwell.antt =====
-- The dwell time over a whole run of the service.
use stream_pulse.Common.{
  ◌≡◌, refl, sym, ap, subst, subst₂, ◌∙◌, inl, inr, String, false, ◌||◌, some, List, [], ◌∷◌, ◌++◌,
  arith, Bool-cases, All, All-append, str_eq, eq_iff, Option-cases,
}
use stream_pulse.Common.Dict.{Dict, lookup, insert, lookup-insert}
use stream_pulse.Common.Int.{pos, ltb_ℤ, ◌≤ℤ◌, ◌+ℤ◌, +ℤ_parts, -ℤ_parts}
use stream_pulse.Time.{Time, Duration, sub, max_duration}
use stream_pulse.Float.{Float}
use stream_pulse.Domain.{scope_key, Recommendation, EvaluationRequest, Acknowledgement, Outcome}
use stream_pulse.App.Build.{Service, make_recommendation}
use stream_pulse.App.{
  Outside, State, initial, too_soon, after_publication, evaluate, acknowledge, record_outcome,
  is_missing, observed,
}
use stream_pulse.App.Effects.{IsWarranted, evaluate-Effect}

sub-le_of :
    (now last : Time) (d : Duration)
    → pos 0 ≤ℤ d
    → d ≤ℤ max_duration
    → ltb_ℤ (sub now last) d ≡ false
    → last +ℤ d ≤ℤ now
unfolding sub
sub-le_of now last d p q h = ground (arith, +ℤ_parts last d, -ℤ_parts now last)

le-add : (t u : Time) (d : Duration) → pos 0 ≤ℤ d → t +ℤ d ≤ℤ u → t ≤ℤ u
le-add t u d p h = ground (arith, +ℤ_parts t d)

add-le : (t u : Time) (d v : Duration) → t ≤ℤ u → u +ℤ d ≤ℤ v → t +ℤ d ≤ℤ v
add-le t u d v p h = ground (arith, +ℤ_parts t d, +ℤ_parts u d)

module _ {F : Type 0} where
  -- Recommendations of one scope, of which `q` comes at least `d` after `r`.
  abbrev pub IsApart : Duration → Recommendation F → Recommendation F → Type 0
  IsApart d r q = scope_key r.scope ≡ scope_key q.scope → r.created_at +ℤ d ≤ℤ q.created_at

  abbrev pub AreApart : Duration → List (Recommendation F) → Type 0
  AreApart d [] = Unit
  AreApart d (r ∷ rs) = All (IsApart d r) rs × AreApart d rs

  -- The generation that was last noted for the scope of `r` is no earlier than `r`.
  pub record IsNoted (noted : Dict Time) (r : Recommendation F) : Type 0 where
    pub last : Time
    pub is_last : lookup (scope_key r.scope) noted ≡ some last
    pub no_earlier : r.created_at ≤ℤ last

  AreApart-append :
      (d : Duration) (rs : List (Recommendation F)) (q : Recommendation F)
      → AreApart d rs
      → All (λ r. IsApart d r q) rs
      → AreApart d (rs ++ (q ∷ []))
  AreApart-append d [] q h k = (tt, tt)
  AreApart-append d (r ∷ rs) q h k =
      (All-append (IsApart d r) rs (q ∷ []) h.0 (k.0, tt), AreApart-append d rs q h.1 k.1)

module _ {F : Type 0} where
  -- The audit calls leave the rest of the state alone.
  abbrev IsSameRecord : State F → State F → Type 0
  IsSameRecord st after =
      (st.published ≡ after.published) × (st.last_generated ≡ after.last_generated)

  pub acknowledge-IsSameRecord :
      (o : Outside F) (id : String) (a : Acknowledgement) (st : State F)
      → IsSameRecord st (acknowledge o id a st).1
  unfolding acknowledge
  acknowledge-IsSameRecord o id a st =
      elim (Bool-cases (is_missing id || is_missing a.actor || is_missing a.status)) [
        | inl e ↦ rw e (refl, refl)
        | inr e ↦
            let written : Acknowledgement = record a {
              recommendation_id = id;
              observed_at = observed o.now a.observed_at;
            } in
            elim (Option-cases (o.acknowledge written)) [
              | inl f ↦ rw (e, f) (refl, refl)
              | inr (m, f) ↦ rw (e, f) (refl, refl)
            ]
      ]

  pub record_outcome-IsSameRecord :
      (o : Outside F) (id : String) (outcome : Outcome F) (st : State F)
      → IsSameRecord st (record_outcome o id outcome st).1
  unfolding record_outcome
  record_outcome-IsSameRecord o id outcome st = elim (Bool-cases (is_missing id)) [
    | inl e ↦ rw e (refl, refl)
    | inr e ↦
        let written : Outcome F = record outcome {
          recommendation_id = id;
          observed_at = observed o.now outcome.observed_at;
        } in
        elim (Option-cases (o.outcome written)) [
          | inl f ↦ rw (e, f) (refl, refl)
          | inr (m, f) ↦ rw (e, f) (refl, refl)
        ]
  ]

module _ {F : Type 0} ⦃fl : Float F⦄ (s : Service F) where
  -- The states that the service can come to, by calls one after the other.
  pub data Reaches : State F → Type 0 where
    start : Reaches initial
    evaluated :
        (o : Outside F) (request : EvaluationRequest F) (st : State F)
        → Reaches st
        → Reaches (evaluate s o request st).1
    acknowledged :
        (o : Outside F) (id : String) (a : Acknowledgement) (st : State F)
        → Reaches st
        → Reaches (acknowledge o id a st).1
    outcome_recorded :
        (o : Outside F) (id : String) (outcome : Outcome F) (st : State F)
        → Reaches st
        → Reaches (record_outcome o id outcome st).1

  abbrev dwell : Duration
  dwell = s.config.minimum_dwell

  abbrev Spaced : State F → Type 0
  Spaced st = AreApart dwell st.published × All (IsNoted st.last_generated) st.published

module _ {F : Type 0} ⦃fl : Float F⦄ (s : Service F) (some_dwell : pos 0 ≤ℤ s.config.minimum_dwell)
    (bounded : s.config.minimum_dwell ≤ℤ max_duration) where
  noted-IsApart :
      (noted : Dict Time) (r q : Recommendation F)
      → IsNoted noted r
      → too_soon s.config q.created_at (lookup (scope_key q.scope) noted) ≡ false
      → IsApart s.config.minimum_dwell r q
  noted-IsApart noted r q n h same =
      let found : lookup (scope_key q.scope) noted ≡ some n.last =
        subst (λ k. lookup k noted ≡ some n.last) same n.is_last in
      let late : ltb_ℤ (sub q.created_at n.last) s.config.minimum_dwell ≡ false =
        subst (λ l. too_soon s.config q.created_at l ≡ false) found h in
      add-le r.created_at n.last s.config.minimum_dwell q.created_at n.no_earlier
        (sub-le_of q.created_at n.last s.config.minimum_dwell some_dwell bounded late)

  insert-IsNoted :
      (noted : Dict Time) (r q : Recommendation F)
      → IsNoted noted r
      → IsApart s.config.minimum_dwell r q
      → IsNoted (insert (scope_key q.scope) q.created_at noted) r
  insert-IsNoted noted r q n apart =
      elim (Bool-cases (str_eq (scope_key q.scope) (scope_key r.scope))) [
        | inl e ↦ record {
          last = q.created_at;
          is_last =
              rw (lookup-insert (scope_key q.scope) (scope_key r.scope) q.created_at noted, e);
          no_earlier =
              le-add r.created_at q.created_at s.config.minimum_dwell some_dwell
                (apart (sym ((eq_iff (scope_key q.scope) (scope_key r.scope)).0 e)));
        }
        | inr e ↦ record {
          last = n.last;
          is_last =
              rw (lookup-insert (scope_key q.scope) (scope_key r.scope) q.created_at noted, e)
                n.is_last;
          no_earlier = n.no_earlier;
        }
      ]

  All-IsApart :
      (noted : Dict Time) (rs : List (Recommendation F)) (q : Recommendation F)
      → All (IsNoted noted) rs
      → too_soon s.config q.created_at (lookup (scope_key q.scope) noted) ≡ false
      → All (λ r. IsApart s.config.minimum_dwell r q) rs
        × All (IsNoted (insert (scope_key q.scope) q.created_at noted)) rs
  All-IsApart noted [] q n h = (tt, tt)
  All-IsApart noted (r ∷ rs) q n h =
      let apart = noted-IsApart noted r q n.0 h in
      let (rest, kept) = All-IsApart noted rs q n.1 h in
      ((apart, rest), (insert-IsNoted noted r q n.0 apart, kept))

  publication-Spaced :
      (st : State F) (q : Recommendation F)
      → Spaced s st
      → too_soon s.config q.created_at (lookup (scope_key q.scope) st.last_generated) ≡ false
      → Spaced s (after_publication q.created_at q st)
  publication-Spaced st q h soon =
      let (apart, kept) = All-IsApart st.last_generated st.published q h.1 soon in
      (
        AreApart-append s.config.minimum_dwell st.published q h.0 apart,
        All-append (IsNoted (insert (scope_key q.scope) q.created_at st.last_generated))
            st.published (q ∷ []) kept (newest, tt),
      )
    where
      newest : IsNoted (insert (scope_key q.scope) q.created_at st.last_generated) q
      newest = record {
        last = q.created_at;
        is_last = rw (
          lookup-insert (scope_key q.scope) (scope_key q.scope) q.created_at st.last_generated,
          (eq_iff (scope_key q.scope) (scope_key q.scope)).1 refl,
        );
        no_earlier = omega arith;
      }

  IsWarranted-stamp :
      (o : Outside F) (request : EvaluationRequest F) (st : State F) (q : Recommendation F)
      → IsWarranted s o request st q
      → (q.created_at ≡ o.now) × (q.scope ≡ request.scope)
  unfolding make_recommendation
  IsWarranted-stamp o request st q w = (ap (λ r. r.created_at) w.made, ap (λ r. r.scope) w.made)

  evaluated-Spaced :
      (o : Outside F) (request : EvaluationRequest F) (st : State F)
      → Spaced s st
      → Spaced s (evaluate s o request st).1
  evaluated-Spaced o request st h = elim (evaluate-Effect s o request st) [
    | inl quiet ↦ subst (Spaced s) (sym quiet.1) h
    | inr (q, w, e) ↦
        let (at_now, of_scope) = IsWarranted-stamp o request st q w in
        let soon : too_soon s.config q.created_at (lookup (scope_key q.scope) st.last_generated)
            ≡ false =
          rw (at_now, of_scope) w.rested in
        subst (Spaced s) (ap (λ t. after_publication t q st) at_now ∙ sym (ap (λ x. x.1) e))
          (publication-Spaced st q h soon)
  ]

  same-Spaced : (st after : State F) → IsSameRecord st after → Spaced s st → Spaced s after
  same-Spaced st after same h =
      subst₂ (λ ps n. AreApart s.config.minimum_dwell ps × All (IsNoted n) ps) same.0 same.1 h

  Reaches-Spaced : (st : State F) → Reaches s st → Spaced s st
  Reaches-Spaced _ start = (tt, tt)
  Reaches-Spaced _ (evaluated o request st h) = evaluated-Spaced o request st (Reaches-Spaced st h)
  Reaches-Spaced _ (acknowledged o id a st h) =
      same-Spaced st (acknowledge o id a st).1 (acknowledge-IsSameRecord o id a st)
        (Reaches-Spaced st h)
  Reaches-Spaced _ (outcome_recorded o id outcome st h) =
      same-Spaced st (record_outcome o id outcome st).1
        (record_outcome-IsSameRecord o id outcome st) (Reaches-Spaced st h)

  -- With a dwell time that is a `Duration` and not negative: after any calls of the service, one
  -- after the other, and whatever the clock does, each of two recommendations that were published
  -- for one scope comes at least the dwell time after the one before.
  pub published_apart : (st : State F) → Reaches s st → AreApart s.config.minimum_dwell st.published
  published_apart st h = (Reaches-Spaced st h).0
