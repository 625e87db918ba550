-- ===== src/Repository/Memory.antt =====
-- services/recommendation-api/internal/repository/audit.go: the audit store in memory, and what it
-- keeps for a recommendation.
use mathlib.Core.List.{append_assoc, append-nil}
use stream_pulse.Common.{
  ◌≡◌, ◌∙◌, refl, sym, ap, ◌⊎◌, inl, inr, String, List, [], ◌∷◌, ◌++◌, str_eq, eq_iff, Bool-cases,
  if◌then◌else◌,
}
use stream_pulse.Common.Dict.{Dict, get, insert, get-insert}
use stream_pulse.Domain.{Acknowledgement, Outcome}

pub record MemoryAuditStore (F : Type 0) : Type 0 where
  pub acks : Dict (List Acknowledgement)
  pub outcomes : Dict (List (Outcome F))

abbrev pub push {ℓ} : {A : Type ℓ} → String → A → Dict (List A) → Dict (List A)
push id value entries = insert id (get id entries [] ++ (value ∷ [])) entries

module _ {F : Type 0} where
  abbrev pub new_memory_audit_store : MemoryAuditStore F
  new_memory_audit_store = record { acks = []; outcomes = [] }

  abbrev pub keep_acknowledgement : MemoryAuditStore F → Acknowledgement → MemoryAuditStore F
  keep_acknowledgement s ack = record s { acks = push ack.recommendation_id ack s.acks }

  abbrev pub keep_outcome : MemoryAuditStore F → Outcome F → MemoryAuditStore F
  keep_outcome s outcome = record s { outcomes = push outcome.recommendation_id outcome s.outcomes }

-- The values of one recommendation, in the order in which they came.
abbrev pub matching {ℓ} : {A : Type ℓ} → (A → String) → String → List A → List A
matching key id [] = []
matching key id (x ∷ xs) =
    let rest = matching key id xs in if str_eq (key x) id then x ∷ rest else rest

module _ {ℓ} {A : Type ℓ} (key : A → String) where
  push-get :
      (id : String) (x : A) (entries : Dict (List A))
      → get id (push (key x) x entries) [] ≡ get id entries [] ++ matching key id (x ∷ [])
  push-get id x entries = elim (Bool-cases (str_eq (key x) id)) [
    | inl e ↦
        rw (get-insert (key x) id (get (key x) entries [] ++ (x ∷ [])) [] entries, e)
          (ap (λ i. get i entries [] ++ (x ∷ [])) ((eq_iff (key x) id).0 e))
    | inr e ↦
        rw (get-insert (key x) id (get (key x) entries [] ++ (x ∷ [])) [] entries, e)
          (sym (append-nil _))
  ]

  matching-step :
      (id : String) (x : A) (xs : List A)
      → matching key id (x ∷ xs) ≡ matching key id (x ∷ []) ++ matching key id xs
  matching-step id x xs = elim (Bool-cases (str_eq (key x) id)) [
    | inl e ↦ rw e refl
    | inr e ↦ rw e refl
  ]

  -- One more write, after which the later ones are as expected.
  push-matching :
      (id : String) (x : A) (xs : List A) (entries : Dict (List A)) (later : List A)
      → later ≡ get id (push (key x) x entries) [] ++ matching key id xs
      → later ≡ get id entries [] ++ matching key id (x ∷ xs)
  push-matching id x xs entries later h =
      h
      ∙ ap (λ l. l ++ matching key id xs) (push-get id x entries)
      ∙ append_assoc (get id entries []) (matching key id (x ∷ [])) (matching key id xs)
      ∙ ap (λ l. get id entries [] ++ l) (sym (matching-step id x xs))

module _ {F : Type 0} where
  -- A write to the store: an acknowledgement or an outcome.
  abbrev pub keep : MemoryAuditStore F → Acknowledgement ⊎ Outcome F → MemoryAuditStore F
  keep s (inl ack) = keep_acknowledgement s ack
  keep s (inr outcome) = keep_outcome s outcome

  unfoldable pub keep_all :
      MemoryAuditStore F → List (Acknowledgement ⊎ Outcome F) → MemoryAuditStore F
  keep_all s [] = s
  keep_all s (x ∷ xs) = keep_all (keep s x) xs

  abbrev pub acks_in : List (Acknowledgement ⊎ Outcome F) → List Acknowledgement
  acks_in [] = []
  acks_in (inl ack ∷ xs) = ack ∷ acks_in xs
  acks_in (inr outcome ∷ xs) = acks_in xs

  abbrev pub outcomes_in : List (Acknowledgement ⊎ Outcome F) → List (Outcome F)
  outcomes_in [] = []
  outcomes_in (inl ack ∷ xs) = outcomes_in xs
  outcomes_in (inr outcome ∷ xs) = outcome ∷ outcomes_in xs

  keep_all-acks :
      (id : String) (xs : List (Acknowledgement ⊎ Outcome F)) (s : MemoryAuditStore F)
      → get id (keep_all s xs).acks []
        ≡ get id s.acks [] ++ matching (λ a. a.recommendation_id) id (acks_in xs)
  unfolding keep_all
  keep_all-acks id [] s = sym (append-nil _)
  keep_all-acks id (inl ack ∷ xs) s =
      push-matching (λ a. a.recommendation_id) id ack (acks_in xs) s.acks _
        (keep_all-acks id xs (keep_acknowledgement s ack))
  keep_all-acks id (inr outcome ∷ xs) s = keep_all-acks id xs (keep_outcome s outcome)

  keep_all-outcomes :
      (id : String) (xs : List (Acknowledgement ⊎ Outcome F)) (s : MemoryAuditStore F)
      → get id (keep_all s xs).outcomes []
        ≡ get id s.outcomes [] ++ matching (λ o. o.recommendation_id) id (outcomes_in xs)
  unfolding keep_all
  keep_all-outcomes id [] s = sym (append-nil _)
  keep_all-outcomes id (inl ack ∷ xs) s = keep_all-outcomes id xs (keep_acknowledgement s ack)
  keep_all-outcomes id (inr outcome ∷ xs) s =
      push-matching (λ o. o.recommendation_id) id outcome (outcomes_in xs) s.outcomes _
        (keep_all-outcomes id xs (keep_outcome s outcome))

  -- After any writes, in any order, the store has for each recommendation exactly the
  -- acknowledgements and the outcomes that were written for it, in the order of the writes.
  pub keep_all-matching :
      (id : String) (xs : List (Acknowledgement ⊎ Outcome F))
      → (get id (keep_all new_memory_audit_store xs).acks []
          ≡ matching (λ a. a.recommendation_id) id (acks_in xs))
        × (get id (keep_all new_memory_audit_store xs).outcomes []
            ≡ matching (λ o. o.recommendation_id) id (outcomes_in xs))
  keep_all-matching id xs =
      (keep_all-acks id xs new_memory_audit_store, keep_all-outcomes id xs new_memory_audit_store)
