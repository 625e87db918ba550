-- ===== src/Generator/Delivery.antt =====
-- What the Kafka sink delivers.
use mathlib.Core.List.{append_assoc, append-nil}
use stream_pulse.Common.{
  ◌<◌, ◌≡◌, refl, sym, ap, ◌∙◌, inl, inr, ◌⊎◌, ◌≢◌, String, true, Option, none, some, List, [], ◌∷◌,
  ◌++◌, length, ltb, arith, Bool-cases, Option-cases,
}
use stream_pulse.Generator.Sink.{
  Record, Message, Answer, taken, failed, Kafka, kafka_batch_size, send, flush, write, close,
  write_all,
}

-- The topic, the key and the value of a record
abbrev pub content : Record → Message
content r = record { topic = r.topic; key = r.key; value = r.value }

abbrev pub messages_of : List (Record × Answer) → List Message
messages_of [] = []
messages_of ((r, _) ∷ rest) = content r ∷ messages_of rest

-- All messages that the brokers have or that wait, in their order.
abbrev pub held : Kafka → List Message
held s = s.log ++ s.messages

no_messages : (ms : List Message) → ltb (length ms) 1 ≡ true → ms ≡ []
no_messages [] h = refl
no_messages (m ∷ ms) h = ground arith

send-ok :
    (answer : Answer) (s : Kafka)
    → (send answer s).0 ≡ none
    → ((send answer s).1.messages ≡ []) × ((send answer s).1.log ≡ held s)
send-ok taken s h = (refl, refl)
send-ok (failed e some_of) s h = cc

flush-ok :
    (answer : Answer) (s : Kafka)
    → (flush answer s).0 ≡ none
    → ((flush answer s).1.messages ≡ []) × ((flush answer s).1.log ≡ held s)
unfolding flush
flush-ok answer s h = elim (Bool-cases (ltb (length s.messages) 1)) [
  | inr e ↦ rw e (send-ok answer s (rw e at h))
  | inl e ↦
      let empty = no_messages s.messages e in
      rw e (empty, sym (ap (λ ms. s.log ++ ms) empty ∙ append-nil s.log))
]

-- A write that returns no error holds one message more, and leaves less than a batch waiting.
write-ok :
    (r : Record) (answer : Answer) (s : Kafka)
    → (write r answer s).0 ≡ none
    → (held (write r answer s).1 ≡ held s ++ (content r ∷ []))
      × (length (write r answer s).1.messages < kafka_batch_size)
unfolding write
write-ok r answer s h =
    let next : Kafka = record s { messages = s.messages ++ (content r ∷ []) } in
    let one_more : held next ≡ held s ++ (content r ∷ []) =
      sym (append_assoc s.log s.messages (content r ∷ [])) in
    elim (Bool-cases (ltb (length next.messages) kafka_batch_size)) [
      | inl e ↦ rw e (one_more, ground arith)
      | inr e ↦
          let (empty, all) = flush-ok answer next (rw e at h) in
          rw (e, empty) (append-nil (flush answer next).1.log ∙ all ∙ one_more, omega arith)
    ]

pub write_all-step :
    (r : Record) (answer : Answer) (rest : List (Record × Answer)) (s : Kafka)
    → (write r answer s).0 ≡ none
    → write_all ((r, answer) ∷ rest) s ≡ write_all rest (write r answer s).1
unfolding write_all
write_all-step r answer rest s e = rw (e, write_all)

pub write_all-stop :
    (r : Record) (answer : Answer) (rest : List (Record × Answer)) (s : Kafka) (x : String)
    → (write r answer s).0 ≡ some x
    → (write_all ((r, answer) ∷ rest) s).0 ≡ some x
unfolding write_all
write_all-stop r answer rest s x e = rw (e, write_all) refl

write_all-ok :
    (rs : List (Record × Answer)) (s : Kafka)
    → (write_all rs s).0 ≡ none
    → held (write_all rs s).1 ≡ held s ++ messages_of rs
unfolding write_all
write_all-ok [] s h = sym (append-nil (held s))
write_all-ok ((r, answer) ∷ rest) s h = elim (Option-cases (write r answer s).0) [
  | inr (x, e) ↦ cc (h, write_all-stop r answer rest s x e)
  | inl e ↦
      let next = (write r answer s).1 in
      let step = write_all-step r answer rest s e in
      ap (λ x. held x.1) step
      ∙ write_all-ok rest next (ap (λ x. x.0) (sym step) ∙ h)
      ∙ ap (λ l. l ++ messages_of rest) (write-ok r answer s e).0
      ∙ append_assoc (held s) (content r ∷ []) (messages_of rest)
]

abbrev pub idle : Kafka
idle = record { messages = []; log = [] }

-- If the sink takes all records without an error and closes without one, the brokers have exactly
-- the messages of the records' topics, keys and values, each once and in their order, and none
-- waits.
pub delivered_once :
    (rs : List (Record × Answer)) (last : Answer) (close_err : Option String)
    → (write_all rs idle).0 ≡ none
    → (close last close_err (write_all rs idle).1).0 ≡ none
    → ((close last close_err (write_all rs idle).1).1.log ≡ messages_of rs)
      × ((close last close_err (write_all rs idle).1).1.messages ≡ [])
unfolding close
delivered_once rs last close_err h k = elim (Option-cases (flush last (write_all rs idle).1).0) [
  | inr (x, e) ↦ cc (rw (e, close) at k)
  | inl e ↦
      let (empty, all) = flush-ok last (write_all rs idle).1 e in
      (all ∙ write_all-ok rs idle h, empty)
]

send-error :
    (answer : Answer) (s : Kafka) (e : String)
    → (send answer s).0 ≡ some e
    → (send answer s).1.messages ≡ s.messages
send-error taken s e h = cc
send-error (failed x some_of) s e h = refl

-- A write either returns no error, and then the waiting messages are fewer than a batch and all
-- messages are held in their order with the new one last; or it returns an error, and then the new
-- message and those that waited before it wait still.
pub write_keeps :
    (r : Record) (answer : Answer) (s : Kafka)
    → (((write r answer s).0 ≡ none)
        × (held (write r answer s).1 ≡ held s ++ (content r ∷ []))
        × (length (write r answer s).1.messages < kafka_batch_size))
      ⊎ (((write r answer s).0 ≢ none)
          × ((write r answer s).1.messages ≡ s.messages ++ (content r ∷ [])))
unfolding write flush
write_keeps r answer s = elim (Option-cases (write r answer s).0) [
  | inl e ↦ let (h, k) = write-ok r answer s e in inl (e, h, k)
  | inr (x, e) ↦ inr (λ h. cc (h, e), error_keeps x e)
]
  where
    next : Kafka
    next = record s { messages = s.messages ++ (content r ∷ []) }

    error_keeps :
        (x : String) → (write r answer s).0 ≡ some x → (write r answer s).1.messages ≡ next.messages
    error_keeps x e = elim (Bool-cases (ltb (length next.messages) kafka_batch_size)) [
      | inl b ↦ rw b refl
      | inr b ↦ elim (Bool-cases (ltb (length next.messages) 1)) [
        | inl c ↦ rw (b, c) refl
        | inr c ↦ rw (b, c) (send-error answer next x (rw (b, c) at e))
      ]
    ]
