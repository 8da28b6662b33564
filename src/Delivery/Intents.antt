-- ===== src/Delivery/Intents.antt =====
-- Deduplication keys and intents (`enqueue` of app/app/infrastructure/repositories/outbox.py).
use mathlib.Core.Path.{sym, ap, ◌∙◌}
use investment_backend.Base.{
  ℕ, ◌≡◌, refl, Bool, true, Option, none, some, lookup, insert, find_first, find_first-insert,
  ==_iff, if◌then◌else◌, ◌⊎◌, Bool-cases, inl, inr, arith,
}
use investment_backend.Base.Exec.{Result, ok, err, ◌>>=◌}
use investment_backend.Delivery.Outbox.{Message, Outbox, DeliveryFault, reused_key}
use investment_backend.Delivery.Repository.{
  OutboxEvent, row_of_event, has_key, same_intent, enqueue_event,
}

-- The answer to an event whose key is known
abbrev pub answer_known : OutboxEvent → ℕ → Message → Outbox → Result DeliveryFault ℕ × Outbox
answer_known e i m s = if same_intent e m then (ok i, s) else (err reused_key, s)

enqueue_known :
    (id i : ℕ) (e : OutboxEvent) (m : Message) (s : Outbox)
    → find_first (has_key e.deduplication_key) s.messages ≡ some (i, m)
    → enqueue_event id e s ≡ answer_known e i m s
unfolding enqueue_event ◌>>=◌
enqueue_known id i e m s found = elim (Bool-cases (same_intent e m)) [
  | inl same ↦ rw found (rw same refl)
  | inr other ↦ rw found (rw other refl)
]

enqueue_new :
    (id : ℕ) (e : OutboxEvent) (s : Outbox)
    → find_first (has_key e.deduplication_key) s.messages ≡ none
    → enqueue_event id e s ≡ (ok id, record s { messages = insert id (row_of_event e) s.messages })
unfolding enqueue_event ◌>>=◌
enqueue_new id e s missing = rw missing refl

-- A row with the intent of one event is like the row of that event to every other event.
intent_shared :
    (e again : OutboxEvent) (m : Message)
    → same_intent e m ≡ true
    → same_intent again m ≡ same_intent again (row_of_event e)
unfolding same_intent row_of_event
intent_shared e again m h = ground arith

has_own_key : (e : OutboxEvent) → has_key e.deduplication_key (row_of_event e) ≡ true
unfolding row_of_event
has_own_key e = (==_iff e.deduplication_key e.deduplication_key).1 refl

own_intent : (e : OutboxEvent) → same_intent e (row_of_event e) ≡ true
unfolding same_intent row_of_event
own_intent e = ground arith

known_after :
    (id i : ℕ) (e : OutboxEvent) (s s' : Outbox)
    → lookup id s.messages ≡ none
    → enqueue_event id e s ≡ (ok i, s')
    → (m : Message) × (find_first (has_key e.deduplication_key) s'.messages ≡ some (i, m))
      × (same_intent e m ≡ true)
known_after id i e s s' new h = by_row (find_first (has_key e.deduplication_key) s.messages) refl
  where
    by_row :
        (o : Option (ℕ × Message))
        → find_first (has_key e.deduplication_key) s.messages ≡ o
        → (m : Message) × (find_first (has_key e.deduplication_key) s'.messages ≡ some (i, m))
          × (same_intent e m ≡ true)
    by_row none missing =
        let both = sym (enqueue_new id e s missing) ∙ h in
        let after = ap (λ (x : Result DeliveryFault ℕ × Outbox). x.1) both in
        let answer : Path (Result DeliveryFault ℕ) (ok id) (ok i) =
          ap (λ (x : Result DeliveryFault ℕ × Outbox). x.0) both in
        let ids : id ≡ i = cc in
        (
          row_of_event e,
          ap (λ (x : Outbox). find_first (has_key e.deduplication_key) x.messages) (sym after)
              ∙ find_first-insert (has_key e.deduplication_key) id (row_of_event e) s.messages new
                  missing (has_own_key e)
              ∙ ap (λ (k : ℕ). some (k, row_of_event e)) ids,
          own_intent e,
        )
    by_row (some (k, m)) found = elim (Bool-cases (same_intent e m)) [
      | inl same ↦
          let both =
            sym (
              enqueue_known id k e m s found
              ∙ (let r : answer_known e k m s ≡ (ok k, s) = rw same refl in r))
            ∙ h in
          let after = ap (λ (x : Result DeliveryFault ℕ × Outbox). x.1) both in
          let answer : Path (Result DeliveryFault ℕ) (ok k) (ok i) =
            ap (λ (x : Result DeliveryFault ℕ × Outbox). x.0) both in
          let ids : k ≡ i = cc in
          (
            m,
            ap (λ (x : Outbox). find_first (has_key e.deduplication_key) x.messages) (sym after)
                ∙ found
                ∙ ap (λ (j : ℕ). some (j, m)) ids,
            same,
          )
      | inr other ↦
          let refused : enqueue_event id e s ≡ (err reused_key, s) =
            enqueue_known id k e m s found ∙ rw other refl in
          cc
    ]

answer_again :
    (id i later_id : ℕ) (e again : OutboxEvent) (s s' : Outbox)
    → lookup id s.messages ≡ none
    → enqueue_event id e s ≡ (ok i, s')
    → again.deduplication_key ≡ e.deduplication_key
    → enqueue_event later_id again s'
      ≡ (if same_intent again (row_of_event e) then (ok i, s') else (err reused_key, s'))
answer_again id i later_id e again s s' new h keys =
    let (m, found, same) = known_after id i e s s' new h in
    enqueue_known later_id i again m s'
      (ap (λ (k : ℕ). find_first (has_key k) s'.messages) keys ∙ found)
    ∙ ap (λ (b : Bool). if b then (ok i, s') else (err reused_key, s'))
        (intent_shared e again m same)

-- Two events say the same: topic, aggregate key, payload and headers are equal.
abbrev pub SameIntent : OutboxEvent → OutboxEvent → Type 0
SameIntent e again =
    (again.topic ≡ e.topic)
    × (again.aggregate_key ≡ e.aggregate_key)
    × (again.payload ≡ e.payload)
    × (again.headers ≡ e.headers)

same_intent-of_SameIntent :
    (e again : OutboxEvent) → SameIntent e again → same_intent again (row_of_event e) ≡ true
unfolding same_intent row_of_event
same_intent-of_SameIntent e again (topic, key, payload, headers) = ground arith

same_intent-SameIntent :
    (e again : OutboxEvent) → same_intent again (row_of_event e) ≡ true → SameIntent e again
unfolding same_intent row_of_event
same_intent-SameIntent e again h = (ground arith, ground arith, ground arith, ground arith)

-- A deduplication key is bound to the first intent: once an event has been enqueued under an id that
-- is not in the table, every later event with the same key, whatever id it draws, is answered with the
-- same id if topic, aggregate key, payload and headers are equal, and raises `ValueError` if one of
-- them differs; either way nothing is written.
pub enqueue_once :
    (id i later_id : ℕ) (e again : OutboxEvent) (s s' : Outbox)
    → lookup id s.messages ≡ none
    → enqueue_event id e s ≡ (ok i, s')
    → again.deduplication_key ≡ e.deduplication_key
    → (SameIntent e again × (enqueue_event later_id again s' ≡ (ok i, s')))
      ⊎ ((¬ SameIntent e again) × (enqueue_event later_id again s' ≡ (err reused_key, s')))
enqueue_once id i later_id e again s s' new h keys =
    let answer = answer_again id i later_id e again s s' new h keys in
    let choose : Bool → Result DeliveryFault ℕ × Outbox =
      λ b. if b then (ok i, s') else (err reused_key, s') in
    elim (Bool-cases (same_intent again (row_of_event e))) [
      | inl equal ↦ inl (same_intent-SameIntent e again equal, answer ∙ ap choose equal)
      | inr differs ↦
          inr (λ same. cc (same_intent-of_SameIntent e again same), answer ∙ ap choose differs)
    ]
