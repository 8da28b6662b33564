-- ===== src/Delivery/Endings.antt =====
-- How work on a message ends: `finish_delivery`, the dead letters, and `replay`
-- (app/app/infrastructure/messaging/durable_delivery.py).
use investment_backend.Base.{
  ℕ, ◌≤◌, ◌≡◌, refl, Bool, true, false, ◌&&◌, Option, none, some, lookup, lookup-insert_self, leb,
  arith, Bool-cases, inl, inr, is_some, opt_eq,
}
use investment_backend.Base.Exec.{ok, err, ◌>>=◌, transaction}
use investment_backend.Delivery.Outbox.{
  Message, DeadLetter, Outbox, Delivery, lease_lost, is_dead, has_topic, finish_delivery,
  holds_lease, finished, dead_letter, publisher_error, replay, revived, is_due, is_exhausted,
  pending,
}

module _ (p : Delivery) (id now : ℕ) (claimed row : Message) (s : Outbox) where
  finish_row :
      (error : Option ℕ)
      → lookup id s.messages ≡ some row
      → holds_lease now claimed row ≡ true
      → ((finish_delivery p id claimed error now s).0 ≡ ok tt)
        × (lookup id (finish_delivery p id claimed error now s).1.messages
            ≡ some (finished now claimed error row))
  unfolding finish_delivery transaction ◌>>=◌ dead_letter
  finish_row none found held =
      rw found (rw held (refl, lookup-insert_self id (finished now claimed none row) s.messages))
  finish_row (some e) found held = elim (Bool-cases (leb p.max_attempts claimed.attempt_count)) [
    | inl last ↦ rw found (
        rw held
          (rw last (refl, lookup-insert_self id (finished now claimed (some e) row) s.messages)))
    | inr more ↦ rw found (
        rw held
          (rw more (refl, lookup-insert_self id (finished now claimed (some e) row) s.messages)))
  ]

no_owner : (o : Option ℕ) (b c : Bool) → is_some o && opt_eq none o && b && c ≡ false
no_owner none b c = refl
no_owner (some n) b c = refl

not_held :
    (now : ℕ) (claimed row : Message) (error : Option ℕ) (then_ : ℕ)
    → holds_lease then_ claimed (finished now claimed error row) ≡ false
unfolding holds_lease finished
not_held now claimed row error then_ = no_owner claimed.lease_owner _ _

lost :
    (p : Delivery) (id now : ℕ) (claimed row : Message) (error : Option ℕ) (s : Outbox)
    → lookup id s.messages ≡ some row
    → holds_lease now claimed row ≡ false
    → finish_delivery p id claimed error now s ≡ (err lease_lost, s)
unfolding finish_delivery transaction ◌>>=◌
lost p id now claimed row error s found h = rw found (rw h refl)

-- A delivery is finished once: while the caller holds the lease the first report is taken, and every
-- later one for the same claim, with whatever error and at whatever time, raises
-- `DeliveryLeaseLost` and changes nothing.
pub finish_once :
    (p : Delivery) (id now later : ℕ) (claimed row : Message) (error again : Option ℕ) (s : Outbox)
    → lookup id s.messages ≡ some row
    → holds_lease now claimed row ≡ true
    → ((finish_delivery p id claimed error now s).0 ≡ ok tt)
      × (finish_delivery p id claimed again later (finish_delivery p id claimed error now s).1
          ≡ (err lease_lost, (finish_delivery p id claimed error now s).1))
finish_once p id now later claimed row error again s found held =
    let (taken, there) = finish_row p id now claimed row s error found held in
    (
      taken,
      lost p id later claimed (finished now claimed error row) again
          (finish_delivery p id claimed error now s).1 there (not_held now claimed row error later),
    )

-- A publisher that reports an error on the last attempt allowed puts the message among the dead
-- letters.
pub finish_buries :
    (p : Delivery) (id now : ℕ) (claimed row : Message) (e : ℕ) (s : Outbox)
    → lookup id s.messages ≡ some row
    → holds_lease now claimed row ≡ true
    → p.max_attempts ≤ claimed.attempt_count
    → is_dead id (finish_delivery p id claimed (some e) now s).1 ≡ true
unfolding finish_delivery transaction ◌>>=◌ dead_letter is_dead
finish_buries p id now claimed row e s found held last =
    let spent : leb p.max_attempts claimed.attempt_count ≡ true = ground arith in
    rw found (
      rw held (
        rw spent (
          rw
            (lookup-insert_self id (record { error_code = publisher_error e; replayed = false })
              s.dead_letters)
            refl)))

revived_due :
    (p : Delivery) (now : ℕ) (row : Message)
    → has_topic p row ≡ true
    → is_due p now (revived row) ≡ elim row.not_before [ none ↦ true | some t ↦ leb t now ]
unfolding is_due revived
revived_due p now row topic = ground arith

-- The row after `replay`: no attempt is counted and nobody has it; what it says is what it said.
pub record StartsOver (old new : Message) : Type 0 where
  pub attempts : new.attempt_count ≡ 0
  pub waits : new.status ≡ pending
  pub nobody : new.lease_owner ≡ none
  pub no_lease : new.lease_expires_at ≡ none
  pub topic : new.topic ≡ old.topic
  pub aggregate_key : new.aggregate_key ≡ old.aggregate_key
  pub deduplication_key : new.deduplication_key ≡ old.deduplication_key
  pub payload : new.payload ≡ old.payload
  pub headers : new.headers ≡ old.headers
  pub not_before : new.not_before ≡ old.not_before

revived-StartsOver : (row : Message) → StartsOver row (revived row)
unfolding revived
revived-StartsOver row = record {
  attempts = refl;
  waits = refl;
  nobody = refl;
  no_lease = refl;
  topic = refl;
  aggregate_key = refl;
  deduplication_key = refl;
  payload = refl;
  headers = refl;
  not_before = refl;
}

kept_for_replay :
    (p : Delivery) (now : ℕ) (row : Message)
    → 1 ≤ p.max_attempts
    → is_exhausted p now (revived row) ≡ false
unfolding is_exhausted revived
kept_for_replay p now row some_attempts =
    let fresh : leb p.max_attempts 0 ≡ false = ground arith in rw fresh (ground arith)

-- A message of the publisher's topics that is in an open entry of the dead letters goes out again
-- after `replay`, if the publisher allows an attempt at all: it is dead no more; its row is there,
-- pending, held by nobody, with no attempt counted and with the topic, keys, payload, headers and
-- not-before time that it had; `reconcile` would not bury it; and `claim_delivery` may take it as
-- soon as its not-before time has come.
pub replay_revives :
    (p : Delivery) (id now : ℕ) (row : Message) (letter : DeadLetter) (s : Outbox)
    → lookup id s.messages ≡ some row
    → has_topic p row ≡ true
    → lookup id s.dead_letters ≡ some letter
    → letter.replayed ≡ false
    → 1 ≤ p.max_attempts
    → (is_dead id (replay p id s).1 ≡ false)
      × ((new : Message) × (lookup id (replay p id s).1.messages ≡ some new)
          × StartsOver row new
          × (is_exhausted p now new ≡ false)
          × (is_due p now new ≡ elim row.not_before [ none ↦ true | some t ↦ leb t now ]))
unfolding replay transaction ◌>>=◌ is_dead
replay_revives p id now row letter s found topic dead open_entry some_attempts = (
  rw found (
      rw topic (
        rw dead (
          rw open_entry
            (rw (lookup-insert_self id (record letter { replayed = true }) s.dead_letters) refl)))),
  (
    revived row,
    rw found (rw topic (rw dead (rw open_entry (lookup-insert_self id (revived row) s.messages)))),
    revived-StartsOver row,
    kept_for_replay p now row some_attempts,
    revived_due p now row topic,
  ),
)
