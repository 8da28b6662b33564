-- ===== src/Delivery/Consumers/System.antt =====
-- Any number of processes that run `consume` of app/app/infrastructure/messaging/durable_tasks.py on
-- one database, interleaved in any order with one another, with the clock and with the publisher. A
-- step is one transaction; a process may die at any point.
use investment_backend.Base.{ℕ, ◌+◌, ◌≡◌, none, some, List, ◌∷◌, lookup, ◌==◌, if◌then◌else◌}
use investment_backend.Base.Exec.{ok}
use investment_backend.Delivery.Outbox.{Message, Outbox, Delivery}
use investment_backend.Delivery.Consumers.{
  ConsumerLease, find_execution, take_execution, renew, release, commit_work,
}

-- Where a process stands in `consume`.
pub data Phase : Type 0 where
  idle : Phase
  looked : ℕ → Message → Phase
  working : ConsumerLease → Message → Phase
  leaving : ConsumerLease → Phase

-- `effects` is the committed work of the handlers: consumer and message, the newest first.
pub record World : Type 0 where
  pub box : Outbox
  pub clock : ℕ
  pub effects : List (ℕ × ℕ)
  pub worker : ℕ → Phase

abbrev pub update : (ℕ → Phase) → ℕ → Phase → ℕ → Phase
update f i x j = if i == j then x else f j

-- The message is in the table under its topic and key: these columns are never written.
pub record Home (s : Outbox) (id : ℕ) (m : Message) : Type 0 where
  pub row : Message
  pub found : lookup id s.messages ≡ some row
  pub topic : row.topic ≡ m.topic
  pub key : row.aggregate_key ≡ m.aggregate_key

-- What consumers see of the publisher's side: messages come and change, and keep topic and key.
pub record KeepsHomes (s s' : Outbox) : Type 0 where
  pub homes : (id : ℕ) (m : Message) → Home s id m → Home s' id m
  pub inbox_same : s'.inbox ≡ s.inbox
  pub executions_same : s'.executions ≡ s.executions

module _ (resource_key : ℕ → ℕ → ℕ) (p : Delivery) where
  pub data Step (w : World) : World → Type 0 where
    tick : (n : ℕ) → Step w (record w { clock = w.clock + n })
    publish : (s : Outbox) → KeepsHomes w.box s → Step w (record w { box = s })
    look :
        (i id : ℕ) (m : Message)
        → (find_execution p id w.clock w.box).0 ≡ ok (some m)
        → Step w (record w { worker = update w.worker i (looked id m) })
    take :
        (i id owner : ℕ) (m : Message) (lease : ConsumerLease)
        → w.worker i ≡ looked id m
        → (take_execution resource_key p id m owner w.clock w.box).0 ≡ ok (some lease)
        → Step w (record w {
          box = (take_execution resource_key p id m owner w.clock w.box).1;
          worker = update w.worker i (working lease m);
        })
    miss :
        (i id owner : ℕ) (m : Message)
        → w.worker i ≡ looked id m
        → (take_execution resource_key p id m owner w.clock w.box).0 ≡ ok none
        → Step w (record w {
          box = (take_execution resource_key p id m owner w.clock w.box).1;
          worker = update w.worker i idle;
        })
    beat :
        (i : ℕ) (lease : ConsumerLease) (m : Message)
        → w.worker i ≡ working lease m
        → Step w (record w { box = (renew p lease w.clock w.box).1 })
    commit :
        (i : ℕ) (lease : ConsumerLease) (m : Message)
        → w.worker i ≡ working lease m
        → (commit_work lease m w.clock w.box).0 ≡ ok tt
        → Step w (record w {
          box = (commit_work lease m w.clock w.box).1;
          effects = (m.topic, lease.message_id) ∷ w.effects;
          worker = update w.worker i (leaving lease);
        })
    abort :
        (i : ℕ) (lease : ConsumerLease) (m : Message)
        → w.worker i ≡ working lease m
        → Step w (record w { worker = update w.worker i (leaving lease) })
    leave :
        (i : ℕ) (lease : ConsumerLease)
        → w.worker i ≡ leaving lease
        → Step w (record w { box = (release lease w.box).1; worker = update w.worker i idle })
    crash : (i : ℕ) → Step w (record w { worker = update w.worker i idle })

  pub data Reach (s : World) : World → Type 0 where
    here : Reach s s
    next : {t u : World} → Reach s t → Step t u → Reach s u
