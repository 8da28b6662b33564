-- ===== src/Delivery/Consumers.antt =====
-- The class `DurableTasks` of app/app/infrastructure/messaging/durable_tasks.py and
-- `claim_inbox_once` of app/app/infrastructure/repositories/outbox.py: consumers that work on a
-- message under a lease of its resource. A resource is a topic and a key; `resource_key` numbers
-- the texts `topic + ":" + aggregate_key`. `System` lets any number of consumers run at once. The
-- check of the consumer's name in `claim_inbox_once` is left out.
pub mod System
pub mod Effects
pub mod Invariant
pub mod Keeps
pub mod Commits
pub mod Refinement
pub mod Retry
pub mod Publisher
mod Tests
use investment_backend.Base.{
  ℕ, ◌+◌, Bool, true, false, not, ◌&&◌, Option, none, some, List, [], ◌∷◌, lookup, insert, leb, ltb,
  ◌==◌, if◌then◌else◌,
}
use investment_backend.Base.Exec.{
  Result, pure, raise_if, gets, modify, when, maybe, or_raise, ◌>>=◌, ◌>>◌, transaction,
}
use investment_backend.Delivery.Outbox.{
  Message, Execution, Outbox, Delivery, Action, lease_lost, is_dead, has_topic, marked,
}

-- `ConsumerLease`
pub record ConsumerLease : Type 0 where
  pub resource : ℕ
  pub message_id : ℕ
  pub owner : ℕ
  pub epoch : ℕ

-- The conditions of the first query of `claim_execution`
unfoldable pub is_workable : Delivery → ℕ → ℕ → Message → Outbox → Bool
unfolding is_dead
is_workable p now id m s =
    has_topic p m
    && elim m.not_before [ none ↦ true | some t ↦ leb t now ]
    && not (marked m.topic id s.inbox)
    && not (is_dead id s)

-- The first query of `claim_execution`
unfoldable pub find_execution : Delivery → ℕ → ℕ → Action (Option Message)
unfolding is_workable
find_execution p id now = do
  row ← gets (λ s. lookup id s.messages)
  maybe row (pure none) (λ m. do
    workable ← gets (is_workable p now id m)
    if workable then pure (some m) else pure none)

-- The epoch that the `INSERT … ON CONFLICT … RETURNING epoch` returns, if it writes.
unfoldable pub next_epoch : ℕ → Option Execution → Option ℕ
next_epoch now none = some 1
next_epoch now (some e) = if leb e.expires_at now then some (e.epoch + 1) else none

unfoldable pub put_execution : ℕ → Execution → Action Unit
put_execution key e = modify (λ s. record s { executions = insert key e s.executions })

-- The lease of a row that has just been written
abbrev pub lease_of : ℕ → ℕ → ℕ → ℕ → ConsumerLease
lease_of key id owner epoch = record {
  resource = key;
  message_id = id;
  owner = owner;
  epoch = epoch;
}

module _ (resource_key : ℕ → ℕ → ℕ) where
  -- The rest of `claim_execution`, for the row that the first query found: the lease is taken, and
  -- given up at once if the message has been acknowledged in between.
  unfoldable pub take_execution : Delivery → ℕ → Message → ℕ → ℕ → Action (Option ConsumerLease)
  unfolding next_epoch put_execution
  take_execution p id m owner now = do
    let key = resource_key m.topic m.aggregate_key
    row ← gets (λ s. lookup key s.executions)
    maybe (next_epoch now row) (pure none) (λ epoch. do
      let e : Execution = record {
        message_id = id;
        owner = owner;
        epoch = epoch;
        expires_at = now + p.lease_seconds;
      }
      put_execution key e
      done ← gets (λ s. marked m.topic id s.inbox)
      if not done
          then pure (some (lease_of key id owner epoch))
          else do put_execution key (record e { expires_at = 0 }); pure none)

  -- `claim_execution`, when nobody else comes between its queries
  unfoldable pub claim_execution : Delivery → ℕ → ℕ → ℕ → Action (Option (ConsumerLease × Message))
  unfolding find_execution take_execution
  claim_execution p id owner now = transaction (do
    found ← find_execution p id now
    maybe found (pure none) (λ m. do
      taken ← take_execution p id m owner now
      maybe taken (pure none) (λ lease. pure (some (lease, m)))))

-- The row is the lease's: `resource_key`, `message_id`, `owner` and `epoch` agree.
unfoldable pub is_mine : ConsumerLease → Execution → Bool
is_mine l e = e.message_id == l.message_id && e.owner == l.owner && e.epoch == l.epoch

-- `CHECK_LEASE` finds a row.
unfoldable pub is_current : ℕ → ConsumerLease → Option Execution → Bool
unfolding is_mine
is_current now l none = false
is_current now l (some e) = is_mine l e && ltb now e.expires_at

-- The end of the lease's row is written, if the row is there.
unfoldable pub set_end : ℕ → Option Execution → ℕ → Action Unit
unfolding put_execution
set_end key none end = pure tt
set_end key (some e) end = put_execution key (record e { expires_at = end })

-- `renew`
unfoldable pub renew : Delivery → ConsumerLease → ℕ → Action Unit
unfolding is_current set_end
renew p l now = transaction (do
  row ← gets (λ s. lookup l.resource s.executions)
  raise_if (not (is_current now l row)) lease_lost
  set_end l.resource row (now + p.lease_seconds))

abbrev pub owned : ConsumerLease → Option Execution → Bool
owned l none = false
owned l (some e) = is_mine l e

-- `release`
unfoldable pub release : ConsumerLease → Action Unit
unfolding is_mine set_end
release l = do
  row ← gets (λ s. lookup l.resource s.executions)
  when (owned l row) (set_end l.resource row 0)

-- `claim_inbox_once`
unfoldable pub claim_inbox_once : ℕ → ℕ → Action Bool
claim_inbox_once consumer id = do
  known ← gets (λ s. marked consumer id s.inbox)
  when (not known) (modify (λ s. record s { inbox = (consumer, id) ∷ s.inbox }))
  pure (not known)

-- What `s.commit()` in `consume` commits: the guard locks and checks the lease, and the mark of the
-- inbox goes with the writes of the handler.
unfoldable pub commit_work : ConsumerLease → Message → ℕ → Action Unit
unfolding is_current claim_inbox_once
commit_work l m now = transaction (do
  claim_inbox_once m.topic l.message_id
  row ← gets (λ s. lookup l.resource s.executions)
  raise_if (not (is_current now l row)) lease_lost)
