-- ===== src/Delivery/Consumers/Retry.antt =====
-- A consumer that asks again for a message whose work has not been committed.
use mathlib.Core.Path.{sym, ap, ◌∙◌}
use investment_backend.Base.{
  ℕ, ◌+◌, ◌≤◌, ◌<◌, ◌≡◌, refl, true, false, none, some, lookup, lookup-insert_self, leb, arith,
}
use investment_backend.Base.Exec.{ok, ◌>>=◌, transaction}
use investment_backend.Delivery.Outbox.{Message, Execution, Outbox, Delivery, marked, is_dead}
use investment_backend.Delivery.Consumers.{
  ConsumerLease, is_workable, find_execution, next_epoch, put_execution, lease_of, claim_execution,
  is_mine, set_end, release,
}
use investment_backend.Delivery.Consumers.Effects.{take_held, take_new}

workable-marked :
    (p : Delivery) (now id : ℕ) (m : Message) (s : Outbox)
    → is_workable p now id m s ≡ true
    → marked m.topic id s.inbox ≡ false
unfolding is_workable
workable-marked p now id m s h = ground arith

module _ (resource_key : ℕ → ℕ → ℕ) (p : Delivery) (id owner now : ℕ) (m : Message) (s : Outbox)
    (found : lookup id s.messages ≡ some m) (workable : is_workable p now id m s ≡ true) where
  abbrev key : ℕ
  key = resource_key m.topic m.aggregate_key

  found_execution : find_execution p id now s ≡ (ok (some m), s)
  unfolding find_execution ◌>>=◌
  found_execution = rw found (rw workable refl)

  -- The lease of a resource is given when its row is over or missing, with the epoch that comes next.
  pub claim_execution-free :
      (n : ℕ)
      → next_epoch now (lookup key s.executions) ≡ some n
      → (claim_execution resource_key p id owner now s).0 ≡ ok (some (lease_of key id owner n, m))
  unfolding claim_execution transaction ◌>>=◌
  claim_execution-free n e = rw found_execution (
      rw (take_new resource_key p id owner now m s n e (workable-marked p now id m s workable))
        refl)

  pub claim_execution-held :
      (e : Execution)
      → lookup key s.executions ≡ some e
      → now < e.expires_at
      → claim_execution resource_key p id owner now s ≡ (ok none, s)
  unfolding claim_execution transaction ◌>>=◌ next_epoch
  claim_execution-held e row live =
      let late : leb e.expires_at now ≡ false = ground arith in
      rw found_execution
        (rw (take_held resource_key p id owner now m s (rw row (rw late refl))) refl)

release_put :
    (l : ConsumerLease) (e : Execution) (s : Outbox)
    → lookup l.resource s.executions ≡ some e
    → is_mine l e ≡ true
    → (release l s).1 ≡ (put_execution l.resource (record e { expires_at = 0 }) s).1
unfolding release ◌>>=◌ set_end put_execution
release_put l e s found mine = rw found (rw mine refl)

-- A message whose work is not committed is not lost when its consumer gives the lease back: the row
-- is workable, the lease that is release_put is the one in the table, and the next `claim_execution`, of
-- any owner at any time, gets a lease of the same resource and message with the next epoch.
pub release-claim_execution :
    (resource_key : ℕ → ℕ → ℕ) (p : Delivery) (id owner now : ℕ) (m : Message) (s : Outbox)
    (l : ConsumerLease) (e : Execution)
    → lookup id s.messages ≡ some m
    → is_workable p now id m s ≡ true
    → l.resource ≡ resource_key m.topic m.aggregate_key
    → lookup l.resource s.executions ≡ some e
    → is_mine l e ≡ true
    → (claim_execution resource_key p id owner now (release l s).1).0
      ≡ ok (some (lease_of l.resource id owner (l.epoch + 1), m))
unfolding put_execution ◌>>=◌ is_workable next_epoch is_mine is_dead
release-claim_execution resource_key p id owner now m s l e found workable at_key row mine =
    let epochs : e.epoch ≡ l.epoch = ground arith in
    let over : leb 0 now ≡ true = ground arith in
    rw (release_put l e s row mine) (
      claim_execution-free resource_key p id owner now m
        (put_execution l.resource (record e { expires_at = 0 }) s).1 found workable (l.epoch + 1)
        (rw (sym at_key) (
          rw (lookup-insert_self l.resource (record e { expires_at = 0 }) s.executions)
            (rw over (ap (λ (n : ℕ). some (n + 1)) epochs))))
      ∙ ap (λ (k : ℕ). ok (some (lease_of k id owner (l.epoch + 1), m))) (sym at_key))

-- While a lease of the resource runs, a second `claim_execution` for the message gets nothing and
-- leaves the tables as they are; once the lease is over by the clock, it gets the lease with the next
-- epoch.
pub claim_execution_by_clock :
    (resource_key : ℕ → ℕ → ℕ) (p : Delivery) (id owner now : ℕ) (m : Message) (s : Outbox)
    (e : Execution)
    → lookup id s.messages ≡ some m
    → is_workable p now id m s ≡ true
    → lookup (resource_key m.topic m.aggregate_key) s.executions ≡ some e
    → (now < e.expires_at → claim_execution resource_key p id owner now s ≡ (ok none, s))
      × (e.expires_at ≤ now
          → (claim_execution resource_key p id owner now s).0
            ≡ ok (some (lease_of (resource_key m.topic m.aggregate_key) id owner (e.epoch + 1), m)))
unfolding next_epoch
claim_execution_by_clock resource_key p id owner now m s e found workable row = (
  claim_execution-held resource_key p id owner now m s found workable e row,
  (λ over.
      let past : leb e.expires_at now ≡ true = ground arith in
      claim_execution-free resource_key p id owner now m s found workable (e.epoch + 1)
        (rw row (rw past refl))),
)
