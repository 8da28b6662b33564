-- ===== src/Runners/Tests.antt =====
-- Two runners and one command, and the theorems about them.
use investment_backend.Base.{◌≡◌, refl, none, some, [], ◌∷◌, lookup, arith}
use investment_backend.Runners.Queue.{
  Lease, QueuedCommand, Queue, pending, claimed, acquire_leases, claim_commands,
  requeue_stale_commands,
}
use investment_backend.Runners.Claims.{
  claims, requeues, finishes, apply_all, StaysTaken, claimed_once, AvoidsSandbox, one_runner,
}

abbrev fresh : QueuedCommand
fresh = record {
  sandbox_id = 4;
  status = pending;
  claimed_by = none;
  claimed_at = none;
  error = none;
}

abbrev working : QueuedCommand
working = record fresh { status = claimed; claimed_by = some 1; claimed_at = some 100 }

abbrev lease : Lease
lease = record { runner = 1; expires_at = 30000100; acquired_at = 100 }

abbrev start : Queue
start = record { leases = []; commands = (7, fresh) ∷ [] }

abbrev with_lease : Queue
with_lease = record start { leases = (4, lease) ∷ [] }

abbrev busy : Queue
busy = record with_lease { commands = (7, working) ∷ [] }

acquires_it : acquire_leases 1 30 100 start ≡ (4 ∷ [], with_lease)
unfolding acquire_leases
acquires_it = refl

claims_it : claim_commands 1 20 100 with_lease ≡ ((7, working) ∷ [], busy)
unfolding claim_commands
claims_it = refl

-- Five minutes later the command goes back into the queue, although the runner may be at it still.
goes_back : (requeue_stale_commands 300 300000101 busy).1.commands ≡ (7, fresh) ∷ []
unfolding requeue_stale_commands
goes_back = refl

claimed_once_example :
    StaysTaken 7
      (some 1)
      100
      (apply_all (claims 2 20 200 ∷ requeues 300 1000 ∷ finishes 7 none ∷ []) busy).commands
claimed_once_example =
    claimed_once (claims 2 20 200 ∷ requeues 300 1000 ∷ finishes 7 none ∷ []) 7 (some 1) 100 busy
      (working, refl, record { not_pending = refl; taker = refl; since = refl }) (omega arith, tt)

one_runner_example :
    (lookup 4 (acquire_leases 2 30 200 with_lease).1.leases ≡ some lease)
    × AvoidsSandbox 4 (claim_commands 2 20 300 (acquire_leases 2 30 200 with_lease).1).0
one_runner_example = one_runner 2 30 200 300 20 4 lease with_lease refl refl (omega arith)
