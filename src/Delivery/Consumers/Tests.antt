-- ===== src/Delivery/Consumers/Tests.antt =====
-- One message on its way through a consumer, and the theorems about consumers at that message.
use investment_backend.Base.{ℕ, ◌+◌, ◌*◌, ◌≡◌, refl, true, none, some, [], ◌∷◌}
use investment_backend.Base.Exec.{ok, err, transaction, ◌>>=◌}
use investment_backend.Delivery.Outbox.{
  Message, Execution, Outbox, Delivery, published, lease_lost, is_dead, marked, claim_delivery,
  finish_delivery, reconcile, replay,
}
use investment_backend.Delivery.Consumers.{
  ConsumerLease, is_workable, find_execution, next_epoch, lease_of, take_execution, claim_execution,
  is_mine, is_current, release, claim_inbox_once, commit_work,
}
use investment_backend.Delivery.Consumers.System.{
  World, Reach, idle, looked, working, leaving, update, look, take, commit, here, next,
}
use investment_backend.Delivery.Consumers.Invariant.{NoRepeat}
use investment_backend.Delivery.Consumers.Refinement.{Initially, once_and_acknowledged, one_holder}
use investment_backend.Delivery.Consumers.Retry.{release-claim_execution}
use investment_backend.Delivery.Consumers.Publisher.{Fits, publisher-Fits}

abbrev policy : Delivery
policy = record { topics = (1, some 9) ∷ []; lease_seconds = 60; max_attempts = 3 }

abbrev number : ℕ → ℕ → ℕ
number topic key = topic * 1000 + key

abbrev sent : Message
sent = record {
  topic = 1;
  aggregate_key = 3;
  deduplication_key = 70;
  payload = 71;
  headers = 72;
  not_before = some 5;
  status = published;
  available_at = 0;
  published_at = some 90;
  lease_owner = none;
  lease_expires_at = none;
  attempt_count = 1;
  last_error = none;
}

abbrev box : Outbox
box = record { messages = (7, sent) ∷ []; dead_letters = []; inbox = []; executions = [] }

-- Owner 50 has the lease until 160.
abbrev row : Execution
row = record { message_id = 7; owner = 50; epoch = 1; expires_at = 160 }

abbrev lease : ConsumerLease
lease = lease_of 1003 7 50 1

abbrev held : Outbox
held = record box { executions = (1003, row) ∷ [] }

abbrev done : Outbox
done = record held { inbox = (1, 7) ∷ [] }

claims : claim_execution number policy 7 50 100 box ≡ (ok (some (lease, sent)), held)
unfolding claim_execution take_execution is_workable next_epoch transaction is_dead ◌>>=◌
claims = refl

commits : commit_work lease sent 120 held ≡ (ok tt, done)
unfolding commit_work is_current claim_inbox_once transaction ◌>>=◌
commits = refl

-- The lease has run out: nothing is written, the mark of the inbox included.
commits_late : commit_work lease sent 160 held ≡ (err lease_lost, held)
unfolding commit_work is_current claim_inbox_once transaction ◌>>=◌
commits_late = refl

-- An acknowledged message is not taken again.
not_again : claim_execution number policy 7 51 500 done ≡ (ok none, done)
unfolding claim_execution is_workable next_epoch transaction is_dead ◌>>=◌
not_again = refl

abbrev start : World
start = record { box = box; clock = 100; effects = []; worker = λ i. idle }

abbrev at_look : World
at_look = record start { worker = update start.worker 0 (looked 7 sent) }

abbrev at_work : World
at_work = record at_look { box = held; worker = update at_look.worker 0 (working lease sent) }

abbrev at_end : World
at_end = record at_work {
  box = done;
  effects = (1, 7) ∷ [];
  worker = update at_work.worker 0 (leaving lease);
}

start-Initially : Initially start
start-Initially = record { nobody = λ i. refl; nothing = refl }

start-Reach-work : Reach number policy start at_work
unfolding find_execution take_execution is_workable next_epoch transaction is_dead ◌>>=◌
start-Reach-work = next (next here (look 0 7 sent refl)) (take 0 7 50 sent lease refl refl)

start-Reach-end : Reach number policy start at_end
unfolding commit_work is_current claim_inbox_once transaction ◌>>=◌
start-Reach-end = next start-Reach-work (commit 0 lease sent refl refl)

once_and_acknowledged_example :
    NoRepeat ((1, 7) ∷ [])
    × ((c id : ℕ) → marked c id ((1, 7) ∷ []) ≡ true → marked c id done.inbox ≡ true)
once_and_acknowledged_example =
    once_and_acknowledged number policy start at_end start-Initially start-Reach-end

current_now : is_current 100 lease (some row) ≡ true
unfolding is_current
current_now = refl

one_holder_example : Path ℕ 0 0
one_holder_example =
    one_holder number policy start at_work 0 0 lease lease sent sent start-Initially
      start-Reach-work refl refl refl current_now current_now

workable : is_workable policy 200 7 sent held ≡ true
unfolding is_workable is_dead
workable = refl

mine : is_mine lease row ≡ true
unfolding is_mine
mine = refl

release-claim_execution_example :
    (claim_execution number policy 7 51 200 (release lease held).1).0
    ≡ ok (some (lease_of 1003 7 51 2, sent))
release-claim_execution_example =
    release-claim_execution number policy 7 51 200 sent held lease row refl workable refl refl mine

publisher-Fits_example :
    Fits held (claim_delivery policy 80 200 held).1
    × Fits held (finish_delivery policy 7 sent none 200 held).1
    × Fits held (reconcile policy 200 held).1
    × Fits held (replay policy 7 held).1
publisher-Fits_example = publisher-Fits policy 80 200 7 sent none held (refl, tt)
