-- ===== src/Delivery/Tests.antt =====
-- One message on its way through the outbox, and the theorems about deliveries at that message.
use investment_backend.Base.{
  ℕ, ◌≡◌, ◌≢◌, refl, true, false, none, some, [], ◌∷◌, lookup, ◌⊎◌, leb, arith,
}
use investment_backend.Base.Exec.{ok, err, transaction, ◌>>=◌}
use investment_backend.Delivery.Outbox.{
  make_delivery, invalid_parameters, Message, Outbox, Delivery, DeadLetter, pending, lease_lost,
  reused_key, ownership_lost, publisher_error, is_dead, is_due, leased, claim_delivery,
  finish_delivery, holds_lease, replay, is_exhausted, reconcile,
}
use investment_backend.Delivery.Repository.{
  OutboxEvent, enqueue_event, claim_batch, mark_published, mark_failed,
}
use investment_backend.Delivery.Intents.{SameIntent, enqueue_once}
use investment_backend.Delivery.Leases.{claim_exclusive}
use investment_backend.Delivery.Burial.{left_behind, reconcile_buries}
use investment_backend.Delivery.Endings.{finish_once, StartsOver, replay_revives}

abbrev policy : Delivery
policy = record { topics = (1, some 9) ∷ []; lease_seconds = 60; max_attempts = 3 }

allowed : make_delivery ((1, some 9) ∷ []) 60 3 ≡ ok policy
unfolding make_delivery
allowed = refl

no_attempts : make_delivery ((1, some 9) ∷ []) 60 0 ≡ err invalid_parameters
unfolding make_delivery
no_attempts = refl

abbrev fresh : Message
fresh = record {
  topic = 1;
  aggregate_key = 3;
  deduplication_key = 70;
  payload = 71;
  headers = 72;
  not_before = some 5;
  status = pending;
  available_at = 0;
  published_at = none;
  lease_owner = none;
  lease_expires_at = none;
  attempt_count = 2;
  last_error = none;
}

abbrev box : Message → Outbox
box m = record { messages = (7, m) ∷ []; dead_letters = []; inbox = []; executions = [] }

abbrev claimed : Message
claimed = leased policy 80 100 fresh

claimed_first : claim_delivery policy 80 100 (box fresh) ≡ (ok (some (7, claimed)), box claimed)
unfolding claim_delivery ◌>>=◌
claimed_first = refl

too_early : (claim_delivery policy 80 4 (box fresh)).0 ≡ ok none
unfolding claim_delivery ◌>>=◌
too_early = refl

-- The lease has run out and the attempts are used up.
buried : is_dead 7 (reconcile policy 161 (box claimed)).1 ≡ true
unfolding reconcile leased is_dead transaction ◌>>=◌
buried = refl

claim_exclusive_example : (claim_delivery policy 81 159 (box claimed)).0 ≢ ok (some (7, fresh))
claim_exclusive_example =
    claim_exclusive policy 80 100 81 159 (box fresh) (box claimed) 7 claimed (refl, tt)
      claimed_first (omega arith) fresh

still_held : holds_lease 120 claimed claimed ≡ true
unfolding holds_lease leased
still_held = refl

finish_once_example :
    ((finish_delivery policy 7 claimed none 120 (box claimed)).0 ≡ ok tt)
    × (finish_delivery policy 7 claimed
          (some 4)
          130
          (finish_delivery policy 7 claimed none 120 (box claimed)).1
        ≡ (err lease_lost, (finish_delivery policy 7 claimed none 120 (box claimed)).1))
finish_once_example =
    finish_once policy 7 120 130 claimed claimed none (some 4) (box claimed) refl still_held

abbrev letter : DeadLetter
letter = record { error_code = publisher_error 4; replayed = false }

abbrev dead_box : Outbox
dead_box = record (box fresh) { dead_letters = (7, letter) ∷ [] }

replay_revives_example :
    (is_dead 7 (replay policy 7 dead_box).1 ≡ false)
    × ((new : Message) × (lookup 7 (replay policy 7 dead_box).1.messages ≡ some new)
        × StartsOver fresh new
        × (is_exhausted policy 100 new ≡ false)
        × (is_due policy 100 new ≡ leb 5 100))
replay_revives_example =
    replay_revives policy 7 100 fresh letter dead_box refl refl refl refl (omega arith)

reconcile_buries_example :
    ((n : ℕ) × ((reconcile policy 161 (box claimed)).0 ≡ ok n))
    × (is_dead 7 (reconcile policy 161 (box claimed)).1 ≡ true)
unfolding leased
reconcile_buries_example =
    reconcile_buries policy 161 7 claimed (box claimed) refl refl (omega arith)
      (left_behind 160 refl refl (omega arith))

abbrev event : OutboxEvent
event = record {
  topic = 1;
  aggregate_key = 3;
  deduplication_key = 90;
  payload = 91;
  headers = 92;
  not_before = none;
}

abbrev after_event : Outbox
after_event = (enqueue_event 8 event (box fresh)).1

first_time : enqueue_event 8 event (box fresh) ≡ (ok 8, after_event)
unfolding enqueue_event ◌>>=◌
first_time = refl

batch : (claim_batch 80 1 60 100 (box fresh)).0 ≡ ok ((7, claimed) ∷ [])
unfolding claim_batch leased ◌>>=◌
batch = refl

publishes : (mark_published 7 80 110 (box claimed)).0 ≡ ok tt
unfolding mark_published leased ◌>>=◌
publishes = refl

fails_late : (mark_failed 7 80 5 30 160 (box claimed)).0 ≡ err ownership_lost
unfolding mark_failed leased ◌>>=◌
fails_late = refl

-- The same key with the same intent, and with another payload
repeated : enqueue_event 9 event after_event ≡ (ok 8, after_event)
unfolding enqueue_event ◌>>=◌
repeated = refl

refused :
    enqueue_event 9 (record event { payload = 99 }) after_event ≡ (err reused_key, after_event)
unfolding enqueue_event ◌>>=◌
refused = refl

enqueue_once_example :
    (SameIntent event (record event { payload = 99 })
      × (enqueue_event 9 (record event { payload = 99 }) after_event ≡ (ok 8, after_event)))
    ⊎ ((¬ SameIntent event (record event { payload = 99 }))
        × (enqueue_event 9 (record event { payload = 99 }) after_event
            ≡ (err reused_key, after_event)))
enqueue_once_example =
    enqueue_once 8 8 9 event (record event { payload = 99 }) (box fresh) after_event refl first_time
      refl
