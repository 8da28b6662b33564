-- ===== src/Delivery/Outbox.antt =====
-- The class `DurableDelivery` of app/app/infrastructure/messaging/durable_delivery.py and the tables
-- it works on.
use investment_backend.Base.{
  ℕ, ◌+◌, ◌^◌, Bool, true, false, not, ◌&&◌, ◌||◌, Option, none, some, List, [], ◌∷◌, Dict, lookup,
  insert, min, ltb, leb, ◌==◌, if◌then◌else◌, is_some, opt_eq, any,
}
use investment_backend.Base.Exec.{
  Exec, Result, ok, err, pure, raise_if, gets, modify, when, maybe, or_raise, ◌>>=◌, ◌>>◌,
  transaction,
}

pub data Status : Type 0 where
  pending : Status
  delivering : Status
  published : Status

abbrev pub is_pending : Status → Bool
is_pending pending = true
is_pending _ = false

abbrev pub is_delivering : Status → Bool
is_delivering delivering = true
is_delivering _ = false

abbrev pub is_published : Status → Bool
is_published published = true
is_published _ = false

-- A row of `outbox_message`; `not_before` is the header of that name, and payload and headers are
-- known by numbers.
pub record Message : Type 0 where
  pub topic : ℕ
  pub aggregate_key : ℕ
  pub deduplication_key : ℕ
  pub payload : ℕ
  pub headers : ℕ
  pub not_before : Option ℕ
  pub status : Status
  pub available_at : ℕ
  pub published_at : Option ℕ
  pub lease_owner : Option ℕ
  pub lease_expires_at : Option ℕ
  pub attempt_count : ℕ
  pub last_error : Option ℕ

-- `error_code` of a dead letter: an error of the publisher, or one of the two that `reconcile` writes
pub data ErrorCode : Type 0 where
  publisher_error : ℕ → ErrorCode
  delivery_attempts_exhausted : ErrorCode
  consumer_unacknowledged : ErrorCode

-- A row of `outbox_dead_letter`; `replayed` says that `replayed_at` is set.
pub record DeadLetter : Type 0 where
  pub error_code : ErrorCode
  pub replayed : Bool

-- A row of `outbox_execution`: the lease of a consumer.
pub record Execution : Type 0 where
  pub message_id : ℕ
  pub owner : ℕ
  pub epoch : ℕ
  pub expires_at : ℕ

-- The pair of a consumer and a message stands in the list.
abbrev pub marked : ℕ → ℕ → List (ℕ × ℕ) → Bool
marked consumer id [] = false
marked consumer id ((c, m) ∷ rest) = (c == consumer && m == id) || marked consumer id rest

-- Messages stand in the order of `created_at, id`. The inbox has pairs of a consumer and a message,
-- `executions` a lease for each resource.
pub record Outbox : Type 0 where
  pub messages : Dict Message
  pub dead_letters : Dict DeadLetter
  pub inbox : List (ℕ × ℕ)
  pub executions : Dict Execution

-- What the class is made with; a topic has the consumer that acknowledges it, if one does.
pub record Delivery : Type 0 where
  pub topics : List (ℕ × Option ℕ)
  pub lease_seconds : ℕ
  pub max_attempts : ℕ

pub data DeliveryFault : Type 0 where
  lease_lost : DeliveryFault
  outside_policy : DeliveryFault
  not_dead : DeliveryFault
  reused_key : DeliveryFault
  ownership_lost : DeliveryFault
  invalid_parameters : DeliveryFault

-- `__init__`: the lease is of 1 to 3600 seconds, and 1 to 100 attempts are allowed.
unfoldable pub make_delivery : List (ℕ × Option ℕ) → ℕ → ℕ → Result DeliveryFault Delivery
make_delivery topics lease_seconds max_attempts =
    if not (leb 1 lease_seconds && leb lease_seconds 3600)
      || not (leb 1 max_attempts && leb max_attempts 100)
    then err invalid_parameters
    else ok (record { topics = topics; lease_seconds = lease_seconds; max_attempts = max_attempts })

abbrev pub Action : Type 0 → Type 0
Action A = Exec Outbox DeliveryFault A

abbrev pub has_topic : Delivery → Message → Bool
has_topic p m = any (λ t. t.0 == m.topic) p.topics

-- `m.status='delivering' AND m.lease_expires_at<=clock_timestamp()`
abbrev pub lease_over : ℕ → Message → Bool
lease_over now m =
    is_delivering m.status && elim m.lease_expires_at [ none ↦ false | some end ↦ leb end now ]

-- `NOT EXISTS(SELECT 1 FROM outbox_dead_letter … replayed_at IS NULL)`, negated
unfoldable pub is_dead : ℕ → Outbox → Bool
is_dead id s = elim (lookup id s.dead_letters) [ none ↦ false | some d ↦ not d.replayed ]

-- The condition of the candidate in `claim_delivery`
unfoldable pub is_due : Delivery → ℕ → Message → Bool
is_due p now m =
    has_topic p m
    && leb m.available_at now
    && elim m.not_before [ none ↦ true | some t ↦ leb t now ]
    && (is_pending m.status || lease_over now m)

unfoldable pub first_due : Delivery → ℕ → Outbox → Dict Message → Option (ℕ × Message)
unfolding is_due is_dead
first_due p now s [] = none
first_due p now s ((id, m) ∷ rest) =
    let later = first_due p now s rest in
    if is_due p now m && not (is_dead id s) then some (id, m) else later

abbrev pub put_message : ℕ → Message → Action Unit
put_message id m = modify (λ s. record s { messages = insert id m s.messages })

-- The row that `claim_delivery` returns
unfoldable pub leased : Delivery → ℕ → ℕ → Message → Message
leased p owner now m = record m {
  status = delivering;
  lease_owner = some owner;
  lease_expires_at = some (now + p.lease_seconds);
  attempt_count = m.attempt_count + 1;
}

-- `claim_delivery`; with no topics no message is due.
unfoldable pub claim_delivery : Delivery → ℕ → ℕ → Action (Option (ℕ × Message))
unfolding first_due leased
claim_delivery p owner now = do
  candidate ← gets (λ s. first_due p now s s.messages)
  maybe candidate (pure none) (λ row. do
    put_message row.0 (leased p owner now row.1)
    pure (some (row.0, leased p owner now row.1)))

-- `_dead_letter`
unfoldable pub dead_letter : ℕ → ErrorCode → Action Unit
dead_letter id code = modify (λ s. record s {
  dead_letters = insert id (record { error_code = code; replayed = false }) s.dead_letters;
})

-- The caller of `finish_delivery` still holds the lease of the row.
unfoldable pub holds_lease : ℕ → Message → Message → Bool
holds_lease now claimed m =
    is_some claimed.lease_owner
    && opt_eq m.lease_owner claimed.lease_owner
    && is_delivering m.status
    && elim m.lease_expires_at [ none ↦ false | some end ↦ ltb now end ]

-- The row after `finish_delivery`
unfoldable pub finished : ℕ → Message → Option ℕ → Message → Message
finished now claimed error m = record m {
  status = if is_some error then pending else published;
  published_at = if is_some error then m.published_at else some now;
  lease_owner = none;
  lease_expires_at = none;
  last_error = error;
  available_at = now + min 300 (2 ^ min claimed.attempt_count 8);
}

-- `finish_delivery`: the first row is the one that `claim_delivery` returned.
unfoldable pub finish_delivery : Delivery → ℕ → Message → Option ℕ → ℕ → Action Unit
unfolding holds_lease finished dead_letter
finish_delivery p id claimed error now = transaction (do
  row ← or_raise (← gets (λ s. lookup id s.messages)) lease_lost
  raise_if (not (holds_lease now claimed row)) lease_lost
  put_message id (finished now claimed error row)
  maybe error (pure tt)
      (λ e. when (leb p.max_attempts claimed.attempt_count) (dead_letter id (publisher_error e))))

-- The rows that `reconcile` buries, where no other transaction has one locked (`SKIP LOCKED`): their attempts are used up and nobody works on them.
unfoldable pub is_exhausted : Delivery → ℕ → Message → Bool
is_exhausted p now m =
    has_topic p m && leb p.max_attempts m.attempt_count && (is_pending m.status || lease_over now m)

-- The first loop of `reconcile`, over the rows as they stood before it
unfoldable pub bury_exhausted : Delivery → ℕ → Dict Message → Action Unit
unfolding is_exhausted is_dead dead_letter
bury_exhausted p now [] = pure tt
bury_exhausted p now ((id, m) ∷ rest) = do
  dead ← gets (λ s. is_dead id s)
  when (is_exhausted p now m && not dead) (dead_letter id delivery_attempts_exhausted)
  bury_exhausted p now rest

-- A published row that its consumer has not acknowledged in time, and does not work on
unfoldable pub is_unacknowledged : Delivery → ℕ → ℕ → ℕ → ℕ → Message → Outbox → Bool
unfolding is_dead
is_unacknowledged p topic consumer now id m s =
    m.topic == topic
    && is_published m.status
    && elim m.published_at [ none ↦ false | some at ↦ ltb (at + p.lease_seconds) now ]
    && not (marked consumer id s.inbox)
    && not (any (λ l. l.1.message_id == id && ltb now l.1.expires_at) s.executions)
    && not (is_dead id s)

-- The inner loop of `reconcile`: one topic; the number of rows that go out again
unfoldable pub recover_topic : Delivery → ℕ → ℕ → ℕ → Dict Message → Action ℕ
unfolding is_unacknowledged dead_letter
recover_topic p topic consumer now [] = pure 0
recover_topic p topic consumer now ((id, m) ∷ rest) = do
  late ← gets (λ s. is_unacknowledged p topic consumer now id m s)
  let spent = leb p.max_attempts m.attempt_count
  when (late && spent) (dead_letter id consumer_unacknowledged)
  when (late && not spent) (put_message id (record m { status = pending; available_at = 0 }))
  count ← recover_topic p topic consumer now rest
  pure (if late && not spent then count + 1 else count)

unfoldable pub recover_topics : Delivery → ℕ → List (ℕ × Option ℕ) → Action ℕ
unfolding recover_topic
recover_topics p now [] = pure 0
recover_topics p now ((topic, none) ∷ rest) = recover_topics p now rest
recover_topics p now ((topic, some consumer) ∷ rest) = do
  rows ← gets (λ s. s.messages)
  count ← recover_topic p topic consumer now rows
  more ← recover_topics p now rest
  pure (count + more)

-- `reconcile`
unfoldable pub reconcile : Delivery → ℕ → Action ℕ
unfolding bury_exhausted recover_topics
reconcile p now =
    transaction
      (do rows ← gets (λ s. s.messages); bury_exhausted p now rows; recover_topics p now p.topics)

-- The row after `replay`
unfoldable pub revived : Message → Message
revived m = record m {
  status = pending;
  attempt_count = 0;
  available_at = 0;
  last_error = none;
  lease_owner = none;
  lease_expires_at = none;
}

-- `replay`
unfoldable pub replay : Delivery → ℕ → Action Unit
unfolding is_dead revived
replay p id = transaction (do
  row ← or_raise (← gets (λ s. lookup id s.messages)) outside_policy
  raise_if (not (has_topic p row)) outside_policy
  letter ← or_raise (← gets (λ s. lookup id s.dead_letters)) not_dead
  raise_if letter.replayed not_dead
  modify (λ s. record s {
    dead_letters = insert id (record letter { replayed = true }) s.dead_letters;
  })
  put_message id (revived row))
