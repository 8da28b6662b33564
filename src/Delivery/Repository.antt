-- ===== src/Delivery/Repository.antt =====
-- The class `SqlOutboxRepository` of app/app/infrastructure/repositories/outbox.py, but for
-- `claim_inbox_once`, which is in Consumers. The validation of texts (the lengths, the pattern of a
-- topic) is left out.
use investment_backend.Base.{
  ℕ, zero, suc, ◌+◌, Bool, true, false, not, ◌&&◌, ◌||◌, Option, none, some, [], ◌∷◌, Dict, lookup,
  find_first, ltb, leb, ◌==◌, if◌then◌else◌, opt_eq,
}
use investment_backend.Base.Exec.{pure, raise, raise_if, gets, modify, maybe, or_raise, ◌>>=◌, ◌>>◌}
use investment_backend.Delivery.Outbox.{
  Message, Action, pending, delivering, published, is_pending, is_delivering, put_message,
  reused_key, ownership_lost, invalid_parameters,
}

-- `OutboxEvent`; `headers` are its `transport_headers()`.
pub record OutboxEvent : Type 0 where
  pub topic : ℕ
  pub aggregate_key : ℕ
  pub deduplication_key : ℕ
  pub payload : ℕ
  pub headers : ℕ
  pub not_before : Option ℕ

-- The row that `enqueue` inserts; -infinity is 0.
unfoldable pub row_of_event : OutboxEvent → Message
row_of_event e = record {
  topic = e.topic;
  aggregate_key = e.aggregate_key;
  deduplication_key = e.deduplication_key;
  payload = e.payload;
  headers = e.headers;
  not_before = e.not_before;
  status = pending;
  available_at = elim e.not_before [ none ↦ 0 | some at ↦ at ];
  published_at = none;
  lease_owner = none;
  lease_expires_at = none;
  attempt_count = 0;
  last_error = none;
}

abbrev pub has_key : ℕ → Message → Bool
has_key key m = m.deduplication_key == key

-- The condition of the `ON CONFLICT … DO UPDATE`
unfoldable pub same_intent : OutboxEvent → Message → Bool
same_intent e m =
    m.topic == e.topic
    && m.aggregate_key == e.aggregate_key
    && m.payload == e.payload
    && m.headers == e.headers

-- `enqueue`, with the id that it draws
unfoldable pub enqueue_event : ℕ → OutboxEvent → Action ℕ
unfolding row_of_event same_intent
enqueue_event id e = do
  known ← gets (λ s. find_first (has_key e.deduplication_key) s.messages)
  maybe known (do put_message id (row_of_event e); pure id)
      (λ row. if same_intent e row.1 then pure row.0 else raise reused_key)

-- The condition of the candidates of `claim_batch`
unfoldable pub is_candidate : ℕ → Message → Bool
is_candidate now m =
    leb m.available_at now
    && elim m.not_before [ none ↦ true | some t ↦ leb t now ]
    && (is_pending m.status
        || (is_delivering m.status
            && elim m.lease_expires_at [ none ↦ false | some end ↦ ltb end now ]))

abbrev pub batched : ℕ → ℕ → ℕ → Message → Message
batched owner lease_seconds now m = record m {
  status = delivering;
  lease_owner = some owner;
  lease_expires_at = some (now + lease_seconds);
  attempt_count = m.attempt_count + 1;
}

-- The rows that `claim_batch` returns, and the table after it
unfoldable pub claim_candidates : ℕ → ℕ → ℕ → ℕ → Dict Message → Dict Message × Dict Message
unfolding is_candidate
claim_candidates owner lease_seconds now limit [] = ([], [])
claim_candidates owner lease_seconds now zero ((id, m) ∷ rest) = ([], (id, m) ∷ rest)
claim_candidates owner lease_seconds now (suc limit) ((id, m) ∷ rest) =
    let after_it = claim_candidates owner lease_seconds now limit rest in
    let without_it = claim_candidates owner lease_seconds now (suc limit) rest in
    if is_candidate now m
    then (
      (id, batched owner lease_seconds now m) ∷ after_it.0,
      (id, batched owner lease_seconds now m) ∷ after_it.1,
    )
    else (without_it.0, (id, m) ∷ without_it.1)

-- `claim_batch`
unfoldable pub claim_batch : ℕ → ℕ → ℕ → ℕ → Action (Dict Message)
unfolding claim_candidates
claim_batch owner limit lease_seconds now = do
  raise_if (not (leb 1 limit && leb limit 1000)) invalid_parameters
  raise_if (not (leb 1 lease_seconds && leb lease_seconds 3600)) invalid_parameters
  rows ← gets (λ s. claim_candidates owner lease_seconds now limit s.messages)
  modify (λ s. record s { messages = rows.1 })
  pure rows.0

-- The condition of `mark_published` and of `mark_failed`
unfoldable pub owns_delivery : ℕ → ℕ → Message → Bool
owns_delivery owner now m =
    is_delivering m.status
    && opt_eq m.lease_owner (some owner)
    && elim m.lease_expires_at [ none ↦ false | some end ↦ ltb now end ]

-- `mark_published`
unfoldable pub mark_published : ℕ → ℕ → ℕ → Action Unit
unfolding owns_delivery
mark_published id owner now = do
  row ← or_raise (← gets (λ s. lookup id s.messages)) ownership_lost
  raise_if (not (owns_delivery owner now row)) ownership_lost
  put_message id (record row {
    status = published;
    published_at = some now;
    lease_owner = none;
    lease_expires_at = none;
    last_error = none;
  })

-- `mark_failed`
unfoldable pub mark_failed : ℕ → ℕ → ℕ → ℕ → ℕ → Action Unit
unfolding owns_delivery
mark_failed id owner error_code retry_seconds now = do
  raise_if (not (leb 1 retry_seconds && leb retry_seconds 86400)) invalid_parameters
  row ← or_raise (← gets (λ s. lookup id s.messages)) ownership_lost
  raise_if (not (owns_delivery owner now row)) ownership_lost
  put_message id (record row {
    status = pending;
    available_at = now + retry_seconds;
    lease_owner = none;
    lease_expires_at = none;
    last_error = some error_code;
  })
