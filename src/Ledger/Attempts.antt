-- ===== src/Ledger/Attempts.antt =====
-- `open_attempt`, `attempt_transition` and `_enter_waiting_resource`: the attempts of a task and the
-- money that is set aside for them (app/app/application/workbench/ledger.py).
use investment_backend.Base.{
  ℕ, ◌+◌, Bool, false, not, ◌&&◌, Option, none, some, List, [], ◌∷◌, ◌++◌, if◌then◌else◌, is_some,
}
use investment_backend.Base.Int.{ℤ, pos, ◌+ℤ◌, ◌-ℤ◌, ltb_ℤ, is_zero_ℤ, min_ℤ, max_ℤ}
use investment_backend.Base.Exec.{pure, raise_if, when, ◌>>=◌, ◌>>◌, transaction}
use investment_backend.States.{
  queued, running, waiting, WaitingReason, AttemptState, AttemptRole, same_task_state,
  same_attempt_state, is_attempt_terminal, check_task_transition, check_attempt_transition,
}
use investment_backend.Store.{
  Budget, available, is_invalid_budget, validation_error, Task, Attempt, resource, pending,
  task_state, attempt_opened, attempt_state, interaction_opened, EntryKind, stale_state_version,
  budget_exhausted, Action, get_task, get_attempt, cas_task, append_event, insert_attempt,
  update_attempt, insert_interaction, ledger_append, check,
}

-- `INTERACTION_TTL`, in seconds
abbrev pub interaction_ttl : ℕ
interaction_ttl = 259200

-- `reserve > budget.available`
unfoldable pub exceeds : ℤ → Budget → Bool
unfolding available
exceeds reserve b = elim (available b) [ none ↦ false | some rest ↦ ltb_ℤ rest reserve ]

-- `budget.reserved += reserve`
unfoldable pub with_reserve : ℤ → Budget → Budget
with_reserve reserve b = record b { reserved = b.reserved +ℤ reserve }

-- The row that `open_attempt` inserts.
unfoldable pub new_attempt : ℕ → Task → Option ℕ → AttemptRole → ℤ → Attempt
new_attempt task_id task step_id role reserve = record {
  task_id = task_id;
  session_id = task.session_id;
  role = role;
  step_id = step_id;
  status = AttemptState.created;
  turn_ids = [];
  budget_allocated = reserve;
  budget_consumed = pos 0;
  started_at = none;
  ended_at = none;
  failure_code = none;
  retryable = none;
  output_artifacts = [];
}

-- The columns of the task that `open_attempt` writes; `start` says that the task was QUEUED.
unfoldable pub opened : ℕ → ℤ → Bool → Task → Task
unfolding with_reserve
opened attempt_id reserve start t =
    let t' = record t {
      active_attempt_id = some attempt_id;
      budget = with_reserve reserve t.budget;
    } in
    if start then record t' { state = running; waiting_reason = none } else t'

-- `open_attempt`
unfoldable pub open_attempt : ℕ → Option ℕ → AttemptRole → ℤ → ℕ → Action ℕ
unfolding exceeds new_attempt opened
open_attempt task_id step_id role reserve attempt_id = transaction (do
  task ← get_task task_id none
  raise_if (is_some task.active_attempt_id) stale_state_version
  raise_if (is_invalid_budget task.budget) validation_error
  raise_if (exceeds reserve task.budget) budget_exhausted
  insert_attempt attempt_id (new_attempt task_id task step_id role reserve)
  let start = same_task_state task.state queued
  when start (check (check_task_transition task.state running none))
  cas_task task_id task.state_version (opened attempt_id reserve start)
  when (not (is_zero_ℤ reserve)) (
      ledger_append (record {
        task_id = task_id;
        attempt_id = some attempt_id;
        entry = EntryKind.reserve;
        amount = reserve;
        actor_id = none;
      }))
  append_event task.session_id (attempt_opened task_id attempt_id step_id role)
  when start
      (do append_event task.session_id (task_state task_id task.state running none none); pure tt)
  pure attempt_id)

-- What the caller of `attempt_transition` reports.
pub record Report : Type 0 where
  pub consumed : ℤ
  pub failure_code : Option ℕ
  pub retryable : Option Bool
  pub turn_id : Option ℕ
  pub output_artifacts : Option (List ℕ)

-- `budget` after what was consumed is booked; `allocated` is what was set aside for the attempt.
unfoldable pub after_consume : ℤ → ℤ → Budget → Budget
after_consume allocated consumed b = if is_zero_ℤ consumed then b else record b {
  used = b.used +ℤ consumed;
  reserved = max_ℤ (pos 0) (b.reserved -ℤ min_ℤ consumed allocated);
}

-- What a final state gives back of the sum that was set aside: zero stands for nothing.
unfoldable pub released : ℤ → ℤ → Budget → ℤ
released allocated consumed b =
    if ltb_ℤ (pos 0) (allocated -ℤ consumed) && ltb_ℤ (pos 0) b.reserved
    then min_ℤ (allocated -ℤ consumed) b.reserved
    else pos 0

-- `budget` at the end of `attempt_transition`
unfoldable pub settled : Bool → ℤ → ℤ → Budget → Budget
unfolding after_consume released
settled final allocated consumed b =
    let b' = after_consume allocated consumed b in
    if final then record b' { reserved = b'.reserved -ℤ released allocated consumed b' } else b'

-- The columns of the attempt that `attempt_transition` writes.
unfoldable pub reported : AttemptState → Report → ℕ → Attempt → Attempt
unfolding is_attempt_terminal
reported target r now a =
    let started = same_attempt_state target AttemptState.running && not (is_some a.started_at) in
    let final = is_attempt_terminal target in
    record a {
      status = target;
      turn_ids = elim r.turn_id [ none ↦ a.turn_ids | some id ↦ a.turn_ids ++ id ∷ [] ];
      started_at = if started then some now else a.started_at;
      ended_at = if final then some now else a.ended_at;
      failure_code = if final then r.failure_code else a.failure_code;
      retryable = if final then r.retryable else a.retryable;
      output_artifacts =
          if final
          then elim r.output_artifacts [ none ↦ a.output_artifacts | some names ↦ names ]
          else a.output_artifacts;
      budget_consumed =
          if is_zero_ℤ r.consumed then a.budget_consumed else a.budget_consumed +ℤ r.consumed;
    }

-- The columns of the task that `attempt_transition` writes.
unfoldable pub booked : Bool → ℤ → ℤ → Task → Task
unfolding settled
booked final allocated consumed t =
    let t' = record t { budget = settled final allocated consumed t.budget } in
    if final then record t' { active_attempt_id = none } else t'

-- The columns that a wait for an answer writes.
unfoldable pub paused : WaitingReason → ℕ → Task → Task
paused why interaction t = record t {
  state = waiting;
  waiting_reason = some why;
  active_interaction_id = some interaction;
}

-- `_enter_waiting_resource`; `token_hash` is the digest of the token.
unfoldable pub enter_waiting_resource : ℕ → ℕ → ℕ → ℕ → ℕ → ℕ → Action Unit
unfolding paused
enter_waiting_resource task_id version iid token token_hash now = do
  task ← get_task task_id none
  check (check_task_transition task.state waiting (some WaitingReason.resource))
  insert_interaction iid (record {
    session_id = task.session_id;
    task_id = some task_id;
    attempt_id = none;
    kind = resource;
    subject_digest = none;
    token_hash = token_hash;
    target_state_version = some (version + 1);
    expires_at = some (now + interaction_ttl);
    status = pending;
    response = none;
  })
  cas_task task_id version (paused WaitingReason.resource iid)
  append_event task.session_id
      (task_state task_id task.state waiting (some WaitingReason.resource) none)
  append_event task.session_id (interaction_opened iid resource token)
  pure tt

-- The lines of the account book that `attempt_transition` writes.
unfoldable pub book_attempt : Attempt → ℕ → AttemptState → ℤ → Budget → Action Unit
unfolding after_consume released
book_attempt attempt attempt_id target consumed before = do
  when (not (is_zero_ℤ consumed)) (
      ledger_append (record {
        task_id = attempt.task_id;
        attempt_id = some attempt_id;
        entry = EntryKind.consume;
        amount = consumed;
        actor_id = none;
      }))
  let rest = after_consume attempt.budget_allocated consumed before
  let back = released attempt.budget_allocated consumed rest
  when (is_attempt_terminal target && not (is_zero_ℤ back)) (
      ledger_append (record {
        task_id = attempt.task_id;
        attempt_id = some attempt_id;
        entry = EntryKind.release;
        amount = back;
        actor_id = none;
      }))

-- `attempt_transition`; the last three numbers are drawn for `_enter_waiting_resource`.
unfoldable pub attempt_transition : ℕ → AttemptState → Report → ℕ → ℕ → ℕ → ℕ → Action ℕ
unfolding book_attempt reported booked enter_waiting_resource is_attempt_terminal
attempt_transition attempt_id target report now iid token token_hash = transaction (do
  attempt ← get_attempt attempt_id
  check (check_attempt_transition attempt.status target)
  task ← get_task attempt.task_id none
  raise_if (is_invalid_budget task.budget) validation_error
  book_attempt attempt attempt_id target report.consumed task.budget
  update_attempt attempt_id (reported target report now)
  let final = is_attempt_terminal target
  version ←
      cas_task attempt.task_id task.state_version
        (booked final attempt.budget_allocated report.consumed)
  append_event task.session_id (
      attempt_state attempt.task_id attempt_id attempt.status target report.failure_code
        report.consumed)
  when (same_attempt_state target AttemptState.budget_exceeded)
      (enter_waiting_resource attempt.task_id version iid token token_hash now)
  pure version)
