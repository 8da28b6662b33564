-- ===== src/Ledger/Moves.antt =====
-- `transition`, the method that moves a task to another state, with what follows a final state: the
-- wheel goes back, pending questions are cancelled, the next queued expert starts
-- (app/app/application/workbench/ledger.py).
use investment_backend.Base.{
  ℕ, Bool, true, false, not, ◌&&◌, Option, none, some, if◌then◌else◌, is_some, opt_eq,
}
use investment_backend.Base.Exec.{pure, when, maybe, ◌>>=◌, ◌>>◌, transaction}
use investment_backend.States.{
  TaskState, WaitingReason, Wheel, user, advisor, same_task_state, is_task_terminal,
  check_task_transition, wheel_after_task_state,
}
use investment_backend.Store.{
  task_drive, Reason, Session, Task, task_state, task_dequeued, wheel_handover, wheel_return,
  Action, get_session, get_task, next_queued_task, cas_task, cas_session_wheel, append_event,
  cancel_pending_interactions, enqueue_command, check,
}

abbrev pub is_user : Wheel → Bool
is_user user = true
is_user advisor = false

-- The session waits for no expert: its user steers and no task is noted.
abbrev pub is_free : Session → Bool
is_free s = is_user s.wheel && not (is_some s.active_task_id)

-- `_give_wheel`
unfoldable pub give_wheel : ℕ → Session → ℕ → Action Unit
give_wheel session_id session task_id = do
  cas_session_wheel session_id session.state_version advisor (some task_id)
  append_event session_id (wheel_handover task_id)
  pure tt

-- The row of a queued task that starts: it is behind nobody and on the session's thread.
unfoldable pub dequeued : Session → Task → Task
dequeued session t = record t { queued_behind = none; thread_id = session.thread_id }

-- The rest of `_start_next_queued`, once there is a next task
unfoldable pub start_queued : ℕ → Task → Action (Option ℕ)
unfolding give_wheel dequeued
start_queued task_id t = do
  session ← get_session t.session_id none
  if not (is_free session) then pure none else do
    cas_task task_id t.state_version (dequeued session)
    give_wheel t.session_id session task_id
    append_event t.session_id (task_dequeued task_id)
    enqueue_command (record {
      session_id = t.session_id;
      sandbox_id = session.sandbox_id;
      body = task_drive task_id false;
    })
    pure (some task_id)

-- `_start_next_queued`
unfoldable pub start_next_queued : ℕ → Action (Option ℕ)
unfolding start_queued
start_next_queued project = do
  next ← next_queued_task project
  maybe next (pure none) (λ row. start_queued row.0 row.1)

-- The columns that `transition` writes.
unfoldable pub moved : TaskState → Option WaitingReason → Option Reason → Option ℕ → Task → Task
moved target waiting_reason reason result_ref t =
    let t' = record t {
      state = target;
      waiting_reason = waiting_reason;
      terminal_result_ref = if is_some result_ref then result_ref else t.terminal_result_ref;
    } in
    if is_task_terminal target
    then record t' {
      active_attempt_id = none;
      active_interaction_id = none;
      rejection = if same_task_state target TaskState.rejected then some reason else t.rejection;
    }
    else t'

-- The wheel goes back if it is this task's, and the task's open questions are cancelled.
unfoldable pub return_wheel : ℕ → ℕ → Wheel → TaskState → Option Reason → Action Unit
return_wheel task_id session_id wheel target reason = do
  session ← get_session session_id none
  when (opt_eq session.active_task_id (some task_id)) (do
    cas_session_wheel session_id session.state_version wheel none
    append_event session_id (wheel_return task_id target reason)
    pure tt)
  cancel_pending_interactions task_id target

-- What `transition` does after the row of the task has changed.
unfoldable pub settle : ℕ → Task → TaskState → Option Reason → Action Unit
unfolding return_wheel start_next_queued wheel_after_task_state
settle task_id task target reason = do
  maybe (wheel_after_task_state target) (pure tt)
      (λ wheel. return_wheel task_id task.session_id wheel target reason)
  when (is_task_terminal target)
      (maybe task.project_id (pure tt) (λ project. do start_next_queued project; pure tt))

-- `transition`; of `**extra_fields` the program passes one, `terminal_result_ref`.
unfoldable pub transition :
    ℕ
    → TaskState
    → Option ℕ
    → Option WaitingReason
    → Option Reason
    → Option ℕ
    → Action (TaskState × ℕ)
unfolding moved settle
transition task_id target expected_version waiting_reason reason result_ref = transaction (do
  task ← get_task task_id none
  check (check_task_transition task.state target waiting_reason)
  let version : ℕ = elim expected_version [ none ↦ task.state_version | some v ↦ v ]
  new_version ← cas_task task_id version (moved target waiting_reason reason result_ref)
  append_event task.session_id (task_state task_id task.state target waiting_reason reason)
  settle task_id task target reason
  pure (target, new_version))
