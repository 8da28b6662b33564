-- ===== src/Ledger/Cancel.antt =====
-- `request_cancel` and `resume_environment`: the user's wish to stop is recorded before anything
-- else, and a task that waits for its machine goes on once
-- (app/app/application/workbench/ledger.py).
use investment_backend.Base.{
  ℕ, Bool, true, false, not, ◌&&◌, Option, none, some, ◌==◌, if◌then◌else◌, is_some, opt_eq,
}
use investment_backend.Base.Exec.{pure, ◌>>=◌, ◌>>◌, transaction}
use investment_backend.States.{
  TaskState, queued, running, waiting, WaitingReason, same_task_state, is_task_terminal,
}
use investment_backend.Store.{
  task_drive, Session, Task, by_user, environment_ready, cancel_requested, Action, get_session,
  get_task, get_environment, cas_task, append_event, enqueue_command,
}
use investment_backend.Ledger.Moves.{is_user, transition}

-- The answer of `request_cancel`
pub record Cancellation : Type 0 where
  pub state : TaskState
  pub cancel_requested : Bool
  pub interrupt : Bool

unfoldable pub with_cancel : ℕ → Task → Task
with_cancel now t = record t { cancel_requested_at = some now }

-- A task that is not in a final state: the wish is written, and if nothing runs the task ends.
unfoldable pub cancel_live : ℕ → Task → ℕ → Action Cancellation
unfolding with_cancel
cancel_live task_id task now = do
  version ← cas_task task_id task.state_version (with_cancel now)
  append_event task.session_id (cancel_requested task_id)
  if same_task_state task.state running
      then pure (record { state = task.state; cancel_requested = true; interrupt = true })
      else do
        done ← transition task_id TaskState.cancelled (some version) none (some by_user) none
        pure (record {
          state = done.0;
          cancel_requested = false;
          interrupt = same_task_state task.state waiting;
        })

-- `request_cancel`
unfoldable pub request_cancel : ℕ → ℕ → ℕ → Action Cancellation
unfolding cancel_live is_task_terminal
request_cancel task_id owner now = transaction (do
  task ← get_task task_id (some owner)
  if is_task_terminal task.state
      then pure (record { state = task.state; cancel_requested = false; interrupt = false })
      else cancel_live task_id task now)

abbrev pub is_environment : Option WaitingReason → Bool
is_environment (some WaitingReason.environment) = true
is_environment _ = false

-- The task still waits for its machine, and nobody has asked it to stop.
unfoldable pub waits_for_environment : ℕ → Task → Bool
waits_for_environment session_id t =
    t.session_id == session_id
    && same_task_state t.state waiting
    && is_environment t.waiting_reason
    && not (is_some t.cancel_requested_at)
    && not (is_some t.active_attempt_id)
    && not (is_some t.active_interaction_id)

-- The session is still the expert's, for this task on this machine.
unfoldable pub drives : ℕ → ℕ → Session → Bool
drives task_id environment_id s =
    s.environment_id == environment_id
    && opt_eq s.active_task_id (some task_id)
    && not (is_user s.wheel)

-- `resume_environment`
unfoldable pub resume_environment : ℕ → ℕ → ℕ → Action Bool
unfolding waits_for_environment drives
resume_environment task_id session_id environment_id = transaction (do
  task ← get_task task_id none
  if not (waits_for_environment session_id task) then pure false else do
    session ← get_session session_id none
    if not (drives task_id environment_id session) then pure false else do
      environment ← get_environment environment_id (some session.owner_actor_id)
      if not environment.online then pure false else do
        transition task_id queued (some task.state_version) none
            (some (environment_ready environment_id)) none
        enqueue_command (record {
          session_id = session_id;
          sandbox_id = session.sandbox_id;
          body = task_drive task_id true;
        })
        pure true)
