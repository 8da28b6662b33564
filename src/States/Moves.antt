-- ===== src/States/Moves.antt =====
-- What the validators of app/app/domain/workbench/states.py let through, against the tables.
use investment_backend.Base.{◌≡◌, refl, ◌↔◌, true, Option, some, arith, is_some, is_empty}
use investment_backend.Base.Exec.{ok, err}
use investment_backend.States.Words.{
  TaskState, WaitingReason, AttemptState, user, same_task_state, is_task_terminal, task_transitions,
  is_attempt_terminal, attempt_transitions, check_task_transition, wheel_after_task_state,
  task_text, task_of_text, invalid_task_transition,
}

pub same_task_state_eq : (s t : TaskState) → same_task_state s t ≡ true → s ≡ t
same_task_state_eq s t h = ground arith

-- A task state has no legal move out of it exactly when it is one of the final states, and the
-- wheel goes back to the user exactly at those.
pub terminal_iff_no_moves :
    (s : TaskState)
    → (is_task_terminal s ≡ is_empty (task_transitions s))
      × ((wheel_after_task_state s ≡ some user) ↔ (is_task_terminal s ≡ true))
unfolding is_task_terminal task_transitions wheel_after_task_state
terminal_iff_no_moves s = (ground arith, (λ h. ground arith, λ h. ground arith))

-- An attempt state has no legal move out of it exactly when it is one of the final states.
pub attempt_terminal_iff_no_moves :
    (s : AttemptState) → is_attempt_terminal s ≡ is_empty (attempt_transitions s)
unfolding is_attempt_terminal attempt_transitions
attempt_terminal_iff_no_moves s = ground arith

-- From a final state every move is refused, and the refusal names both states.
pub terminal_check :
    (s t : TaskState) (r : Option WaitingReason)
    → is_task_terminal s ≡ true
    → check_task_transition s t r ≡ err (invalid_task_transition s t)
unfolding is_task_terminal check_task_transition
terminal_check s t r h = ground arith

-- A move to WAITING that is let through has a reason.
pub waiting_has_reason :
    (s t : TaskState) (r : Option WaitingReason)
    → check_task_transition s t r ≡ ok tt
    → t ≡ TaskState.waiting
    → is_some r ≡ true
unfolding check_task_transition
waiting_has_reason s t r e w = ground arith

-- The text of a task state is read back as that state.
pub task_of_text-task_text : (s : TaskState) → task_of_text (task_text s) ≡ some s
unfolding task_of_text task_text
task_of_text-task_text TaskState.received = refl
task_of_text-task_text _ = refl
