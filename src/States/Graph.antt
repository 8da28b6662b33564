-- ===== src/States/Graph.antt =====
-- The transition diagram of tasks (app/app/domain/workbench/states.py) as a relation, and what can
-- be reached along it.
use investment_backend.Base.{◌≡◌, refl, ◌≢◌, ◌↔◌, ◌⊎◌, true, Option, none, some, arith}
use investment_backend.Base.Exec.{ok}
use investment_backend.States.Words.{
  TaskState, WaitingReason, received, validating, queued, running, waiting, succeeded, rejected,
  is_task_terminal, check_task_transition,
}

infix 40 ◌⟶◌ ◌⟶*◌
-- An edge for each entry of the table.
pub data ◌⟶◌ : TaskState → TaskState → Type 0 where
  validate : received ⟶ validating
  accept : validating ⟶ queued
  ask : validating ⟶ waiting
  refuse : validating ⟶ rejected
  start : queued ⟶ running
  hold : queued ⟶ waiting
  drop : queued ⟶ TaskState.failed
  requeue : running ⟶ queued
  pause : running ⟶ waiting
  finish : running ⟶ succeeded
  break : running ⟶ TaskState.failed
  review : waiting ⟶ validating
  wake : waiting ⟶ queued
  give_up : waiting ⟶ TaskState.failed
  withdraw : received ⟶ TaskState.cancelled
  cancel_validating : validating ⟶ TaskState.cancelled
  cancel_queued : queued ⟶ TaskState.cancelled
  cancel_running : running ⟶ TaskState.cancelled
  cancel_waiting : waiting ⟶ TaskState.cancelled

ruleset edges = (
  validate, accept, ask, refuse, start, hold, drop, requeue, pause, finish, break, review, wake,
  give_up, withdraw, cancel_validating, cancel_queued, cancel_running, cancel_waiting,
)

pub data ◌⟶*◌ : TaskState → TaskState → Type 0 where
  here : {s : TaskState} → s ⟶* s
  next : {s t u : TaskState} → s ⟶* t → t ⟶ u → s ⟶* u

pub ⟶*_trans : {s t u : TaskState} → s ⟶* t → t ⟶* u → s ⟶* u
⟶*_trans p here = p
⟶*_trans p (next q e) = next (⟶*_trans p q) e

pub edge_of_check :
    (s t : TaskState) (r : Option WaitingReason) → check_task_transition s t r ≡ ok tt → s ⟶ t
unfolding check_task_transition
edge_of_check s t r h = grind (arith, edges)

check_of_edge :
    (s t : TaskState) → s ⟶ t → check_task_transition s t (some WaitingReason.input) ≡ ok tt
unfolding check_task_transition
check_of_edge _ _ validate = refl
check_of_edge _ _ accept = refl
check_of_edge _ _ _ = refl

-- The validator lets a move through, with some waiting reason, exactly when it is an edge.
pub check_iff_edge :
    (s t : TaskState) → (check_task_transition s t (some WaitingReason.input) ≡ ok tt) ↔ (s ⟶ t)
check_iff_edge s t = (edge_of_check s t (some WaitingReason.input), check_of_edge s t)

-- Every state is reached from RECEIVED.
pub received-⟶* : (s : TaskState) → received ⟶* s
received-⟶* received = here
received-⟶* _ = search (here, next, edges)

-- From every state that is not final the task can be cancelled in one move.
pub cancel_from :
    (s : TaskState)
    → is_task_terminal s ≡ true ⊎ check_task_transition s TaskState.cancelled none ≡ ok tt
unfolding is_task_terminal check_task_transition
cancel_from s = ground arith

terminal_stays : {s t : TaskState} → s ⟶ t → is_task_terminal s ≢ true
unfolding is_task_terminal
terminal_stays validate h = cc
terminal_stays _ h = cc

-- What leaves a final state is the empty path: no sequence of moves leads out of it.
pub terminal_absorbs : {s t : TaskState} → s ⟶* t → is_task_terminal s ≡ true → t ≡ s
terminal_absorbs here h = refl
terminal_absorbs {s} (next {t = m} p e) h =
    let same : m ≡ s = terminal_absorbs p h in absurd (terminal_stays e (rw same h))
