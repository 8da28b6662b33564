-- ===== src/States/Words.antt =====
-- The state words, the sets of final states and the validators of app/app/domain/workbench/states.py.
use text.Mathlib.Text.{◌==◌}
use Prim.Native.String.{String}
use investment_backend.Base.{
  Bool, true, false, Option, none, some, List, [], ◌∷◌, any, if◌then◌else◌,
}
use investment_backend.Base.Exec.{Result, ok, err}

pub data TaskState : Type 0 where
  received validating queued running waiting succeeded rejected failed cancelled : TaskState

pub data WaitingReason : Type 0 where
  input approval resource environment : WaitingReason

pub data AttemptState : Type 0 where
  created running suspended completed failed budget_exceeded cancelled abandoned : AttemptState

pub data AttemptRole : Type 0 where
  execute acceptance competitor judge : AttemptRole

pub data Wheel : Type 0 where
  user advisor : Wheel

-- The position of a word in its enum: two words are equal when their positions are.
abbrev pub same_task_state : TaskState → TaskState → Bool
same_task_state TaskState.received TaskState.received = true
same_task_state TaskState.validating TaskState.validating = true
same_task_state TaskState.queued TaskState.queued = true
same_task_state TaskState.running TaskState.running = true
same_task_state TaskState.waiting TaskState.waiting = true
same_task_state TaskState.succeeded TaskState.succeeded = true
same_task_state TaskState.rejected TaskState.rejected = true
same_task_state TaskState.failed TaskState.failed = true
same_task_state TaskState.cancelled TaskState.cancelled = true
same_task_state _ _ = false

abbrev pub same_attempt_state : AttemptState → AttemptState → Bool
same_attempt_state AttemptState.created AttemptState.created = true
same_attempt_state AttemptState.running AttemptState.running = true
same_attempt_state AttemptState.suspended AttemptState.suspended = true
same_attempt_state AttemptState.completed AttemptState.completed = true
same_attempt_state AttemptState.failed AttemptState.failed = true
same_attempt_state AttemptState.budget_exceeded AttemptState.budget_exceeded = true
same_attempt_state AttemptState.cancelled AttemptState.cancelled = true
same_attempt_state AttemptState.abandoned AttemptState.abandoned = true
same_attempt_state _ _ = false

-- `TASK_TERMINAL`
unfoldable pub is_task_terminal : TaskState → Bool
is_task_terminal TaskState.succeeded = true
is_task_terminal TaskState.rejected = true
is_task_terminal TaskState.failed = true
is_task_terminal TaskState.cancelled = true
is_task_terminal _ = false

-- `TASK_TRANSITIONS`
unfoldable pub task_transitions : TaskState → List TaskState
task_transitions TaskState.received = TaskState.validating ∷ TaskState.cancelled ∷ []
task_transitions TaskState.validating =
    TaskState.queued ∷ TaskState.waiting ∷ TaskState.rejected ∷ TaskState.cancelled ∷ []
task_transitions TaskState.queued =
    TaskState.running ∷ TaskState.waiting ∷ TaskState.failed ∷ TaskState.cancelled ∷ []
task_transitions TaskState.running =
    TaskState.queued ∷ TaskState.waiting ∷ TaskState.succeeded ∷ TaskState.failed
    ∷ TaskState.cancelled ∷ []
task_transitions TaskState.waiting =
    TaskState.validating ∷ TaskState.queued ∷ TaskState.failed ∷ TaskState.cancelled ∷ []
task_transitions _ = []

-- `ATTEMPT_TERMINAL`
unfoldable pub is_attempt_terminal : AttemptState → Bool
is_attempt_terminal AttemptState.completed = true
is_attempt_terminal AttemptState.failed = true
is_attempt_terminal AttemptState.budget_exceeded = true
is_attempt_terminal AttemptState.cancelled = true
is_attempt_terminal AttemptState.abandoned = true
is_attempt_terminal _ = false

-- `ATTEMPT_TRANSITIONS`
unfoldable pub attempt_transitions : AttemptState → List AttemptState
attempt_transitions AttemptState.created =
    AttemptState.running ∷ AttemptState.cancelled ∷ AttemptState.failed ∷ []
attempt_transitions AttemptState.running =
    AttemptState.suspended ∷ AttemptState.completed ∷ AttemptState.failed
    ∷ AttemptState.budget_exceeded ∷ AttemptState.cancelled ∷ []
attempt_transitions AttemptState.suspended =
    AttemptState.running ∷ AttemptState.abandoned ∷ AttemptState.cancelled ∷ []
attempt_transitions _ = []

-- What the validators raise: `InvalidTransition`, with which of its two reasons, or the
-- `ValueError` of an enum that is called on a word it does not have.
pub data StateError : Type 0 where
  invalid_task_transition : TaskState → TaskState → StateError
  waiting_requires_a_reason : StateError
  invalid_attempt_transition : AttemptState → AttemptState → StateError
  not_a_word : String → StateError

-- `validate_task_transition`, once the words are read
unfoldable pub check_task_transition :
    TaskState → TaskState → Option WaitingReason → Result StateError (Unit {0})
unfolding task_transitions
check_task_transition current target reason =
    if any (same_task_state target) (task_transitions current)
    then if same_task_state target TaskState.waiting
      then elim reason [ none ↦ err waiting_requires_a_reason | some _ ↦ ok tt ]
      else ok tt
    else err (invalid_task_transition current target)

-- `validate_attempt_transition`, once the words are read
unfoldable pub check_attempt_transition : AttemptState → AttemptState → Result StateError (Unit {0})
unfolding attempt_transitions
check_attempt_transition current target =
    if any (same_attempt_state target) (attempt_transitions current)
    then ok tt
    else err (invalid_attempt_transition current target)

-- `wheel_after_task_state`: a final state gives the wheel back to the user.
unfoldable pub wheel_after_task_state : TaskState → Option Wheel
unfolding is_task_terminal
wheel_after_task_state state = if is_task_terminal state then some user else none

-- The texts of the enums.
unfoldable pub task_text : TaskState → String
task_text TaskState.received = "RECEIVED"
task_text TaskState.validating = "VALIDATING"
task_text TaskState.queued = "QUEUED"
task_text TaskState.running = "RUNNING"
task_text TaskState.waiting = "WAITING"
task_text TaskState.succeeded = "SUCCEEDED"
task_text TaskState.rejected = "REJECTED"
task_text TaskState.failed = "FAILED"
task_text TaskState.cancelled = "CANCELLED"

-- `TaskState(word)`
unfoldable pub task_of_text : String → Option TaskState
task_of_text word =
    if word == "RECEIVED"
    then some TaskState.received
    else if word == "VALIDATING"
    then some TaskState.validating
    else if word == "QUEUED"
    then some TaskState.queued
    else if word == "RUNNING"
    then some TaskState.running
    else if word == "WAITING"
    then some TaskState.waiting
    else if word == "SUCCEEDED"
    then some TaskState.succeeded
    else if word == "REJECTED"
    then some TaskState.rejected
    else if word == "FAILED"
    then some TaskState.failed
    else if word == "CANCELLED"
    then some TaskState.cancelled
    else none

-- `WaitingReason(word)`
unfoldable pub reason_of_text : String → Option WaitingReason
reason_of_text word =
    if word == "INPUT"
    then some input
    else if word == "APPROVAL"
    then some approval
    else if word == "RESOURCE"
    then some resource
    else if word == "ENVIRONMENT"
    then some environment
    else none

abbrev reason_word : Option String → Result StateError (Unit {0})
reason_word none = err waiting_requires_a_reason
reason_word (some word) = elim (reason_of_text word) [
  | none ↦ err (not_a_word word)
  | some _ ↦ ok tt
]

abbrev task_move : TaskState → TaskState → Option String → Result StateError (Unit {0})
task_move current target reason =
    if any (same_task_state target) (task_transitions current)
    then (if same_task_state target TaskState.waiting then reason_word reason else ok tt)
    else err (invalid_task_transition current target)

-- `validate_task_transition`, over the texts: the enums are called first, `current` before
-- `target`, and the waiting reason is read only for a move to WAITING.
unfoldable pub validate_task_transition :
    String → String → Option String → Result StateError (Unit {0})
unfolding task_of_text reason_of_text task_transitions
validate_task_transition current target reason = elim (task_of_text current) [
  | none ↦ err (not_a_word current)
  | some c ↦ elim (task_of_text target) [
    | none ↦ err (not_a_word target)
    | some t ↦ task_move c t reason
  ]
]
