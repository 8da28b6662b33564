-- ===== src/Ledger/Trace.antt =====
-- Any sequence of calls of the class `Ledger` (app/app/application/workbench/ledger.py), failing ones
-- included, and what holds of the store after it.
use investment_backend.Base.{ℕ, ◌≡◌, true, false, Option, some, List, [], ◌∷◌, lookup}
use investment_backend.Base.Int.{ℤ}
use investment_backend.States.{
  TaskState, WaitingReason, AttemptState, AttemptRole, is_task_terminal,
}
use investment_backend.Store.{Store, Task, Reason, Pack, Response, Interaction, is_pending}
use investment_backend.Store.Evolves.{Grows}
use investment_backend.Store.Steps.{grows}
use investment_backend.Store.History.{
  Lasts, Evolves-Lasts, Lasts-final, OneExpert, Evolves-OneExpert, WaitsExplained,
  Evolves-WaitsExplained,
}
use investment_backend.Ledger.Moves.{transition}
use investment_backend.Ledger.Intake.{HandoverRequest, handover}
use investment_backend.Ledger.Attempts.{Report, open_attempt, attempt_transition}
use investment_backend.Ledger.Answers.{Question, open_interaction, respond_interaction}
use investment_backend.Ledger.Cancel.{request_cancel, resume_environment}
use investment_backend.Ledger.Wheel.{
  WheelsMatch, KeepsWheels, transition-KeepsWheels, handover-KeepsWheels, open_attempt-KeepsWheels,
  attempt_transition-KeepsWheels, open_interaction-KeepsWheels, respond_interaction-KeepsWheels,
  request_cancel-KeepsWheels, resume_environment-KeepsWheels,
}
use investment_backend.Ledger.Once.{
  KeepsAnswers, transition-KeepsAnswers, handover-KeepsAnswers, open_attempt-KeepsAnswers,
  attempt_transition-KeepsAnswers, open_interaction-KeepsAnswers, respond_interaction-KeepsAnswers,
  request_cancel-KeepsAnswers, resume_environment-KeepsAnswers,
}
use investment_backend.Ledger.Lifecycle.{
  transition-Grows, handover-Grows, open_attempt-Grows, attempt_transition-Grows,
  open_interaction-Grows, respond_interaction-Grows, request_cancel-Grows, resume_environment-Grows,
}

-- A call of a public method that writes, with its arguments and what it draws.
pub data Call : Type 0 where
  handing_over : HandoverRequest → ℕ → ℕ → Option ℕ → Option Pack → ℕ → ℕ → Call
  moving : ℕ → TaskState → Option ℕ → Option WaitingReason → Option Reason → Option ℕ → Call
  resuming : ℕ → ℕ → ℕ → Call
  cancelling : ℕ → ℕ → ℕ → Call
  opening : ℕ → Option ℕ → AttemptRole → ℤ → ℕ → Call
  reporting : ℕ → AttemptState → Report → ℕ → ℕ → ℕ → ℕ → Call
  asking : ℕ → Question → ℕ → ℕ → ℕ → Call
  answering : ℕ → ℕ → Response → ℕ → Option ℕ → TaskState → ℕ → Call

module _ (sha256 : ℕ → ℕ) where
  -- The store after a call, whether it returns or raises.
  unfoldable pub call : Call → Store → Store
  call (handing_over req owner tenant given snapshot current id) s =
      (handover req owner tenant given snapshot current id s).1
  call (moving id target version why reason result) s =
      (transition id target version why reason result s).1
  call (resuming id session environment) s = (resume_environment id session environment s).1
  call (cancelling id owner now) s = (request_cancel id owner now s).1
  call (opening task step role reserve id) s = (open_attempt task step role reserve id s).1
  call (reporting id target r now iid token hash) s =
      (attempt_transition id target r now iid token hash s).1
  call (asking task q iid token now) s = (open_interaction sha256 task q iid token now s).1
  call (answering iid token r owner digest resume_to now) s =
      (respond_interaction sha256 iid token r owner digest resume_to now s).1

  unfoldable pub run : List Call → Store → Store
  unfolding call
  run [] s = s
  run (c ∷ cs) s = run cs (call c s)

  call-Grows : (c : Call) (s : Store) → Grows s (call c s)
  unfolding call
  call-Grows (handing_over req owner tenant given snapshot current id) s =
      (handover-Grows req owner tenant given snapshot current id).at s
  call-Grows (moving id target version why reason result) s =
      (transition-Grows id target version why reason result).at s
  call-Grows (resuming id session environment) s =
      (resume_environment-Grows id session environment).at s
  call-Grows (cancelling id owner now) s = (request_cancel-Grows id owner now).at s
  call-Grows (opening task step role reserve id) s =
      (open_attempt-Grows task step role reserve id).at s
  call-Grows (reporting id target r now iid token hash) s =
      (attempt_transition-Grows id target r now iid token hash).at s
  call-Grows (asking task q iid token now) s =
      (open_interaction-Grows sha256 task q iid token now).at s
  call-Grows (answering iid token r owner digest resume_to now) s =
      (respond_interaction-Grows sha256 iid token r owner digest resume_to now).at s

  run-Grows : (cs : List Call) (s : Store) → Grows s (run cs s)
  unfolding run
  run-Grows [] s = grows.reflexive s
  run-Grows (c ∷ cs) s =
      grows.transitive s (call c s) (run cs (call c s)) (call-Grows c s) (run-Grows cs (call c s))

  call-KeepsWheels : (c : Call) (s : Store) → KeepsWheels s (call c s)
  unfolding call
  call-KeepsWheels (handing_over req owner tenant given snapshot current id) s =
      (handover-KeepsWheels req owner tenant given snapshot current id).at s
  call-KeepsWheels (moving id target version why reason result) s =
      (transition-KeepsWheels id target version why reason result).at s
  call-KeepsWheels (resuming id session environment) s =
      (resume_environment-KeepsWheels id session environment).at s
  call-KeepsWheels (cancelling id owner now) s = (request_cancel-KeepsWheels id owner now).at s
  call-KeepsWheels (opening task step role reserve id) s =
      (open_attempt-KeepsWheels task step role reserve id).at s
  call-KeepsWheels (reporting id target r now iid token hash) s =
      (attempt_transition-KeepsWheels id target r now iid token hash).at s
  call-KeepsWheels (asking task q iid token now) s =
      (open_interaction-KeepsWheels sha256 task q iid token now).at s
  call-KeepsWheels (answering iid token r owner digest resume_to now) s =
      (respond_interaction-KeepsWheels sha256 iid token r owner digest resume_to now).at s

  call-KeepsAnswers : (c : Call) (s : Store) → KeepsAnswers s (call c s)
  unfolding call
  call-KeepsAnswers (handing_over req owner tenant given snapshot current id) s =
      (handover-KeepsAnswers req owner tenant given snapshot current id).at s
  call-KeepsAnswers (moving id target version why reason result) s =
      (transition-KeepsAnswers id target version why reason result).at s
  call-KeepsAnswers (resuming id session environment) s =
      (resume_environment-KeepsAnswers id session environment).at s
  call-KeepsAnswers (cancelling id owner now) s = (request_cancel-KeepsAnswers id owner now).at s
  call-KeepsAnswers (opening task step role reserve id) s =
      (open_attempt-KeepsAnswers task step role reserve id).at s
  call-KeepsAnswers (reporting id target r now iid token hash) s =
      (attempt_transition-KeepsAnswers id target r now iid token hash).at s
  call-KeepsAnswers (asking task q iid token now) s =
      (open_interaction-KeepsAnswers sha256 task q iid token now).at s
  call-KeepsAnswers (answering iid token r owner digest resume_to now) s =
      (respond_interaction-KeepsAnswers sha256 iid token r owner digest resume_to now).at s

  -- An interaction that is not pending has the same row, its answer included, after any calls.
  pub run_answered_once :
      (cs : List Call) (s : Store) (id : ℕ) (row : Interaction)
      → lookup id s.interactions ≡ some row
      → is_pending row.status ≡ false
      → lookup id (run cs s).interactions ≡ some row
  unfolding run
  run_answered_once [] s id row found shut = found
  run_answered_once (c ∷ cs) s id row found shut =
      run_answered_once cs (call c s) id row
        ((call-KeepsAnswers c s).tables.closed id row found shut) shut

  -- After any calls, failing ones included, every task that was there is there, in a state that the
  -- transition diagram reaches from its old one, at the same or a later version, and with the same
  -- owner, conversation, project, expert and request digest.
  pub run-Lasts :
      (cs : List Call) (s : Store) (id : ℕ) (t : Task)
      → lookup id s.tasks ≡ some t
      → Lasts id t (run cs s).tasks
  run-Lasts cs s id t found = Evolves-Lasts id t found (run-Grows cs s).tables

  -- A task in a final state is in that state after any calls.
  pub run_final :
      (cs : List Call) (s : Store) (id : ℕ) (t : Task)
      → lookup id s.tasks ≡ some t
      → is_task_terminal t.state ≡ true
      → (u : Task) × (lookup id (run cs s).tasks ≡ some u) × (u.state ≡ t.state)
  run_final cs s id t found final =
      Lasts-final (run cs s).tasks id t final (run-Lasts cs s id t found)

  -- If at most one task of each project is at work, that is so after any calls, failing ones included.
  -- A task is at work when it is RECEIVED with no task noted in `queued_behind`, or VALIDATING, QUEUED,
  -- RUNNING or WAITING. A RECEIVED task with one noted is taken for a waiting one, even when the
  -- caller wrote the note into the `client_context` of its request.
  pub run-OneExpert : (cs : List Call) (s : Store) → OneExpert s.tasks → OneExpert (run cs s).tasks
  run-OneExpert cs s one = Evolves-OneExpert one (run-Grows cs s).tables

  -- If every task that is WAITING has a waiting reason, that is so after any calls.
  pub run-WaitsExplained :
      (cs : List Call) (s : Store) → WaitsExplained s.tasks → WaitsExplained (run cs s).tasks
  run-WaitsExplained cs s h = Evolves-WaitsExplained h (run-Grows cs s).tables

  -- If in every conversation the advisor holds the wheel exactly when a task is noted as active,
  -- that is so after any calls, failing ones included.
  pub run-WheelsMatch :
      (cs : List Call) (s : Store) → WheelsMatch s.sessions → WheelsMatch (run cs s).sessions
  unfolding run
  run-WheelsMatch [] s h = h
  run-WheelsMatch (c ∷ cs) s h =
      run-WheelsMatch cs (call c s) ((call-KeepsWheels c s).tables.keep h)
