-- ===== src/Ledger/Behaviour.antt =====
-- What single methods of app/app/application/workbench/ledger.py answer, errors included.
use investment_backend.Base.{ℕ, ◌≡◌, refl, true, Option, some, lookup}
use investment_backend.Base.Exec.{err, transaction, ◌>>=◌}
use investment_backend.States.{TaskState, is_task_terminal, WaitingReason, invalid_task_transition}
use investment_backend.States.Moves.{terminal_check}
use investment_backend.Store.{Store, Task, get_task, state_error, Reason, check}
use investment_backend.Ledger.Moves.{transition}

-- A final state is never left: a task that is completed, rejected, failed or cancelled refuses every
-- transition, whatever version, reasons and result come with it, and nothing changes.
pub transition-final_refused :
    (id : ℕ) (target : TaskState) (version : Option ℕ) (waiting_reason : Option WaitingReason)
    (reason : Option Reason) (result : Option ℕ) (s : Store) (t : Task)
    → lookup id s.tasks ≡ some t
    → is_task_terminal t.state ≡ true
    → transition id target version waiting_reason reason result s
      ≡ (err (state_error (invalid_task_transition t.state target)), s)
unfolding transition transaction ◌>>=◌ get_task check
transition-final_refused id target version waiting_reason reason result s t found final =
    rw found (rw (terminal_check t.state target waiting_reason final) refl)
