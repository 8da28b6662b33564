-- ===== src/Ledger/Waits.antt =====
-- `handover` of app/app/application/workbench/ledger.py while another task of the project is at work.
use investment_backend.Base.{ℕ, ◌≡◌, some, lookup}
use investment_backend.Base.Exec.{◌>>◌}
use investment_backend.States.{received}
use investment_backend.Store.{Store, Task}
use investment_backend.Ledger.Intake.{Receipt}

-- The answer and the new row name a task to wait for, and the row has not started.
pub record IsBehind (r : Receipt) (u : Store) : Type 0 where
  pub ahead : ℕ
  pub told : r.queued_behind ≡ some ahead
  pub row : Task
  pub stored : lookup r.task_id u.tasks ≡ some row
  pub waits : row.state ≡ received
  pub noted : row.queued_behind ≡ some ahead
