-- ===== src/Ledger/Edits.antt =====
-- What the methods of app/app/application/workbench/ledger.py write into a row of the tasks is an
-- edit along the transition diagram.
use investment_backend.Base.{
  ℕ, ◌≡◌, refl, Bool, false, Option, some, ◌⊎◌, inl, inr, arith, Bool-cases,
}
use investment_backend.Base.Int.{ℤ}
use investment_backend.Base.Exec.{ok}
use investment_backend.States.{
  TaskState, queued, running, waiting, WaitingReason, same_task_state, check_task_transition,
}
use investment_backend.States.Moves.{same_task_state_eq, waiting_has_reason}
use investment_backend.States.Graph.{◌⟶◌, start, edge_of_check}
use investment_backend.Store.{Session, Task, Reason, bumped}
use investment_backend.Store.Evolves.{Edit}
use investment_backend.Ledger.Moves.{moved, dequeued}
use investment_backend.Ledger.Attempts.{opened, booked, paused}
use investment_backend.Ledger.Answers.{topped_up, answered}
use investment_backend.Ledger.Cancel.{with_cancel}

pub moved-Edit :
    (target : TaskState) (why : Option WaitingReason) (reason : Option Reason) (result : Option ℕ)
    (t : Task)
    → check_task_transition t.state target why ≡ ok tt
    → Edit t (bumped (moved target why reason result) t)
unfolding moved
moved-Edit target why reason result t h =
    let edge = edge_of_check t.state target why h in
    record {
      moves = ground (arith, edge);
      version = ground arith;
      owner = ground arith;
      session = ground arith;
      project = ground arith;
      profile = ground arith;
      digest = ground arith;
      explained = λ before w. ground (arith, waiting_has_reason t.state target why h);
    }

pub dequeued-Edit : (row : Session) (t : Task) → Edit t (bumped (dequeued row) t)
unfolding dequeued
dequeued-Edit row t = ground arith

opening : (t : Task) → (same_task_state t.state queued ≡ false) ⊎ (t.state ⟶ running)
opening t = elim (Bool-cases (same_task_state t.state queued)) [
  | inl was ↦ inr (rw (same_task_state_eq t.state queued was) start)
  | inr other ↦ inl other
]

pub opened-Edit :
    (id : ℕ) (reserve : ℤ) (t : Task)
    → Edit t (bumped (opened id reserve (same_task_state t.state queued)) t)
unfolding opened
opened-Edit id reserve t = record {
  moves = ground (arith, opening t);
  version = ground arith;
  owner = ground arith;
  session = ground arith;
  project = ground arith;
  profile = ground arith;
  digest = ground arith;
  explained = λ before w. ground (arith, before);
}

pub booked-Edit :
    (final : Bool) (allocated consumed : ℤ) (t : Task)
    → Edit t (bumped (booked final allocated consumed) t)
unfolding booked
booked-Edit final allocated consumed t = ground arith

pub paused-Edit :
    (why : WaitingReason) (interaction : ℕ) (t : Task)
    → check_task_transition t.state waiting (some why) ≡ ok tt
    → Edit t (bumped (paused why interaction) t)
unfolding paused
paused-Edit why interaction t h =
    let edge = edge_of_check t.state waiting (some why) h in
    record {
      moves = inr edge;
      version = refl;
      owner = refl;
      session = refl;
      project = refl;
      profile = refl;
      digest = refl;
      explained = λ before w. refl;
    }

pub topped_up-Edit : (x : ℤ) (t : Task) → Edit t (bumped (topped_up x) t)
unfolding topped_up
topped_up-Edit x t = ground arith

pub answered-Edit : (t : Task) → Edit t (bumped answered t)
unfolding answered
answered-Edit t = ground arith

pub with_cancel-Edit : (now : ℕ) (t : Task) → Edit t (bumped (with_cancel now) t)
unfolding with_cancel
with_cancel-Edit now t = ground arith
