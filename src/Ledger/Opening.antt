-- ===== src/Ledger/Opening.antt =====
-- What `open_attempt` of app/app/application/workbench/ledger.py has written when it returns.
use mathlib.Core.Path.{sym, ap, ◌∙◌}
use investment_backend.Base.{
  ℕ, ◌+◌, ◌≡◌, refl, Option, none, some, not, lookup, insert, Bool-cases, inl, inr, ◌==◌, ==_iff,
}
use investment_backend.Base.Int.{ℤ, is_zero_ℤ, ◌+ℤ◌}
use investment_backend.Base.Exec.{Result, pure, ◌>>◌, ok, err, when, ◌>>=◌}
use investment_backend.Base.Exec.Respects.{Respects}
use investment_backend.States.{AttemptRole, queued, running, same_task_state}
use investment_backend.Store.{
  Store, Action, Task, Fault, cas_task, put_task, bumped, breaks_index, stale_state_version,
  integrity_error,
}
use investment_backend.Store.{ledger_append, append_event, attempt_opened, task_state, EntryKind}
use investment_backend.Store.Frame.{task_rules}
use investment_backend.Store.Evolves.{Unmoved-preorder}

-- What a compare and swap that returned has done.
pub cas_task-returned :
    (id v : ℕ) (fields : Task → Task) (s : Store) {n : ℕ} {u : Store}
    → cas_task id v fields s ≡ (ok n, u)
    → (row : Task) × (lookup id s.tasks ≡ some row)
      × (row.state_version ≡ v)
      × (u.tasks ≡ insert id (bumped fields row) s.tasks)
unfolding cas_task ◌>>=◌ put_task
cas_task-returned id v fields s {n} {u} h = by_row (lookup id s.tasks) refl
  where
    by_row :
        (o : Option Task)
        → lookup id s.tasks ≡ o
        → (row : Task) × (lookup id s.tasks ≡ some row)
          × (row.state_version ≡ v)
          × (u.tasks ≡ insert id (bumped fields row) s.tasks)
    by_row none e = let no : cas_task id v fields s ≡ (err stale_state_version, s) = rw e refl in cc
    by_row (some row) e = elim (Bool-cases (row.state_version == v)) [
      | inr stale ↦
          let no : cas_task id v fields s ≡ (err stale_state_version, s) = rw e (rw stale refl) in
          cc
      | inl current ↦ elim (Bool-cases (breaks_index id (bumped fields row) s.tasks)) [
        | inl clash ↦
            let no : cas_task id v fields s ≡ (err integrity_error, s) =
              rw e (rw current (rw clash refl)) in
            cc
        | inr room ↦
            let done : cas_task id v fields s ≡ (
              ok (row.state_version + 1),
              record s { tasks = insert id (bumped fields row) s.tasks },
            ) =
              rw e (rw current (rw room refl)) in
            (
              row,
              e,
              (==_iff row.state_version v).0 current,
              ap (λ (x : Result Fault ℕ × Store). x.1.tasks) (sym h ∙ done),
            )
      ]
    ]

ruleset still_rules = (task_rules, Unmoved-preorder)

-- What the row of the task is before and after.
pub record Opens (reserve : ℤ) (attempt : ℕ) (t u : Task) : Type 0 where
  pub idle : t.active_attempt_id ≡ none
  pub taken : u.active_attempt_id ≡ some attempt
  pub version : u.state_version ≡ t.state_version + 1
  pub limit : u.budget.limit ≡ t.budget.limit
  pub used : u.budget.used ≡ t.budget.used
  pub reserved : u.budget.reserved ≡ t.budget.reserved +ℤ reserve

-- What `open_attempt` does once the row of the task is written
abbrev booked_and_told : ℕ → Option ℕ → AttemptRole → ℤ → ℕ → Task → Action ℕ
booked_and_told id step role reserve attempt t = do
  when (not (is_zero_ℤ reserve)) (
      ledger_append (record {
        task_id = id;
        attempt_id = some attempt;
        entry = EntryKind.reserve;
        amount = reserve;
        actor_id = none;
      }))
  append_event t.session_id (attempt_opened id attempt step role)
  when (same_task_state t.state queued)
      (do append_event t.session_id (task_state id t.state running none none); pure tt)
  pure attempt
