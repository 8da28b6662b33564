-- ===== src/Ledger/Queue.antt =====
-- `_start_next_queued` (app/app/application/workbench/ledger.py) while another expert works in the
-- project.
use mathlib.Core.Option.{some-injective}
use mathlib.Core.Path.{sym, ap, ◌∙◌}
use investment_backend.Base.{
  ℕ, ==_iff, ◌==◌, [], ◌∷◌, Dict, find_first, Bool, Bool-cases, inl, inr, ◌&&◌, opt_eq, ◌≡◌, refl,
  ◌≢◌, true, false, Option, none, some, lookup, any_other-lookup, arith,
}
use investment_backend.Base.Exec.{err, ◌>>=◌}
use investment_backend.States.{received, is_task_terminal}
use investment_backend.States.Moves.{same_task_state_eq}
use investment_backend.Store.{
  Store, Task, Session, integrity_error, get_session, next_queued_task, is_waiting_turn,
  holds_project, breaks_index, cas_task, is_active, is_queued_behind, bumped,
}
use investment_backend.Ledger.Moves.{is_free, dequeued, start_queued, start_next_queued}

start_queued_blocked :
    (id : ℕ) (t : Task) (session : Session) (s : Store)
    → lookup t.session_id s.sessions ≡ some session
    → is_free session ≡ true
    → lookup id s.tasks ≡ some t
    → breaks_index id (bumped (dequeued session) t) s.tasks ≡ true
    → start_queued id t s ≡ (err integrity_error, s)
unfolding start_queued ◌>>=◌ get_session cas_task
start_queued_blocked id t session s talk free found blocked =
    let same : t.state_version == t.state_version ≡ true =
      (==_iff t.state_version t.state_version).1 refl in
    rw talk (rw free (rw found (rw same (rw blocked refl))))

find_first-true :
    {V : Type 0} (p : V → Bool) (rows : Dict V) (k : ℕ) (v : V)
    → find_first p rows ≡ some (k, v)
    → p v ≡ true
find_first-true p [] k v e = cc
find_first-true p ((j, w) ∷ rest) k v e = elim (Bool-cases (p w)) [
  | inl holds ↦
      let here : find_first p ((j, w) ∷ rest) ≡ some (j, w) = rw holds refl in
      let both : Path (Option (ℕ × _)) (some (j, w)) (some (k, v)) = sym here ∙ e in
      let same : w ≡ v = cc in cc
  | inr fails ↦
      let later : find_first p ((j, w) ∷ rest) ≡ find_first p rest = rw fails refl in
      find_first-true p rest k v (sym later ∙ e)
]

known_of_opt_eq : (o : Option ℕ) (n : ℕ) → opt_eq o (some n) ≡ true → o ≡ some n
known_of_opt_eq none n h = cc
known_of_opt_eq (some m) n h = ap some ((==_iff m n).0 h)

both_true : (a b : Bool) → a && b ≡ true → (a ≡ true) × (b ≡ true)
both_true a b h = (ground arith, ground arith)

waiting_parts :
    (project : ℕ) (t : Task)
    → is_waiting_turn project t ≡ true
    → (t.project_id ≡ some project) × (t.state ≡ received) × (is_queued_behind t ≡ true)
unfolding is_waiting_turn is_queued_behind
waiting_parts project t h =
    let (mine, behind) = both_true _ _ h in
    (
      known_of_opt_eq t.project_id project mine,
      same_task_state_eq t.state received (both_true _ _ behind).0,
      behind,
    )

active_not_behind : (u : Task) → is_active u ≡ true → is_queued_behind u ≡ false
unfolding is_active
active_not_behind u h = ground arith

starts_active :
    (session : Session) (t : Task)
    → t.state ≡ received
    → is_active (bumped (dequeued session) t) ≡ true
unfolding is_active dequeued is_queued_behind is_task_terminal
starts_active session t h = rw h refl

apart_from_waiting :
    (project id j : ℕ) (t u : Task) (s : Store)
    → is_queued_behind t ≡ true
    → lookup id s.tasks ≡ some t
    → lookup j s.tasks ≡ some u
    → holds_project project u ≡ true
    → j ≢ id
unfolding holds_project
apart_from_waiting project id j t u s behind found busy holds same =
    let u_known : lookup id s.tasks ≡ some u = ap (λ (k : ℕ). lookup k s.tasks) (sym same) ∙ busy in
    let one : t ≡ u = some-injective t u (sym found ∙ u_known) in
    let started = active_not_behind u (both_true _ _ holds).1 in cc

-- The place of the project is taken.
index_broken :
    (project id j : ℕ) (t u : Task) (session : Session) (s : Store)
    → is_waiting_turn project t ≡ true
    → lookup id s.tasks ≡ some t
    → lookup j s.tasks ≡ some u
    → holds_project project u ≡ true
    → breaks_index id (bumped (dequeued session) t) s.tasks ≡ true
unfolding breaks_index dequeued
index_broken project id j t u session s waits found busy holds =
    let project_known : t.project_id ≡ some project = (waiting_parts project t waits).0 in
    let starts : is_active (bumped (dequeued session) t) ≡ true =
      starts_active session t (waiting_parts project t waits).1 in
    let apart : j ≢ id =
      apart_from_waiting project id j t u s (waiting_parts project t waits).2 found busy holds in
    rw starts
      (rw project_known (any_other-lookup id j (holds_project project) s.tasks busy holds apart))

-- While another task is at work in the project, the start of the next queued one is not skipped: if
-- the conversation of that task is free, `_start_next_queued` runs into the unique index of the
-- database and raises.
pub start_next_queued_blocked :
    (project id j : ℕ) (t u : Task) (session : Session) (s : Store)
    → find_first (is_waiting_turn project) s.tasks ≡ some (id, t)
    → lookup id s.tasks ≡ some t
    → lookup t.session_id s.sessions ≡ some session
    → is_free session ≡ true
    → lookup j s.tasks ≡ some u
    → holds_project project u ≡ true
    → start_next_queued project s ≡ (err integrity_error, s)
unfolding start_next_queued next_queued_task ◌>>=◌
start_next_queued_blocked project id j t u session s next found talk free busy holds = rw next (
    start_queued_blocked id t session s talk free found (
      index_broken project id j t u session s
        (find_first-true (is_waiting_turn project) s.tasks id t next) found busy holds))
