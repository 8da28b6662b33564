-- ===== src/Store/Evolves.antt =====
-- How the table of tasks may change: rows are added at RECEIVED, and a row is edited along the
-- transition diagram, one version at a time, inside the partial unique index.
use investment_backend.Base.{
  ℕ, ◌+◌, ◌≡◌, refl, sym, ◌∙◌, ap, subst, some-injective, true, false, Option, none, some, ◌⊎◌, inl,
  inr, Dict, lookup, insert, is_some, arith, Bool-cases, Option-cases, ◌==◌,
}
use investment_backend.Base.Exec.{Result, ok, ◌>>=◌}
use investment_backend.Base.Exec.Respects.{IsPreorder, Respects}
use investment_backend.States.{received, waiting, StateError}
use investment_backend.States.Graph.{◌⟶◌}
use investment_backend.Store.Rows.{Task, Store, Fault}
use investment_backend.Store.Queries.{
  Action, cas_task, insert_task, get_task, breaks_index, bumped, check,
}
use investment_backend.Store.Frame.{OnTasks}

-- A task that waits says what for.
abbrev pub WaitIsExplained : Task → Type 0
WaitIsExplained t = t.state ≡ waiting → is_some t.waiting_reason ≡ true

pub record Edit (before after : Task) : Type 0 where
  pub moves : (after.state ≡ before.state) ⊎ (before.state ⟶ after.state)
  pub version : after.state_version ≡ before.state_version + 1
  pub owner : after.owner_actor_id ≡ before.owner_actor_id
  pub session : after.session_id ≡ before.session_id
  pub project : after.project_id ≡ before.project_id
  pub profile : after.profile_id ≡ before.profile_id
  pub digest : after.request_digest ≡ before.request_digest
  pub explained : WaitIsExplained before → WaitIsExplained after

pub data Evolves (d : Dict Task) : Dict Task → Type 0 where
  unchanged : Evolves d d
  added :
      {e : Dict Task} (id : ℕ) (t : Task)
      → Evolves d e
      → lookup id e ≡ none
      → t.state ≡ received
      → breaks_index id t e ≡ false
      → Evolves d (insert id t e)
  edited :
      {e : Dict Task} (id : ℕ) (before after : Task)
      → Evolves d e
      → lookup id e ≡ some before
      → Edit before after
      → breaks_index id after e ≡ false
      → Evolves d (insert id after e)

Evolves-trans : {d e f : Dict Task} → Evolves d e → Evolves e f → Evolves d f
Evolves-trans p unchanged = p
Evolves-trans p (added id t q new start index) = added id t (Evolves-trans p q) new start index
Evolves-trans p (edited id before after q old edit index) =
    edited id before after (Evolves-trans p q) old edit index

pub Evolves-preorder : IsPreorder Evolves
Evolves-preorder = record {
  reflexive = λ d. unchanged;
  transitive = λ d e f p q. Evolves-trans p q;
}

abbrev pub Grows : Store → Store → Type 0
Grows = OnTasks Evolves

stays : (s : Store) → Grows s s
stays s = record { tables = unchanged }

-- A compare and swap that edits the row it finds.
pub cas_task_at :
    (id v : ℕ) (f : Task → Task) (s : Store)
    → ((row : Task) → lookup id s.tasks ≡ some row → Edit row (bumped f row))
    → Grows s (cas_task id v f s).1
unfolding cas_task ◌>>=◌
cas_task_at id v f s edit = elim (Option-cases (lookup id s.tasks)) [
  | inl missing ↦ rw missing (stays s)
  | inr (row, found) ↦ rw found (elim (Bool-cases (row.state_version == v)) [
    | inl fresh ↦ rw fresh (elim (Bool-cases (breaks_index id (bumped f row) s.tasks)) [
      | inl clash ↦ rw clash (stays s)
      | inr room ↦
          rw room
            (record { tables = edited id row (bumped f row) unchanged found (edit row found) room })
    ])
    | inr stale ↦ rw stale (stays s)
  ])
]

pub cas_task-Grows :
    (id v : ℕ) (f : Task → Task)
    → ((row : Task) → Edit row (bumped f row))
    → Respects Grows (cas_task id v f)
cas_task-Grows id v f edit = record { at = λ s. cas_task_at id v f s (λ row found. edit row) }

pub insert_task-Grows : (id : ℕ) (t : Task) → t.state ≡ received → Respects Grows (insert_task id t)
unfolding insert_task ◌>>=◌
insert_task-Grows id t start = record {
  at = λ s. elim (Option-cases (lookup id s.tasks)) [
    | inl new ↦ rw new (elim (Bool-cases (breaks_index id t s.tasks)) [
      | inl clash ↦ rw clash (stays s)
      | inr room ↦ rw room (record { tables = added id t unchanged new start room })
    ])
    | inr (row, taken) ↦ rw taken (stays s)
  ];
}

-- What a read that returned has found.
pub get_task-returned :
    (id : ℕ) (o : Option ℕ) (s : Store) {t : Task} {u : Store}
    → get_task id o s ≡ (ok t, u)
    → (lookup id s.tasks ≡ some t) × (u.tasks ≡ s.tasks)
unfolding get_task ◌>>=◌
get_task-returned id o s {t} {u} e = ground arith

pub check-returned :
    (r : Result StateError (Unit {0})) (s : Store) {x : Unit {0}} {u : Store}
    → check r s ≡ (ok x, u)
    → (r ≡ ok tt) × (u.tasks ≡ s.tasks)
unfolding check
check-returned r s e = ground arith

abbrev pub Unmoved : Dict Task → Dict Task → Type 0
Unmoved d e = e ≡ d

pub Unmoved-preorder : IsPreorder Unmoved
Unmoved-preorder = record { reflexive = λ d. refl; transitive = λ d e f p q. q ∙ p }

-- A part that leaves the table of tasks alone, seen from its result.
pub tasks_of :
    {A : Type 0} (m : Action A) (s : Store) {a : A} {u : Store}
    → Respects (OnTasks Unmoved) m
    → m s ≡ (ok a, u)
    → u.tasks ≡ s.tasks
tasks_of m s {a} {u} h e = ap (λ (r : Result Fault _ × Store). r.1.tasks) (sym e) ∙ (h.at s).tables

-- A compare and swap on a row that was read before, while nothing else touched the table.
pub cas_known :
    (id v : ℕ) (f : Task → Task) (t : Task) (s u : Store)
    → lookup id s.tasks ≡ some t
    → u.tasks ≡ s.tasks
    → Edit t (bumped f t)
    → Grows u (cas_task id v f u).1
cas_known id v f t s u found same edit = cas_task_at id v f u λ row there.
    subst (λ x. Edit x (bumped f x))
      (some-injective t row (sym found ∙ ap (lookup id) (sym same) ∙ there)) edit
