-- ===== src/Store/Steps.antt =====
-- Rules for a method that reads a row of the tasks, does other things, and then edits that row.
use investment_backend.Base.{ℕ, ◌≡◌, sym, ◌∙◌, subst, Option, some, Dict, lookup}
use investment_backend.Base.Exec.{Result, ok, ◌>>=◌}
use investment_backend.Base.Exec.Respects.{IsPreorder, Respects, >>=_at, >>=_then}
use investment_backend.States.{StateError}
use investment_backend.Store.Rows.{Task, Store}
use investment_backend.Store.Queries.{Action, get_task, check, cas_task, bumped}
use investment_backend.Store.Frame.{OnTasks, OnTasks-preorder, OnTasks-get_task, OnTasks-check}
use investment_backend.Store.Evolves.{
  Grows, Evolves, unchanged, Evolves-preorder, Edit, cas_known, get_task-returned, check-returned,
  tasks_of, Unmoved,
}

pub grows : IsPreorder Grows
grows = OnTasks-preorder Evolves-preorder

pub Grows-Unmoved : (s t : Store) → OnTasks Unmoved s t → Grows s t
Grows-Unmoved s t h = record { tables = subst (Evolves s.tasks) (sym h.tables) unchanged }

module _ {B : Type 0} where
  pub reading :
      (id : ℕ) (o : Option ℕ) (f : Task → Action B) (s : Store)
      → ((t : Task) (u : Store)
          → lookup id s.tasks ≡ some t
          → u.tasks ≡ s.tasks
          → Grows u (f t u).1)
      → Grows s ((get_task id o >>= f) s).1
  reading id o f s rest =
      >>=_at grows (get_task id o) f s ((OnTasks-get_task Evolves-preorder id o).at s)
        λ t u e. let (found, same) = get_task-returned id o s e in rest t u found same

  pub checking :
      (r : Result StateError (Unit {0})) (f : Unit {0} → Action B) (d : Dict Task) (s : Store)
      → s.tasks ≡ d
      → ((x : Unit {0}) (u : Store) → r ≡ ok tt → u.tasks ≡ d → Grows u (f x u).1)
      → Grows s ((check r >>= f) s).1
  checking r f d s same rest =
      >>=_at grows (check r) f s ((OnTasks-check Evolves-preorder r).at s)
        λ x u e. let (legal, kept) = check-returned r s e in rest x u legal (kept ∙ same)

  pub quiet :
      {A : Type 0} (m : Action A) (f : A → Action B) (d : Dict Task) (s : Store)
      → s.tasks ≡ d
      → Respects (OnTasks Unmoved) m
      → ((a : A) (u : Store) → u.tasks ≡ d → Grows u (f a u).1)
      → Grows s ((m >>= f) s).1
  quiet m f d s same calm rest =
      >>=_at grows m f s (Grows-Unmoved s (m s).1 (calm.at s))
        λ a u e. rest a u (tasks_of m s calm e ∙ same)

  pub editing :
      (id v : ℕ) (fields : Task → Task) (f : ℕ → Action B) (t : Task) (s u : Store)
      → lookup id s.tasks ≡ some t
      → u.tasks ≡ s.tasks
      → Edit t (bumped fields t)
      → ((n : ℕ) → Respects Grows (f n))
      → Grows u ((cas_task id v fields >>= f) u).1
  editing id v fields f t s u found same edit rest =
      >>=_then grows (cas_task id v fields) f u (cas_known id v fields t s u found same edit) rest
