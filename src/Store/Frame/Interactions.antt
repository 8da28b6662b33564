-- ===== src/Store/Frame/Interactions.antt =====
-- The queries of app/app/infrastructure/workbench/repository.py that leave the table of interactions alone.
use investment_backend.Base.{ℕ, Option, Dict}
use investment_backend.Base.Exec.{Result, ok, err, ◌>>=◌}
use investment_backend.Base.Exec.Respects.{IsPreorder, Respects, respects_rules}
use investment_backend.States.{Wheel, StateError}
use investment_backend.Store.Rows.{
  Session, Task, Attempt, Interaction, ConversationKind, EventBody, Entry, Command, Store,
}
use investment_backend.Store.Queries.{
  get_session, get_task, get_environment, get_project, get_attempt, get_interaction,
  active_task_of_project, next_queued_task, cas_task, insert_task, cas_session_wheel, put_task,
  put_session, put_attempt, set_session_kind, append_event, insert_attempt, update_attempt,
  ledger_append, enqueue_command, check,
}

-- The relation holds between the tables of interactions, before and after.
pub record OnInteractions (Q : Dict Interaction → Dict Interaction → Type 0) (s t : Store)
    : Type 0 where
  pub tables : Q s.interactions t.interactions

module _ {Q : Dict Interaction → Dict Interaction → Type 0} (q : IsPreorder Q) where
  pub OnInteractions-preorder : IsPreorder (OnInteractions Q)
  OnInteractions-preorder = record {
    reflexive = λ s. record { tables = q.reflexive s.interactions };
    transitive = λ s t u a b. record {
      tables = q.transitive s.interactions t.interactions u.interactions a.tables b.tables;
    };
  }

  OnInteractions-put_task : (id : ℕ) (row : Task) → Respects (OnInteractions Q) (put_task id row)
  unfolding put_task ◌>>=◌
  OnInteractions-put_task id row = record {
    at = λ s. record { tables = q.reflexive s.interactions };
  }

  OnInteractions-put_session :
      (id : ℕ) (row : Session) → Respects (OnInteractions Q) (put_session id row)
  unfolding put_session ◌>>=◌
  OnInteractions-put_session id row = record {
    at = λ s. record { tables = q.reflexive s.interactions };
  }

  OnInteractions-put_attempt :
      (id : ℕ) (row : Attempt) → Respects (OnInteractions Q) (put_attempt id row)
  unfolding put_attempt ◌>>=◌
  OnInteractions-put_attempt id row = record {
    at = λ s. record { tables = q.reflexive s.interactions };
  }

  pub OnInteractions-get_session :
      (id : ℕ) (o : Option ℕ) → Respects (OnInteractions Q) (get_session id o)
  unfolding get_session
  OnInteractions-get_session id o = search (respects_rules, OnInteractions-preorder) depth 30

  pub OnInteractions-get_task :
      (id : ℕ) (o : Option ℕ) → Respects (OnInteractions Q) (get_task id o)
  unfolding get_task
  OnInteractions-get_task id o = search (respects_rules, OnInteractions-preorder) depth 30

  pub OnInteractions-get_environment :
      (id : ℕ) (o : Option ℕ) → Respects (OnInteractions Q) (get_environment id o)
  unfolding get_environment
  OnInteractions-get_environment id o = search (respects_rules, OnInteractions-preorder) depth 30

  pub OnInteractions-get_project : (id : ℕ) → Respects (OnInteractions Q) (get_project id)
  unfolding get_project
  OnInteractions-get_project id = search (respects_rules, OnInteractions-preorder) depth 30

  pub OnInteractions-get_attempt : (id : ℕ) → Respects (OnInteractions Q) (get_attempt id)
  unfolding get_attempt
  OnInteractions-get_attempt id = search (respects_rules, OnInteractions-preorder) depth 30

  pub OnInteractions-get_interaction : (id : ℕ) → Respects (OnInteractions Q) (get_interaction id)
  unfolding get_interaction
  OnInteractions-get_interaction id = search (respects_rules, OnInteractions-preorder) depth 30

  pub OnInteractions-active_task_of_project :
      (p : ℕ) → Respects (OnInteractions Q) (active_task_of_project p)
  unfolding active_task_of_project
  OnInteractions-active_task_of_project p =
      search (respects_rules, OnInteractions-preorder) depth 30

  pub OnInteractions-next_queued_task : (p : ℕ) → Respects (OnInteractions Q) (next_queued_task p)
  unfolding next_queued_task
  OnInteractions-next_queued_task p = search (respects_rules, OnInteractions-preorder) depth 30

  pub OnInteractions-append_event :
      (id : ℕ) (b : EventBody) → Respects (OnInteractions Q) (append_event id b)
  unfolding append_event ◌>>=◌
  OnInteractions-append_event id b = record {
    at = λ s. record { tables = q.reflexive s.interactions };
  }

  pub OnInteractions-insert_attempt :
      (id : ℕ) (a : Attempt) → Respects (OnInteractions Q) (insert_attempt id a)
  unfolding insert_attempt
  OnInteractions-insert_attempt id a =
      search (respects_rules, OnInteractions-preorder, OnInteractions-put_attempt) depth 30

  pub OnInteractions-update_attempt :
      (id : ℕ) (f : Attempt → Attempt) → Respects (OnInteractions Q) (update_attempt id f)
  unfolding update_attempt ◌>>=◌
  OnInteractions-update_attempt id f = record {
    at = λ s. record { tables = q.reflexive s.interactions };
  }

  pub OnInteractions-ledger_append : (e : Entry) → Respects (OnInteractions Q) (ledger_append e)
  unfolding ledger_append ◌>>=◌
  OnInteractions-ledger_append e = record {
    at = λ s. record { tables = q.reflexive s.interactions };
  }

  pub OnInteractions-enqueue_command :
      (c : Command) → Respects (OnInteractions Q) (enqueue_command c)
  unfolding enqueue_command ◌>>=◌
  OnInteractions-enqueue_command c = record {
    at = λ s. record { tables = q.reflexive s.interactions };
  }

  pub OnInteractions-check :
      (r : Result StateError (Unit {0})) → Respects (OnInteractions Q) (check r)
  unfolding check
  OnInteractions-check (ok u) = record { at = λ s. record { tables = q.reflexive s.interactions } }
  OnInteractions-check (err e) = record { at = λ s. record { tables = q.reflexive s.interactions } }

  pub OnInteractions-cas_session_wheel :
      (id v : ℕ) (w : Wheel) (t : Option ℕ)
      → Respects (OnInteractions Q) (cas_session_wheel id v w t)
  unfolding cas_session_wheel
  OnInteractions-cas_session_wheel id v w t =
      search (respects_rules, OnInteractions-preorder, OnInteractions-put_session) depth 30

  pub OnInteractions-set_session_kind :
      (id : ℕ) (k : ConversationKind) → Respects (OnInteractions Q) (set_session_kind id k)
  unfolding set_session_kind ◌>>=◌
  OnInteractions-set_session_kind id k = record {
    at = λ s. record { tables = q.reflexive s.interactions };
  }

  pub OnInteractions-cas_task :
      (id v : ℕ) (f : Task → Task) → Respects (OnInteractions Q) (cas_task id v f)
  unfolding cas_task
  OnInteractions-cas_task id v f =
      search (respects_rules, OnInteractions-preorder, OnInteractions-put_task) depth 30

  pub OnInteractions-insert_task :
      (id : ℕ) (t : Task) → Respects (OnInteractions Q) (insert_task id t)
  unfolding insert_task
  OnInteractions-insert_task id t =
      search (respects_rules, OnInteractions-preorder, OnInteractions-put_task) depth 30

pub ruleset interaction_rules = (
  respects_rules, OnInteractions-preorder, OnInteractions-cas_task, OnInteractions-insert_task,
  OnInteractions-get_session, OnInteractions-get_task, OnInteractions-get_environment,
  OnInteractions-get_project, OnInteractions-get_attempt, OnInteractions-get_interaction,
  OnInteractions-active_task_of_project, OnInteractions-next_queued_task,
  OnInteractions-append_event, OnInteractions-insert_attempt, OnInteractions-update_attempt,
  OnInteractions-ledger_append, OnInteractions-enqueue_command, OnInteractions-check,
  OnInteractions-cas_session_wheel, OnInteractions-set_session_kind,
)
