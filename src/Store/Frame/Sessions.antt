-- ===== src/Store/Frame/Sessions.antt =====
-- The queries of app/app/infrastructure/workbench/repository.py that leave the table of sessions alone.
use investment_backend.Base.{ℕ, Option, Dict}
use investment_backend.Base.Exec.{Result, ok, err, ◌>>=◌}
use investment_backend.Base.Exec.Respects.{IsPreorder, Respects, respects_rules}
use investment_backend.States.{TaskState, StateError}
use investment_backend.Store.Rows.{
  Session, Task, Attempt, Interaction, Response, EventBody, Entry, Command, Store,
}
use investment_backend.Store.Queries.{
  get_session, get_task, get_environment, get_project, get_attempt, get_interaction,
  active_task_of_project, next_queued_task, cas_task, insert_task, put_task, put_attempt,
  put_interaction, append_event, insert_attempt, update_attempt, insert_interaction,
  consume_interaction, cancel_pending_interactions, ledger_append, enqueue_command, check,
}

-- The relation holds between the tables of sessions, before and after.
pub record OnSessions (Q : Dict Session → Dict Session → Type 0) (s t : Store) : Type 0 where
  pub tables : Q s.sessions t.sessions

module _ {Q : Dict Session → Dict Session → Type 0} (q : IsPreorder Q) where
  pub OnSessions-preorder : IsPreorder (OnSessions Q)
  OnSessions-preorder = record {
    reflexive = λ s. record { tables = q.reflexive s.sessions };
    transitive = λ s t u a b. record {
      tables = q.transitive s.sessions t.sessions u.sessions a.tables b.tables;
    };
  }

  OnSessions-put_task : (id : ℕ) (row : Task) → Respects (OnSessions Q) (put_task id row)
  unfolding put_task ◌>>=◌
  OnSessions-put_task id row = record { at = λ s. record { tables = q.reflexive s.sessions } }

  OnSessions-put_attempt : (id : ℕ) (row : Attempt) → Respects (OnSessions Q) (put_attempt id row)
  unfolding put_attempt ◌>>=◌
  OnSessions-put_attempt id row = record { at = λ s. record { tables = q.reflexive s.sessions } }

  OnSessions-put_interaction :
      (id : ℕ) (row : Interaction) → Respects (OnSessions Q) (put_interaction id row)
  unfolding put_interaction ◌>>=◌
  OnSessions-put_interaction id row = record {
    at = λ s. record { tables = q.reflexive s.sessions };
  }

  pub OnSessions-get_session : (id : ℕ) (o : Option ℕ) → Respects (OnSessions Q) (get_session id o)
  unfolding get_session
  OnSessions-get_session id o = search (respects_rules, OnSessions-preorder) depth 30

  pub OnSessions-get_task : (id : ℕ) (o : Option ℕ) → Respects (OnSessions Q) (get_task id o)
  unfolding get_task
  OnSessions-get_task id o = search (respects_rules, OnSessions-preorder) depth 30

  pub OnSessions-get_environment :
      (id : ℕ) (o : Option ℕ) → Respects (OnSessions Q) (get_environment id o)
  unfolding get_environment
  OnSessions-get_environment id o = search (respects_rules, OnSessions-preorder) depth 30

  pub OnSessions-get_project : (id : ℕ) → Respects (OnSessions Q) (get_project id)
  unfolding get_project
  OnSessions-get_project id = search (respects_rules, OnSessions-preorder) depth 30

  pub OnSessions-get_attempt : (id : ℕ) → Respects (OnSessions Q) (get_attempt id)
  unfolding get_attempt
  OnSessions-get_attempt id = search (respects_rules, OnSessions-preorder) depth 30

  pub OnSessions-get_interaction : (id : ℕ) → Respects (OnSessions Q) (get_interaction id)
  unfolding get_interaction
  OnSessions-get_interaction id = search (respects_rules, OnSessions-preorder) depth 30

  pub OnSessions-active_task_of_project :
      (p : ℕ) → Respects (OnSessions Q) (active_task_of_project p)
  unfolding active_task_of_project
  OnSessions-active_task_of_project p = search (respects_rules, OnSessions-preorder) depth 30

  pub OnSessions-next_queued_task : (p : ℕ) → Respects (OnSessions Q) (next_queued_task p)
  unfolding next_queued_task
  OnSessions-next_queued_task p = search (respects_rules, OnSessions-preorder) depth 30

  pub OnSessions-append_event :
      (id : ℕ) (b : EventBody) → Respects (OnSessions Q) (append_event id b)
  unfolding append_event ◌>>=◌
  OnSessions-append_event id b = record { at = λ s. record { tables = q.reflexive s.sessions } }

  pub OnSessions-insert_attempt :
      (id : ℕ) (a : Attempt) → Respects (OnSessions Q) (insert_attempt id a)
  unfolding insert_attempt
  OnSessions-insert_attempt id a =
      search (respects_rules, OnSessions-preorder, OnSessions-put_attempt) depth 30

  pub OnSessions-update_attempt :
      (id : ℕ) (f : Attempt → Attempt) → Respects (OnSessions Q) (update_attempt id f)
  unfolding update_attempt ◌>>=◌
  OnSessions-update_attempt id f = record { at = λ s. record { tables = q.reflexive s.sessions } }

  pub OnSessions-insert_interaction :
      (id : ℕ) (i : Interaction) → Respects (OnSessions Q) (insert_interaction id i)
  unfolding insert_interaction
  OnSessions-insert_interaction id i =
      search (respects_rules, OnSessions-preorder, OnSessions-put_interaction) depth 30

  pub OnSessions-consume_interaction :
      (id : ℕ) (r : Response) (now : ℕ) → Respects (OnSessions Q) (consume_interaction id r now)
  unfolding consume_interaction ◌>>=◌
  OnSessions-consume_interaction id r now = record {
    at = λ s. record { tables = q.reflexive s.sessions };
  }

  pub OnSessions-cancel_pending_interactions :
      (id : ℕ) (ended : TaskState) → Respects (OnSessions Q) (cancel_pending_interactions id ended)
  unfolding cancel_pending_interactions ◌>>=◌
  OnSessions-cancel_pending_interactions id ended = record {
    at = λ s. record { tables = q.reflexive s.sessions };
  }

  pub OnSessions-ledger_append : (e : Entry) → Respects (OnSessions Q) (ledger_append e)
  unfolding ledger_append ◌>>=◌
  OnSessions-ledger_append e = record { at = λ s. record { tables = q.reflexive s.sessions } }

  pub OnSessions-enqueue_command : (c : Command) → Respects (OnSessions Q) (enqueue_command c)
  unfolding enqueue_command ◌>>=◌
  OnSessions-enqueue_command c = record { at = λ s. record { tables = q.reflexive s.sessions } }

  pub OnSessions-check : (r : Result StateError (Unit {0})) → Respects (OnSessions Q) (check r)
  unfolding check
  OnSessions-check (ok u) = record { at = λ s. record { tables = q.reflexive s.sessions } }
  OnSessions-check (err e) = record { at = λ s. record { tables = q.reflexive s.sessions } }

  pub OnSessions-cas_task : (id v : ℕ) (f : Task → Task) → Respects (OnSessions Q) (cas_task id v f)
  unfolding cas_task
  OnSessions-cas_task id v f =
      search (respects_rules, OnSessions-preorder, OnSessions-put_task) depth 30

  pub OnSessions-insert_task : (id : ℕ) (t : Task) → Respects (OnSessions Q) (insert_task id t)
  unfolding insert_task
  OnSessions-insert_task id t =
      search (respects_rules, OnSessions-preorder, OnSessions-put_task) depth 30

pub ruleset session_rules = (
  respects_rules, OnSessions-preorder, OnSessions-get_session, OnSessions-get_task,
  OnSessions-get_environment, OnSessions-get_project, OnSessions-get_attempt,
  OnSessions-get_interaction, OnSessions-active_task_of_project, OnSessions-next_queued_task,
  OnSessions-append_event, OnSessions-insert_attempt, OnSessions-update_attempt,
  OnSessions-insert_interaction, OnSessions-consume_interaction,
  OnSessions-cancel_pending_interactions, OnSessions-ledger_append, OnSessions-enqueue_command,
  OnSessions-check, OnSessions-cas_task, OnSessions-insert_task,
)
