-- ===== src/Store/Frame/Tasks.antt =====
-- The queries of app/app/infrastructure/workbench/repository.py that leave the table of tasks alone.
use investment_backend.Base.{ℕ, Option, Dict}
use investment_backend.Base.Exec.{Result, ok, err, ◌>>=◌}
use investment_backend.Base.Exec.Respects.{IsPreorder, Respects, respects_rules}
use investment_backend.States.{TaskState, Wheel, StateError}
use investment_backend.Store.Rows.{
  Session, Task, Attempt, Interaction, ConversationKind, Response, EventBody, Entry, Command, Store,
}
use investment_backend.Store.Queries.{
  get_session, get_task, get_environment, get_project, get_attempt, get_interaction,
  active_task_of_project, next_queued_task, cas_session_wheel, put_session, put_attempt,
  put_interaction, set_session_kind, append_event, insert_attempt, update_attempt,
  insert_interaction, consume_interaction, cancel_pending_interactions, ledger_append,
  enqueue_command, check,
}

-- The relation holds between the tables of tasks, before and after.
pub record OnTasks (Q : Dict Task → Dict Task → Type 0) (s t : Store) : Type 0 where
  pub tables : Q s.tasks t.tasks

module _ {Q : Dict Task → Dict Task → Type 0} (q : IsPreorder Q) where
  pub OnTasks-preorder : IsPreorder (OnTasks Q)
  OnTasks-preorder = record {
    reflexive = λ s. record { tables = q.reflexive s.tasks };
    transitive =
        λ s t u a b. record { tables = q.transitive s.tasks t.tasks u.tasks a.tables b.tables };
  }

  OnTasks-put_session : (id : ℕ) (row : Session) → Respects (OnTasks Q) (put_session id row)
  unfolding put_session ◌>>=◌
  OnTasks-put_session id row = record { at = λ s. record { tables = q.reflexive s.tasks } }

  OnTasks-put_attempt : (id : ℕ) (row : Attempt) → Respects (OnTasks Q) (put_attempt id row)
  unfolding put_attempt ◌>>=◌
  OnTasks-put_attempt id row = record { at = λ s. record { tables = q.reflexive s.tasks } }

  OnTasks-put_interaction :
      (id : ℕ) (row : Interaction) → Respects (OnTasks Q) (put_interaction id row)
  unfolding put_interaction ◌>>=◌
  OnTasks-put_interaction id row = record { at = λ s. record { tables = q.reflexive s.tasks } }

  pub OnTasks-get_session : (id : ℕ) (o : Option ℕ) → Respects (OnTasks Q) (get_session id o)
  unfolding get_session
  OnTasks-get_session id o = search (respects_rules, OnTasks-preorder) depth 30

  pub OnTasks-get_task : (id : ℕ) (o : Option ℕ) → Respects (OnTasks Q) (get_task id o)
  unfolding get_task
  OnTasks-get_task id o = search (respects_rules, OnTasks-preorder) depth 30

  pub OnTasks-get_environment :
      (id : ℕ) (o : Option ℕ) → Respects (OnTasks Q) (get_environment id o)
  unfolding get_environment
  OnTasks-get_environment id o = search (respects_rules, OnTasks-preorder) depth 30

  pub OnTasks-get_project : (id : ℕ) → Respects (OnTasks Q) (get_project id)
  unfolding get_project
  OnTasks-get_project id = search (respects_rules, OnTasks-preorder) depth 30

  pub OnTasks-get_attempt : (id : ℕ) → Respects (OnTasks Q) (get_attempt id)
  unfolding get_attempt
  OnTasks-get_attempt id = search (respects_rules, OnTasks-preorder) depth 30

  pub OnTasks-get_interaction : (id : ℕ) → Respects (OnTasks Q) (get_interaction id)
  unfolding get_interaction
  OnTasks-get_interaction id = search (respects_rules, OnTasks-preorder) depth 30

  pub OnTasks-active_task_of_project : (p : ℕ) → Respects (OnTasks Q) (active_task_of_project p)
  unfolding active_task_of_project
  OnTasks-active_task_of_project p = search (respects_rules, OnTasks-preorder) depth 30

  pub OnTasks-next_queued_task : (p : ℕ) → Respects (OnTasks Q) (next_queued_task p)
  unfolding next_queued_task
  OnTasks-next_queued_task p = search (respects_rules, OnTasks-preorder) depth 30

  pub OnTasks-append_event : (id : ℕ) (b : EventBody) → Respects (OnTasks Q) (append_event id b)
  unfolding append_event ◌>>=◌
  OnTasks-append_event id b = record { at = λ s. record { tables = q.reflexive s.tasks } }

  pub OnTasks-insert_attempt : (id : ℕ) (a : Attempt) → Respects (OnTasks Q) (insert_attempt id a)
  unfolding insert_attempt
  OnTasks-insert_attempt id a =
      search (respects_rules, OnTasks-preorder, OnTasks-put_attempt) depth 30

  pub OnTasks-update_attempt :
      (id : ℕ) (f : Attempt → Attempt) → Respects (OnTasks Q) (update_attempt id f)
  unfolding update_attempt ◌>>=◌
  OnTasks-update_attempt id f = record { at = λ s. record { tables = q.reflexive s.tasks } }

  pub OnTasks-insert_interaction :
      (id : ℕ) (i : Interaction) → Respects (OnTasks Q) (insert_interaction id i)
  unfolding insert_interaction
  OnTasks-insert_interaction id i =
      search (respects_rules, OnTasks-preorder, OnTasks-put_interaction) depth 30

  pub OnTasks-consume_interaction :
      (id : ℕ) (r : Response) (now : ℕ) → Respects (OnTasks Q) (consume_interaction id r now)
  unfolding consume_interaction ◌>>=◌
  OnTasks-consume_interaction id r now = record {
    at = λ s. record { tables = q.reflexive s.tasks };
  }

  pub OnTasks-cancel_pending_interactions :
      (id : ℕ) (ended : TaskState) → Respects (OnTasks Q) (cancel_pending_interactions id ended)
  unfolding cancel_pending_interactions ◌>>=◌
  OnTasks-cancel_pending_interactions id ended = record {
    at = λ s. record { tables = q.reflexive s.tasks };
  }

  pub OnTasks-ledger_append : (e : Entry) → Respects (OnTasks Q) (ledger_append e)
  unfolding ledger_append ◌>>=◌
  OnTasks-ledger_append e = record { at = λ s. record { tables = q.reflexive s.tasks } }

  pub OnTasks-enqueue_command : (c : Command) → Respects (OnTasks Q) (enqueue_command c)
  unfolding enqueue_command ◌>>=◌
  OnTasks-enqueue_command c = record { at = λ s. record { tables = q.reflexive s.tasks } }

  pub OnTasks-check : (r : Result StateError (Unit {0})) → Respects (OnTasks Q) (check r)
  unfolding check
  OnTasks-check (ok u) = record { at = λ s. record { tables = q.reflexive s.tasks } }
  OnTasks-check (err e) = record { at = λ s. record { tables = q.reflexive s.tasks } }

  pub OnTasks-cas_session_wheel :
      (id v : ℕ) (w : Wheel) (t : Option ℕ) → Respects (OnTasks Q) (cas_session_wheel id v w t)
  unfolding cas_session_wheel
  OnTasks-cas_session_wheel id v w t =
      search (respects_rules, OnTasks-preorder, OnTasks-put_session) depth 30

  pub OnTasks-set_session_kind :
      (id : ℕ) (k : ConversationKind) → Respects (OnTasks Q) (set_session_kind id k)
  unfolding set_session_kind ◌>>=◌
  OnTasks-set_session_kind id k = record { at = λ s. record { tables = q.reflexive s.tasks } }

pub ruleset task_rules = (
  respects_rules, OnTasks-preorder, OnTasks-get_session, OnTasks-get_task, OnTasks-get_environment,
  OnTasks-get_project, OnTasks-get_attempt, OnTasks-get_interaction, OnTasks-active_task_of_project,
  OnTasks-next_queued_task, OnTasks-append_event, OnTasks-insert_attempt, OnTasks-update_attempt,
  OnTasks-insert_interaction, OnTasks-consume_interaction, OnTasks-cancel_pending_interactions,
  OnTasks-ledger_append, OnTasks-enqueue_command, OnTasks-check, OnTasks-cas_session_wheel,
  OnTasks-set_session_kind,
)
