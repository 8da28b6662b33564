-- ===== src/Ledger/Answers.antt =====
-- `open_interaction` and `respond_interaction`: a question stops the task, and its answer is
-- consumed once (app/app/application/workbench/ledger.py). `sha256` is the digest of
-- app/app/domain/workbench/tokens.py `token_hash`.
use investment_backend.Base.{ℕ, ◌+◌, not, ◌&&◌, Option, none, some, ◌==◌, is_some, opt_eq}
use investment_backend.Base.Int.{ℤ, pos, ◌+ℤ◌}
use investment_backend.Base.Exec.{pure, raise, raise_if, maybe, ◌>>=◌, ◌>>◌, transaction}
use investment_backend.States.{TaskState, queued, waiting, WaitingReason, check_task_transition}
use investment_backend.Store.{
  Task, Reason, Interaction, InteractionKind, resource, other_kind, pending, Response, Decision,
  Amount, malformed, amount, task_state, interaction_opened, interaction_consumed, EntryKind,
  interaction_rejected, token_mismatch, subject_digest_mismatch, already_closed, not_current_wait,
  moved_on, invalid_operation, validation_error, is_invalid_budget, Action, get_session, get_task,
  get_interaction, cas_task, append_event, insert_interaction, consume_interaction, ledger_append,
  check,
}
use investment_backend.Ledger.Moves.{transition}
use investment_backend.Ledger.Attempts.{paused}

-- What the caller of `open_interaction` asks.
pub record Question : Type 0 where
  pub kind : InteractionKind
  pub waiting_reason : WaitingReason
  pub attempt_id : Option ℕ
  pub subject_digest : Option ℕ
  pub ttl : ℕ

-- The row of a question on a task at `version`.
unfoldable pub question_row : ℕ → Task → Question → ℕ → ℕ → Interaction
question_row task_id task q token_hash now = record {
  session_id = task.session_id;
  task_id = some task_id;
  attempt_id = q.attempt_id;
  kind = q.kind;
  subject_digest = q.subject_digest;
  token_hash = token_hash;
  target_state_version = some (task.state_version + 1);
  expires_at = some (now + q.ttl);
  status = pending;
  response = none;
}

-- `open_interaction`
unfoldable pub open_interaction : (ℕ → ℕ) → ℕ → Question → ℕ → ℕ → ℕ → Action ℕ
unfolding question_row paused
open_interaction sha256 task_id q iid token now = transaction (do
  task ← get_task task_id none
  check (check_task_transition task.state waiting (some q.waiting_reason))
  insert_interaction iid (question_row task_id task q (sha256 token) now)
  cas_task task_id task.state_version (paused q.waiting_reason iid)
  append_event task.session_id (task_state task_id task.state waiting (some q.waiting_reason) none)
  append_event task.session_id (interaction_opened iid q.kind token)
  pure iid)

-- `budget.limit = (budget.limit or Decimal("0")) + …`
unfoldable pub topped_up : ℤ → Task → Task
topped_up x t = record t {
  budget = record t.budget {
    limit = some (elim t.budget.limit [ none ↦ pos 0 | some limit ↦ limit ] +ℤ x);
  };
  active_interaction_id = none;
}

unfoldable pub answered : Task → Task
answered t = record t { active_interaction_id = none }

-- The task goes on in `target`; the question is closed on its row first.
unfoldable pub resume_with : ℕ → Task → TaskState → Reason → Action (Option (TaskState × ℕ))
unfolding answered
resume_with task_id task target reason = do
  cas_task task_id task.state_version answered
  done ← transition task_id target none none (some reason) none
  pure (some done)

-- A question about the budget: more money, or the end.
unfoldable pub answer_budget : ℕ → ℕ → Task → Decision → Amount → Action (Option (TaskState × ℕ))
unfolding topped_up resume_with
answer_budget owner task_id task Decision.topup (amount x) = do
  raise_if (is_invalid_budget task.budget) validation_error
  cas_task task_id task.state_version (topped_up x)
  ledger_append (record {
    task_id = task_id;
    attempt_id = none;
    entry = EntryKind.topup;
    amount = x;
    actor_id = some owner;
  })
  done ← transition task_id queued none none (some (Reason.topup x)) none
  pure (some done)
answer_budget owner task_id task Decision.topup malformed = raise invalid_operation
answer_budget owner task_id task _ _ =
    resume_with task_id task TaskState.failed Reason.declined_topup

-- Any other question: stop, or go on in `resume_to`.
unfoldable pub answer_other : ℕ → ℕ → Task → Decision → TaskState → Action (Option (TaskState × ℕ))
unfolding resume_with
answer_other iid task_id task Decision.stop resume_to =
    resume_with task_id task TaskState.failed (Reason.user_stopped iid)
answer_other iid task_id task _ resume_to = resume_with task_id task resume_to (Reason.answered iid)

unfoldable pub answer_by_kind :
    InteractionKind → ℕ → ℕ → ℕ → Task → Response → TaskState → Action (Option (TaskState × ℕ))
unfolding answer_budget answer_other
answer_by_kind resource owner iid task_id task r resume_to =
    answer_budget owner task_id task r.decision r.amount
answer_by_kind (other_kind k) owner iid task_id task r resume_to =
    answer_other iid task_id task r.decision resume_to

-- The task's side of an answer: the question is the one that the task waits for now.
unfoldable pub answer_task :
    ℕ → ℕ → Interaction → Response → TaskState → ℕ → Action (Option (TaskState × ℕ))
unfolding answer_by_kind
answer_task owner iid it response resume_to task_id = do
  task ← get_task task_id none
  raise_if (not (opt_eq task.active_interaction_id (some iid)))
      (interaction_rejected not_current_wait)
  raise_if
      (is_some it.target_state_version
        && not (opt_eq (some task.state_version) it.target_state_version))
      (interaction_rejected moved_on)
  append_event task.session_id (interaction_consumed iid it.kind response)
  answer_by_kind it.kind owner iid task_id task response resume_to

-- `respond_interaction`: the new state of the task, if the question belongs to one.
unfoldable pub respond_interaction :
    (ℕ → ℕ) → ℕ → ℕ → Response → ℕ → Option ℕ → TaskState → ℕ → Action (Option (TaskState × ℕ))
unfolding answer_task
respond_interaction sha256 iid token response owner subject_digest resume_to now = transaction (do
  it ← get_interaction iid
  session ← get_session it.session_id (some owner)
  raise_if (not (sha256 token == it.token_hash)) (interaction_rejected token_mismatch)
  raise_if (is_some it.subject_digest && not (opt_eq subject_digest it.subject_digest))
      (interaction_rejected subject_digest_mismatch)
  taken ← consume_interaction iid response now
  raise_if (not taken) (interaction_rejected already_closed)
  maybe it.task_id
      (do append_event it.session_id (interaction_consumed iid it.kind response); pure none)
      (answer_task owner iid it response resume_to))
