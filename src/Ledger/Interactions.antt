-- ===== src/Ledger/Interactions.antt =====
-- app/app/application/workbench/interactions.py: an answer or a cancellation, and the commands that
-- follow it. Each method commits the ledger's transaction first and enqueues in one of its own.
-- `request_id` is what the `prompt` column of the row names; the numbers of two kinds of questions
-- stand for their texts.
use investment_backend.Base.{ℕ, Bool, false, ◌||◌, Option, none, some, ◌==◌, if◌then◌else◌}
use investment_backend.Base.Exec.{pure, when, maybe, ◌>>=◌, ◌>>◌, transaction}
use investment_backend.States.{TaskState, queued, same_task_state}
use investment_backend.Store.{
  Interaction, InteractionKind, resource, other_kind, Response, Decided, given, word_answer,
  word_decline, task_drive, approval_respond, turn_interrupt, Action, get_session, get_task,
  get_interaction, enqueue_command,
}
use investment_backend.Ledger.Answers.{respond_interaction}
use investment_backend.Ledger.Cancel.{Cancellation, request_cancel}

abbrev pub tool_approval : ℕ
tool_approval = 1

abbrev pub question : ℕ
question = 2

abbrev pub is_queued : Option (TaskState × ℕ) → Bool
is_queued none = false
is_queued (some result) = same_task_state result.0 queued

-- `it["kind"] in ("tool_approval", "question")`
abbrev pub is_relayed : InteractionKind → Bool
is_relayed resource = false
is_relayed (other_kind k) = k == tool_approval || k == question

-- `decision or ("answer" if it["kind"] == "question" else "decline")`
abbrev pub decided : InteractionKind → Option ℕ → Decided
decided kind (some decision) = given decision
decided resource none = word_decline
decided (other_kind k) none = if k == question then word_answer else word_decline

-- The first `if` of `answer_interaction`
unfoldable pub drive_on : Interaction → Option (TaskState × ℕ) → Action Unit
drive_on it result = maybe it.task_id (pure tt) (λ task_id. when (is_queued result) (do
  session ← get_session it.session_id none
  transaction (
      enqueue_command (record {
        session_id = it.session_id;
        sandbox_id = session.sandbox_id;
        body = task_drive task_id false;
      }))))

-- The second one
unfoldable pub pass_on : Interaction → Option ℕ → Option ℕ → Response → Action Unit
pass_on it request_id decision response = maybe request_id (pure tt) (λ request.
    when (is_relayed it.kind) (do
      session ← get_session it.session_id none
      transaction (
          enqueue_command (record {
            session_id = it.session_id;
            sandbox_id = session.sandbox_id;
            body = approval_respond request (decided it.kind decision) response;
          }))))

-- `answer_interaction`
unfoldable pub answer_interaction :
    (ℕ → ℕ)
    → ℕ
    → ℕ
    → Response
    → ℕ
    → Option ℕ
    → Option ℕ
    → Option ℕ
    → ℕ
    → Action (Option (TaskState × ℕ))
unfolding respond_interaction drive_on pass_on
answer_interaction sha256 iid token response owner subject_digest decision request_id now = do
  it ← get_interaction iid
  result ← respond_interaction sha256 iid token response owner subject_digest queued now
  drive_on it result
  pass_on it request_id decision response
  pure result

-- The `if` of `cancel_task`
unfoldable pub interrupt_turn : ℕ → Cancellation → Action Unit
interrupt_turn task_id result = when result.interrupt (do
  task ← get_task task_id none
  talk ← get_session task.session_id none
  transaction (
      enqueue_command (record {
        session_id = task.session_id;
        sandbox_id = talk.sandbox_id;
        body = turn_interrupt task_id;
      })))

-- `cancel_task`
unfoldable pub cancel_task : ℕ → ℕ → ℕ → Action Cancellation
unfolding request_cancel interrupt_turn
cancel_task task_id owner now = do
  result ← request_cancel task_id owner now
  interrupt_turn task_id result
  pure result
