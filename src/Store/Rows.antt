-- ===== src/Store/Rows.antt =====
-- The rows of the workbench's tables, as the ledger reads and writes them
-- (app/app/domain/workbench/models.py and the migrations under app/alembic/versions). An id, a
-- digest, a token and a time are numbers: the code compares them and nothing else. Amounts are
-- integers of 10⁻⁶ of the currency, the precision of the column `numeric(18, 6)`.
use investment_backend.Base.{ℕ, Bool, false, Option, none, some, List, Dict}
use investment_backend.Base.Int.{ℤ, pos, leb_ℤ, ◌-ℤ◌}
use investment_backend.States.{
  TaskState, WaitingReason, AttemptState, AttemptRole, Wheel, StateError,
}

-- app/app/domain/workbench/models.py `Budget`
pub record Budget : Type 0 where
  pub currency : ℕ
  pub limit : Option ℤ
  pub reserved : ℤ
  pub used : ℤ

-- `Budget.available`: `none` is `Decimal("Infinity")`.
unfoldable pub available : Budget → Option ℤ
available b = elim b.limit [ none ↦ none | some limit ↦ some (limit -ℤ b.reserved -ℤ b.used) ]

-- What the constructor of `Budget` refuses: a limit that is not positive
unfoldable pub is_invalid_budget : Budget → Bool
is_invalid_budget b = elim b.limit [ none ↦ false | some limit ↦ leb_ℤ limit (pos 0) ]

-- `ConversationKind` of app/app/domain/workbench/projects.py
pub data ConversationKind : Type 0 where
  chat work expert : ConversationKind

-- An expert's id: of a built-in pack, or `knowbot:<id>@<version>` (`is_knowbot` of
-- app/app/domain/workbench/knowbots.py tells them apart by the prefix).
pub data Profile : Type 0 where
  builtin : ℕ → Profile
  knowbot : ℕ → Profile

-- The `reason` dicts that the ledger itself passes to `transition`, and any other.
pub data Reason : Type 0 where
  topup : ℤ → Reason
  declined_topup : Reason
  answered : ℕ → Reason
  user_stopped : ℕ → Reason
  by_user : Reason
  environment_ready : ℕ → Reason
  other_reason : ℕ → Reason

pub record Session : Type 0 where
  pub owner_actor_id : ℕ
  pub environment_id : ℕ
  pub sandbox_id : ℕ
  pub project_id : Option ℕ
  pub thread_id : Option ℕ
  pub kind : ConversationKind
  pub wheel : Wheel
  pub state_version : ℕ
  pub active_task_id : Option ℕ

-- `queued_behind` is `original_input.client_context.queued_behind`.
pub record Task : Type 0 where
  pub session_id : ℕ
  pub owner_actor_id : ℕ
  pub tenant : ℕ
  pub idempotency_key : ℕ
  pub request_digest : ℕ
  pub profile_id : Profile
  pub profile_version : ℕ
  pub pack_digest : Option ℕ
  pub project_id : Option ℕ
  pub environment_id : ℕ
  pub thread_id : Option ℕ
  pub queued_behind : Option ℕ
  pub state : TaskState
  pub state_version : ℕ
  pub waiting_reason : Option WaitingReason
  pub active_attempt_id : Option ℕ
  pub active_interaction_id : Option ℕ
  pub cancel_requested_at : Option ℕ
  pub budget : Budget
  pub rejection : Option (Option Reason)
  pub terminal_result_ref : Option ℕ

pub record Attempt : Type 0 where
  pub task_id : ℕ
  pub session_id : ℕ
  pub role : AttemptRole
  pub step_id : Option ℕ
  pub status : AttemptState
  pub turn_ids : List ℕ
  pub budget_allocated : ℤ
  pub budget_consumed : ℤ
  pub started_at : Option ℕ
  pub ended_at : Option ℕ
  pub failure_code : Option ℕ
  pub retryable : Option Bool
  pub output_artifacts : List ℕ

-- The answer of the user: `decision`, and `amount` as it can be read.
pub data Decision : Type 0 where
  topup stop other_decision : Decision

-- `response.get("amount")`: missing or falsy, a text that `Decimal` refuses, or a number.
pub data Amount : Type 0 where
  no_amount : Amount
  malformed : Amount
  amount : ℤ → Amount

pub record Response : Type 0 where
  pub decision : Decision
  pub amount : Amount

-- What stands in the column `response` of a closed interaction.
pub data Closing : Type 0 where
  answer : Response → Closing
  task_ended : TaskState → Closing

pub data InteractionKind : Type 0 where
  resource : InteractionKind
  other_kind : ℕ → InteractionKind

pub data InteractionStatus : Type 0 where
  pending consumed cancelled expired : InteractionStatus

pub record Interaction : Type 0 where
  pub session_id : ℕ
  pub task_id : Option ℕ
  pub attempt_id : Option ℕ
  pub kind : InteractionKind
  pub subject_digest : Option ℕ
  pub token_hash : ℕ
  pub target_state_version : Option ℕ
  pub expires_at : Option ℕ
  pub status : InteractionStatus
  pub response : Option Closing

pub record Environment : Type 0 where
  pub owner_actor_id : ℕ
  pub online : Bool

-- A knowbot that a user has pinned: what `pack_from_pin` makes of it, `none` if the manifest does
-- not pass the checks of today.
pub record Pack : Type 0 where
  pub version : ℕ
  pub digest : ℕ

pub record Pin : Type 0 where
  pub owner_actor_id : ℕ
  pub profile_id : Profile
  pub pack : Option Pack

pub data EventBody : Type 0 where
  task_received : ℕ → Profile → Option ℕ → EventBody
  task_queued : ℕ → ℕ → EventBody
  task_dequeued : ℕ → EventBody
  task_state : ℕ → TaskState → TaskState → Option WaitingReason → Option Reason → EventBody
  cancel_requested : ℕ → EventBody
  attempt_opened : ℕ → ℕ → Option ℕ → AttemptRole → EventBody
  attempt_state : ℕ → ℕ → AttemptState → AttemptState → Option ℕ → ℤ → EventBody
  wheel_handover : ℕ → EventBody
  wheel_return : ℕ → TaskState → Option Reason → EventBody
  interaction_opened : ℕ → InteractionKind → ℕ → EventBody
  interaction_consumed : ℕ → InteractionKind → Response → EventBody
  kind_changed : ConversationKind → ConversationKind → EventBody

pub record Event : Type 0 where
  pub session_id : ℕ
  pub cursor : ℕ
  pub body : EventBody

pub data EntryKind : Type 0 where
  topup reserve consume release : EntryKind

-- A line of `workbench_budget_ledger`.
pub record Entry : Type 0 where
  pub task_id : ℕ
  pub attempt_id : Option ℕ
  pub entry : EntryKind
  pub amount : ℤ
  pub actor_id : Option ℕ

-- The decision of an `approval.respond`: the one that was given, or the word for the kind of question
pub data Decided : Type 0 where
  given : ℕ → Decided
  word_answer : Decided
  word_decline : Decided

-- The kinds of commands with their payloads: `task.drive`, with whether it says `resumed`,
-- `approval.respond` and `turn.interrupt`
pub data CommandBody : Type 0 where
  task_drive : ℕ → Bool → CommandBody
  approval_respond : ℕ → Decided → Response → CommandBody
  turn_interrupt : ℕ → CommandBody

-- A row of `workbench_commands`
pub record Command : Type 0 where
  pub session_id : ℕ
  pub sandbox_id : ℕ
  pub body : CommandBody

-- Events and outbox messages stand with the newest first.
pub record Store : Type 0 where
  pub sessions : Dict Session
  pub tasks : Dict Task
  pub attempts : Dict Attempt
  pub interactions : Dict Interaction
  pub environments : Dict Environment
  pub projects : Dict ℕ
  pub pins : List Pin
  pub events : List Event
  pub outbox : List Event
  pub entries : List Entry
  pub commands : List Command

-- Why an answer is refused (`InteractionRejected`).
pub data Refusal : Type 0 where
  token_mismatch subject_digest_mismatch already_closed not_current_wait moved_on : Refusal

-- The exceptions of app/app/domain/workbench/errors.py that the ledger raises, those of the state
-- words, the unique index's, and `Decimal`'s.
pub data Fault : Type 0 where
  not_found : Fault
  wheel_held_by_other : Fault
  idempotency_conflict : Fault
  stale_state_version : Fault
  interaction_rejected : Refusal → Fault
  budget_exhausted : Fault
  project_busy : Fault
  project_required : Fault
  environment_offline : Fault
  no_such_expert : Fault
  knowbot_invalid : Fault
  state_error : StateError → Fault
  integrity_error : Fault
  invalid_operation : Fault
  validation_error : Fault
