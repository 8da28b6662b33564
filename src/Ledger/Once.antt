-- ===== src/Ledger/Once.antt =====
-- An answer is given once: a closed interaction keeps its row under every method of
-- app/app/application/workbench/ledger.py.
use investment_backend.Base.{ℕ, Option, none, some}
use investment_backend.Base.Int.{ℤ}
use investment_backend.Base.Exec.Respects.{Respects}
use investment_backend.States.{TaskState, WaitingReason, AttemptState, AttemptRole}
use investment_backend.Store.{
  Session, Store, Reason, Task, Pack, Profile, builtin, knowbot, Decision, Amount, malformed,
  amount, Response, InteractionKind, resource, other_kind,
}
use investment_backend.Store.Frame.{OnInteractions, interaction_rules}
use investment_backend.Store.Closed.{
  KeepsClosed, KeepsClosed-preorder, insert_interaction-KeepsClosed,
  consume_interaction-KeepsClosed, cancel_pending_interactions-KeepsClosed,
}
use investment_backend.Ledger.Moves.{start_next_queued, settle, transition}
use investment_backend.Ledger.Intake.{HandoverRequest, pack_of_request, start_task, handover}
use investment_backend.Ledger.Attempts.{Report, open_attempt, attempt_transition}
use investment_backend.Ledger.Answers.{
  Question, open_interaction, answer_budget, answer_other, answer_by_kind, respond_interaction,
}
use investment_backend.Ledger.Cancel.{request_cancel, resume_environment}

abbrev pub KeepsAnswers : Store → Store → Type 0
KeepsAnswers = OnInteractions KeepsClosed

ruleset answer_rules = (
  interaction_rules, KeepsClosed-preorder, insert_interaction-KeepsClosed,
  consume_interaction-KeepsClosed, cancel_pending_interactions-KeepsClosed,
)

start_next_queued-KeepsAnswers : (project : ℕ) → Respects KeepsAnswers (start_next_queued project)
unfolding start_next_queued
start_next_queued-KeepsAnswers project = search answer_rules depth 40

settle-KeepsAnswers :
    (id : ℕ) (task : Task) (target : TaskState) (reason : Option Reason)
    → Respects KeepsAnswers (settle id task target reason)
unfolding settle
settle-KeepsAnswers id task target reason =
    search (answer_rules, start_next_queued-KeepsAnswers) depth 40

pub transition-KeepsAnswers :
    (id : ℕ) (target : TaskState) (version : Option ℕ) (why : Option WaitingReason)
    (reason : Option Reason) (result : Option ℕ)
    → Respects KeepsAnswers (transition id target version why reason result)
unfolding transition
transition-KeepsAnswers id target version why reason result =
    search (answer_rules, settle-KeepsAnswers) depth 40

start_task-KeepsAnswers :
    (req : HandoverRequest) (owner : ℕ) (session : Session) (id : ℕ) (behind : Option ℕ)
    → Respects KeepsAnswers (start_task req owner session id behind)
unfolding start_task
start_task-KeepsAnswers req owner session id behind = search answer_rules depth 30

pack_of_request-KeepsAnswers :
    (snapshot : Option Pack) (owner : ℕ) (p : Profile)
    → Respects KeepsAnswers (pack_of_request snapshot owner p)
unfolding pack_of_request
pack_of_request-KeepsAnswers (some pack) owner p = search answer_rules depth 30
pack_of_request-KeepsAnswers none owner (builtin k) = search answer_rules depth 30
pack_of_request-KeepsAnswers none owner (knowbot k) = search answer_rules depth 30

pub handover-KeepsAnswers :
    (req : HandoverRequest) (owner tenant : ℕ) (given : Option ℕ) (snapshot : Option Pack)
    (current id : ℕ)
    → Respects KeepsAnswers (handover req owner tenant given snapshot current id)
unfolding handover
handover-KeepsAnswers req owner tenant given snapshot current id =
    search (answer_rules, start_task-KeepsAnswers, pack_of_request-KeepsAnswers) depth 40

pub open_attempt-KeepsAnswers :
    (task : ℕ) (step : Option ℕ) (role : AttemptRole) (reserve : ℤ) (id : ℕ)
    → Respects KeepsAnswers (open_attempt task step role reserve id)
unfolding open_attempt
open_attempt-KeepsAnswers task step role reserve id = search answer_rules depth 40

pub attempt_transition-KeepsAnswers :
    (id : ℕ) (target : AttemptState) (r : Report) (now iid token hash : ℕ)
    → Respects KeepsAnswers (attempt_transition id target r now iid token hash)
unfolding attempt_transition
attempt_transition-KeepsAnswers id target r now iid token hash = search answer_rules depth 40

pub open_interaction-KeepsAnswers :
    (sha256 : ℕ → ℕ) (task : ℕ) (q : Question) (iid token now : ℕ)
    → Respects KeepsAnswers (open_interaction sha256 task q iid token now)
unfolding open_interaction
open_interaction-KeepsAnswers sha256 task q iid token now = search answer_rules depth 40

answer_budget-KeepsAnswers :
    (owner id : ℕ) (task : Task) (d : Decision) (a : Amount)
    → Respects KeepsAnswers (answer_budget owner id task d a)
unfolding answer_budget
answer_budget-KeepsAnswers owner id task Decision.topup (amount x) =
    search (answer_rules, transition-KeepsAnswers) depth 30
answer_budget-KeepsAnswers owner id task Decision.topup malformed = search answer_rules depth 30
answer_budget-KeepsAnswers owner id task _ _ =
    search (answer_rules, transition-KeepsAnswers) depth 30

answer_other-KeepsAnswers :
    (iid id : ℕ) (task : Task) (d : Decision) (resume_to : TaskState)
    → Respects KeepsAnswers (answer_other iid id task d resume_to)
unfolding answer_other
answer_other-KeepsAnswers iid id task Decision.stop resume_to =
    search (answer_rules, transition-KeepsAnswers) depth 30
answer_other-KeepsAnswers iid id task _ resume_to =
    search (answer_rules, transition-KeepsAnswers) depth 30

answer_by_kind-KeepsAnswers :
    (kind : InteractionKind) (owner iid id : ℕ) (task : Task) (r : Response) (resume_to : TaskState)
    → Respects KeepsAnswers (answer_by_kind kind owner iid id task r resume_to)
unfolding answer_by_kind
answer_by_kind-KeepsAnswers resource owner iid id task r resume_to =
    answer_budget-KeepsAnswers owner id task r.decision r.amount
answer_by_kind-KeepsAnswers (other_kind k) owner iid id task r resume_to =
    answer_other-KeepsAnswers iid id task r.decision resume_to

pub respond_interaction-KeepsAnswers :
    (sha256 : ℕ → ℕ) (iid token : ℕ) (r : Response) (owner : ℕ) (digest : Option ℕ)
    (resume_to : TaskState) (now : ℕ)
    → Respects KeepsAnswers (respond_interaction sha256 iid token r owner digest resume_to now)
unfolding respond_interaction
respond_interaction-KeepsAnswers sha256 iid token r owner digest resume_to now =
    search (answer_rules, answer_by_kind-KeepsAnswers) depth 40

pub request_cancel-KeepsAnswers :
    (id owner now : ℕ) → Respects KeepsAnswers (request_cancel id owner now)
unfolding request_cancel
request_cancel-KeepsAnswers id owner now = search (answer_rules, transition-KeepsAnswers) depth 40

pub resume_environment-KeepsAnswers :
    (id session environment : ℕ) → Respects KeepsAnswers (resume_environment id session environment)
unfolding resume_environment
resume_environment-KeepsAnswers id session environment =
    search (answer_rules, transition-KeepsAnswers) depth 40
