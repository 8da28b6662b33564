-- ===== src/Ledger/Lifecycle.antt =====
-- Every method of app/app/application/workbench/ledger.py changes the table of tasks only by adding
-- rows at RECEIVED and by edits along the transition diagram.
use investment_backend.Base.{ℕ, refl, Option, none, some}
use investment_backend.Base.Int.{ℤ}
use investment_backend.Base.Exec.Respects.{Respects, Respects-transaction}
use investment_backend.States.{
  TaskState, waiting, WaitingReason, AttemptState, AttemptRole, check_task_transition,
}
use investment_backend.Store.{
  Session, Reason, Task, Pack, Profile, builtin, knowbot, Decision, Amount, malformed, amount,
  Response, InteractionKind, resource, other_kind, insert_task,
}
use investment_backend.Store.Frame.{task_rules}
use investment_backend.Store.Evolves.{
  Grows, Evolves-preorder, cas_task-Grows, insert_task-Grows, Unmoved-preorder,
}
use investment_backend.Store.Steps.{grows, reading, checking, quiet, editing}
use investment_backend.Ledger.Moves.{moved, start_next_queued, settle, transition}
use investment_backend.Ledger.Intake.{
  HandoverRequest, pack_of_request, start_task, create_task, handover, new_task,
}
use investment_backend.Ledger.Attempts.{
  Report, open_attempt, attempt_transition, enter_waiting_resource,
}
use investment_backend.Ledger.Answers.{
  Question, open_interaction, answer_budget, answer_other, answer_by_kind, respond_interaction,
}
use investment_backend.Ledger.Cancel.{request_cancel, resume_environment}
use investment_backend.Ledger.Edits.{
  moved-Edit, dequeued-Edit, opened-Edit, booked-Edit, paused-Edit, topped_up-Edit, answered-Edit,
  with_cancel-Edit,
}

ruleset quiet_rules = (task_rules, Unmoved-preorder)

start_next_queued-Grows : (project : ℕ) → Respects Grows (start_next_queued project)
unfolding start_next_queued
start_next_queued-Grows project =
    search (task_rules, Evolves-preorder, cas_task-Grows, dequeued-Edit) depth 30

settle-Grows :
    (id : ℕ) (task : Task) (target : TaskState) (reason : Option Reason)
    → Respects Grows (settle id task target reason)
unfolding settle
settle-Grows id task target reason =
    search (task_rules, Evolves-preorder, start_next_queued-Grows) depth 30

pub transition-Grows :
    (id : ℕ) (target : TaskState) (version : Option ℕ) (why : Option WaitingReason)
    (reason : Option Reason) (result : Option ℕ)
    → Respects Grows (transition id target version why reason result)
unfolding transition
transition-Grows id target version why reason result = Respects-transaction grows _ (record {
  at = λ s. reading id none _ s λ t u found same.
      checking (check_task_transition t.state target why) _ s.tasks u same λ x w legal kept.
        editing id _ (moved target why reason result) _ t s w found kept
          (moved-Edit target why reason result t legal)
          (λ n. search (task_rules, Evolves-preorder, settle-Grows) depth 30);
})

pack_of_request-Grows :
    (snapshot : Option Pack) (owner : ℕ) (p : Profile)
    → Respects Grows (pack_of_request snapshot owner p)
unfolding pack_of_request
pack_of_request-Grows (some pack) owner p = search (task_rules, Evolves-preorder) depth 30
pack_of_request-Grows none owner (builtin k) = search (task_rules, Evolves-preorder) depth 30
pack_of_request-Grows none owner (knowbot k) = search (task_rules, Evolves-preorder) depth 30

start_task-Grows :
    (req : HandoverRequest) (owner : ℕ) (session : Session) (id : ℕ) (behind : Option ℕ)
    → Respects Grows (start_task req owner session id behind)
unfolding start_task
start_task-Grows req owner session id behind = search (task_rules, Evolves-preorder) depth 30

insert_new-Grows :
    (id : ℕ) (req : HandoverRequest) (owner tenant version : ℕ) (behind : Option ℕ)
    (pinned : Option Pack) (project : ℕ) (session : Session)
    → Respects Grows
        (insert_task id (new_task req owner tenant version behind pinned project session))
unfolding new_task
insert_new-Grows id req owner tenant version behind pinned project session =
    insert_task-Grows id _ refl

create_task-Grows :
    (req : HandoverRequest) (owner tenant : ℕ) (given : Option ℕ) (snapshot : Option Pack)
    (current id : ℕ)
    → Respects Grows (create_task req owner tenant given snapshot current id)
unfolding create_task
create_task-Grows req owner tenant given snapshot current id =
    search (task_rules, Evolves-preorder, insert_new-Grows, pack_of_request-Grows, start_task-Grows)
      depth 40

pub handover-Grows :
    (req : HandoverRequest) (owner tenant : ℕ) (given : Option ℕ) (snapshot : Option Pack)
    (current id : ℕ)
    → Respects Grows (handover req owner tenant given snapshot current id)
unfolding handover
handover-Grows req owner tenant given snapshot current id =
    search (task_rules, Evolves-preorder, create_task-Grows) depth 30

pub open_attempt-Grows :
    (task : ℕ) (step : Option ℕ) (role : AttemptRole) (reserve : ℤ) (id : ℕ)
    → Respects Grows (open_attempt task step role reserve id)
unfolding open_attempt
open_attempt-Grows task step role reserve id = Respects-transaction grows _ (record {
  at = λ s. reading task none _ s λ t u found same.
      quiet _ _ s.tasks u same (search quiet_rules depth 30) λ a1 u1 e1.
        quiet _ _ s.tasks u1 e1 (search quiet_rules depth 30) λ a2 u2 e2.
          quiet _ _ s.tasks u2 e2 (search quiet_rules depth 30) λ a3 u3 e3.
            quiet _ _ s.tasks u3 e3 (search quiet_rules depth 30) λ a4 u4 e4.
              quiet _ _ s.tasks u4 e4 (search quiet_rules depth 30) λ a5 u5 e5.
                editing task _ _ _ t s u5 found e5 (opened-Edit id reserve t)
                  (λ n. search (task_rules, Evolves-preorder) depth 30);
})

enter_waiting_resource-Grows :
    (task version iid token hash now : ℕ)
    → Respects Grows (enter_waiting_resource task version iid token hash now)
unfolding enter_waiting_resource
enter_waiting_resource-Grows task version iid token hash now = record {
  at = λ s. reading task none _ s λ t u found same.
      checking (check_task_transition t.state waiting (some WaitingReason.resource)) _ s.tasks u
        same
        λ x w legal kept. quiet _ _ s.tasks w kept (search quiet_rules depth 30) λ a u1 e1.
          editing task _ _ _ t s u1 found e1 (paused-Edit WaitingReason.resource iid t legal)
            (λ n. search (task_rules, Evolves-preorder) depth 30);
}

pub attempt_transition-Grows :
    (id : ℕ) (target : AttemptState) (r : Report) (now iid token hash : ℕ)
    → Respects Grows (attempt_transition id target r now iid token hash)
unfolding attempt_transition
attempt_transition-Grows id target r now iid token hash =
    search (task_rules, Evolves-preorder, cas_task-Grows, booked-Edit, enter_waiting_resource-Grows)
      depth 40

pub open_interaction-Grows :
    (sha256 : ℕ → ℕ) (task : ℕ) (q : Question) (iid token now : ℕ)
    → Respects Grows (open_interaction sha256 task q iid token now)
unfolding open_interaction
open_interaction-Grows sha256 task q iid token now = Respects-transaction grows _ (record {
  at = λ s. reading task none _ s λ t u found same.
      checking (check_task_transition t.state waiting (some q.waiting_reason)) _ s.tasks u same
        λ x w legal kept. quiet _ _ s.tasks w kept (search quiet_rules depth 30) λ a u1 e1.
          editing task _ _ _ t s u1 found e1 (paused-Edit q.waiting_reason iid t legal)
            (λ n. search (task_rules, Evolves-preorder) depth 30);
})

ruleset answer_rules = (
  task_rules, Evolves-preorder, cas_task-Grows, topped_up-Edit, answered-Edit, with_cancel-Edit,
  transition-Grows,
)

answer_budget-Grows :
    (owner id : ℕ) (task : Task) (d : Decision) (a : Amount)
    → Respects Grows (answer_budget owner id task d a)
unfolding answer_budget
answer_budget-Grows owner id task Decision.topup (amount x) = search answer_rules depth 30
answer_budget-Grows owner id task Decision.topup malformed = search answer_rules depth 30
answer_budget-Grows owner id task _ _ = search answer_rules depth 30

answer_other-Grows :
    (iid id : ℕ) (task : Task) (d : Decision) (resume_to : TaskState)
    → Respects Grows (answer_other iid id task d resume_to)
unfolding answer_other
answer_other-Grows iid id task Decision.stop resume_to = search answer_rules depth 30
answer_other-Grows iid id task _ resume_to = search answer_rules depth 30

answer_by_kind-Grows :
    (kind : InteractionKind) (owner iid id : ℕ) (task : Task) (r : Response) (resume_to : TaskState)
    → Respects Grows (answer_by_kind kind owner iid id task r resume_to)
unfolding answer_by_kind
answer_by_kind-Grows resource owner iid id task r resume_to =
    answer_budget-Grows owner id task r.decision r.amount
answer_by_kind-Grows (other_kind k) owner iid id task r resume_to =
    answer_other-Grows iid id task r.decision resume_to

pub respond_interaction-Grows :
    (sha256 : ℕ → ℕ) (iid token : ℕ) (r : Response) (owner : ℕ) (digest : Option ℕ)
    (resume_to : TaskState) (now : ℕ)
    → Respects Grows (respond_interaction sha256 iid token r owner digest resume_to now)
unfolding respond_interaction
respond_interaction-Grows sha256 iid token r owner digest resume_to now =
    search (task_rules, Evolves-preorder, answer_by_kind-Grows) depth 40

pub request_cancel-Grows : (id owner now : ℕ) → Respects Grows (request_cancel id owner now)
unfolding request_cancel
request_cancel-Grows id owner now = search answer_rules depth 40

pub resume_environment-Grows :
    (id session environment : ℕ) → Respects Grows (resume_environment id session environment)
unfolding resume_environment
resume_environment-Grows id session environment = search answer_rules depth 40
