-- ===== src/Ledger/Wheel.antt =====
-- The steering wheel of a conversation under the methods of
-- app/app/application/workbench/ledger.py.
use investment_backend.Base.{
  ℕ, ◌≡◌, refl, ap, not, Option, none, some, Dict, AllRows, AllRows-insert, AllRows-lookup, is_some,
  lookup, insert, arith,
}
use investment_backend.Base.Exec.{◌>>=◌}
use investment_backend.Base.Exec.Respects.{
  IsPreorder, Respects, Keeps, Keeps-preorder, respects_rules,
}
use investment_backend.States.{
  Wheel, user, advisor, TaskState, wheel_after_task_state, WaitingReason, AttemptState, AttemptRole,
}
use investment_backend.Base.Int.{ℤ}
use investment_backend.Store.{
  Session, Store, ConversationKind, Reason, Task, Pack, Profile, builtin, knowbot, Decision, Amount,
  malformed, amount, Response, InteractionKind, resource, other_kind, cas_session_wheel,
  put_session, set_session_kind,
}
use investment_backend.Store.Frame.{OnSessions, OnSessions-preorder, session_rules}
use investment_backend.Ledger.Moves.{
  is_user, give_wheel, start_next_queued, return_wheel, settle, transition,
}
use investment_backend.Ledger.Intake.{
  HandoverRequest, pack_of_request, mark_expert, start_task, handover,
}
use investment_backend.Ledger.Attempts.{Report, open_attempt, attempt_transition}
use investment_backend.Ledger.Answers.{
  Question, open_interaction, answer_budget, answer_other, answer_by_kind, respond_interaction,
}
use investment_backend.Ledger.Cancel.{request_cancel, resume_environment}

-- The advisor steers exactly when the conversation has a task at work.
abbrev pub WheelMatches : Session → Type 0
WheelMatches row = is_user row.wheel ≡ not (is_some row.active_task_id)

abbrev pub WheelsMatch : Dict Session → Type 0
WheelsMatch = AllRows WheelMatches

abbrev pub KeepsWheels : Store → Store → Type 0
KeepsWheels = OnSessions (Keeps WheelsMatch)

kept : IsPreorder (Keeps WheelsMatch)
kept = Keeps-preorder WheelsMatch

put_session-KeepsWheels :
    (id : ℕ) (row : Session) → WheelMatches row → Respects KeepsWheels (put_session id row)
unfolding put_session ◌>>=◌
put_session-KeepsWheels id row h = record {
  at = λ s. record {
    tables = record { keep = λ k. AllRows-insert WheelMatches id row s.sessions h k };
  };
}

cas_session_wheel-KeepsWheels :
    (id v : ℕ) (w : Wheel) (t : Option ℕ)
    → is_user w ≡ not (is_some t)
    → Respects KeepsWheels (cas_session_wheel id v w t)
unfolding cas_session_wheel
cas_session_wheel-KeepsWheels id v w t h =
    search (respects_rules, OnSessions-preorder, kept, put_session-KeepsWheels) depth 30

give_wheel-KeepsWheels :
    (id : ℕ) (row : Session) (task : ℕ) → Respects KeepsWheels (give_wheel id row task)
unfolding give_wheel
give_wheel-KeepsWheels id row task =
    search (session_rules, kept, cas_session_wheel-KeepsWheels _ _ advisor (some task) refl) depth
      30

start_next_queued-KeepsWheels : (project : ℕ) → Respects KeepsWheels (start_next_queued project)
unfolding start_next_queued
start_next_queued-KeepsWheels project =
    search (session_rules, kept, give_wheel-KeepsWheels) depth 30

wheel_after_user :
    (target : TaskState) (w : Wheel) → wheel_after_task_state target ≡ some w → w ≡ user
unfolding wheel_after_task_state
wheel_after_user target w h = ground arith

return_wheel-KeepsWheels :
    (task session : ℕ) (w : Wheel) (target : TaskState) (reason : Option Reason)
    → w ≡ user
    → Respects KeepsWheels (return_wheel task session w target reason)
unfolding return_wheel
return_wheel-KeepsWheels task session w target reason e =
    search (session_rules, kept, cas_session_wheel-KeepsWheels _ _ w none (ap is_user e)) depth 30

settle-KeepsWheels :
    (id : ℕ) (task : Task) (target : TaskState) (reason : Option Reason)
    → Respects KeepsWheels (settle id task target reason)
unfolding settle
settle-KeepsWheels id task target reason =
    search
      (
        session_rules, kept, return_wheel-KeepsWheels, wheel_after_user,
        start_next_queued-KeepsWheels,
      )
      depth 30

-- A transition leaves a matching wheel in every conversation, whether it succeeds or raises.
pub transition-KeepsWheels :
    (id : ℕ) (target : TaskState) (version : Option ℕ) (why : Option WaitingReason)
    (reason : Option Reason) (result : Option ℕ)
    → Respects KeepsWheels (transition id target version why reason result)
unfolding transition
transition-KeepsWheels id target version why reason result =
    search (session_rules, kept, settle-KeepsWheels) depth 30

set_session_kind-KeepsWheels :
    (id : ℕ) (k : ConversationKind) → Respects KeepsWheels (set_session_kind id k)
unfolding set_session_kind ◌>>=◌
set_session_kind-KeepsWheels id k = record {
  at = λ s. record { tables = record { keep = λ h. with_kind s (lookup id s.sessions) refl h } };
}
  where
    with_kind :
        (s : Store) (found : Option Session)
        → lookup id s.sessions ≡ found
        → WheelsMatch s.sessions
        → WheelsMatch (elim found [
          | none ↦ s.sessions
          | some row ↦ insert id (record row { kind = k }) s.sessions
        ])
    with_kind s none e h = h
    with_kind s (some row) e h =
        AllRows-insert WheelMatches id (record row { kind = k }) s.sessions
          (AllRows-lookup WheelMatches id s.sessions h e) h

start_task-KeepsWheels :
    (req : HandoverRequest) (owner : ℕ) (session : Session) (id : ℕ) (behind : Option ℕ)
    → Respects KeepsWheels (start_task req owner session id behind)
unfolding start_task mark_expert
start_task-KeepsWheels req owner session id behind =
    search (session_rules, kept, give_wheel-KeepsWheels, set_session_kind-KeepsWheels) depth 30

pack_of_request-KeepsWheels :
    (snapshot : Option Pack) (owner : ℕ) (p : Profile)
    → Respects KeepsWheels (pack_of_request snapshot owner p)
unfolding pack_of_request
pack_of_request-KeepsWheels (some pack) owner p = search (session_rules, kept) depth 30
pack_of_request-KeepsWheels none owner (builtin k) = search (session_rules, kept) depth 30
pack_of_request-KeepsWheels none owner (knowbot k) = search (session_rules, kept) depth 30

pub handover-KeepsWheels :
    (req : HandoverRequest) (owner tenant : ℕ) (given : Option ℕ) (snapshot : Option Pack)
    (current id : ℕ)
    → Respects KeepsWheels (handover req owner tenant given snapshot current id)
unfolding handover
handover-KeepsWheels req owner tenant given snapshot current id =
    search (session_rules, kept, start_task-KeepsWheels, pack_of_request-KeepsWheels) depth 40

pub open_attempt-KeepsWheels :
    (task : ℕ) (step : Option ℕ) (role : AttemptRole) (reserve : ℤ) (id : ℕ)
    → Respects KeepsWheels (open_attempt task step role reserve id)
unfolding open_attempt
open_attempt-KeepsWheels task step role reserve id = search (session_rules, kept) depth 40

pub attempt_transition-KeepsWheels :
    (id : ℕ) (target : AttemptState) (r : Report) (now iid token hash : ℕ)
    → Respects KeepsWheels (attempt_transition id target r now iid token hash)
unfolding attempt_transition
attempt_transition-KeepsWheels id target r now iid token hash =
    search (session_rules, kept) depth 40

pub open_interaction-KeepsWheels :
    (sha256 : ℕ → ℕ) (task : ℕ) (q : Question) (iid token now : ℕ)
    → Respects KeepsWheels (open_interaction sha256 task q iid token now)
unfolding open_interaction
open_interaction-KeepsWheels sha256 task q iid token now = search (session_rules, kept) depth 40

answer_budget-KeepsWheels :
    (owner id : ℕ) (task : Task) (d : Decision) (a : Amount)
    → Respects KeepsWheels (answer_budget owner id task d a)
unfolding answer_budget
answer_budget-KeepsWheels owner id task Decision.topup (amount x) =
    search (session_rules, kept, transition-KeepsWheels) depth 30
answer_budget-KeepsWheels owner id task Decision.topup malformed =
    search (session_rules, kept) depth 30
answer_budget-KeepsWheels owner id task _ _ =
    search (session_rules, kept, transition-KeepsWheels) depth 30

answer_other-KeepsWheels :
    (iid id : ℕ) (task : Task) (d : Decision) (resume_to : TaskState)
    → Respects KeepsWheels (answer_other iid id task d resume_to)
unfolding answer_other
answer_other-KeepsWheels iid id task Decision.stop resume_to =
    search (session_rules, kept, transition-KeepsWheels) depth 30
answer_other-KeepsWheels iid id task _ resume_to =
    search (session_rules, kept, transition-KeepsWheels) depth 30

answer_by_kind-KeepsWheels :
    (kind : InteractionKind) (owner iid id : ℕ) (task : Task) (r : Response) (resume_to : TaskState)
    → Respects KeepsWheels (answer_by_kind kind owner iid id task r resume_to)
unfolding answer_by_kind
answer_by_kind-KeepsWheels resource owner iid id task r resume_to =
    answer_budget-KeepsWheels owner id task r.decision r.amount
answer_by_kind-KeepsWheels (other_kind k) owner iid id task r resume_to =
    answer_other-KeepsWheels iid id task r.decision resume_to

pub respond_interaction-KeepsWheels :
    (sha256 : ℕ → ℕ) (iid token : ℕ) (r : Response) (owner : ℕ) (digest : Option ℕ)
    (resume_to : TaskState) (now : ℕ)
    → Respects KeepsWheels (respond_interaction sha256 iid token r owner digest resume_to now)
unfolding respond_interaction
respond_interaction-KeepsWheels sha256 iid token r owner digest resume_to now =
    search (session_rules, kept, answer_by_kind-KeepsWheels) depth 40

pub request_cancel-KeepsWheels :
    (id owner now : ℕ) → Respects KeepsWheels (request_cancel id owner now)
unfolding request_cancel
request_cancel-KeepsWheels id owner now =
    search (session_rules, kept, transition-KeepsWheels) depth 40

pub resume_environment-KeepsWheels :
    (id session environment : ℕ) → Respects KeepsWheels (resume_environment id session environment)
unfolding resume_environment
resume_environment-KeepsWheels id session environment =
    search (session_rules, kept, transition-KeepsWheels) depth 40
