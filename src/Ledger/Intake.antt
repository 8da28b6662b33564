-- ===== src/Ledger/Intake.antt =====
-- `handover`: a delegation is recorded once, and the user hands the wheel to the expert
-- (app/app/application/workbench/ledger.py).
use investment_backend.Base.{
  ℕ, Bool, true, false, not, Option, none, some, ◌==◌, if◌then◌else◌, is_some, find_first,
}
use investment_backend.Base.Int.{ℤ, pos}
use investment_backend.Base.Exec.{
  pure, or_raise, gets, raise_if, when, maybe, ◌>>=◌, ◌>>◌, transaction,
}
use investment_backend.States.{TaskState, received}
use investment_backend.Store.{
  ConversationKind, expert, Profile, builtin, knowbot, Session, Task, Pack, task_received,
  task_queued, kind_changed, EntryKind, wheel_held_by_other, idempotency_conflict, project_required,
  environment_offline, no_such_expert, knowbot_invalid, Action, get_session, get_environment,
  get_project, active_task_of_project, insert_task, is_repeat, set_session_kind, append_event,
  ledger_append, find_pin,
}
use investment_backend.Ledger.Moves.{is_free, give_wheel}

-- app/app/domain/workbench/models.py `HandoverRequest`, with its `digest()` drawn beforehand.
-- `client_queued_behind` is what `client_context` of the request holds under `queued_behind`.
pub record HandoverRequest : Type 0 where
  pub idempotency_key : ℕ
  pub session_id : ℕ
  pub profile_id : Profile
  pub profile_version : Option ℕ
  pub digest : ℕ
  pub budget_limit : Option ℤ
  pub budget_currency : ℕ
  pub client_queued_behind : Option ℕ

-- The answer of `handover`
pub record Receipt : Type 0 where
  pub task_id : ℕ
  pub state : TaskState
  pub created : Bool
  pub queued_behind : Option ℕ

-- `pinned_pack` of app/app/application/workbench/catalog.py
unfoldable pub pinned_pack : ℕ → Profile → Action Pack
pinned_pack owner profile = do
  pin ← or_raise (← gets (λ s. find_pin owner profile s.pins)) no_such_expert
  or_raise pin.pack knowbot_invalid

-- `snapshot or (await pinned_pack(…) if is_knowbot(…) else None)`
unfoldable pub pack_of_request : Option Pack → ℕ → Profile → Action (Option Pack)
unfolding pinned_pack
pack_of_request (some pack) owner profile = pure (some pack)
pack_of_request none owner (knowbot k) = do pack ← pinned_pack owner (knowbot k); pure (some pack)
pack_of_request none owner (builtin k) = pure none

abbrev pub is_expert : ConversationKind → Bool
is_expert expert = true
is_expert _ = false

-- `SessionService.mark_expert` of app/app/application/workbench/session_service.py
unfoldable pub mark_expert : ℕ → Session → Action Unit
mark_expert session_id session = when (not (is_expert session.kind)) (do
  set_session_kind session_id expert
  append_event session_id (kind_changed session.kind expert)
  pure tt)

-- `pinned.pack.version if pinned else (req.profile_version or profile_version or
-- current_pack_version(…))`
abbrev pub version_of : Option Pack → Option ℕ → Option ℕ → ℕ → ℕ
version_of (some pack) asked given current = pack.version
version_of none (some v) given current = v
version_of none none (some v) current = v
version_of none none none current = current

-- The row of a new delegation.
unfoldable pub new_task : HandoverRequest → ℕ → ℕ → ℕ → Option ℕ → Option Pack → ℕ → Session → Task
new_task req owner tenant version queued_behind pinned project session = record {
  session_id = req.session_id;
  owner_actor_id = owner;
  tenant = tenant;
  idempotency_key = req.idempotency_key;
  request_digest = req.digest;
  profile_id = req.profile_id;
  profile_version = version;
  pack_digest = elim pinned [ none ↦ none | some pack ↦ some pack.digest ];
  project_id = some project;
  environment_id = session.environment_id;
  thread_id = session.thread_id;
  queued_behind = if is_some queued_behind then queued_behind else req.client_queued_behind;
  state = received;
  state_version = 1;
  waiting_reason = none;
  active_attempt_id = none;
  active_interaction_id = none;
  cancel_requested_at = none;
  budget = record {
    currency = req.budget_currency;
    limit = req.budget_limit;
    reserved = pos 0;
    used = pos 0;
  };
  rejection = none;
  terminal_result_ref = none;
}

-- What follows the row: the kind of the conversation, the events, the wheel, the budget's first line.
unfoldable pub start_task : HandoverRequest → ℕ → Session → ℕ → Option ℕ → Action Unit
unfolding mark_expert give_wheel
start_task req owner session task_id queued_behind = do
  mark_expert req.session_id session
  append_event req.session_id (task_received task_id req.profile_id queued_behind)
  maybe queued_behind (give_wheel req.session_id session task_id)
      (λ behind. do append_event req.session_id (task_queued task_id behind); pure tt)
  maybe req.budget_limit (pure tt) (λ limit. ledger_append (record {
    task_id = task_id;
    attempt_id = none;
    entry = EntryKind.topup;
    amount = limit;
    actor_id = some owner;
  }))

-- The part of `handover` for a request that is not a repeat.
unfoldable pub create_task :
    HandoverRequest → ℕ → ℕ → Option ℕ → Option Pack → ℕ → ℕ → Action Receipt
unfolding pack_of_request new_task start_task
create_task req owner tenant profile_version snapshot current task_id = do
  session ← get_session req.session_id (some owner)
  raise_if (not (is_free session)) wheel_held_by_other
  project ← or_raise session.project_id project_required
  environment ← get_environment session.environment_id none
  raise_if (not environment.online) environment_offline
  get_project project
  busy ← active_task_of_project project
  let queued_behind : Option ℕ = elim busy [ none ↦ none | some row ↦ some row.0 ]
  pinned ← pack_of_request snapshot owner req.profile_id
  let version = version_of pinned req.profile_version profile_version current
  insert_task task_id (new_task req owner tenant version queued_behind pinned project session)
  start_task req owner session task_id queued_behind
  pure (record {
    task_id = task_id;
    state = received;
    created = true;
    queued_behind = queued_behind;
  })

-- `handover`; `current` is `current_pack_version(req.profile_id)`.
unfoldable pub handover : HandoverRequest → ℕ → ℕ → Option ℕ → Option Pack → ℕ → ℕ → Action Receipt
unfolding create_task
handover req owner tenant profile_version snapshot current task_id = transaction (do
  prior ← gets λ s. find_first (is_repeat tenant owner req.profile_id req.idempotency_key) s.tasks
  maybe prior (create_task req owner tenant profile_version snapshot current task_id) (λ row. do
    raise_if (not (row.1.request_digest == req.digest)) idempotency_conflict
    pure (record { task_id = row.0; state = row.1.state; created = false; queued_behind = none })))
