-- ===== src/Store/Queries.antt =====
-- The queries of app/app/infrastructure/workbench/repository.py that the ledger makes. A row that a
-- transaction reads `for update` is locked until its end, so the operations of the ledger on one
-- task follow one another, and the model runs each transaction alone.
use investment_backend.Base.{
  ℕ, ◌+◌, Bool, true, false, not, ◌&&◌, Option, none, some, List, [], ◌∷◌, max, ltb, ◌==◌,
  if◌then◌else◌, is_some, opt_eq, lookup, insert, find_first, any_other, update_where, Dict,
}
use investment_backend.Base.Exec.{
  Exec, Result, ok, err, pure, gets, or_raise, modify, raise_if, ◌>>=◌, ◌>>◌,
}
use investment_backend.States.{
  TaskState, received, Wheel, is_task_terminal, same_task_state, StateError,
}
use investment_backend.Store.Rows.{
  Session, ConversationKind, Task, Attempt, Interaction, InteractionStatus, pending, consumed,
  cancelled, Environment, Profile, builtin, knowbot, Pin, EventBody, Event, Entry, Command, Store,
  Response, answer, task_ended, Fault, not_found, stale_state_version, project_busy,
  integrity_error, state_error,
}

abbrev pub Action : Type 0 → Type 0
Action A = Exec Store Fault A

-- A caller that names an owner does not see another owner's row.
abbrev pub foreign : Option ℕ → ℕ → Bool
foreign none owner = false
foreign (some asked) owner = not (owner == asked)

-- `get_session`, `get_task`, `get_environment` with an `owner_actor_id`, and those without one
unfoldable pub get_session : ℕ → Option ℕ → Action Session
get_session id owner = do
  row ← or_raise (← gets (λ s. lookup id s.sessions)) not_found
  raise_if (foreign owner row.owner_actor_id) not_found
  pure row

unfoldable pub get_task : ℕ → Option ℕ → Action Task
get_task id owner = do
  row ← or_raise (← gets (λ s. lookup id s.tasks)) not_found
  raise_if (foreign owner row.owner_actor_id) not_found
  pure row

unfoldable pub get_environment : ℕ → Option ℕ → Action Environment
get_environment id owner = do
  row ← or_raise (← gets (λ s. lookup id s.environments)) not_found
  raise_if (foreign owner row.owner_actor_id) not_found
  pure row

-- `get_project`, read only to lock the row
unfoldable pub get_project : ℕ → Action ℕ
get_project id = do or_raise (← gets (λ s. lookup id s.projects)) not_found

unfoldable pub get_attempt : ℕ → Action Attempt
get_attempt id = do or_raise (← gets (λ s. lookup id s.attempts)) not_found

unfoldable pub get_interaction : ℕ → Action Interaction
get_interaction id = do or_raise (← gets (λ s. lookup id s.interactions)) not_found

-- A delegation that has not started: RECEIVED, with the one before it noted.
unfoldable pub is_queued_behind : Task → Bool
is_queued_behind t = same_task_state t.state received && is_some t.queued_behind

-- The task takes the one place of its project: the condition of the partial unique index
-- `uq_workbench_tasks_project_active` and of `active_task_of_project`.
unfoldable pub is_active : Task → Bool
unfolding is_task_terminal is_queued_behind
is_active t = not (is_task_terminal t.state) && not (is_queued_behind t)

unfoldable pub holds_project : ℕ → Task → Bool
unfolding is_active
holds_project project t = opt_eq t.project_id (some project) && is_active t

-- `active_task_of_project`
unfoldable pub active_task_of_project : ℕ → Action (Option (ℕ × Task))
unfolding holds_project
active_task_of_project project = gets (λ s. find_first (holds_project project) s.tasks)

unfoldable pub is_waiting_turn : ℕ → Task → Bool
unfolding is_queued_behind
is_waiting_turn project t = opt_eq t.project_id (some project) && is_queued_behind t

-- `next_queued_task`
unfoldable pub next_queued_task : ℕ → Action (Option (ℕ × Task))
unfolding is_waiting_turn
next_queued_task project = gets (λ s. find_first (is_waiting_turn project) s.tasks)

-- The row would be a second one in the partial unique index.
unfoldable pub breaks_index : ℕ → Task → Dict Task → Bool
unfolding holds_project
breaks_index id t tasks = is_active t && elim t.project_id [
  | none ↦ false
  | some project ↦ any_other id (holds_project project) tasks
]

-- A row after `state_version = state_version + 1`.
abbrev pub bumped : (Task → Task) → Task → Task
bumped fields row = record (fields row) { state_version = row.state_version + 1 }

-- The writes of one row by its key.
unfoldable pub put_task : ℕ → Task → Action Unit
put_task id t = modify (λ s. record s { tasks = insert id t s.tasks })

unfoldable pub put_session : ℕ → Session → Action Unit
put_session id row = modify (λ s. record s { sessions = insert id row s.sessions })

unfoldable pub put_attempt : ℕ → Attempt → Action Unit
put_attempt id a = modify (λ s. record s { attempts = insert id a s.attempts })

unfoldable pub put_interaction : ℕ → Interaction → Action Unit
put_interaction id i = modify (λ s. record s { interactions = insert id i s.interactions })

-- `cas_task`: compare and swap on `state_version`; the new version is returned.
unfoldable pub cas_task : ℕ → ℕ → (Task → Task) → Action ℕ
unfolding breaks_index put_task
cas_task id expected fields = do
  row ← or_raise (← gets (λ s. lookup id s.tasks)) stale_state_version
  raise_if (not (row.state_version == expected)) stale_state_version
  let changed = bumped fields row
  raise_if (← gets (λ s. breaks_index id changed s.tasks)) integrity_error
  put_task id changed
  pure (row.state_version + 1)

-- `insert_task`; a second row with the id would break the primary key.
unfoldable pub insert_task : ℕ → Task → Action Unit
unfolding breaks_index put_task
insert_task id t = do
  raise_if (← gets (λ s. is_some (lookup id s.tasks))) integrity_error
  raise_if (← gets (λ s. breaks_index id t s.tasks)) project_busy
  put_task id t

abbrev pub same_profile : Profile → Profile → Bool
same_profile (builtin a) (builtin b) = a == b
same_profile (knowbot a) (knowbot b) = a == b
same_profile _ _ = false

-- `find_task_by_idempotency`
unfoldable pub is_repeat : ℕ → ℕ → Profile → ℕ → Task → Bool
is_repeat tenant owner profile key t =
    t.tenant == tenant
    && t.owner_actor_id == owner
    && same_profile t.profile_id profile
    && t.idempotency_key == key

-- `cas_session_wheel`
unfoldable pub cas_session_wheel : ℕ → ℕ → Wheel → Option ℕ → Action ℕ
unfolding put_session
cas_session_wheel id expected wheel task = do
  row ← or_raise (← gets (λ s. lookup id s.sessions)) stale_state_version
  raise_if (not (row.state_version == expected)) stale_state_version
  let changed = record row {
    wheel = wheel;
    active_task_id = task;
    state_version = row.state_version + 1;
  }
  put_session id changed
  pure (row.state_version + 1)

-- `set_session_kind`
unfoldable pub set_session_kind : ℕ → ConversationKind → Action Unit
set_session_kind id kind = modify λ s. record s {
  sessions = elim (lookup id s.sessions) [
    | none ↦ s.sessions
    | some row ↦ insert id (record row { kind = kind }) s.sessions
  ];
}

-- `coalesce(max(cursor), 0)` over the events of one session
unfoldable pub last_cursor : ℕ → List Event → ℕ
last_cursor session [] = 0
last_cursor session (e ∷ es) =
    if e.session_id == session
    then max e.cursor (last_cursor session es)
    else last_cursor session es

-- `append_event`: the event and its outbox message in one transaction.
unfoldable pub append_event : ℕ → EventBody → Action Event
unfolding last_cursor
append_event session body = do
  cursor ← gets (λ s. last_cursor session s.events + 1)
  let event : Event = record { session_id = session; cursor = cursor; body = body }
  modify (λ s. record s { events = event ∷ s.events; outbox = event ∷ s.outbox })
  pure event

unfoldable pub insert_attempt : ℕ → Attempt → Action Unit
unfolding put_attempt
insert_attempt id a = do
  raise_if (← gets (λ s. is_some (lookup id s.attempts))) integrity_error
  put_attempt id a

unfoldable pub update_attempt : ℕ → (Attempt → Attempt) → Action Unit
update_attempt id fields = modify λ s. record s {
  attempts = elim (lookup id s.attempts) [
    | none ↦ s.attempts
    | some row ↦ insert id (fields row) s.attempts
  ];
}

unfoldable pub insert_interaction : ℕ → Interaction → Action Unit
unfolding put_interaction
insert_interaction id i = do
  raise_if (← gets (λ s. is_some (lookup id s.interactions))) integrity_error
  put_interaction id i

-- `expires_at is null or expires_at > now()`
abbrev pub is_live_at : ℕ → Option ℕ → Bool
is_live_at now none = true
is_live_at now (some t) = ltb now t

abbrev pub is_pending : InteractionStatus → Bool
is_pending pending = true
is_pending _ = false

abbrev pub can_take : ℕ → Option Interaction → Bool
can_take now none = false
can_take now (some row) = is_pending row.status && is_live_at now row.expires_at

-- `consume_interaction`: only a pending row that has not expired is changed.
unfoldable pub consume_interaction : ℕ → Response → ℕ → Action Bool
consume_interaction id response now = do
  taken ← gets (λ s. can_take now (lookup id s.interactions))
  modify (λ s. record s {
    interactions = elim (lookup id s.interactions) [
      | none ↦ s.interactions
      | some row ↦
          if taken
          then insert id (record row { status = consumed; response = some (answer response) })
              s.interactions
          else s.interactions
    ];
  })
  pure taken

-- `cancel_pending_interactions`
unfoldable pub cancel_pending_interactions : ℕ → TaskState → Action Unit
cancel_pending_interactions task ended = modify λ s. record s {
  interactions =
      update_where (λ i. opt_eq i.task_id (some task) && is_pending i.status)
        (λ i. record i { status = cancelled; response = some (task_ended ended) }) s.interactions;
}

unfoldable pub ledger_append : Entry → Action Unit
ledger_append e = modify (λ s. record s { entries = e ∷ s.entries })

unfoldable pub enqueue_command : Command → Action Unit
enqueue_command c = modify (λ s. record s { commands = c ∷ s.commands })

-- `get_knowbot_pin` with `pack_from_pin`, as `pinned_pack` of
-- app/app/application/workbench/catalog.py calls them
unfoldable pub find_pin : ℕ → Profile → List Pin → Option Pin
find_pin owner profile [] = none
find_pin owner profile (p ∷ ps) =
    if p.owner_actor_id == owner && same_profile p.profile_id profile
    then some p
    else find_pin owner profile ps

-- A validator of the state words, inside a method.
unfoldable pub check : Result StateError (Unit {0}) → Action Unit
check (ok u) s = (ok tt, s)
check (err e) s = (err (state_error e), s)
