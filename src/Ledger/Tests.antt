-- ===== src/Ledger/Tests.antt =====
-- A conversation with one delegation, run through app/app/application/workbench/ledger.py, and the
-- theorems about the ledger at that conversation.
use investment_backend.Base.{
  ℕ, ◌≡◌, arith, refl, true, false, Option, none, some, List, [], ◌∷◌, lookup,
}
use investment_backend.Base.Int.{pos, ◌+ℤ◌}
use investment_backend.Base.Exec.{ok, err, transaction, ◌>>=◌}
use investment_backend.States.{
  TaskState, WaitingReason, waiting, received, is_task_terminal, check_task_transition, validating,
  queued, running, succeeded, user, AttemptState, AttemptRole, invalid_task_transition,
}
use investment_backend.Store.{
  Store, other_kind, pending, get_interaction, get_session, consume_interaction, get_task,
  append_event, cas_task, check, enqueue_command, Session, Task, Interaction, work, builtin,
  resource, consumed, state_error, answer, other_decision, no_amount,
}
use investment_backend.Store.History.{OneExpert, WaitsExplained, Lasts}
use investment_backend.Ledger.Moves.{transition, start_next_queued}
use investment_backend.Store.{is_waiting_turn, holds_project, integrity_error}
use investment_backend.Ledger.Intake.{HandoverRequest, handover}
use investment_backend.Ledger.Attempts.{Report, open_attempt, settled}
use investment_backend.Ledger.Wheel.{WheelsMatch}
use investment_backend.Ledger.Trace.{
  Call, handing_over, moving, opening, reporting, run, run-OneExpert, run-Lasts, run_final,
  run-WaitsExplained, run-WheelsMatch, run_answered_once,
}
use investment_backend.Ledger.Repeats.{handover_again}
use investment_backend.Ledger.Intake.{
  Receipt, create_task, pack_of_request, start_task, mark_expert,
}
use investment_backend.Ledger.Moves.{give_wheel}
use investment_backend.Store.{
  idempotency_conflict, get_environment, get_project, active_task_of_project, insert_task,
  cas_session_wheel, is_repeat, ledger_append, breaks_index,
}
use investment_backend.Base.{◌⊎◌, ◌≢◌}
use investment_backend.Store.{set_session_kind, is_repeat}
use investment_backend.Ledger.Money.{settled_closes}
use investment_backend.Ledger.Queue.{start_next_queued_blocked}
use investment_backend.Ledger.Interactions.{question, answer_interaction}
use investment_backend.Ledger.Driven.{has_drive, answer_interaction-has_drive}
use investment_backend.Ledger.Behaviour.{transition-final_refused}

abbrev same_number : ℕ → ℕ
same_number n = n

abbrev talk : Session
talk = record {
  owner_actor_id = 5;
  environment_id = 3;
  sandbox_id = 4;
  project_id = some 7;
  thread_id = none;
  kind = work;
  wheel = user;
  state_version = 0;
  active_task_id = none;
}

abbrev open_store : Store
open_store = record {
  sessions = (1, talk) ∷ [];
  tasks = [];
  attempts = [];
  interactions = [];
  environments = (3, record { owner_actor_id = 5; online = true }) ∷ [];
  projects = (7, 5) ∷ [];
  pins = [];
  events = [];
  outbox = [];
  entries = [];
  commands = [];
}

abbrev asked : HandoverRequest
asked = record {
  idempotency_key = 11;
  session_id = 1;
  profile_id = builtin 2;
  profile_version = none;
  digest = 12;
  budget_limit = some (pos 100);
  budget_currency = 0;
  client_queued_behind = none;
}

abbrev used_up : Report
used_up = record {
  consumed = pos 10;
  failure_code = none;
  retryable = none;
  turn_id = none;
  output_artifacts = none;
}

abbrev task_row : TaskState → Option ℕ → Task
task_row state attempt = record {
  session_id = 1;
  owner_actor_id = 5;
  tenant = 6;
  idempotency_key = 11;
  request_digest = 12;
  profile_id = builtin 2;
  profile_version = 1;
  pack_digest = none;
  project_id = some 7;
  environment_id = 3;
  thread_id = none;
  queued_behind = none;
  state = state;
  state_version = 4;
  waiting_reason = none;
  active_attempt_id = attempt;
  active_interaction_id = none;
  cancel_requested_at = none;
  budget = record { currency = 0; limit = some (pos 100); reserved = pos 10; used = pos 20 };
  rejection = none;
  terminal_result_ref = none;
}

-- The store with the one task 20.
abbrev store_with : Task → Store
store_with t = record open_store { tasks = (20, t) ∷ [] }

abbrev answered_question : Interaction
answered_question = record {
  session_id = 1;
  task_id = some 20;
  attempt_id = none;
  kind = resource;
  subject_digest = none;
  token_hash = 42;
  target_state_version = some 4;
  expires_at = none;
  status = consumed;
  response = some (answer (record { decision = other_decision; amount = no_amount }));
}

-- Hand over, check, queue, open an attempt with a reserve of 40, run it, and finish.
abbrev one_delegation : List Call
one_delegation =
    handing_over asked 5 6 none none 1 20
    ∷ moving 20 validating none none none none
    ∷ moving 20 queued none none none none
    ∷ opening 20 none AttemptRole.execute (pos 40) 30
    ∷ reporting 30 AttemptState.running used_up 100 40 41 42
    ∷ moving 20 succeeded none none none none
    ∷ []

run-OneExpert_example : OneExpert (run same_number one_delegation open_store).tasks
run-OneExpert_example =
    run-OneExpert same_number one_delegation open_store (λ project i j t u first. cc)

run-WaitsExplained_example : WaitsExplained (run same_number one_delegation open_store).tasks
run-WaitsExplained_example = run-WaitsExplained same_number one_delegation open_store tt

run-WheelsMatch_example : WheelsMatch (run same_number one_delegation open_store).sessions
run-WheelsMatch_example = run-WheelsMatch same_number one_delegation open_store (refl, tt)

run-Lasts_example :
    Lasts 20
      (task_row received none)
      (run same_number one_delegation (store_with (task_row received none))).tasks
run-Lasts_example =
    run-Lasts same_number one_delegation (store_with (task_row received none)) 20
      (task_row received none) refl

run_final_example :
    (u : Task) × (lookup 20
        (run same_number one_delegation (store_with (task_row succeeded none))).tasks
      ≡ some u)
    × (u.state ≡ succeeded)
unfolding is_task_terminal
run_final_example =
    run_final same_number one_delegation (store_with (task_row succeeded none)) 20
      (task_row succeeded none) refl refl

run_answered_once_example :
    lookup 50
      (run same_number one_delegation
        (record open_store { interactions = (50, answered_question) ∷ [] })).interactions
    ≡ some answered_question
run_answered_once_example =
    run_answered_once same_number one_delegation
      (record open_store { interactions = (50, answered_question) ∷ [] }) 50 answered_question refl
      refl

-- The first request, and the store after it
abbrev first_receipt : Receipt
first_receipt = record { task_id = 20; state = received; created = true; queued_behind = none }

abbrev handed_over : Store
handed_over = (handover asked 5 6 none none 1 20 open_store).1

first_handover : handover asked 5 6 none none 1 20 open_store ≡ (ok first_receipt, handed_over)
unfolding handover transaction ◌>>=◌ get_session get_environment get_project active_task_of_project
    create_task pack_of_request insert_task start_task mark_expert give_wheel append_event
    cas_session_wheel ledger_append breaks_index set_session_kind
first_handover = refl

-- Another delegation, while task 20 is running
abbrev asked_next : HandoverRequest
asked_next = record asked { idempotency_key = 15 }

abbrev second_receipt : Receipt
second_receipt = record { task_id = 21; state = received; created = true; queued_behind = some 20 }

abbrev queued_up : Store
queued_up = (handover asked_next 5 6 none none 1 21 (store_with (task_row running none))).1

-- The same key with another body
abbrev asked_otherwise : HandoverRequest
asked_otherwise = record asked { digest = 13 }

handover_again_example :
    ((asked_otherwise.digest ≡ asked.digest)
      × (handover asked_otherwise 5 6 none none 1 21 handed_over ≡ (
        ok (record { task_id = 20; state = received; created = false; queued_behind = none }),
        handed_over,
      )))
    ⊎ ((asked_otherwise.digest ≢ asked.digest)
        × (handover asked_otherwise 5 6 none none 1 21 handed_over
            ≡ (err idempotency_conflict, handed_over)))
handover_again_example =
    handover_again asked asked_otherwise 5 6 none none none none 1 1 20 21 open_store handed_over
      first_receipt first_handover refl refl

abbrev idle_store : Store
idle_store = store_with (task_row running none)

abbrev opened_store : Store
opened_store = (open_attempt 20 none AttemptRole.execute (pos 40) 31 idle_store).1

transition-final_refused_example :
    transition 20 running none none none none (store_with (task_row succeeded none)) ≡ (
      err (state_error (invalid_task_transition succeeded running)),
      store_with (task_row succeeded none),
    )
unfolding is_task_terminal
transition-final_refused_example =
    transition-final_refused 20 running none none none none (store_with (task_row succeeded none))
      (task_row succeeded none) refl refl

settled_closes_example :
    ((settled true (pos 10) (pos 4) (task_row running none).budget).reserved ≡ pos 0)
    × ((settled true (pos 10) (pos 4) (task_row running none).budget).used ≡ pos 20 +ℤ pos 4)
settled_closes_example = settled_closes 10 10 4 (task_row running none).budget refl (omega arith)

-- A delegation of conversation 2 that waits behind task 20.
abbrev waiting_row : Task
waiting_row = record (task_row received none) { session_id = 2; queued_behind = some 20 }

abbrev busy_store : Store
busy_store = record open_store {
  sessions = (1, talk) ∷ (2, talk) ∷ [];
  tasks = (20, task_row running none) ∷ (21, waiting_row) ∷ [];
}

start_next_queued_blocked_example :
    start_next_queued 7 busy_store ≡ (err integrity_error, busy_store)
unfolding is_waiting_turn holds_project
start_next_queued_blocked_example =
    start_next_queued_blocked 7 21 20 waiting_row (task_row running none) talk busy_store refl refl
      refl refl refl refl

-- The task waits for an answer of the user.
abbrev waiting_task : Task
waiting_task = record (task_row waiting none) {
  waiting_reason = some WaitingReason.input;
  active_interaction_id = some 50;
}

abbrev asked_back : Interaction
asked_back = record answered_question {
  kind = other_kind question;
  status = pending;
  response = none;
}

abbrev waiting_store : Store
waiting_store = record (store_with waiting_task) { interactions = (50, asked_back) ∷ [] }

abbrev after_answer : Store
after_answer =
    (answer_interaction same_number 50 42 (record { decision = other_decision; amount = no_amount })
      5 none none (some 60) 9 waiting_store).1

answered_and_queued :
    answer_interaction same_number 50 42
      (record { decision = other_decision; amount = no_amount })
      5
      none
      none
      (some 60)
      9
      waiting_store
    ≡ (ok (some (queued, 6)), after_answer)
unfolding answer_interaction ◌>>=◌ get_interaction transaction get_session consume_interaction
    get_task append_event cas_task transition check check_task_transition enqueue_command
answered_and_queued = refl

answer_interaction-has_drive_example : has_drive 1 20 after_answer.commands ≡ true
answer_interaction-has_drive_example =
    answer_interaction-has_drive same_number 50 42 5 9 20 6
      (record { decision = other_decision; amount = no_amount }) none none (some 60) asked_back
      waiting_store after_answer refl refl answered_and_queued
