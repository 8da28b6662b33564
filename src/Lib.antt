-- ===== src/Lib.antt =====
-- The part of the investment backend that decides what experts may do: the delegation ledger of the
-- workbench, the state words it moves tasks through, the policy that decides which tools need an
-- answer of the user, the count of what the models used,
-- the outbox that delivers messages and the consumers that work on them, the folders and
-- permissions of projects, the acceptance of what experts hand in, and the
-- queue of commands that runners share; with the tables they stand on.
--
-- The parts and their files:
--   States      app/app/domain/workbench/states.py. Words has the enums, the tables of moves and the
--               validators; Moves and Graph compare them with the diagram of the states.
--   Store       the tables of the workbench, as the ledger uses them. Rows has a record for each row;
--               Queries has the methods of app/app/infrastructure/workbench/repository.py that the
--               ledger calls, with the compare-and-swap on `state_version` and the partial unique
--               index of app/alembic/versions/20261012_0015_tool_approvals.py. Frame says which tables
--               a query can change, and Evolves, Steps, History and Closed how a table changes.
--   Ledger      app/app/application/workbench/ledger.py, class `Ledger`. Moves has `transition`, the
--               method that moves a task, with what follows a final state (`settle`); Intake
--               has `handover`; Attempts has `open_attempt` and `attempt_transition`; Answers has
--               `open_interaction` and `respond_interaction`; Cancel has `request_cancel` and
--               `resume_environment`. Interactions has the two functions of
--               app/app/application/workbench/interactions.py, which call the ledger and enqueue the
--               commands that follow, and Driven what follows an answer. Wheel, Edits, Lifecycle and
--               Once have what each method keeps, Trace runs any list of calls, Behaviour has the
--               answers of finished tasks, Opening what `open_attempt` has written, Repeats second
--               calls, Waits a delegation in a busy project, Money what is left of a budget,
--               and Queue the start of a queued task.
--   ToolPolicy  app/app/domain/workbench/tool_policy.py, whole.
--   Pricing     app/app/domain/workbench/pricing.py: Usage has the counts and what one notice adds,
--               Notices the sum that app/app/application/workbench/runner.py `priced` keeps for a
--               thread, Turns the totals of a conversation. The counts are natural numbers, as
--               `_count` makes them.
--   Delivery    app/app/infrastructure/messaging/durable_delivery.py: Outbox has the class
--               `DurableDelivery` over its tables, Leases, Endings and Burial what holds of a delivery.
--               Consumers has `DurableTasks` of app/app/infrastructure/messaging/durable_tasks.py and
--               `claim_inbox_once` of app/app/infrastructure/repositories/outbox.py; below it System
--               lets any number of processes run `consume` beside the publisher, a step being one
--               transaction, Invariant, Keeps and Commits are about what holds at every moment,
--               Refinement has where their runs lead, Publisher is about the
--               transactions of `DurableDelivery` in that system, and Retry about asking again.
--               Repository has the rest of `SqlOutboxRepository`, Intents its deduplication keys. The work of a handler is what its last commit writes: what a handler commits
--               by itself before is not counted.
--   Projects    app/app/domain/workbench/projects.py: Text has the operations of `str` over lists of
--               code points, Paths `clean_relative_path`, Workspaces `project_dir`,
--               `split_under_roots` and the titles, Modes `mode_of`, `turn_settings` and
--               `thread_settings`; Cleaning, Placement and Permissions say what holds of them.
--               `str.lower` is a parameter, of which the backslash case of its documentation is assumed.
--   Acceptance  app/app/application/workbench/acceptance.py: Json has the values and the functions that
--               look into them, Extract `_extract_json` and the words of `_POSITIONING`, Judge `judge`,
--               `timed_out` and `harden` of app/app/application/workbench/deliverable_check.py, Verdicts
--               what a verdict says. `json.loads`, the equality of floats and the test for zero are
--               parameters; the `detail` remarks of a check are left out.
--   Runners     the leases of sandboxes and the command queue of
--               app/app/infrastructure/workbench/repository.py: Queue has `acquire_leases`,
--               `renew_leases`, `release_leases`, `claim_commands`, `finish_command` and
--               `requeue_stale_commands`, Claims who works on a command. The payloads of commands stand
--               in Store, which has `enqueue_command` for the ledger; here a command is its row in
--               the queue.
--   Base        tables as association lists, integers, and the monad of methods that write a store and
--               may raise.
--
-- How the program is read. A method of the ledger is a function from the store to a result and a
-- store; `async with repo.transaction()` is `transaction`, which gives the old store back when the
-- body raises. The rows that a method reads `for update` are locked until the transaction ends, so
-- the calls on one task follow one another, and a history of the ledger is a list of calls. Ids,
-- digests, tokens and times are numbers, since the program only compares them; what a method draws
-- itself (uuid4, token_urlsafe, the clock) and the digest sha256 are its arguments. In the delivery a
-- transaction runs alone too, so `SKIP LOCKED` skips no row; the range checks of the constructor of
-- `DurableDelivery` stand in `make_delivery`, and the methods take any `Delivery`. Amounts of money
-- are integers of 10⁻⁶ of the currency, the precision of the columns; amounts are taken to be
-- representable there, so that Decimal never rounds. Events, commands and the outbox are kept with
-- the newest first.
--
-- No function here runs on fuel: every loop goes over a list.
--
-- Not modelled: the columns of a task that the ledger only copies (the input, the attachments, the
-- project's path, the current step), the payloads of events beyond what names them, the signing of
-- tokens, the views for pages, the runner and the advisor, provisioning, and the HTTP layer.
pub mod Base
pub mod States
pub mod Store
pub mod Ledger
pub mod ToolPolicy
pub mod Pricing
pub mod Delivery
pub mod Projects
pub mod Acceptance
pub mod Runners
