-- ===== src/Runners.antt =====
-- How runners share the sandboxes and the commands: the leases and the command queue of
-- app/app/infrastructure/workbench/repository.py. Times are microseconds; `now()` is the time of the
-- transaction, an argument. Runners, sandboxes and errors are numbers. Commands stand in the order of
-- `created_at`.
pub mod Queue
pub mod Claims
mod Tests
