-- ===== src/Acceptance.antt =====
-- The acceptance of what a step hands in: app/app/application/workbench/acceptance.py, and `harden` of
-- app/app/application/workbench/deliverable_check.py. A text is the list of its code points. The
-- `detail` of a check, a remark for the logs, is left out.
pub mod Json
pub mod Extract
pub mod Judge
pub mod Verdicts
mod Tests
