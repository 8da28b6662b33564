-- ===== src/ToolPolicy.antt =====
-- app/app/domain/workbench/tool_policy.py: who may run a tool without being asked. `Rules` has its
-- functions, `Strict` what a step can do to the policy of its expert, `Grants` what an answer for
-- the whole task covers.
pub mod Rules
pub mod Strict
pub mod Grants
mod Tests
