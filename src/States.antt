-- ===== src/States.antt =====
-- app/app/domain/workbench/states.py: the state words of tasks and attempts, the tables of legal
-- moves and the two validators. A `StrEnum` is a data type; the call `TaskState(s)` on a text is
-- `task_of_text`, where `none` stands for the `ValueError` of any other word; a table of frozen
-- sets is a function into lists.
mod Words
pub mod Moves
pub mod Graph
mod Tests
unfoldable pub use Words.*
