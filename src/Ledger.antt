-- ===== src/Ledger.antt =====
-- app/app/application/workbench/ledger.py: the class `Ledger`, method by method. Every method is one
-- transaction over the tables of `Store`. Ids, tokens and the time that a method draws itself
-- (`uuid.uuid4`, `secrets.token_urlsafe`, `datetime.now`) are its arguments, and so is the digest
-- `sha256` of app/app/domain/workbench/tokens.py.
mod Moves
mod Intake
mod Attempts
mod Answers
mod Cancel
mod Interactions
pub mod Wheel
pub mod Edits
pub mod Lifecycle
pub mod Once
pub mod Trace
pub mod Opening
pub mod Repeats
pub mod Waits
pub mod Behaviour
pub mod Money
pub mod Queue
pub mod Driven
mod Tests
unfoldable pub use Moves.*
unfoldable pub use Intake.*
unfoldable pub use Attempts.*
unfoldable pub use Answers.*
unfoldable pub use Cancel.*
unfoldable pub use Interactions.*
