-- ===== src/Store.antt =====
-- The tables that the ledger works on and the queries of
-- app/app/infrastructure/workbench/repository.py that it makes: the rows in `Rows`, one function
-- for each query in `Queries`.
mod Rows
mod Queries
pub mod Frame
pub mod Evolves
pub mod Steps
pub mod History
pub mod Closed
unfoldable pub use Rows.*
unfoldable pub use Queries.*
