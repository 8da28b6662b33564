-- ===== src/Store/Frame.antt =====
-- Which table a query touches: a query that leaves a table alone respects every preorder on that
-- table. A module for each table, with one ruleset for the proofs of whole methods.
mod Sessions
mod Tasks
mod Interactions
pub use Sessions.*
pub use Tasks.*
pub use Interactions.*
