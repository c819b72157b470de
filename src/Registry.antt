-- ===== src/Registry.antt =====
-- internal/agentreg: the registry of agents, over a `HybridStore`.
--
-- The lock makes each registration one step. A store, the signature file and its check are
-- parameters; the texts of errors are left out.
pub mod Register
pub mod Queries
pub mod Writes
pub mod Dependencies
pub mod Start
mod Samples
