-- ===== src/Toposort.antt =====
-- internal/toposort/toposort.go, the dependency order shared by the registry and the manager.
--
-- A node is its name. A Go map from nodes to dependency lists is an association list. A map from
-- nodes to SETS of dependencies is the list of its pairs, without repetition (`add_edge`): a node
-- with no pair has no entry. `inDeg` is a function. Go leaves the order of a walk over a map open;
-- here it is the order of the list.
pub mod Edges
pub mod Kahn
pub mod Within
mod Residue
mod Loop
mod Phases
pub mod Order
pub mod Cycles
mod Samples
unfoldable pub use Edges.*
unfoldable pub use Kahn.*
