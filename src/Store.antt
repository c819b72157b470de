-- ===== src/Store.antt =====
-- core/store and internal/db.
pub mod Bbolt
pub mod Keys
pub mod Kv
pub mod Graph
pub mod Interface
pub mod Hybrid
pub mod Memory
