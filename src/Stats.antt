-- ===== src/Stats.antt =====
-- The crate sniffbox/crates/sb-stats: the connections and what went through them.
pub mod Records
pub mod Drains
pub mod Table
pub mod Agg
pub mod Nodes
mod Tests
pub mod Cleanup
