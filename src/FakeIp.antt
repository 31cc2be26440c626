-- ===== src/FakeIp.antt =====
-- The fake addresses of sniffbox/crates/sb-dns: pool.rs, hash.rs and valid.rs.
pub mod Hash
pub mod Valid
pub mod Shard
pub mod Pool
mod Tests
