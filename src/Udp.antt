-- ===== src/Udp.antt =====
-- The bookkeeping of the UDP path: permits for sessions (sniffbox/crates/sniffbox/src/udp_budget.rs)
-- and sockets that send from foreign addresses (sniffbox/crates/sb-tproxy/src/spoof_cache.rs).
pub mod Budget
pub mod SpoofCache
