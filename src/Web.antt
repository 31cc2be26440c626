-- ===== src/Web.antt =====
-- The access to the web interface: of sniffbox/crates/sb-web/src, auth.rs (Tokens), router.rs
-- (Router), gate.rs (Gates), acl.rs and what server.rs makes of them (Server).
pub mod Tokens
pub mod Router
pub mod Server
pub mod Gates
mod Tests
