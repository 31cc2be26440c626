-- ===== src/Dns.antt =====
-- The crate sniffbox/crates/sb-dns: messages, and names for fake addresses.
pub mod Message
pub mod Response
pub mod Names
mod Labels
pub mod Questions
pub mod Records
pub mod Answers
pub mod Queries
pub mod Termination
mod Tests
