-- ===== src/Sniff.antt =====
-- The crate sniffbox/crates/sb-sniff: recognising protocols, peeking at streams, and remembering
-- the destinations that cannot be recognised.
pub mod NegCache
pub mod Errors
pub mod Reading
pub mod Tls
pub mod Http
pub mod Bittorrent
pub mod Recognise
pub mod Peek
