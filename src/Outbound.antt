-- ===== src/Outbound.antt =====
-- The crate sniffbox/crates/sb-outbound: the SOCKS5 client and server, UDP frames, and the pool of
-- connections to the upstream proxy.
pub mod Wire
pub mod Socks5
pub mod Server
pub mod Socks5Udp
pub mod Pool
mod Greeting
mod Requests
mod Datagrams
mod Tests
