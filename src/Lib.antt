-- ===== src/Lib.antt =====
-- PaoPaoGateWay: the gateway's traffic program, a workspace of Rust crates below sniffbox/crates.
--
-- A connection that the gateway intercepts is peeked at, recognised by its first bytes, and then
-- sent on directly or through a SOCKS5 proxy; UDP sessions go through the same proxy as frames and
-- are answered from sockets that are bound to foreign addresses; names are resolved by a DNS
-- server of the program's own. The files model these parts:
--
-- Dns (sniffbox/crates/sb-dns/src/message.rs): Message has the queries (`parse_query`,
-- `parse_name`, the answers, `build_query_with`), Response the responses (`parse_response`).
-- Names says what a name in a message is, Labels and Queries have the queries that are written,
-- Questions the queries that are accepted, Answers the answers to them, Termination
-- the ends of the loops.
--
-- DnsServer (sniffbox/crates/sniffbox/src/dns_server.rs): `handle_query`, which puts Dns.Message and
-- FakeIp.Pool together: it takes the pool and gives it back with the response. Names has why a name
-- that was read needs no lowering, Replies and Answers what the responses are.
--
-- FakeIp (sniffbox/crates/sb-dns/src): Hash (hash.rs), Valid (valid.rs), and of pool.rs Shard, the
-- linked list and the tables of a slice of addresses, and Pool, the slices together. Below Shard:
-- Links and Moves have the list, Places the search for a free address, Tables the invariant,
-- Evictions and Admissions what an old and a new name do to it, Holders the list of names that a
-- shard stands for, Positions the order of that list, Refinement and Recency what follows for a
-- client.
--
-- Sniff (sniffbox/crates/sb-sniff/src): NegCache (neg_cache.rs), Peek (peek.rs), Reading and Tls
-- (tls.rs), Http (http.rs), Bittorrent (bittorrent.rs), Recognise (`sniff_all` of lib.rs), and
-- Errors (error.rs).
--
-- Udp: Budget (sniffbox/crates/sniffbox/src/udp_budget.rs) and SpoofCache
-- (sniffbox/crates/sb-tproxy/src/spoof_cache.rs).
--
-- Outbound (sniffbox/crates/sb-outbound/src): Wire is a stream as one side sees it, Socks5
-- (socks5.rs) the client, Server (server.rs) the server, Socks5Udp (socks5_udp.rs) the frames,
-- Pool (pool.rs) the connections kept ready.
--
-- Stats (sniffbox/crates/sb-stats/src): Records (types.rs), Drains (`drain_one` of types.rs as
-- interleaved threads; Conservation has the proof), Table (conn_table.rs), Agg (agg.rs), Nodes
-- (nodes.rs and traffic.rs), Cleanup (cleanup.rs).
--
-- Web (sniffbox/crates/sb-web/src): Tokens (auth.rs), Router (router.rs; Targets and Escapes are on
-- the names of groups in a path), Server (acl.rs, and of server.rs what `handle_conn` asks before it
-- serves a request), Gates (gate.rs).
--
-- Rules (sniffbox/crates/sniffbox/src/domain_rules.rs): groups of names and the addresses seen for
-- them.
--
-- Common: Boolean tests and lists over the native numbers, bytes and integers in network order,
-- texts as bytes, positions in a buffer, maps as association lists and what a limit on
-- their entries gives up, addresses.
--
-- A structure of the source is a record with its fields, an operation a function from state to
-- state. A call is one step where a lock makes it one; where none does, the calls come one after
-- another, and Threads of Sniff.NegCache, Threads of Rules and Drains of Stats have the single steps
-- of calls that overlap. The clock, what a socket has, what binding gives, and the parser of the
-- package httparse are arguments; so is the capacity that the package bytes gives a buffer. Machine integers are natural numbers. Where the sums of bytes, the
-- counters that threads share and `fails` of Sniff.NegCache could wrap around, the model does; that
-- other counters stay within their widths is not modelled, and hypotheses name the widths.
--
-- Loops without a bound of their own take fuel. For `parse_name`, `gather` and the lists of tls.rs
-- it is the length of the buffer, of which each round takes at least a byte; for `read_name` it is
-- nine times the length, since each of at most eight jumps is worth a buffer; an answer `none` or
-- `unfinished` says that it ran out. `skip_name` has the source's 256 rounds. The loop of
-- `rapidhash` has the length of the key, of which a round takes 112 bytes.
--
-- Not modelled: QUIC, whose packets are decrypted by a package; system calls, the sockets
-- themselves and the tasks; the routes of the web interface, the command line tool, the rules by
-- address and the shell scripts.
pub mod Common
pub mod Sniff
pub mod Udp
pub mod Dns
pub mod FakeIp
pub mod DnsServer
pub mod Web
pub mod Outbound
pub mod Rules
pub mod Stats
