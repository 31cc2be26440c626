-- ===== src/DnsServer.antt =====
-- sniffbox/crates/sniffbox/src/dns_server.rs: what a datagram of the server is answered. The state is
-- the pool of fake addresses; `none` is a panic of the pool or fuel that runs out in `parse_query`.
-- `class_in`, `type_a` and the like are of Dns.Message.
pub mod Names
pub mod Replies
pub mod Answers
mod Tests
use pao_pao_gate_way.Common.{ℕ, Option, none, some, not, ◌==◌, if◌then◌else◌}
use pao_pao_gate_way.Common.Bytes.{Bytes}
use pao_pao_gate_way.Dns.Message.{
  Query, ok, err, class_in, type_a, parse_query, error_response, error, answer_a, nodata,
}
use pao_pao_gate_way.FakeIp.Valid.{is_valid_fakeip_domain}
use pao_pao_gate_way.FakeIp.Shard.{◌>>=◌}
use pao_pao_gate_way.FakeIp.Pool.{FakeIpPool, intern}

abbrev pub rcode_formerr : ℕ
rcode_formerr = 1

abbrev pub rcode_nxdomain : ℕ
rcode_nxdomain = 3

abbrev pub rcode_notimp : ℕ
rcode_notimp = 4

-- A query of type A for a good name.
abbrev pub assign : Query → FakeIpPool → Option (FakeIpPool × Bytes)
assign q pool = do (pool1, ip) ← intern pool q.name; some (pool1, answer_a q ip pool.ttl)

unfoldable pub answer : Query → FakeIpPool → Option (FakeIpPool × Bytes)
answer q pool =
    let assigned = assign q pool in
    if not (q.qclass == class_in)
    then some (pool, error q rcode_notimp)
    else if q.qtype == type_a
    then (if not (is_valid_fakeip_domain q.name)
        then some (pool, error q rcode_nxdomain)
        else assigned)
    else some (pool, nodata q)

unfoldable pub handle_query : Bytes → FakeIpPool → Option (FakeIpPool × Bytes)
handle_query buf pool = do
  parsed ← parse_query buf
  elim parsed [ err e ↦ some (pool, error_response buf rcode_formerr) | ok q ↦ answer q pool ]
