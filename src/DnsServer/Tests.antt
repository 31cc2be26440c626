-- ===== src/DnsServer/Tests.antt =====
-- Datagrams of the server at concrete inputs.
use pao_pao_gate_way.Common.{ℕ, ◌≡◌, refl, true, [], ◌∷◌, Option, none, some, arith, ltb}
use pao_pao_gate_way.Common.Bytes.{Bytes, All-of_all, be_bytes, from_be_at}
use pao_pao_gate_way.Common.Text.{split_dot}
use pao_pao_gate_way.Dns.Message.{
  Query, ok, parse_query, parse_name, lower, echo_prefix, write_response_header, error, nodata,
}
use pao_pao_gate_way.Dns.Response.{parse_response}
use pao_pao_gate_way.Dns.Records.{address}
use pao_pao_gate_way.FakeIp.Valid.{is_valid_fakeip_domain}
use pao_pao_gate_way.FakeIp.Shard
use pao_pao_gate_way.FakeIp.Shard.Refinement.{new-Holds}
use pao_pao_gate_way.FakeIp.Pool.{FakeIpPool, Ipv4Net, lookback}
use pao_pao_gate_way.FakeIp.Pool.Slices.{IsValid}
use pao_pao_gate_way.DnsServer.{answer, handle_query}
use pao_pao_gate_way.DnsServer.Replies.{Replies}
use pao_pao_gate_way.DnsServer.Answers.{handle_query_total, handle_query_assigns}

program : Unit {0}
unfolding handle_query answer parse_query parse_name lower be_bytes from_be_at split_dot
    is_valid_fakeip_domain error echo_prefix write_response_header
program = tt

-- 7.0.0.0/24
abbrev net : Ipv4Net
net = record {
  network = 0x07000000;
  broadcast = 0x070000ff;
  prefix_len = 24;
  has = λ ip. ltb ip 0x07000100;
}

abbrev base : ℕ
base = 0x07000004

abbrev pool : FakeIpPool
pool = record {
  shards = Shard.new base 251 4 ∷ [];
  net = net;
  ttl = 3;
  lo = base;
  span = 251;
  n_shards = 1;
}

pool-IsValid : IsValid pool
unfolding Shard.new
pool-IsValid = record {
  slices = (
    record {
      names = [];
      holds = new-Holds base 251 4 (omega arith) (omega arith) (omega arith);
      lo = refl;
      usable = refl;
    },
    tt,
  );
  all = refl;
  one = omega arith;
  few = omega arith;
  below = omega arith;
}

-- The query for "A.com", of a type.
abbrev query : ℕ → Bytes
query qtype =
    1 ∷ 2 ∷ 1 ∷ 0 ∷ 0 ∷ 1 ∷ 0 ∷ 0 ∷ 0 ∷ 0 ∷ 0 ∷ 0 ∷ 1 ∷ b'A' ∷ 3 ∷ b'c' ∷ b'o' ∷ b'm' ∷ 0 ∷ 0
    ∷ qtype ∷ 0 ∷ 1 ∷ []

abbrev question : Query
question = record {
  id = 258;
  rd = true;
  name = b'a' ∷ b'.' ∷ b'c' ∷ b'o' ∷ b'm' ∷ [];
  qtype = 1;
  qclass = 1;
  question_end = 23;
  raw = query 1;
}

handle_query_assigns_example :
    (pool' : FakeIpPool) × (resp : Bytes) × (ip : ℕ) × (pool'' : FakeIpPool) × (handle_query
        (query 1)
        pool
      ≡ some (pool', resp))
    × IsValid pool'
    × (parse_response resp ≡ some (ok (address 258 ip 3)))
    × (lookback pool' ip ≡ some (pool'', some question.name))
handle_query_assigns_example =
    handle_query_assigns (query 1) pool {q = question} (All-of_all 256 (query 1) refl) pool-IsValid
      (omega arith) (unfold program in refl) (unfold program in refl) refl refl
      (unfold program in refl)

-- Two bytes are no query.
handle_query_total_example :
    (pool' : FakeIpPool) × (resp : Bytes) × (handle_query (7 ∷ 9 ∷ []) pool ≡ some (pool', resp))
    × IsValid pool'
    × Replies (7 ∷ 9 ∷ []) resp
handle_query_total_example =
    handle_query_total (7 ∷ 9 ∷ []) pool (All-of_all 256 (7 ∷ 9 ∷ []) refl) pool-IsValid

abbrev response : Option (FakeIpPool × Bytes) → Bytes
response none = []
response (some (p, resp)) = resp

-- Type AAAA gets no record.
no_data :
    response (handle_query (query 28) pool)
    ≡ 1 ∷ 2 ∷ 0x81 ∷ 0x80 ∷ 0 ∷ 1 ∷ 0 ∷ 0 ∷ 0 ∷ 0 ∷ 0 ∷ 0 ∷ 1 ∷ b'A' ∷ 3 ∷ b'c' ∷ b'o' ∷ b'm' ∷ 0
      ∷ 0 ∷ 28 ∷ 0 ∷ 1 ∷ []
unfolding program nodata
no_data = refl
