-- ===== src/DnsServer/Answers.antt =====
-- What the server of dns_server.rs answers to a datagram.
use pao_pao_gate_way.Common.{
  ℕ, ◌^◌, ◌<◌, ◌≡◌, refl, ap, ◌∙◌, true, some, arith, Option-cases, inl, inr,
}
use pao_pao_gate_way.Common.Bytes.{Bytes, AreBytes}
use pao_pao_gate_way.Dns.Message.{
  Query, ok, err, class_in, type_a, u16_at, parse_query, error_response, answer_a,
}
use pao_pao_gate_way.Dns.Response.{parse_response}
use pao_pao_gate_way.Dns.Questions.{parse_query-Question}
use pao_pao_gate_way.Dns.Records.{address}
use pao_pao_gate_way.Dns.Answers.{parse_response-answer_a}
use pao_pao_gate_way.Dns.Termination.{parse_query_total}
use pao_pao_gate_way.FakeIp.Valid.{is_valid_fakeip_domain}
use pao_pao_gate_way.FakeIp.Pool.{FakeIpPool, lookback}
use pao_pao_gate_way.FakeIp.Pool.Slices.{IsValid}
use pao_pao_gate_way.FakeIp.Pool.Answers.{lookback-intern_pool}
use pao_pao_gate_way.DnsServer.{rcode_formerr, answer, handle_query}
use pao_pao_gate_way.DnsServer.Names.{lowered-Question}
use pao_pao_gate_way.DnsServer.Replies.{Replies, Replies-error_response, Answered, answered}

-- To every datagram there is a response, whatever stands in it: one to its number, with a whole
-- header and the response bit, longer by 16 bytes at most; and the pool stays valid.
pub handle_query_total :
    (buf : Bytes) (pool : FakeIpPool)
    → AreBytes buf
    → IsValid pool
    → (pool' : FakeIpPool) × (resp : Bytes) × (handle_query buf pool ≡ some (pool', resp))
      × IsValid pool'
      × Replies buf resp
unfolding handle_query Answered
handle_query_total buf pool bytes v = elim (Option-cases (parse_query buf)) [
  | inl e ↦ absurd (ground (arith, e, parse_query_total buf))
  | inr (err x, e) ↦ (
    pool,
    error_response buf rcode_formerr,
    rw e refl,
    v,
    Replies-error_response buf rcode_formerr bytes,
  )
  | inr (ok q, e) ↦
      let (pool', resp, r, v', w) = answered buf bytes e pool v in (pool', resp, rw e r, v', w)
]

-- A query of bytes that is read, asks one question, of class IN and type A, for a name that may have
-- a fake address, is answered with one: in a valid pool whose time to live is of 32 bits. A reader
-- of the response finds the query's number, no error and that address with the pool's time, and the
-- pool then says that the address stands for the name of the query.
pub handle_query_assigns :
    (buf : Bytes) (pool : FakeIpPool) {q : Query}
    → AreBytes buf
    → IsValid pool
    → pool.ttl < 2 ^ 32
    → parse_query buf ≡ some (ok q)
    → u16_at buf 4 ≡ 1
    → q.qclass ≡ class_in
    → q.qtype ≡ type_a
    → is_valid_fakeip_domain q.name ≡ true
    → (pool' : FakeIpPool) × (resp : Bytes) × (ip : ℕ) × (pool'' : FakeIpPool) × (handle_query buf
          pool
        ≡ some (pool', resp))
      × IsValid pool'
      × (parse_response resp ≡ some (ok (address q.id ip pool.ttl)))
      × (lookback pool' ip ≡ some (pool'', some q.name))
unfolding handle_query answer
handle_query_assigns buf pool {q} bytes v ttl e one c t n =
    let (pool', ip, pool'', r, v', above, below, back) = lookback-intern_pool pool q.name v in
    let same = lowered-Question buf (parse_query-Question buf bytes e) in
    (
      pool',
      answer_a q ip pool.ttl,
      ip,
      pool'',
      rw (e, c, t, n, r) refl,
      v',
      parse_response-answer_a buf ip pool.ttl bytes e one (omega (arith, below, v.below)) ttl,
      back ∙ ap (λ d. some (pool'', some d)) same,
    )
