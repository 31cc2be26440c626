-- ===== src/DnsServer/Replies.antt =====
-- The responses of dns_server.rs, and what each has in common with its datagram.
use Prim.Native.Nat.{bit_or}
use pao_pao_gate_way.Common.{
  ℕ, ◌+◌, ◌^◌, ◌<◌, ◌≤◌, ◌≡◌, refl, ap, subst, sym, ◌∙◌, Bool, true, false, [], ◌∷◌, ◌++◌, some,
  arith, length, leb, get_or, if◌then◌else◌, Bool-cases, inl, inr, length-append, length-take,
  length-drop, ◌==◌,
}
use mathlib.Core.List.{append-nil}
use pao_pao_gate_way.Common.Bytes.{Bytes, AreBytes, be_bytes, from_be_at, from_be-be_bytes}
use pao_pao_gate_way.Dns.Message.{
  Query, ok, class_in, type_a, u16_at, parse_query, write_response_header, echo_prefix,
  error_response, error, answer_a, nodata,
}
use pao_pao_gate_way.Dns.Questions.{parse_query-Question}
use pao_pao_gate_way.Dns.Answers.{header_apart, echo_prefix-id}
use pao_pao_gate_way.FakeIp.Valid.{is_valid_fakeip_domain}
use pao_pao_gate_way.FakeIp.Pool.{FakeIpPool}
use pao_pao_gate_way.FakeIp.Pool.Slices.{IsValid}
use pao_pao_gate_way.FakeIp.Pool.Answers.{lookback-intern_pool}
use pao_pao_gate_way.DnsServer.{rcode_notimp, rcode_nxdomain, assign, answer}

-- A response to the sender's number that adds at most the record of one address.
pub record Replies (buf resp : Bytes) : Type 0 where
  pub id : u16_at resp 0 ≡ (if leb 2 (length buf) then u16_at buf 0 else 0)
  pub response : 0x80 ≤ get_or resp 2 0
  pub header : 12 ≤ length resp
  pub fits : length resp ≤ length buf + 16

response_byte : (rd : Bool) → 0x80 ≤ bit_or 0x80 (if rd then 0x01 else 0)
response_byte true = omega arith
response_byte false = omega arith

-- The header over the first twelve bytes of a longer text.
header_written :
    (xs : Bytes) (rd : Bool) (rcode n : ℕ)
    → 12 ≤ length xs
    → (u16_at (write_response_header xs rd rcode n) 0 ≡ u16_at xs 0)
      × (0x80 ≤ get_or (write_response_header xs rd rcode n) 2 0)
      × (length (write_response_header xs rd rcode n) ≡ length xs)
unfolding write_response_header be_bytes
header_written xs rd rcode n h =
    let w = header_apart xs h in
    let size = ap length w.apart in
    (
      rw w.apart refl,
      rw w.apart (response_byte rd),
      rw w.apart (omega (arith, length-drop 6 w.more, size, h)),
    )

front_kept :
    (xs ys : Bytes)
    → 12 ≤ length xs
    → (u16_at (xs ++ ys) 0 ≡ u16_at xs 0) × (get_or (xs ++ ys) 2 0 ≡ get_or xs 2 0)
front_kept xs ys h = let w = header_apart xs h in (rw w.apart refl, rw w.apart refl)

-- The number of a datagram is of 16 bits.
abbrev number : Bytes → ℕ
number buf = if leb 2 (length buf) then u16_at buf 0 else 0

number-lt : (buf : Bytes) → AreBytes buf → number buf < 256 ^ 2
unfolding from_be_at
number-lt [] h = omega arith
number-lt (a ∷ []) h = omega arith
number-lt (a ∷ b ∷ buf) (p, (q, h)) = ground arith

-- A response over what `parse_query` accepted.
module _ (buf : Bytes) {q : Query} (bytes : AreBytes buf) (e : parse_query buf ≡ some (ok q)) where
  echoed : (12 ≤ length (echo_prefix q)) × (length (echo_prefix q) ≤ length buf)
  unfolding echo_prefix
  echoed =
      let r = parse_query-Question buf bytes e in
      let raw = ap length r.kept in
      (
        omega (arith, length-take q.question_end q.raw, r.ends, r.fits, raw),
        omega (arith, length-take q.question_end q.raw, raw),
      )

  echoed_id : u16_at (echo_prefix q) 0 ≡ (if leb 2 (length buf) then u16_at buf 0 else 0)
  echoed_id =
      let r = parse_query-Question buf bytes e in
      echo_prefix-id buf r
      ∙ sym (
          ap (λ b. if b then u16_at buf 0 else 0) {x = leb 2 (length buf)} {y = true}
            (ground (arith, r.ends, r.fits)))

  Replies-header :
      (rcode n : ℕ) (more : Bytes)
      → length more ≤ 16
      → Replies buf (write_response_header (echo_prefix q) q.rd rcode n ++ more)
  Replies-header rcode n more k =
      let w = header_written (echo_prefix q) q.rd rcode n echoed.0 in
      let out = write_response_header (echo_prefix q) q.rd rcode n in
      let size : 12 ≤ length out = omega (arith, w.2, echoed.0) in
      let a = front_kept out more size in
      record {
        id = a.0 ∙ w.0 ∙ echoed_id;
        response = omega (arith, a.1, w.1);
        header = omega (arith, length-append out more, size);
        fits = omega (arith, length-append out more, w.2, echoed.1, k);
      }

  Replies-bare : (rcode n : ℕ) → Replies buf (write_response_header (echo_prefix q) q.rd rcode n)
  Replies-bare rcode n =
      subst (Replies buf) (append-nil (write_response_header (echo_prefix q) q.rd rcode n))
        (Replies-header rcode n [] (omega arith))

  unfoldable pub Answered : FakeIpPool → Type 0
  Answered pool =
      (pool' : FakeIpPool) × (resp : Bytes) × (answer q pool ≡ some (pool', resp))
      × IsValid pool'
      × Replies buf resp

  assigned :
      (pool : FakeIpPool)
      → IsValid pool
      → (pool' : FakeIpPool) × (resp : Bytes) × (assign q pool ≡ some (pool', resp))
        × IsValid pool'
        × Replies buf resp
  unfolding answer_a be_bytes
  assigned pool v =
      let (p', ip, p'', r, v', above, below, back) = lookback-intern_pool pool q.name v in
      (p', answer_a q ip pool.ttl, ground (arith, r), v', Replies-header 0 1 _ (omega arith))

  pub answered : (pool : FakeIpPool) → IsValid pool → Answered pool
  unfolding answer Answered error nodata
  answered pool v =
      let (p', resp, r, v', w) = assigned pool v in
      elim (Bool-cases (q.qclass == class_in)) [
        | inr c ↦ (pool, error q rcode_notimp, rw c refl, v, Replies-bare rcode_notimp 0)
        | inl c ↦ elim (Bool-cases (q.qtype == type_a)) [
          | inr t ↦ (pool, nodata q, rw (c, t) refl, v, Replies-bare 0 0)
          | inl t ↦ elim (Bool-cases (is_valid_fakeip_domain q.name)) [
            | inr n ↦
                (pool, error q rcode_nxdomain, rw (c, t, n) refl, v, Replies-bare rcode_nxdomain 0)
            | inl n ↦ (p', resp, rw (c, t, n) r, v', w)
          ]
        ]
      ]

pub Replies-error_response :
    (buf : Bytes) (rcode : ℕ) → AreBytes buf → Replies buf (error_response buf rcode)
unfolding error_response write_response_header be_bytes
Replies-error_response buf rcode h = record {
  id = from_be-be_bytes 2 (number buf) (number-lt buf h);
  response = omega arith;
  header = omega arith;
  fits = omega arith;
}
