-- ===== src/Dns/Termination.antt =====
-- The loops of message.rs end: the fuel that the model gives them is never used up.
use Prim.Native.Nat.{bit_and, bit_or}
use pao_pao_gate_way.Common.{
  ◌⊎◌, ℕ, zero, suc, ◌+◌, ◌-◌, ◌*◌, ◌^◌, ◌≤◌, ◌<◌, ◌≡◌, refl, ap, ◌∙◌, true, [], ◌++◌, arith,
  length, get_elem?, get_or, take, drop, is_some, Option-cases, inl, inr,
}
use native.Mathlib.Nat.{suc-mul}
use pao_pao_gate_way.Common.Bytes.{Bytes}
use pao_pao_gate_way.Common.Cursor.{get_elem?-some_lt}
use pao_pao_gate_way.Common.Text.{from_utf8_lossy}
use pao_pao_gate_way.Dns.Message.{
  DnsError, Parsed, ok, err, parse_name, parse_query, lower, with_dot, u16_at, u32_at,
}
use pao_pao_gate_way.Dns.Response.{
  DnsResponse, skip_name, read_name, txt_strings, take_record, read_answers, name_fuel, blank,
  parse_response, skip_questions,
}

parse_name_total :
    (fuel : ℕ) (buf : Bytes) (pos : ℕ) (name : Bytes)
    → length buf - pos < fuel
    → is_some (parse_name fuel buf pos name) ≡ true
unfolding parse_name
parse_name_total zero buf pos name h = absurd (omega arith)
parse_name_total (suc fuel) buf pos name h = elim (Option-cases (get_elem? buf pos)) [
  | inl g ↦ ground arith
  | inr (len, g) ↦ ground (
    arith,
    get_elem?-some_lt buf pos g,
    parse_name_total fuel buf (pos + 1 + len)
        (with_dot name ++ lower (take len (drop (pos + 1) buf))),
  )
]

-- Reading a query always gives a query or an error.
pub parse_query_total : (buf : Bytes) → is_some (parse_query buf) ≡ true
unfolding parse_query
parse_query_total buf = ground (arith, parse_name_total (length buf) buf 12 [])

Parsed-cases : {A : Type 0} (r : Parsed A) → ((e : DnsError) × (r ≡ err e)) ⊎ ((a : A) × (r ≡ ok a))
Parsed-cases (err e) = inl (e, refl)
Parsed-cases (ok a) = inr (a, refl)

-- What is left of the fuel at a jump: a hop is worth a whole buffer.
left_after_hop : (hops n : ℕ) → hops < 8 → (8 - hops) * suc n ≡ suc n + (8 - (hops + 1)) * suc n
left_after_hop hops n k =
    ap (λ d. d * suc n) {x = 8 - hops} {y = suc (8 - (hops + 1))} (omega arith)
    ∙ omega (arith, suc-mul (8 - (hops + 1)) (suc n))

read_name_total :
    (fuel : ℕ) (buf : Bytes) (pos hops : ℕ) (out : Bytes)
    → hops ≤ 8
    → (8 - hops) * suc (length buf) + (length buf - pos) < fuel
    → is_some (read_name fuel buf pos hops out) ≡ true
unfolding read_name
read_name_total zero buf pos hops out k h = absurd (omega arith)
read_name_total (suc fuel) buf pos hops out k h = elim (Option-cases (get_elem? buf pos)) [
  | inl g ↦ ground arith
  | inr (len, g) ↦ elim (Option-cases (get_elem? buf (pos + 1))) [
    | inl g' ↦ ground (
      arith,
      get_elem?-some_lt buf pos g,
      read_name_total fuel buf (pos + (1 + len)) hops
          (with_dot out ++ from_utf8_lossy (take len (drop (pos + 1) buf))),
    )
    | inr (lo, g') ↦ ground (
      arith,
      get_elem?-some_lt buf pos g,
      left_after_hop hops (length buf),
      read_name_total fuel buf (bit_or (bit_and len 0x3f * 2 ^ 8) lo) (hops + 1) out,
      read_name_total fuel buf (pos + (1 + len)) hops
          (with_dot out ++ from_utf8_lossy (take len (drop (pos + 1) buf))),
    )
  ]
]

txt_strings_total :
    (fuel : ℕ) (buf : Bytes) (p rdata_end : ℕ)
    → rdata_end - p < fuel
    → is_some (txt_strings fuel buf p rdata_end) ≡ true
unfolding txt_strings
txt_strings_total zero buf p rdata_end h = absurd (omega arith)
txt_strings_total (suc fuel) buf p rdata_end h =
    ground (arith, txt_strings_total fuel buf (p + (1 + get_or buf p 0)) rdata_end)

name_total : (buf : Bytes) (pos : ℕ) → is_some (read_name (name_fuel buf) buf pos 0 []) ≡ true
name_total buf pos =
    read_name_total (name_fuel buf) buf pos 0 [] (omega arith)
      (omega (arith, suc-mul 8 (suc (length buf))))

take_record_total :
    (buf : Bytes) (rtype ttl rdlen pos : ℕ) (out : DnsResponse)
    → is_some (take_record buf rtype ttl rdlen pos out) ≡ true
unfolding take_record
take_record_total buf rtype ttl rdlen pos out = ground (
  arith,
  name_total buf (pos + 2),
  name_total buf (pos + 6),
  txt_strings_total (suc rdlen) buf pos (pos + rdlen),
)

read_answers_total :
    (n : ℕ) (buf : Bytes) (pos : ℕ) (out : DnsResponse)
    → is_some (read_answers n buf pos out) ≡ true
unfolding read_answers
read_answers_total zero buf pos out = refl
read_answers_total (suc n) buf pos out = elim (Parsed-cases (skip_name 256 buf pos)) [
  | inl (e, s) ↦ ground arith
  | inr (p, s) ↦
      elim (Option-cases
        (take_record buf (u16_at buf p) (u32_at buf (p + 4)) (u16_at buf (p + 8)) (p + 10) out)) [
          | inl t ↦ absurd (
              ground (
                arith,
                take_record_total buf (u16_at buf p) (u32_at buf (p + 4)) (u16_at buf (p + 8))
                    (p + 10) out,
              ))
          | inr (out', t) ↦
              ground (arith, read_answers_total n buf (p + 10 + u16_at buf (p + 8)) out')
        ]
]

-- Reading a response always gives a response or an error: compression pointers that form a
-- cycle end the loop as well.
pub parse_response_total : (buf : Bytes) → is_some (parse_response buf) ≡ true
unfolding parse_response
parse_response_total buf = elim (Parsed-cases (skip_questions (u16_at buf 4) buf 12)) [
  | inl (e, s) ↦ ground arith
  | inr (pos, s) ↦ ground (arith, read_answers_total (u16_at buf 6) buf pos (blank buf))
]
