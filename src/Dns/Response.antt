-- ===== src/Dns/Response.antt =====
-- sniffbox/crates/sb-dns/src/message.rs, the reading of responses.
use Prim.Native.Nat.{bit_and, bit_or}
use pao_pao_gate_way.Common.{
  ℕ, zero, suc, ◌+◌, ◌*◌, ◌^◌, min, not, ◌&&◌, ◌||◌, List, [], ◌∷◌, ◌++◌, Option, none, some, ltb,
  leb, ◌==◌, if◌then◌else◌, length, get_or, get_elem?, take, drop,
}
use pao_pao_gate_way.Common.Bytes.{Bytes, from_be}
use pao_pao_gate_way.Common.Text.{from_utf8_lossy}
use pao_pao_gate_way.Dns.Message.{
  truncated, compression_in_question, name_too_long, Parsed, ok, err, ◌>>=◌, Fueled, u16_at, u32_at,
  type_a, type_aaaa, type_txt, type_mx, type_srv, header_len, with_dot,
}

pub record DnsResponse : Type 0 where
  pub id : ℕ
  pub rcode : ℕ
  pub v4 : List ℕ
  pub v6 : List ℕ
  pub txt : List Bytes
  pub mx : List Bytes
  pub srv : List (Bytes × ℕ)
  pub min_ttl : ℕ

-- The loop of `skip_name`, of 256 rounds.
unfoldable pub skip_name : ℕ → Bytes → ℕ → Parsed ℕ
skip_name zero buf pos = err name_too_long
skip_name (suc rounds) buf pos = elim (get_elem? buf pos) [
  | none ↦ err truncated
  | some len ↦
      if len == 0
      then ok (pos + 1)
      else if bit_and len 0xc0 == 0xc0
      then (if ltb (length buf) (pos + 2) then err truncated else ok (pos + 2))
      else if not (bit_and len 0xc0 == 0)
      then err compression_in_question
      else (let rest = skip_name rounds buf (pos + (1 + len)) in
          if leb (pos + (1 + len)) (length buf) then rest else err truncated)
]

unfoldable pub skip_questions : ℕ → Bytes → ℕ → Parsed ℕ
skip_questions zero buf pos = ok pos
skip_questions (suc n) buf pos = do
  p ← skip_name 256 buf pos
  if leb (p + 4) (length buf) then skip_questions n buf (p + 4) else err truncated

-- The loop of `read_name`: `none` is that the fuel ran out, `some none` the source's `None`.
unfoldable pub read_name : ℕ → Bytes → ℕ → ℕ → Bytes → Option (Option Bytes)
read_name zero buf pos hops out = none
read_name (suc fuel) buf pos hops out = elim (get_elem? buf pos) [
  | none ↦ some none
  | some len ↦
      if len == 0
      then some (some out)
      else if bit_and len 0xc0 == 0xc0
      then elim (get_elem? buf (pos + 1)) [
        | none ↦ some none
        | some lo ↦
            let target = bit_or (bit_and len 0x3f * 2 ^ 8) lo in
            let rest = read_name fuel buf target (hops + 1) out in
            if ltb 8 (hops + 1) || leb (length buf) target then some none else rest
      ]
      else if not (bit_and len 0xc0 == 0)
      then some none
      else (let end = pos + (1 + len) in
          let out' = with_dot out ++ from_utf8_lossy (take len (drop (pos + 1) buf)) in
          let rest = read_name fuel buf end hops out' in
          if leb end (length buf)
          then (if ltb 255 (length out') then some none else rest)
          else some none)
]

-- The loop over the strings of a TXT record.
unfoldable pub txt_strings : ℕ → Bytes → ℕ → ℕ → Option (List Bytes)
txt_strings zero buf p rdata_end = none
txt_strings (suc fuel) buf p rdata_end =
    let end = p + (1 + get_or buf p 0) in
    let rest : Option (List Bytes) = elim (txt_strings fuel buf end rdata_end) [
      | none ↦ none
      | some texts ↦ some (from_utf8_lossy (take (get_or buf p 0) (drop (p + 1) buf)) ∷ texts)
    ] in
    if ltb p rdata_end then (if leb end rdata_end then rest else some []) else some []

abbrev pub name_fuel : Bytes → ℕ
name_fuel buf = 9 * suc (length buf) + 1

-- The `match` on the type of a record whose data lies from `pos` to `pos + rdlen`.
unfoldable pub take_record : Bytes → ℕ → ℕ → ℕ → ℕ → DnsResponse → Option DnsResponse
unfolding read_name txt_strings
take_record buf rtype ttl rdlen pos out =
    if rtype == type_a && rdlen == 4
    then some (record out {
      v4 = out.v4 ++ from_be (take 4 (drop pos buf)) ∷ [];
      min_ttl = min out.min_ttl ttl;
    })
    else if rtype == type_aaaa && rdlen == 16
    then some (record out {
      v6 = out.v6 ++ from_be (take 16 (drop pos buf)) ∷ [];
      min_ttl = min out.min_ttl ttl;
    })
    else if rtype == type_txt
    then elim (txt_strings (suc rdlen) buf pos (pos + rdlen)) [
      | none ↦ none
      | some texts ↦ some (record out { txt = out.txt ++ texts })
    ]
    else if rtype == type_mx && ltb 2 rdlen
    then elim (read_name (name_fuel buf) buf (pos + 2) 0 []) [
      | none ↦ none
      | some none ↦ some out
      | some (some name) ↦ some (record out { mx = out.mx ++ name ∷ [] })
    ]
    else if rtype == type_srv && ltb 6 rdlen
    then elim (read_name (name_fuel buf) buf (pos + 6) 0 []) [
      | none ↦ none
      | some none ↦ some out
      | some (some name) ↦ some (record out { srv = out.srv ++ (name, u16_at buf (pos + 4)) ∷ [] })
    ]
    else some out

unfoldable pub read_answers : ℕ → Bytes → ℕ → DnsResponse → Fueled DnsResponse
unfolding take_record
read_answers zero buf pos out = some (ok out)
read_answers (suc n) buf pos out = elim (skip_name 256 buf pos) [
  | err e ↦ some (err e)
  | ok p ↦
      if ltb (length buf) (p + 10)
      then some (err truncated)
      else if ltb (length buf) (p + 10 + u16_at buf (p + 8))
      then some (err truncated)
      else elim (take_record buf (u16_at buf p) (u32_at buf (p + 4)) (u16_at buf (p + 8)) (p + 10)
          out) [ none ↦ none | some out' ↦ read_answers n buf (p + 10 + u16_at buf (p + 8)) out' ]
]

abbrev pub u32_max : ℕ
u32_max = 0xffffffff

abbrev pub blank : Bytes → DnsResponse
blank buf = record {
  id = u16_at buf 0;
  rcode = bit_and (get_or buf 3 0) 0x0f;
  v4 = [];
  v6 = [];
  txt = [];
  mx = [];
  srv = [];
  min_ttl = u32_max;
}

unfoldable pub parse_response : Bytes → Fueled DnsResponse
unfolding skip_name skip_questions read_answers
parse_response buf =
    if ltb (length buf) header_len
    then some (err truncated)
    else elim (skip_questions (u16_at buf 4) buf header_len) [
      | err e ↦ some (err e)
      | ok pos ↦ elim (read_answers (u16_at buf 6) buf pos (blank buf)) [
        | none ↦ none
        | some (err e) ↦ some (err e)
        | some (ok out) ↦
            some (ok (record out { min_ttl = if out.min_ttl == u32_max then 0 else out.min_ttl }))
      ]
    ]
