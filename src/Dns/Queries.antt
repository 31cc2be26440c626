-- ===== src/Dns/Queries.antt =====
-- A query that message.rs builds, read back.
use Prim.Native.Nat.{bit_and}
use mathlib.Core.List.{append-nil}
use pao_pao_gate_way.Common.{
  ℕ, ◌+◌, ◌≤◌, ◌<◌, ◌≡◌, refl, ap, ◌∙◌, Bool, true, false, not, List, [], ◌∷◌, ◌++◌, map, Option,
  some, arith, ltb, ◌==◌, length, length-append, drop_eq, All, Option-cases, inl, inr,
}
use pao_pao_gate_way.Common.Bytes.{
  Bytes, be_bytes, from_be, from_be_at, length-be_bytes, from_be-be_bytes,
}
use pao_pao_gate_way.Common.Text.{to_ascii_lowercase}
use pao_pao_gate_way.Common.Cursor.{At, At-next, At-take}
use pao_pao_gate_way.Dns.Message.{
  Parsed, ok, Query, parse_name, parse_query, lower, written_name, query_header, build_query_with,
  u16_at, class_in,
}
use pao_pao_gate_way.Dns.Names.{labels_bytes, AreLabels, joined, parse_name-labels}
use pao_pao_gate_way.Dns.Labels.{lower-map, length-labels_bytes, length-map, label_list}

length-query_header : (id : ℕ) (rd : Bool) → length (query_header id rd) ≡ 12
unfolding query_header be_bytes
length-query_header id true = refl
length-query_header id false = refl

-- The header of a query, as `parse_query` takes it apart.
header_fields :
    (id : ℕ) (rd : Bool) (rest : Bytes)
    → id < 65536
    → (u16_at (query_header id rd ++ rest) 0 ≡ id)
      × ((bit_and (u16_at (query_header id rd ++ rest) 2) 0x8000 == 0) ≡ true)
      × (not (bit_and (u16_at (query_header id rd ++ rest) 2) 0x0100 == 0) ≡ rd)
      × (u16_at (query_header id rd ++ rest) 4 ≡ 1)
unfolding query_header be_bytes from_be_at
header_fields id true rest h = (omega arith, refl, refl, refl)
header_fields id false rest h = (omega arith, refl, refl, refl)

-- `parse_query` from the parts of a message.
parse_query_of :
    (buf : Bytes) (id qtype qclass pos : ℕ) (rd : Bool) (name : Bytes)
    → 12 ≤ length buf
    → (u16_at buf 0 ≡ id)
      × ((bit_and (u16_at buf 2) 0x8000 == 0) ≡ true)
      × (not (bit_and (u16_at buf 2) 0x0100 == 0) ≡ rd)
      × (u16_at buf 4 ≡ 1)
    → parse_name (length buf) buf 12 [] ≡ some (ok (name, pos))
    → pos + 4 ≤ length buf
    → u16_at buf pos ≡ qtype
    → u16_at buf (pos + 2) ≡ qclass
    → parse_query buf
      ≡ some (
          ok (record {
            id = id;
            rd = rd;
            name = name;
            qtype = qtype;
            qclass = qclass;
            question_end = pos + 4;
            raw = buf;
          }))
unfolding parse_query
parse_query_of buf id qtype qclass pos rd name h f n k t c =
    let a : ltb (length buf) 12 ≡ false = ground arith in
    let b : ltb (length buf) (pos + 4) ≡ false = ground arith in
    rw (a, f.0, f.1, f.2, f.3, n, b, t, c)

-- The query as it is read back: its name in lower case, the whole buffer its question.
unfoldable pub asked : ℕ → Bytes → ℕ → Bool → Bytes → Query
asked id name qtype rd bytes = record {
  id = id;
  rd = rd;
  name = map to_ascii_lowercase name;
  qtype = qtype;
  qclass = class_in;
  question_end = length bytes;
  raw = bytes;
}

module _ (id qtype : ℕ) (rd : Bool) (ls : List Bytes) where
  ending : Bytes
  ending = be_bytes 2 qtype ++ be_bytes 2 class_in

  message : Bytes
  unfolding ending
  message = query_header id rd ++ (labels_bytes ls ++ 0 ∷ ending)

  length-message : length message ≡ 12 + length (labels_bytes ls) + 1 + 4
  unfolding message ending
  length-message = omega (
    arith,
    length-query_header id rd,
    length-append (query_header id rd) (labels_bytes ls ++ 0 ∷ ending),
    length-append (labels_bytes ls) (0 ∷ ending),
    length-append (be_bytes 2 qtype) (be_bytes 2 class_in),
    length-be_bytes 2 qtype,
    length-be_bytes 2 class_in,
  )

  At-names : At message 12 (labels_bytes ls ++ 0 ∷ ending)
  unfolding message
  At-names = record {
    from = drop_eq (query_header id rd) (labels_bytes ls ++ 0 ∷ ending) (length-query_header id rd);
    ends = omega (
      arith,
      length-append (query_header id rd) (labels_bytes ls ++ 0 ∷ ending),
      length-query_header id rd,
    );
  }

  At-ending :
      At message (12 + length (labels_bytes ls) + 1) (be_bytes 2 qtype ++ be_bytes 2 class_in)
  unfolding ending
  At-ending =
      At-next 1 (0 ∷ []) (be_bytes 2 qtype ++ be_bytes 2 class_in) refl
        (At-next (length (labels_bytes ls)) (labels_bytes ls) (0 ∷ ending) refl At-names)

  fields :
      id < 65536
      → (u16_at message 0 ≡ id)
        × ((bit_and (u16_at message 2) 0x8000 == 0) ≡ true)
        × (not (bit_and (u16_at message 2) 0x0100 == 0) ≡ rd)
        × (u16_at message 4 ≡ 1)
  unfolding message
  fields h = header_fields id rd (labels_bytes ls ++ 0 ∷ ending) h

  read_message :
      id < 65536
      → qtype < 65536
      → AreLabels ls
      → length (joined [] ls) ≤ 255
      → parse_query message
        ≡ some (
            ok (record {
              id = id;
              rd = rd;
              name = joined [] ls;
              qtype = qtype;
              qclass = class_in;
              question_end = length message;
              raw = message;
            }))
  read_message h k proper short =
      let pos = 12 + length (labels_bytes ls) + 1 in
      let e : pos + 4 ≡ length message = omega (arith, length-message) in
      let t =
        ap from_be
          (At-take 2 (be_bytes 2 qtype) (be_bytes 2 class_in) (length-be_bytes 2 qtype) At-ending)
        ∙ from_be-be_bytes 2 qtype (omega arith) in
      let c =
        ap from_be (
          At-take {buf = message} {pos = pos + 2} 2 (be_bytes 2 class_in) []
            (length-be_bytes 2 class_in)
            (rw (append-nil (be_bytes 2 class_in)) (
              At-next 2 (be_bytes 2 qtype) (be_bytes 2 class_in) (length-be_bytes 2 qtype)
                At-ending)))
        ∙ from_be-be_bytes 2 class_in (omega arith) in
      parse_query_of message id qtype class_in pos rd (joined [] ls) (omega (arith, e)) (fields h)
        (parse_name-labels (length message) message 12 [] ls ending
          (omega (arith, length-message, (length-labels_bytes ls).0)) proper short At-names)
        (omega (arith, e)) t c
      ∙ rw e

length-ok : (name : Bytes) → All (λ b. b < 128) name → length (lower name) ≡ length name
length-ok name h = ap length (lower-map name h) ∙ length-map name

read_as : ℕ → ℕ → Bool → Bytes → Bytes → Option (Parsed Query)
read_as id qtype rd bytes name = some (
    ok (record {
      id = id;
      rd = rd;
      name = name;
      qtype = qtype;
      qclass = class_in;
      question_end = length bytes;
      raw = bytes;
    }))

-- A query that is built for an ASCII name is read back with the number, the flag, the type and the
-- class it was built with and the name in lower case, and nothing of it is left over: for numbers
-- and types of 16 bits.
pub parse_query-build_query_with :
    (id : ℕ) (name : Bytes) (qtype : ℕ) (rd : Bool) {bytes : Bytes}
    → id < 65536
    → qtype < 65536
    → All (λ b. b < 128) name
    → build_query_with id name qtype rd ≡ ok bytes
    → parse_query bytes ≡ some (ok (asked id name qtype rd bytes))
unfolding build_query_with message asked read_as ending
parse_query-build_query_with id name qtype rd {bytes} h k ascii e =
    elim (Option-cases (written_name name)) [
      | inl w ↦ absurd (ground arith)
      | inr (out, w) ↦
          let r = label_list name w in
          let size : length out + 1 ≤ 255 = ground arith in
          let made : bytes ≡ message id qtype rd r.labels = ground (arith, r.bytes) in
          let short : length (joined [] r.labels) ≤ 255 =
            omega (arith, size, r.short, ap length r.text, length-ok name ascii) in
          rw made (
            read_message id qtype rd r.labels h k r.proper short
            ∙ ap (read_as id qtype rd (message id qtype rd r.labels))
                (r.text ∙ lower-map name ascii))
    ]
