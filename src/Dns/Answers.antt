-- ===== src/Dns/Answers.antt =====
-- The answers that message.rs gives to the queries it accepts.
use Prim.Native.Nat.{bit_and, bit_or}
use mathlib.Core.List.{append_assoc}
use pao_pao_gate_way.Common.{
  ℕ, zero, suc, min, ◌+◌, ◌^◌, ◌≤◌, ◌<◌, ◌≡◌, refl, sym, ap, ◌∙◌, Bool, true, false, List, [], ◌∷◌,
  ◌++◌, some, arith, ltb, leb, if◌then◌else◌, length, get_or, length-append, length-take, take,
  drop,
}
use pao_pao_gate_way.Common.Bytes.{Bytes, AreBytes, be_bytes, from_be, from_be_at}
use pao_pao_gate_way.Common.Cursor.{At}
use pao_pao_gate_way.Dns.Message.{
  ok, Query, parse_query, write_response_header, echo_prefix, answer_a, u16_at,
}
use pao_pao_gate_way.Dns.Response.{skip_questions, parse_response, u32_max, blank}
use pao_pao_gate_way.Dns.Names.{labels_bytes, AreLabels, length-joined, skip_name-labels}
use pao_pao_gate_way.Dns.Questions.{Question, accepted, parse_query-Question}
use pao_pao_gate_way.Dns.Records.{drop-take, take-append, record_a, address, read_answers-record_a}

-- A response with one question and one address, from its parts.
module _ (e0 e1 c e4 e5 ip ttl : ℕ) (ls : List Bytes) (kinds : Bytes)
    (four : length kinds ≡ 4) where
  question : Bytes
  question = labels_bytes ls ++ 0 ∷ kinds

  front : Bytes
  unfolding question
  front = e0 ∷ e1 ∷ c ∷ 0x80 ∷ e4 ∷ e5 ∷ 0 ∷ 1 ∷ 0 ∷ 0 ∷ 0 ∷ 0 ∷ question

  length-front : length front ≡ 12 + length (labels_bytes ls) + 1 + 4
  unfolding front
  length-front = omega (arith, length-append (labels_bytes ls) (0 ∷ kinds))

  At-question : At (front ++ record_a ip ttl) 12 (labels_bytes ls ++ 0 ∷ (kinds ++ record_a ip ttl))
  unfolding front
  At-question = record {
    from = append_assoc (labels_bytes ls) (0 ∷ kinds) (record_a ip ttl);
    ends = omega (
      arith,
      length-append (labels_bytes ls) (0 ∷ (kinds ++ record_a ip ttl)),
      length-append kinds (record_a ip ttl),
      length-append (question) (record_a ip ttl),
      length-append (labels_bytes ls) (0 ∷ kinds),
    );
  }

  front_fields :
      (rest : Bytes)
      → (u16_at (front ++ rest) 4 ≡ from_be (e4 ∷ e5 ∷ []))
        × (u16_at (front ++ rest) 6 ≡ 1)
        × (u16_at (front ++ rest) 0 ≡ from_be (e0 ∷ e1 ∷ []))
        × (bit_and (get_or (front ++ rest) 3 0) 0x0f ≡ 0)
  unfolding front from_be_at
  front_fields rest = (refl, refl, refl, refl)

  read_front :
      AreLabels ls
      → length ls ≤ 255
      → from_be (e4 ∷ e5 ∷ []) ≡ 1
      → ip < 2 ^ 32
      → ttl < 2 ^ 32
      → parse_response (front ++ record_a ip ttl)
        ≡ some (ok (address (from_be (e0 ∷ e1 ∷ [])) ip ttl))
  unfolding parse_response address skip_questions
  read_front proper few one k l =
      let buf = front ++ record_a ip ttl in
      let pos = 12 + length (labels_bytes ls) + 1 in
      let n = length-append front (record_a ip ttl) in
      let long : ltb (length buf) 12 ≡ false = ground (arith, n, length-front) in
      let room : leb (pos + 4) (length buf) ≡ true = ground (arith, n, length-front) in
      let s =
        skip_name-labels 256 buf 12 ls (kinds ++ record_a ip ttl) (omega (arith, few)) proper
          At-question in
      let a = read_answers-record_a ip ttl front (pos + 4) (blank buf) length-front k l in
      let f = front_fields (record_a ip ttl) in
      let m : min u32_max ttl ≡ ttl = omega (arith, l) in
      rw (parse_response, long, f.0, one, skip_questions, s, room, f.1, a, f.2, f.3, m)

-- Fields in the part of a buffer that is echoed.
take-take : {A : Type 0} (m k : ℕ) (xs : List A) → m ≤ k → take m (take k xs) ≡ take m xs
take-take zero k xs h = refl
take-take (suc m) zero xs h = absurd (omega arith)
take-take (suc m) (suc k) [] h = refl
take-take (suc m) (suc k) (x ∷ xs) h = ap (◌∷◌ x) (take-take m k xs (omega arith))

field_kept :
    (n m k : ℕ) (buf : Bytes) → m ≤ k → take m (drop n (take (n + k) buf)) ≡ take m (drop n buf)
field_kept n m k buf h = ap (take m) (drop-take n k buf) ∙ take-take m k (drop n buf) h

-- A list of at least `n` items has an item more than one of `n` less one.
uncons :
    (n : ℕ) (xs : Bytes)
    → suc n ≤ length xs
    → (y : ℕ) × (ys : Bytes) × (xs ≡ y ∷ ys) × (n ≤ length ys)
uncons n [] h = absurd (omega arith)
uncons n (x ∷ xs) h = (x, xs, refl, omega arith)

-- A buffer that holds a header, with its first six bytes apart.
pub record Header (xs : Bytes) : Type 0 where
  pub e0 : ℕ
  pub e1 : ℕ
  pub e2 : ℕ
  pub e3 : ℕ
  pub e4 : ℕ
  pub e5 : ℕ
  pub more : Bytes
  pub apart : xs ≡ e0 ∷ e1 ∷ e2 ∷ e3 ∷ e4 ∷ e5 ∷ more

pub header_apart : (xs : Bytes) → 12 ≤ length xs → Header xs
header_apart xs h =
    let (a, as', ea, ha) = uncons 11 xs h in
    let (b, bs, eb, hb) = uncons 10 as' ha in
    let (c, cs, ec, hc) = uncons 9 bs hb in
    let (d, ds, ed, hd) = uncons 8 cs hc in
    let (e, es, ee, he) = uncons 7 ds hd in
    let (f, fs, ef, hf) = uncons 6 es he in
    record {
      e0 = a;
      e1 = b;
      e2 = c;
      e3 = d;
      e4 = e;
      e5 = f;
      more = fs;
      apart =
          ea
          ∙ ap (◌∷◌ a) (eb ∙ ap (◌∷◌ b) (ec ∙ ap (◌∷◌ c) (ed ∙ ap (◌∷◌ d) (ee ∙ ap (◌∷◌ e) ef))));
    }

pub query_id : (buf : Bytes) {q : Query} → parse_query buf ≡ some (ok q) → q.id ≡ u16_at buf 0
unfolding parse_query
query_id buf {q} e = let (name, pos, p, fits, n, end, raw) = accepted buf e in ground arith

-- The header of an answer without an error, in front of what was behind the old one.
answer_header :
    (xs : Bytes) (rd : Bool) (w : Header xs)
    → (c : ℕ) × (write_response_header xs rd 0 1
        ≡ w.e0 ∷ w.e1 ∷ c ∷ 0x80 ∷ w.e4 ∷ w.e5 ∷ 0 ∷ 1 ∷ 0 ∷ 0 ∷ 0 ∷ 0 ∷ drop 12 xs)
unfolding write_response_header be_bytes
answer_header xs rd w = (bit_or 0x80 (if rd then 0x01 else 0), rw w.apart refl)

module _ (buf : Bytes) {q : Query} (r : Question buf q) where
  abbrev size : ℕ
  size = length (labels_bytes r.labels)

  echo_prefix-buffer : echo_prefix q ≡ take (12 + (size + 5)) buf
  unfolding echo_prefix
  echo_prefix-buffer =
      rw r.kept
        (ap (λ n. take n buf) {x = q.question_end} {y = 12 + (size + 5)} (omega (arith, r.ends)))

  length-echo_prefix : length (echo_prefix q) ≡ 12 + (size + 5)
  length-echo_prefix =
      omega (arith, ap length echo_prefix-buffer, length-take (12 + (size + 5)) buf, r.fits, r.ends)

  echo_prefix-question : drop 12 (echo_prefix q) ≡ labels_bytes r.labels ++ 0 ∷ take 4 r.tail
  echo_prefix-question =
      ap (drop 12) echo_prefix-buffer
      ∙ drop-take 12 (size + 5) buf
      ∙ ap (take (size + 5)) r.stands.from
      ∙ take-append (labels_bytes r.labels) (0 ∷ r.tail) 5

  length-kinds : length (take 4 r.tail) ≡ 4
  length-kinds = omega (
    arith,
    length-take 4 r.tail,
    r.stands.ends,
    r.fits,
    r.ends,
    length-append (labels_bytes r.labels) (0 ∷ r.tail),
  )

  pub echo_prefix-id : u16_at (echo_prefix q) 0 ≡ u16_at buf 0
  echo_prefix-id =
      ap (λ xs. u16_at xs 0) echo_prefix-buffer
      ∙ ap from_be (take-take 2 (12 + (size + 5)) buf (omega arith))

  echo_prefix-count : u16_at (echo_prefix q) 4 ≡ u16_at buf 4
  echo_prefix-count =
      ap (λ xs. u16_at xs 4)
        (echo_prefix-buffer
          ∙ ap (λ n. take n buf) {x = 12 + (size + 5)} {y = 4 + (size + 13)} (omega arith))
      ∙ ap from_be (field_kept 4 2 (size + 13) buf (omega arith))

-- The answer to a query that is accepted in a buffer of bytes and asks one question is read, as a
-- response, as that query's number, no error, the address and the time to live, for an address and
-- a time of 32 bits: the largest time, which stands for none in the reader, is read as 0.
pub parse_response-answer_a :
    (buf : Bytes) (ip ttl : ℕ) {q : Query}
    → AreBytes buf
    → parse_query buf ≡ some (ok q)
    → u16_at buf 4 ≡ 1
    → ip < 2 ^ 32
    → ttl < 2 ^ 32
    → parse_response (answer_a q ip ttl) ≡ some (ok (address q.id ip ttl))
unfolding answer_a front question record_a
parse_response-answer_a buf ip ttl {q} h e one k l =
    let r = parse_query-Question buf h e in
    let w = header_apart (echo_prefix q) (omega (arith, length-echo_prefix buf r)) in
    let (c, made) = answer_header (echo_prefix q) q.rd w in
    let few : length r.labels ≤ 255 =
      omega (arith, length-joined [] r.labels r.proper, r.bounded, ap length r.text) in
    let id = ap (λ xs. u16_at xs 0) w.apart in
    let count = ap (λ xs. u16_at xs 4) w.apart in
    let kinds = take 4 r.tail in
    let whole : answer_a q ip ttl
        ≡ front w.e0 w.e1 c w.e4 w.e5 ip ttl r.labels kinds (length-kinds buf r)
          ++ record_a ip ttl =
      ap (λ head. head ++ record_a ip ttl)
        (made
          ∙ ap (λ d. w.e0 ∷ w.e1 ∷ c ∷ 0x80 ∷ w.e4 ∷ w.e5 ∷ 0 ∷ 1 ∷ 0 ∷ 0 ∷ 0 ∷ 0 ∷ d)
              (echo_prefix-question buf r)) in
    ap parse_response whole
    ∙ read_front w.e0 w.e1 c w.e4 w.e5 ip ttl r.labels kinds (length-kinds buf r) r.proper few
        (sym count ∙ echo_prefix-count buf r ∙ one) k l
    ∙ ap (λ i. some (ok (address i ip ttl))) (sym id ∙ echo_prefix-id buf r ∙ sym (query_id buf e))
