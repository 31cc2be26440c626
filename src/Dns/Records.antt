-- ===== src/Dns/Records.antt =====
-- The record of an address in an answer, as message.rs reads it.
use native.Mathlib.Nat.{zero-add, suc-add}
use pao_pao_gate_way.Common.{
  ℕ, zero, suc, min, ◌+◌, ◌^◌, ◌<◌, ◌≡◌, refl, sym, ap, ◌∙◌, false, List, [], ◌∷◌, ◌++◌, some,
  arith, ltb, ◌==◌, if◌then◌else◌, length, length-append, take, drop, drop_eq,
}
use pao_pao_gate_way.Common.Bytes.{Bytes, be_bytes, from_be, from_be_at, from_be-be_bytes}
use pao_pao_gate_way.Common.Cursor.{drop-add, At, At-get}
use pao_pao_gate_way.Dns.Message.{ok, u16_at, u32_at, class_in, type_a}
use pao_pao_gate_way.Dns.Response.{DnsResponse, skip_name, take_record, read_answers, u32_max}

take_nil : {A : Type 0} (m : ℕ) → take {A = A} m [] ≡ []
take_nil zero = refl
take_nil (suc m) = refl

pub drop-take : {A : Type 0} (n m : ℕ) (xs : List A) → drop n (take (n + m) xs) ≡ take m (drop n xs)
drop-take zero m xs = rw zero-add
drop-take (suc n) m [] = rw suc-add (sym (take_nil m))
drop-take (suc n) m (x ∷ xs) = rw suc-add (drop-take n m xs)

pub take-append :
    {A : Type 0} (xs ys : List A) (m : ℕ) → take (length xs + m) (xs ++ ys) ≡ xs ++ take m ys
take-append [] ys m = rw zero-add
take-append (x ∷ xs) ys m = rw suc-add (ap (◌∷◌ x) (take-append xs ys m))

-- The record of an address behind the question.
unfoldable pub record_a : ℕ → ℕ → Bytes
record_a ip ttl =
    0xc0
    ∷ 0x0c
    ∷ (be_bytes 2 type_a
        ++ (be_bytes 2 class_in ++ (be_bytes 4 ttl ++ (be_bytes 2 4 ++ be_bytes 4 ip))))

-- The answer to one question that has one address.
unfoldable pub address : ℕ → ℕ → ℕ → DnsResponse
address id ip ttl = record {
  id = id;
  rcode = 0;
  v4 = ip ∷ [];
  v6 = [];
  txt = [];
  mx = [];
  srv = [];
  min_ttl = if ttl == u32_max then 0 else ttl;
}

behind :
    (before rest : Bytes) {pos : ℕ} (at n : ℕ)
    → length before ≡ pos
    → pos + n ≡ at
    → drop at (before ++ rest) ≡ drop n rest
behind before rest {pos} at n h e =
    ap (λ k. drop k (before ++ rest)) (sym e)
    ∙ drop-add pos n (before ++ rest)
    ∙ ap (drop n) (drop_eq before rest h)

record_fields :
    (ip ttl : ℕ) (before : Bytes) (pos : ℕ)
    → length before ≡ pos
    → ip < 2 ^ 32
    → ttl < 2 ^ 32
    → (u16_at (before ++ record_a ip ttl) (pos + 2) ≡ 1)
      × (u32_at (before ++ record_a ip ttl) (pos + 2 + 4) ≡ ttl)
      × (u16_at (before ++ record_a ip ttl) (pos + 2 + 8) ≡ 4)
      × (from_be (take 4 (drop (pos + 2 + 10) (before ++ record_a ip ttl))) ≡ ip)
unfolding record_a be_bytes from_be_at
record_fields ip ttl before pos h k l = (
  ap (λ d. from_be (take 2 d)) (behind before (record_a ip ttl) (pos + 2) 2 h refl),
  ap (λ d. from_be (take 4 d)) (behind before (record_a ip ttl) (pos + 2 + 4) 6 h (omega arith))
      ∙ from_be-be_bytes 4 ttl l,
  ap (λ d. from_be (take 2 d)) (behind before (record_a ip ttl) (pos + 2 + 8) 10 h (omega arith)),
  ap (λ d. from_be (take 4 d)) (behind before (record_a ip ttl) (pos + 2 + 10) 12 h (omega arith))
      ∙ from_be-be_bytes 4 ip k,
)

pub length-record_a : (ip ttl : ℕ) → length (record_a ip ttl) ≡ 16
unfolding record_a be_bytes
length-record_a ip ttl = refl

skip_pointer :
    (rounds : ℕ) (buf : Bytes) (pos : ℕ) {rest : Bytes}
    → At buf pos (0xc0 ∷ 0x0c ∷ rest)
    → skip_name (suc rounds) buf pos ≡ ok (pos + 2)
unfolding skip_name
skip_pointer rounds buf pos at = ground (arith, At-get at, at.ends)

-- One answer record behind the question is read as its address.
pub read_answers-record_a :
    (ip ttl : ℕ) (before : Bytes) (pos : ℕ) (out : DnsResponse)
    → length before ≡ pos
    → ip < 2 ^ 32
    → ttl < 2 ^ 32
    → read_answers 1 (before ++ record_a ip ttl) pos out
      ≡ some (ok (record out { v4 = out.v4 ++ ip ∷ []; min_ttl = min out.min_ttl ttl }))
unfolding read_answers take_record record_a
read_answers-record_a ip ttl before pos out h k l =
    let buf = before ++ record_a ip ttl in
    let f = record_fields ip ttl before pos h k l in
    let n = length-append before (record_a ip ttl) in
    let at : At buf pos (record_a ip ttl) = record {
      from = drop_eq before (record_a ip ttl) h;
      ends = omega (arith, h, n);
    } in
    let room : ltb (length buf) (pos + 2 + 10) ≡ false =
      ground (arith, n, h, length-record_a ip ttl) in
    let room' : ltb (length buf) (pos + 2 + 10 + 4) ≡ false =
      ground (arith, n, h, length-record_a ip ttl) in
    rw (read_answers, skip_pointer 255 buf pos at, f.2, room, room', f.0, f.1, take_record, f.3)
