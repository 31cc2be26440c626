-- ===== src/Sniff/Tls/Handshakes.antt =====
-- A handshake that is spread over TLS records.
use pao_pao_gate_way.Common.{
  ℕ, zero, suc, ◌+◌, ◌<◌, ◌≤◌, ◌≡◌, refl, sym, ap, subst, ◌∙◌, true, false, List, [], ◌∷◌, ◌++◌,
  arith, ltb, leb, length, length-append, take, drop, take_eq, All, Bool-cases, inl, inr,
}
use mathlib.Core.List.{append_assoc}
use pao_pao_gate_way.Common.Bytes.{Bytes, from_be, be_bytes, length-be_bytes, from_be-be_bytes}
use pao_pao_gate_way.Common.Cursor.{At, At-take, At-next}
use pao_pao_gate_way.Sniff.Errors.{ok, ◌>>=◌, ◌>>◌, refuse_if}
use pao_pao_gate_way.Sniff.Tls.{record_at, gather, collect_handshake, u24_at, max_handshake}

-- A handshake record with its version, and records one after the other.
unfoldable pub record_bytes : ℕ × ℕ → Bytes → Bytes
record_bytes (major, minor) body = 0x16 ∷ major ∷ minor ∷ (be_bytes 2 (length body) ++ body)

unfoldable pub records_bytes : ℕ × ℕ → List Bytes → Bytes
unfolding record_bytes
records_bytes v [] = []
records_bytes v (body ∷ bodies) = record_bytes v body ++ records_bytes v bodies

abbrev pub joined : List Bytes → Bytes
joined [] = []
joined (p ∷ ps) = p ++ joined ps

length-record_bytes : (v : ℕ × ℕ) (body : Bytes) → length (record_bytes v body) ≡ 5 + length body
unfolding record_bytes
length-record_bytes (a, b) body =
    omega (arith, length-append (be_bytes 2 (length body)) body, length-be_bytes 2 (length body))

record_at-record_bytes :
    (buf : Bytes) (off : ℕ) (v : ℕ × ℕ) (body rest : Bytes)
    → length body < 65536
    → At buf off (record_bytes v body ++ rest)
    → record_at buf off ≡ ok (body, off + (5 + length body))
unfolding record_at record_bytes
record_at-record_bytes buf off (a, b) body rest h at =
    let hdr = 0x16 ∷ a ∷ b ∷ be_bytes 2 (length body) in
    let five : length hdr ≡ 5 = omega (arith, length-be_bytes 2 (length body)) in
    let at1 : At buf off (hdr ++ (body ++ rest)) =
      rw (← append_assoc (be_bytes 2 (length body)) body rest) at in
    let at2 = At-next 5 hdr (body ++ rest) five at1 in
    let n : from_be (drop 3 hdr) ≡ length body = from_be-be_bytes 2 (length body) h in
    let fits1 : leb (off + 5) (length buf) ≡ true = ground (arith, at2.ends) in
    let fits2 : leb (off + 5 + length body) (length buf) ≡ true =
      ground (arith, at2.ends, length-append body rest) in
    let e : off + 5 + length body ≡ off + (5 + length body) = omega arith in
    rw (
      record_at,
      fits1,
      At-take 5 hdr (body ++ rest) five at1,
      ◌>>=◌,
      ◌>>◌,
      refuse_if,
      n,
      fits2,
      At-take (length body) body rest refl at2,
      e,
    )

take-append_le :
    {A : Type 0} (n : ℕ) (xs ys : List A) → n ≤ length xs → take n (xs ++ ys) ≡ take n xs
take-append_le zero xs ys h = refl
take-append_le (suc n) [] ys h = absurd (omega arith)
take-append_le (suc n) (x ∷ xs) ys h = ap (◌∷◌ x) (take-append_le n xs ys (omega arith))

u24_at-append : (xs ys : Bytes) → 4 ≤ length xs → u24_at (xs ++ ys) ≡ u24_at xs
u24_at-append [] ys h = absurd (omega arith)
u24_at-append (x ∷ xs) ys h = ap from_be (take-append_le 3 xs ys (omega arith))

-- What was gathered of a handshake, and what is still to come.
module _ (hs extra out more : Bytes) (whole : out ++ more ≡ hs ++ extra)
    (size : length hs ≡ 4 + u24_at hs) where
  same_length : 4 ≤ length out → u24_at out ≡ u24_at hs
  same_length h =
      sym (u24_at-append out more h)
      ∙ ap u24_at whole
      ∙ u24_at-append hs extra (omega (arith, size))

  gathered : length hs ≤ length out → take (length hs) out ≡ hs
  gathered h =
      sym (take-append_le (length hs) out more h)
      ∙ ap (take (length hs)) whole
      ∙ take_eq hs extra refl

  -- Whether the loop stops.
  module _ (fuel : ℕ) (buf : Bytes) (next : ℕ) (small : length hs ≤ max_handshake) where
    gather_done : length hs ≤ length out → gather (suc fuel) buf next out ≡ ok hs
    unfolding gather
    gather_done h =
        let four : leb 4 (length out) ≡ true = ground (arith, size) in
        let n : 4 + u24_at out ≡ length hs =
          omega (arith, size, same_length (omega (arith, size))) in
        let large : ltb max_handshake (length hs) ≡ false = ground arith in
        let all : leb (length hs) (length out) ≡ true = ground arith in
        rw (gather, four, n, large, all, gathered h)

    gather_more :
        {body : Bytes} {n : ℕ}
        → length out < length hs
        → record_at buf next ≡ ok (body, n)
        → length out + length body ≤ max_handshake
        → gather (suc fuel) buf next out ≡ gather fuel buf n (out ++ body)
    unfolding gather
    gather_more {body} {n} h r b =
        let room : ltb max_handshake (length out + length body) ≡ false = ground arith in
        elim (Bool-cases (leb 4 (length out))) [
          | inr four ↦ rw (gather, four, r, ◌>>=◌, room)
          | inl four ↦
              let k : 4 + u24_at out ≡ length hs =
                omega (arith, size, same_length (ground arith)) in
              let large : ltb max_handshake (length hs) ≡ false = ground arith in
              let all : leb (length hs) (length out) ≡ false = ground arith in
              rw (gather, four, k, large, all, r, ◌>>=◌, room)
        ]

gather-records_bytes :
    (fuel : ℕ) (buf : Bytes) (next : ℕ) (out : Bytes) (v : ℕ × ℕ) (parts : List Bytes)
    (tail hs extra : Bytes)
    → length parts < fuel
    → All (λ p. length p < 65536) parts
    → At buf next (records_bytes v parts ++ tail)
    → out ++ joined parts ≡ hs ++ extra
    → length hs ≡ 4 + u24_at hs
    → length (out ++ joined parts) ≤ max_handshake
    → gather fuel buf next out ≡ ok hs
unfolding gather records_bytes
gather-records_bytes zero buf next out v parts tail hs extra f h at w s b = absurd (omega arith)
gather-records_bytes (suc fuel) buf next out v [] tail hs extra f h at w s b =
    gather_done hs extra out [] w s fuel buf next
      (omega (arith, ap length w, length-append hs extra, b))
      (omega (arith, ap length w, length-append hs extra, length-append out []))
gather-records_bytes (suc fuel) buf next out v (p ∷ ps) tail hs extra f h at w s b =
    elim (Bool-cases (leb (length hs) (length out))) [
      | inl d ↦ gather_done hs extra out (p ++ joined ps) w s fuel buf next small (ground arith)
      | inr d ↦
          let k = length-append out (p ++ joined ps) in
          let k' = length-append p (joined ps) in
          gather_more hs extra out (p ++ joined ps) w s fuel buf next small (ground arith)
            (record_at-record_bytes buf next v p (records_bytes v ps ++ tail) h.0 at1)
            (omega (arith, b, k, k'))
          ∙ gather-records_bytes fuel buf (next + (5 + length p)) (out ++ p) v ps tail hs extra
              (omega (arith, f)) h.1
              (At-next (5 + length p) (record_bytes v p) (records_bytes v ps ++ tail)
                (length-record_bytes v p) at1)
              (append_assoc out p (joined ps) ∙ w) s
              (omega (arith, b, ap length (append_assoc out p (joined ps))))
    ]
  where
    small : length hs ≤ max_handshake
    small = omega (arith, ap length w, length-append hs extra, b)

    at1 : At buf next (record_bytes v p ++ (records_bytes v ps ++ tail))
    at1 = subst (At buf next) (append_assoc (record_bytes v p) (records_bytes v ps) tail) at

module _ (buf first : Bytes) (next : ℕ) (r : record_at buf 0 ≡ ok (first, next)) where
  to_loop_short :
      leb 4 (length first) ≡ false → collect_handshake buf ≡ gather (length buf) buf next first
  unfolding collect_handshake
  to_loop_short a = rw (collect_handshake, r, ◌>>=◌, a)

  to_loop :
      leb 4 (length first) ≡ true
      → ltb max_handshake (4 + u24_at first) ≡ false
      → leb (4 + u24_at first) (length first) ≡ false
      → collect_handshake buf ≡ gather (length buf) buf next first
  unfolding collect_handshake
  to_loop a b c = rw (collect_handshake, r, ◌>>=◌, a, b, c)

-- The first record may end it without the loop, which would have given the same.
collect_handshake_first :
    (buf : Bytes) (first : Bytes) (next fuel : ℕ)
    → length buf ≡ suc fuel
    → record_at buf 0 ≡ ok (first, next)
    → collect_handshake buf ≡ gather (suc fuel) buf next first
unfolding collect_handshake gather
collect_handshake_first buf first next fuel n r = elim (Bool-cases (leb 4 (length first))) [
  | inr a ↦ to_loop_short buf first next r a ∙ (ap (λ f. gather f buf next first) n)
  | inl a ↦ elim (Bool-cases (ltb max_handshake (4 + u24_at first))) [
    | inl b ↦ rw (collect_handshake, r, ◌>>=◌, gather, a, b)
    | inr b ↦ elim (Bool-cases (leb (4 + u24_at first) (length first))) [
      | inl c ↦ rw (collect_handshake, r, ◌>>=◌, gather, a, b, c)
      | inr c ↦ to_loop buf first next r a b c ∙ (ap (λ f. gather f buf next first) n)
    ]
  ]
]

records_length : (v : ℕ × ℕ) (ps : List Bytes) → length ps ≤ length (records_bytes v ps)
unfolding records_bytes
records_length v [] = omega arith
records_length v (p ∷ ps) = omega (
  arith,
  records_length v ps,
  length-append (record_bytes v p) (records_bytes v ps),
  length-record_bytes v p,
)

-- A handshake that is spread over records, however it is cut, is put together again, and what
-- comes behind it does not matter, if it has the length that its header says: for at least one record, of less than 65536 bytes each, and at
-- most 65536 bytes in all.
pub collect_handshake-records_bytes :
    (v : ℕ × ℕ) (p : Bytes) (ps : List Bytes) (tail hs extra : Bytes)
    → All (λ q. length q < 65536) (p ∷ ps)
    → joined (p ∷ ps) ≡ hs ++ extra
    → length hs ≡ 4 + u24_at hs
    → length (joined (p ∷ ps)) ≤ 65536
    → collect_handshake (records_bytes v (p ∷ ps) ++ tail) ≡ ok hs
unfolding records_bytes
collect_handshake-records_bytes v p ps tail hs extra h w s b =
    let buf = record_bytes v p ++ (records_bytes v ps ++ tail) in
    let n = length-append (record_bytes v p) (records_bytes v ps ++ tail) in
    let n' = length-append (records_bytes v ps) tail in
    let size = length-record_bytes v p in
    let fuel = length p + (length (records_bytes v ps) + length tail) + 4 in
    let enough : length buf ≡ suc fuel = omega (arith, n, n', size) in
    let at : At buf 0 (record_bytes v p ++ (records_bytes v ps ++ tail)) = record {
      from = refl;
      ends = omega arith;
    } in
    subst (λ x. collect_handshake x ≡ ok hs)
      (sym (append_assoc (record_bytes v p) (records_bytes v ps) tail))
      (collect_handshake_first buf p (0 + (5 + length p)) fuel enough
          (record_at-record_bytes buf 0 v p (records_bytes v ps ++ tail) h.0 at)
        ∙ gather-records_bytes (suc fuel) buf (0 + (5 + length p)) p v ps tail hs extra
            (omega (arith, records_length v ps)) h.1
            (At-next (5 + length p) (record_bytes v p) (records_bytes v ps ++ tail) size at) w s b)
