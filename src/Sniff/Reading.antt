-- ===== src/Sniff/Reading.antt =====
-- The `Reader` of sniffbox/crates/sb-sniff/src/tls.rs: a position in a buffer.
use pao_pao_gate_way.Common.{
  ℕ, ◌+◌, ◌-◌, ◌<◌, ◌≡◌, refl, ◌⊎◌, inl, inr, Bool-cases, Bool, false, [], ◌∷◌, ◌++◌, arith, ltb,
  leb, if◌then◌else◌, length, length-append, get_or, take, drop,
}
use pao_pao_gate_way.Common.Bytes.{Bytes, from_be, be_bytes, length-be_bytes, from_be-be_bytes}
use pao_pao_gate_way.Common.Cursor.{At, At-take, get_or-At}
use pao_pao_gate_way.Sniff.Errors.{ParseErr, short, Result, ok, err, ◌>>=◌, ◌>>◌}

pub record Reader : Type 0 where
  pub buf : Bytes
  pub pos : ℕ

abbrev pub reader : Bytes → Reader
reader buf = record { buf = buf; pos = 0 }

abbrev pub is_empty : Reader → Bool
is_empty r = leb (length r.buf) r.pos

abbrev pub remaining : Reader → ℕ
remaining r = length r.buf - r.pos

abbrev pub need : ℕ → Reader → Result (Unit {0})
need n r = if ltb (remaining r) n then err (short n (remaining r)) else ok tt

abbrev pub advance : ℕ → Reader → Reader
advance n r = record r { pos = r.pos + n }

unfoldable pub u8 : Reader → Result (ℕ × Reader)
u8 r = need 1 r >> ok (get_or r.buf r.pos 0, advance 1 r)

unfoldable pub slice : ℕ → Reader → Result (Bytes × Reader)
slice n r = need n r >> ok (take n (drop r.pos r.buf), advance n r)

unfoldable pub u16 : Reader → Result (ℕ × Reader)
u16 r = need 2 r >> ok (from_be (take 2 (drop r.pos r.buf)), advance 2 r)

unfoldable pub u24 : Reader → Result (ℕ × Reader)
u24 r = need 3 r >> ok (from_be (take 3 (drop r.pos r.buf)), advance 3 r)

unfoldable pub skip : ℕ → Reader → Result Reader
skip n r = need n r >> ok (advance n r)

-- A reading operation that takes `n` bytes: it fails, or `n` bytes fewer remain.
abbrev pub Taken : {A : Type 0} → Reader → ℕ → Result (A × Reader) → Type 0
Taken {A} r n m =
    ((e : ParseErr) × (m ≡ err e))
    ⊎ ((a : A) × (r' : Reader) × (m ≡ ok (a, r')) × (remaining r' + n ≡ remaining r))

module _ (r : Reader) where
  take_with : {A : Type 0} (n : ℕ) (a : A) → Taken r n (need n r >> ok (a, advance n r))
  take_with n a = elim (Bool-cases (ltb (remaining r) n)) [
    | inl b ↦ inl (short n (remaining r), rw b)
    | inr b ↦ inr (a, advance n r, rw b, ground arith)
  ]

  pub u8-Taken : Taken r 1 (u8 r)
  unfolding u8
  u8-Taken = take_with 1 (get_or r.buf r.pos 0)

  pub u16-Taken : Taken r 2 (u16 r)
  unfolding u16
  u16-Taken = take_with 2 (from_be (take 2 (drop r.pos r.buf)))

  pub u24-Taken : Taken r 3 (u24 r)
  unfolding u24
  u24-Taken = take_with 3 (from_be (take 3 (drop r.pos r.buf)))

  pub slice-Taken : (n : ℕ) → Taken r n (slice n r)
  unfolding slice
  slice-Taken n = take_with n (take n (drop r.pos r.buf))

-- What is read where it stands.
module _ {r : Reader} where
  room :
      (n : ℕ) (xs rest : Bytes)
      → length xs ≡ n
      → At r.buf r.pos (xs ++ rest)
      → ltb (remaining r) n ≡ false
  room n xs rest e at = ground (arith, at.ends, length-append xs rest)

  pub u8_eq : (b : ℕ) (rest : Bytes) → At r.buf r.pos (b ∷ rest) → u8 r ≡ ok (b, advance 1 r)
  unfolding u8
  u8_eq b rest at = rw (u8, ◌>>=◌, ◌>>◌, room 1 (b ∷ []) rest refl at, get_or-At 0 at)

  pub u16_eq :
      (n : ℕ) (rest : Bytes)
      → n < 65536
      → At r.buf r.pos (be_bytes 2 n ++ rest)
      → u16 r ≡ ok (n, advance 2 r)
  unfolding u16
  u16_eq n rest h at = rw (
    u16,
    ◌>>=◌,
    ◌>>◌,
    room 2 (be_bytes 2 n) rest (length-be_bytes 2 n) at,
    At-take 2 (be_bytes 2 n) rest (length-be_bytes 2 n) at,
    from_be-be_bytes 2 n h,
  )

  pub u24_eq :
      (n : ℕ) (rest : Bytes)
      → n < 16777216
      → At r.buf r.pos (be_bytes 3 n ++ rest)
      → u24 r ≡ ok (n, advance 3 r)
  unfolding u24
  u24_eq n rest h at = rw (
    u24,
    ◌>>=◌,
    ◌>>◌,
    room 3 (be_bytes 3 n) rest (length-be_bytes 3 n) at,
    At-take 3 (be_bytes 3 n) rest (length-be_bytes 3 n) at,
    from_be-be_bytes 3 n h,
  )

  pub slice_eq :
      (n : ℕ) (xs rest : Bytes)
      → length xs ≡ n
      → At r.buf r.pos (xs ++ rest)
      → slice n r ≡ ok (xs, advance n r)
  unfolding slice
  slice_eq n xs rest e at = rw (slice, ◌>>=◌, ◌>>◌, room n xs rest e at, At-take n xs rest e at)

  pub skip_eq :
      (n : ℕ) (xs rest : Bytes)
      → length xs ≡ n
      → At r.buf r.pos (xs ++ rest)
      → skip n r ≡ ok (advance n r)
  unfolding skip
  skip_eq n xs rest e at = rw (skip, ◌>>=◌, ◌>>◌, room n xs rest e at)
