-- ===== src/Sniff/Tls/Termination.antt =====
-- The loops of tls.rs end: the fuel that the model gives them is never used up.
use pao_pao_gate_way.Common.{
  ℕ, zero, suc, ◌+◌, ◌-◌, ◌<◌, ◌≤◌, ◌≡◌, ◌⊎◌, refl, Bool, true, false, not, List, [], ◌∷◌, ◌++◌,
  Option, none, some, arith, ltb, leb, ◌==◌, if◌then◌else◌, length, get_or, take, drop, Bool-cases,
  inl, inr,
}
use pao_pao_gate_way.Common.Bytes.{Bytes, from_be}
use pao_pao_gate_way.Sniff.Errors.{
  ParseErr, short, not_handshake, not_client_hello, Result, ok, err, unfinished, ◌>>=◌, ◌>>◌,
  is_finished, refuse_if,
}
use pao_pao_gate_way.Sniff.Reading.{
  Reader, reader, u8, u16, u24, slice, skip, is_empty, remaining, Taken, u8-Taken, u16-Taken,
  u24-Taken, slice-Taken,
}
use pao_pao_gate_way.Sniff.Tls.{
  TlsClientHello, record_at, gather, collect_handshake, sni_names, parse_sni_ext, alpn_names,
  parse_alpn_ext, take_extension, extensions, parse_handshake,
}

-- A step that fails or succeeds, followed by something that ends wherever it succeeds.
after :
    {A B : Type 0} (r : Reader) (n : ℕ) (m : Result (A × Reader)) (k : A × Reader → Result B)
    → Taken r n m
    → ((a : A) (r' : Reader) → remaining r' + n ≡ remaining r → is_finished (k (a, r')) ≡ true)
    → is_finished (m >>= k) ≡ true
after r n m k (inl (e, h)) f = rw h refl
after r n m k (inr (a, r', h, d)) f = rw h (f a r' d)

nonempty : (r : Reader) → is_empty r ≡ false → 0 < remaining r
nonempty r h = ground arith

sni_names_total :
    (fuel : ℕ) (lr : Reader) → remaining lr < fuel → is_finished (sni_names fuel lr) ≡ true
unfolding sni_names
sni_names_total zero lr h = absurd (omega arith)
sni_names_total (suc fuel) lr h = elim (Bool-cases (is_empty lr)) [
  | inl e ↦ rw (sni_names, e)
  | inr e ↦
      rw (sni_names, e)
        (after lr 1 (u8 lr) _ (u8-Taken lr) λ name_type lr1 d1.
          after lr1 2 (u16 lr1) _ (u16-Taken lr1) λ name_len lr2 d2.
            after lr2 name_len (slice name_len lr2) _ (slice-Taken lr2 name_len) λ name lr3 d3.
              ground (arith, sni_names_total fuel lr3 (omega (arith, h, d1, d2, d3))))
]

alpn_names_total :
    (fuel : ℕ) (lr : Reader) (out : List Bytes)
    → remaining lr < fuel
    → is_finished (alpn_names fuel lr out) ≡ true
unfolding alpn_names
alpn_names_total zero lr out h = absurd (omega arith)
alpn_names_total (suc fuel) lr out h = elim (Bool-cases (is_empty lr)) [
  | inl e ↦ rw (alpn_names, e)
  | inr e ↦
      rw (alpn_names, e)
        (after lr 1 (u8 lr) _ (u8-Taken lr) λ n lr1 d1.
          after lr1 n (slice n lr1) _ (slice-Taken lr1 n)
            λ p lr2 d2. alpn_names_total fuel lr2 (out ++ p ∷ []) (omega (arith, h, d1, d2)))
]

parse_sni_ext_total : (body : Bytes) → is_finished (parse_sni_ext body) ≡ true
unfolding parse_sni_ext
parse_sni_ext_total body =
    after (reader body) 2 (u16 (reader body)) _ (u16-Taken (reader body)) λ n r d1.
      after r n (slice n r) _ (slice-Taken r n)
        λ list r' d2. sni_names_total (suc (length list)) (reader list) (omega arith)

parse_alpn_ext_total : (body : Bytes) → is_finished (parse_alpn_ext body) ≡ true
unfolding parse_alpn_ext
parse_alpn_ext_total body =
    after (reader body) 2 (u16 (reader body)) _ (u16-Taken (reader body)) λ n r d1.
      after r n (slice n r) _ (slice-Taken r n)
        λ list r' d2. alpn_names_total (suc (length list)) (reader list) [] (omega arith)

-- The same where no reader is passed on.
then_ends :
    {A B : Type 0} (m : Result A) (k : A → Result B)
    → is_finished m ≡ true
    → ((a : A) → is_finished (k a) ≡ true)
    → is_finished (m >>= k) ≡ true
then_ends (ok a) k h f = f a
then_ends (err e) k h f = refl
then_ends unfinished k h f = absurd (ground arith)

take_extension_total :
    (kind : ℕ) (body : Bytes) (out : TlsClientHello)
    → is_finished (take_extension kind body out) ≡ true
unfolding take_extension
take_extension_total kind body out = elim (Bool-cases (kind == 0x0000)) [
  | inl a ↦
      rw (take_extension, a)
        (then_ends (parse_sni_ext body) _ (parse_sni_ext_total body) λ sni. sets sni)
  | inr a ↦ elim (Bool-cases (kind == 0x0010)) [
    | inl b ↦
        rw (take_extension, a, b)
          (then_ends (parse_alpn_ext body) _ (parse_alpn_ext_total body) λ alpns. refl)
    | inr b ↦ ground arith
  ]
]
  where
    sets :
        (sni : Option Bytes)
        → is_finished {A = TlsClientHello}
            (elim sni [ none ↦ ok out | some name ↦ ok (record out { sni = some name }) ])
          ≡ true
    sets none = refl
    sets (some name) = refl

extensions_total :
    (fuel : ℕ) (er : Reader) (out : TlsClientHello)
    → remaining er < fuel
    → is_finished (extensions fuel er out) ≡ true
unfolding extensions
extensions_total zero er out h = absurd (omega arith)
extensions_total (suc fuel) er out h = elim (Bool-cases (is_empty er)) [
  | inl e ↦ rw (extensions, e)
  | inr e ↦
      rw (extensions, e)
        (after er 2 (u16 er) _ (u16-Taken er) λ kind er1 d1.
          after er1 2 (u16 er1) _ (u16-Taken er1) λ len er2 d2.
            after er2 len (slice len er2) _ (slice-Taken er2 len) λ body er3 d3.
              then_ends (take_extension kind body out) _ (take_extension_total kind body out)
                λ out'. extensions_total fuel er3 out' (omega (arith, h, d1, d2, d3)))
]

read_ends :
    {A : Type 0} (r : Reader) (n : ℕ) (m : Result (A × Reader)) → Taken r n m → is_finished m ≡ true
read_ends r n m (inl (e, h)) = rw h
read_ends r n m (inr (a, r', h, d)) = rw h

skip_ends : (n : ℕ) (r : Reader) → is_finished (skip n r) ≡ true
unfolding skip
skip_ends n r = elim (Bool-cases (ltb (remaining r) n)) [
  | inl b ↦ rw (skip, b)
  | inr b ↦ rw (skip, b)
]

refuse_if_ends : (b : Bool) (e : ParseErr) → is_finished (refuse_if b e) ≡ true
refuse_if_ends true e = refl
refuse_if_ends false e = refl

-- What comes behind the compression methods.
rest_ends :
    (version : ℕ) (br : Reader)
    → is_finished {A = TlsClientHello} (
        let out : TlsClientHello = record {
          version = version;
          sni = none;
          alpns = [];
          ech_outer = false;
        } in
        if is_empty br
        then ok out
        else (u16 br >>= λ (ext_len, br8).
            slice ext_len br8 >>= λ (exts, br9). extensions (suc (length exts)) (reader exts) out))
      ≡ true
rest_ends version br = elim (Bool-cases (is_empty br)) [
  | inl e ↦ rw e
  | inr e ↦ rw e (
      then_ends (u16 br) _ (read_ends br 2 _ (u16-Taken br)) λ (ext_len, br8).
        then_ends (slice ext_len br8) _ (read_ends br8 ext_len _ (slice-Taken br8 ext_len))
          λ (exts, br9).
            extensions_total (suc (length exts)) (reader exts)
              (record { version = version; sni = none; alpns = []; ech_outer = false })
              (omega arith))
]

-- Reading a handshake always gives a hello or an error.
pub parse_handshake_total : (hs : Bytes) → is_finished (parse_handshake hs) ≡ true
unfolding parse_handshake
parse_handshake_total hs =
    then_ends (u8 (reader hs)) _ (read_ends (reader hs) 1 _ (u8-Taken (reader hs))) λ (ht, rr).
      then_ends (refuse_if (not (ht == 0x01)) not_client_hello) _
        (refuse_if_ends (not (ht == 0x01)) not_client_hello)
        λ _. then_ends (u24 rr) _ (read_ends rr 3 _ (u24-Taken rr)) λ (hs_len, rr1).
          then_ends (slice hs_len rr1) _ (read_ends rr1 hs_len _ (slice-Taken rr1 hs_len))
            λ (body, rr2).
              then_ends (u16 (reader body)) _
                (read_ends (reader body) 2 _ (u16-Taken (reader body)))
                λ (version, br).
                  then_ends (slice 32 br) _ (read_ends br 32 _ (slice-Taken br 32)) λ (random, br1).
                    then_ends (u8 br1) _ (read_ends br1 1 _ (u8-Taken br1)) λ (sid_len, br2).
                      then_ends (skip sid_len br2) _ (skip_ends sid_len br2) λ br3.
                        then_ends (u16 br3) _ (read_ends br3 2 _ (u16-Taken br3)) λ (cs_len, br4).
                          then_ends (skip cs_len br4) _ (skip_ends cs_len br4) λ br5.
                            then_ends (u8 br5) _ (read_ends br5 1 _ (u8-Taken br5)) λ (cm_len, br6).
                              then_ends (skip cm_len br6) _ (skip_ends cm_len br6)
                                λ br7. rest_ends version br7

record_at-cases :
    (buf : Bytes) (off : ℕ)
    → ((e : ParseErr) × (record_at buf off ≡ err e))
      ⊎ ((body : Bytes) × (n : ℕ) × (record_at buf off ≡ ok (body, n))
          × (off + 5 ≤ n)
          × (n ≤ length buf))
unfolding record_at
record_at-cases buf off = elim (Bool-cases (leb (off + 5) (length buf))) [
  | inr a ↦ inl (short (off + 5) (length buf), rw (record_at, a))
  | inl a ↦
      let hdr = take 5 (drop off buf) in
      elim (Bool-cases (not (get_or hdr 0 0 == 0x16))) [
        | inl b ↦ inl (not_handshake, rw (record_at, a, ◌>>=◌, ◌>>◌, b))
        | inr b ↦
            let n = from_be (drop 3 hdr) in
            elim (Bool-cases (leb (off + 5 + n) (length buf))) [
              | inr c ↦ inl (short (off + 5 + n) (length buf), rw (record_at, a, ◌>>=◌, ◌>>◌, b, c))
              | inl c ↦ inr (
                take n (drop (off + 5) buf),
                off + 5 + n,
                rw (record_at, a, ◌>>=◌, ◌>>◌, b, c),
                ground arith,
                ground arith,
              )
            ]
      ]
]

gather_total :
    (fuel : ℕ) (buf : Bytes) (next : ℕ) (out : Bytes)
    → length buf - next < fuel
    → is_finished (gather fuel buf next out) ≡ true
unfolding gather
gather_total zero buf next out h = absurd (omega arith)
gather_total (suc fuel) buf next out h = elim (record_at-cases buf next) [
  | inl (e, r) ↦ ground arith
  | inr (body, n, r, k, l) ↦ ground (arith, gather_total fuel buf n (out ++ body) (omega arith))
]

-- Collecting a handshake always gives one or an error.
pub collect_handshake_total : (buf : Bytes) → is_finished (collect_handshake buf) ≡ true
unfolding collect_handshake
collect_handshake_total buf = elim (record_at-cases buf 0) [
  | inl (e, r) ↦ ground arith
  | inr (first, next, r, k, l) ↦
      ground (arith, gather_total (length buf) buf next first (omega arith))
]
