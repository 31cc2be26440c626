-- ===== src/Sniff/Tls/Hello.antt =====
-- A ClientHello, as RFC 8446 writes it, and what tls.rs reads of it.
use pao_pao_gate_way.Common.{
  ℕ, suc, ◌+◌, ◌<◌, ◌≡◌, refl, ap, ◌∙◌, false, List, [], ◌∷◌, ◌++◌, none, arith, if◌then◌else◌,
  length, length-append, take_eq, All,
}
use mathlib.Core.List.{append_assoc}
use pao_pao_gate_way.Common.Bytes.{Bytes, be_bytes, from_be, length-be_bytes, from_be-be_bytes}
use pao_pao_gate_way.Common.Cursor.{At, At-next}
use pao_pao_gate_way.Sniff.Errors.{ok, ◌>>=◌}
use pao_pao_gate_way.Sniff.Reading.{
  Reader, reader, u8, u16, u24, slice, skip, is_empty, advance, u8_eq, u16_eq, u24_eq, slice_eq,
  skip_eq,
}
use pao_pao_gate_way.Sniff.Tls.{TlsClientHello, extensions, parse_handshake, u24_at}
use pao_pao_gate_way.Sniff.Tls.Extensions.{
  then_ok, At-start, At-last, short_text, long_text, length-long_text, Extension, Carried,
  extensions_bytes, all_say, length-extensions_bytes, extensions_end,
}

-- A ClientHello: version, random, session, cipher suites, compression methods, extensions.
pub record Hello : Type 0 where
  pub version : ℕ
  pub random : Bytes
  pub session : Bytes
  pub suites : Bytes
  pub methods : Bytes
  pub extensions : List Extension

unfoldable pub hello_body : Hello → Bytes
unfolding extensions_bytes
hello_body h =
    be_bytes 2 h.version
    ++ (h.random
        ++ (short_text h.session
            ++ (long_text h.suites
                ++ (short_text h.methods ++ long_text (extensions_bytes h.extensions)))))

-- The handshake message.
unfoldable pub hello_bytes : Hello → Bytes
unfolding hello_body
hello_bytes h = 1 ∷ (be_bytes 3 (length (hello_body h)) ++ hello_body h)

pub record IsHello (h : Hello) : Type 0 where
  pub version_fits : h.version < 65536
  pub random_size : length h.random ≡ 32
  pub suites_fit : length h.suites < 65536
  pub extensions_fit : length (extensions_bytes h.extensions) < 65536
  pub carried : All Carried h.extensions
  pub fits : length (hello_body h) < 16777216

-- What the hello says.
unfoldable pub told : Hello → TlsClientHello
unfolding all_say
told h =
    all_say h.extensions (record { version = h.version; sni = none; alpns = []; ech_outer = false })

module _ (h : Hello) (v : IsHello h) where
  abbrev exts : Bytes
  exts = extensions_bytes h.extensions

  -- What follows each part.
  abbrev r5 : Bytes
  r5 = long_text exts

  abbrev r4 : Bytes
  r4 = short_text h.methods ++ r5

  abbrev r3 : Bytes
  r3 = long_text h.suites ++ r4

  abbrev r2 : Bytes
  r2 = short_text h.session ++ r3

  abbrev r1 : Bytes
  r1 = h.random ++ r2

  read_extensions :
      (br : Reader)
      → At br.buf br.pos r5
      → (u16 br >>= λ (ext_len, br8). slice ext_len br8 >>= λ (xs, br9).
          extensions
            (suc (length xs))
            (reader xs)
            (record { version = h.version; sni = none; alpns = []; ech_outer = false }))
        ≡ ok (told h)
  unfolding told
  read_extensions br at =
      let a1 = At-next 2 (be_bytes 2 (length exts)) exts (length-be_bytes 2 (length exts)) at in
      then_ok (u16 br) _ (u16_eq (length exts) exts v.extensions_fit at) (
        then_ok (slice (length exts) (advance 2 br)) _
          (slice_eq (length exts) exts [] refl (At-last exts a1))
          (extensions_end (suc (length exts)) (reader exts) h.extensions _
            (omega (arith, length-extensions_bytes h.extensions)) v.carried (At-start exts)))

  read_body :
      (br : Reader)
      → At br.buf br.pos (be_bytes 2 h.version ++ r1)
      → (u16 br >>= λ (legacy_version, br). slice 32 br >>= λ (random, br1).
          u8 br1 >>= λ (sid_len, br2). skip sid_len br2 >>= λ br3. u16 br3 >>= λ (cs_len, br4).
          skip cs_len br4 >>= λ br5. u8 br5 >>= λ (cm_len, br6). skip cm_len br6 >>= λ br7.
          let out : TlsClientHello = record {
            version = legacy_version;
            sni = none;
            alpns = [];
            ech_outer = false;
          } in
          if is_empty br7
          then ok out
          else (u16 br7 >>= λ (ext_len, br8).
              slice ext_len br8 >>= λ (xs, br9). extensions (suc (length xs)) (reader xs) out))
        ≡ ok (told h)
  read_body br b0 =
      let n = length h.session in
      let m = length h.suites in
      let k = length h.methods in
      let b1 = At-next 2 (be_bytes 2 h.version) r1 (length-be_bytes 2 h.version) b0 in
      let b2 = At-next 32 h.random r2 v.random_size b1 in
      let b3 = At-next 1 (n ∷ []) (h.session ++ r3) refl b2 in
      let b4 = At-next n h.session r3 refl b3 in
      let b4' : At br.buf (br.pos + 2 + 32 + 1 + n) (be_bytes 2 m ++ (h.suites ++ r4)) =
        rw (← append_assoc (be_bytes 2 m) h.suites r4) b4 in
      let b5 = At-next 2 (be_bytes 2 m) (h.suites ++ r4) (length-be_bytes 2 m) b4' in
      let b6 = At-next m h.suites r4 refl b5 in
      let b7 = At-next 1 (k ∷ []) (h.methods ++ r5) refl b6 in
      let b8 = At-next k h.methods r5 refl b7 in
      let c1 = advance 2 br in
      let c2 = advance 32 c1 in
      let c3 = advance 1 c2 in
      let c4 = advance n c3 in
      let c5 = advance 2 c4 in
      let c6 = advance m c5 in
      let c7 = advance 1 c6 in
      let c8 = advance k c7 in
      let e : is_empty c8 ≡ false = ground (arith, b8.ends, length-long_text exts) in
      then_ok (u16 br) _ (u16_eq h.version r1 v.version_fits b0) (
        then_ok (slice 32 c1) _ (slice_eq 32 h.random r2 v.random_size b1) (
          then_ok (u8 c2) _ (u8_eq n (h.session ++ r3) b2) (
            then_ok (skip n c3) _ (skip_eq n h.session r3 refl b3) (
              then_ok (u16 c4) _ (u16_eq m (h.suites ++ r4) v.suites_fit b4') (
                then_ok (skip m c5) _ (skip_eq m h.suites r4 refl b5) (
                  then_ok (u8 c6) _ (u8_eq k (h.methods ++ r5) b6) (
                    then_ok (skip k c7) _ (skip_eq k h.methods r5 refl b7)
                      (rw e (read_extensions c8 b8)))))))))

-- The handshake's length stands in its header.
pub length-hello_bytes :
    (h : Hello) → IsHello h → length (hello_bytes h) ≡ 4 + u24_at (hello_bytes h)
unfolding hello_bytes
length-hello_bytes h v =
    let body = hello_body h in
    let n : u24_at (1 ∷ (be_bytes 3 (length body) ++ body)) ≡ length body =
      ap from_be (take_eq (be_bytes 3 (length body)) body (length-be_bytes 3 (length body)))
      ∙ from_be-be_bytes 3 (length body) v.fits in
    omega (arith, n, length-append (be_bytes 3 (length body)) body, length-be_bytes 3 (length body))

-- The ClientHello that is written, if its parts fit their lengths, is read: its version, and of the extensions the name that the
-- last server name gave in UTF-8, the protocols of the last ALPN list, and whether the last
-- encrypted ClientHello is an outer one.
pub parse_handshake-hello_bytes :
    (h : Hello) → IsHello h → parse_handshake (hello_bytes h) ≡ ok (told h)
unfolding parse_handshake hello_bytes hello_body
parse_handshake-hello_bytes h v =
    let body = hello_body h in
    let n = length body in
    let hs = 1 ∷ (be_bytes 3 n ++ body) in
    let a0 = At-start hs in
    let a1 = At-next 1 (1 ∷ []) (be_bytes 3 n ++ body) refl a0 in
    let a2 = At-next 3 (be_bytes 3 n) body (length-be_bytes 3 n) a1 in
    let d1 = advance 1 (reader hs) in
    let d2 = advance 3 d1 in
    then_ok (u8 (reader hs)) _ (u8_eq 1 (be_bytes 3 n ++ body) a0) (
      then_ok (u24 d1) _ (u24_eq n body v.fits a1) (
        then_ok (slice n d2) _ (slice_eq n body [] refl (At-last body a2))
          (read_body h v (reader body) (At-start body))))
