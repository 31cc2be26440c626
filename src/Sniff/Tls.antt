-- ===== src/Sniff/Tls.antt =====
-- sniffbox/crates/sb-sniff/src/tls.rs: the ClientHello of a TLS connection. Shifted bytes put
-- together are the number in network order; a loop takes fuel.
pub mod Handshakes
pub mod Extensions
pub mod Hello
mod Termination
pub mod Sample
mod Tests
use pao_pao_gate_way.Common.{
  ℕ, zero, suc, ◌+◌, ◌-◌, ◌*◌, Bool, true, false, not, List, [], ◌∷◌, ◌++◌, Option, none, some, ltb,
  leb, ◌==◌, if◌then◌else◌, length, get_or, get_elem?, take, drop,
}
use pao_pao_gate_way.Common.Bytes.{Bytes, from_be, is_utf8}
use pao_pao_gate_way.Sniff.Errors.{
  ParseErr, short, not_handshake, not_client_hello, malformed, Result, ok, err, unfinished, ◌>>=◌,
  ◌>>◌, refuse_if,
}
use pao_pao_gate_way.Sniff.Reading.{Reader, reader, is_empty, u8, u16, u24, slice, skip}

pub record TlsClientHello : Type 0 where
  pub version : ℕ
  pub sni : Option Bytes
  pub alpns : List Bytes
  pub ech_outer : Bool

abbrev pub max_handshake : ℕ
max_handshake = 65536

-- `buf.get(from..from + n)`, or that the buffer is short.
abbrev range : Bytes → ℕ → ℕ → Result Bytes
range buf from n =
    if leb (from + n) (length buf)
    then ok (take n (drop from buf))
    else err (short (from + n) (length buf))

unfoldable pub record_at : Bytes → ℕ → Result (Bytes × ℕ)
record_at buf off = do
  hdr ← range buf off 5
  refuse_if (not (get_or hdr 0 0 == 0x16)) not_handshake
  body ← range buf (off + 5) (from_be (drop 3 hdr))
  ok (body, off + 5 + from_be (drop 3 hdr))

abbrev pub u24_at : Bytes → ℕ
u24_at buf = from_be (take 3 (drop 1 buf))

-- The loop of `collect_handshake`.
unfoldable pub gather : ℕ → Bytes → ℕ → Bytes → Result Bytes
unfolding record_at
gather zero buf next out = unfinished
gather (suc fuel) buf next out =
    let more : Result Bytes = record_at buf next >>= λ (body, n).
    let rest = gather fuel buf n (out ++ body) in
    if ltb max_handshake (length out + length body)
    then err (malformed "tls handshake too large")
    else rest in
    if leb 4 (length out)
    then (if ltb max_handshake (4 + u24_at out)
        then err (malformed "tls handshake too large")
        else if leb (4 + u24_at out) (length out)
        then ok (take (4 + u24_at out) out)
        else more)
    else more

unfoldable pub collect_handshake : Bytes → Result Bytes
unfolding gather
collect_handshake buf = record_at buf 0 >>= λ (first, next).
    if leb 4 (length first)
    then (if ltb max_handshake (4 + u24_at first)
        then err (malformed "tls handshake too large")
        else if leb (4 + u24_at first) (length first)
        then ok (take (4 + u24_at first) first)
        else gather (length buf) buf next first)
    else gather (length buf) buf next first

-- The loop over the names of a server name extension.
unfoldable pub sni_names : ℕ → Reader → Result (Option Bytes)
unfolding u8 u16 slice
sni_names zero lr = unfinished
sni_names (suc fuel) lr = if is_empty lr then ok none else (do
  (name_type, lr1) ← u8 lr
  (name_len, lr2) ← u16 lr1
  (name, lr3) ← slice name_len lr2
  let rest = sni_names fuel lr3
  if name_type == 0 then ok (if is_utf8 name then some name else none) else rest)

unfoldable pub parse_sni_ext : Bytes → Result (Option Bytes)
unfolding sni_names
parse_sni_ext body = do
  (list_len, r) ← u16 (reader body)
  (list, r') ← slice list_len r
  sni_names (suc (length list)) (reader list)

-- The loop over the protocols of an ALPN extension.
unfoldable pub alpn_names : ℕ → Reader → List Bytes → Result (List Bytes)
unfolding u8 slice
alpn_names zero lr out = unfinished
alpn_names (suc fuel) lr out =
    if is_empty lr
    then ok out
    else (do (n, lr1) ← u8 lr; (p, lr2) ← slice n lr1; alpn_names fuel lr2 (out ++ p ∷ []))

unfoldable pub parse_alpn_ext : Bytes → Result (List Bytes)
unfolding alpn_names
parse_alpn_ext body = do
  (list_len, r) ← u16 (reader body)
  (list, r') ← slice list_len r
  alpn_names (suc (length list)) (reader list) []

-- The `match` on the kind of an extension.
unfoldable pub take_extension : ℕ → Bytes → TlsClientHello → Result TlsClientHello
unfolding parse_sni_ext parse_alpn_ext
take_extension kind body out =
    if kind == 0x0000
    then parse_sni_ext body
      >>= (λ sni. elim sni [ none ↦ ok out | some name ↦ ok (record out { sni = some name }) ])
    else if kind == 0x0010
    then parse_alpn_ext body >>= (λ alpns. ok (record out { alpns = alpns }))
    else if kind == 0xfe0d
    then ok (record out { ech_outer = elim (get_elem? body 0) [ none ↦ false | some b ↦ b == 0 ] })
    else ok out

unfoldable pub extensions : ℕ → Reader → TlsClientHello → Result TlsClientHello
unfolding take_extension
extensions zero er out = unfinished
extensions (suc fuel) er out = if is_empty er then ok out else (do
  (kind, er1) ← u16 er
  (len, er2) ← u16 er1
  (body, er3) ← slice len er2
  out' ← take_extension kind body out
  extensions fuel er3 out')

unfoldable pub parse_handshake : Bytes → Result TlsClientHello
unfolding extensions u24 skip
parse_handshake hs = do
  (ht, rr) ← u8 (reader hs)
  refuse_if (not (ht == 0x01)) not_client_hello
  (hs_len, rr1) ← u24 rr
  (body, rr2) ← slice hs_len rr1
  (legacy_version, br) ← u16 (reader body)
  (random, br1) ← slice 32 br
  (sid_len, br2) ← u8 br1
  br3 ← skip sid_len br2
  (cs_len, br4) ← u16 br3
  br5 ← skip cs_len br4
  (cm_len, br6) ← u8 br5
  br7 ← skip cm_len br6
  let out : TlsClientHello = record {
    version = legacy_version;
    sni = none;
    alpns = [];
    ech_outer = false;
  }
  if is_empty br7 then ok out else (do
    (ext_len, br8) ← u16 br7
    (exts, br9) ← slice ext_len br8
    extensions (suc (length exts)) (reader exts) out)

pub parse_client_hello : Bytes → Result TlsClientHello
unfolding parse_handshake
parse_client_hello buf = do
  (ct, r) ← u8 (reader buf)
  refuse_if (not (ct == 0x16)) not_handshake
  (rec_ver, r1) ← u16 r
  (rec_len, r2) ← u16 r1
  (rec, r3) ← slice rec_len r2
  parse_handshake rec
