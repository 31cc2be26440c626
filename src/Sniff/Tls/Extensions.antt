-- ===== src/Sniff/Tls/Extensions.antt =====
-- The extensions of a ClientHello, as RFC 8446 writes them, and what tls.rs reads of them.
use pao_pao_gate_way.Common.{
  ℕ, zero, suc, ◌+◌, ◌<◌, ◌≤◌, ◌≡◌, ◌≢◌, refl, ap, ◌∙◌, true, false, List, [], ◌∷◌, ◌++◌, none,
  some, arith, ◌==◌, if◌then◌else◌, length, length-append, get_elem?, All, Bool-cases, inl, inr,
}
use mathlib.Core.List.{append_assoc, append-nil}
use pao_pao_gate_way.Common.Bytes.{Bytes, be_bytes, length-be_bytes, is_utf8}
use pao_pao_gate_way.Common.Cursor.{At, At-next}
use pao_pao_gate_way.Sniff.Errors.{Result, ok, ◌>>=◌}
use pao_pao_gate_way.Sniff.Reading.{
  Reader, reader, u8, u16, slice, is_empty, advance, u8_eq, u16_eq, slice_eq,
}
use pao_pao_gate_way.Sniff.Tls.{
  TlsClientHello, sni_names, parse_sni_ext, alpn_names, parse_alpn_ext, take_extension, extensions,
}

pub then_ok :
    {A B : Type 0} (m : Result A) (k : A → Result B) {a : A} {z : Result B}
    → m ≡ ok a
    → k a ≡ z
    → (m >>= k) ≡ z
then_ok m k e f = ap (λ x. x >>= k) e ∙ f

-- All of a buffer from its start.
pub At-start : (xs : Bytes) → At xs 0 xs
At-start xs = record { from = refl; ends = omega arith }

-- A text with its length in one or two bytes in front.
abbrev pub short_text : Bytes → Bytes
short_text xs = length xs ∷ xs

abbrev pub long_text : Bytes → Bytes
long_text xs = be_bytes 2 (length xs) ++ xs

-- A server name extension with one name.
unfoldable pub sni_body : Bytes → Bytes
sni_body name = long_text (0 ∷ long_text name)

-- The same at the end of a buffer.
pub At-last : {buf : Bytes} {pos : ℕ} (xs : Bytes) → At buf pos xs → At buf pos (xs ++ [])
At-last xs at = rw (append-nil xs) at

pub length-long_text : (xs : Bytes) → length (long_text xs) ≡ 2 + length xs
length-long_text xs =
    omega (arith, length-append (be_bytes 2 (length xs)) xs, length-be_bytes 2 (length xs))

one_name :
    (fuel : ℕ) (name : Bytes)
    → length name < 65536
    → sni_names (suc fuel) (reader (0 ∷ long_text name))
      ≡ ok (if is_utf8 name then some name else none)
unfolding sni_names
one_name fuel name h =
    let list = 0 ∷ long_text name in
    let a = At-start list in
    let a1 = At-next 1 (0 ∷ []) (long_text name) refl a in
    let a2 = At-next 2 (be_bytes 2 (length name)) name (length-be_bytes 2 (length name)) a1 in
    let e : is_empty (reader list) ≡ false = ground arith in
    rw (sni_names, e)
      (then_ok (u8 (reader list)) _ (u8_eq 0 (long_text name) a) (
        then_ok (u16 (advance 1 (reader list))) _ (u16_eq (length name) name h a1) (
          then_ok (slice (length name) (advance 2 (advance 1 (reader list)))) _
            (slice_eq (length name) name [] refl (At-last name a2)) refl)))

parse_sni_ext-sni_body :
    (name : Bytes)
    → length name < 65533
    → parse_sni_ext (sni_body name) ≡ ok (if is_utf8 name then some name else none)
unfolding parse_sni_ext sni_body
parse_sni_ext-sni_body name h =
    let list = 0 ∷ long_text name in
    let a = At-start (long_text list) in
    let a1 = At-next 2 (be_bytes 2 (length list)) list (length-be_bytes 2 (length list)) a in
    then_ok (u16 (reader (long_text list))) _
      (u16_eq (length list) list (omega (arith, length-long_text name)) a)
      (then_ok (slice (length list) (advance 2 (reader (long_text list)))) _
        (slice_eq (length list) list [] refl (At-last list a1))
        (one_name (length list) name (omega arith)))

-- A list of protocols.
unfoldable pub protocols_bytes : List Bytes → Bytes
protocols_bytes [] = []
protocols_bytes (p ∷ ps) = short_text p ++ protocols_bytes ps

unfoldable pub alpn_body : List Bytes → Bytes
unfolding protocols_bytes
alpn_body ps = long_text (protocols_bytes ps)

all_protocols :
    (fuel : ℕ) (lr : Reader) (ps out : List Bytes)
    → length ps < fuel
    → At lr.buf lr.pos (protocols_bytes ps)
    → alpn_names fuel lr out ≡ ok (out ++ ps)
unfolding alpn_names protocols_bytes
all_protocols zero lr ps out f at = absurd (omega arith)
all_protocols (suc fuel) lr [] out f at =
    let e : is_empty lr ≡ true = ground (arith, at.ends) in rw (alpn_names, e, append-nil out)
all_protocols (suc fuel) lr (p ∷ ps) out f at =
    let e : is_empty lr ≡ false = ground (arith, at.ends) in
    let a1 = At-next 1 (length p ∷ []) (p ++ protocols_bytes ps) refl at in
    let a2 = At-next (length p) p (protocols_bytes ps) refl a1 in
    let here : alpn_names (suc fuel) lr out
        ≡ alpn_names fuel (advance (length p) (advance 1 lr)) (out ++ p ∷ []) =
      rw (alpn_names, e)
        (then_ok (u8 lr) _ (u8_eq (length p) (p ++ protocols_bytes ps) at) (
          then_ok (slice (length p) (advance 1 lr)) _
            (slice_eq (length p) p (protocols_bytes ps) refl a1) refl)) in
    here
    ∙ all_protocols fuel (advance (length p) (advance 1 lr)) ps (out ++ p ∷ []) (omega arith) a2
    ∙ ap ok (append_assoc out (p ∷ []) ps)

length-protocols_bytes : (ps : List Bytes) → length ps ≤ length (protocols_bytes ps)
unfolding protocols_bytes
length-protocols_bytes [] = omega arith
length-protocols_bytes (p ∷ ps) =
    omega (arith, length-protocols_bytes ps, length-append p (protocols_bytes ps))

parse_alpn_ext-alpn_body :
    (ps : List Bytes) → length (protocols_bytes ps) < 65536 → parse_alpn_ext (alpn_body ps) ≡ ok ps
unfolding parse_alpn_ext alpn_body
parse_alpn_ext-alpn_body ps h =
    let list = protocols_bytes ps in
    let a = At-start (long_text list) in
    let a1 = At-next 2 (be_bytes 2 (length list)) list (length-be_bytes 2 (length list)) a in
    then_ok (u16 (reader (long_text list))) _ (u16_eq (length list) list h a) (
      then_ok (slice (length list) (advance 2 (reader (long_text list)))) _
        (slice_eq (length list) list [] refl (At-last list a1))
        (all_protocols (suc (length list)) (reader list) ps []
          (omega (arith, length-protocols_bytes ps)) (At-start list)))

pub data Extension : Type 0 where
  server_name : Bytes → Extension
  protocols : List Bytes → Extension
  encrypted_hello : Bytes → Extension
  other : ℕ → Bytes → Extension

unfoldable pub kind_of : Extension → ℕ
kind_of (server_name name) = 0
kind_of (protocols ps) = 0x0010
kind_of (encrypted_hello body) = 0xfe0d
kind_of (other kind body) = kind

unfoldable pub body_of : Extension → Bytes
unfolding sni_body alpn_body
body_of (server_name name) = sni_body name
body_of (protocols ps) = alpn_body ps
body_of (encrypted_hello body) = body
body_of (other kind body) = body

-- What an extension says.
unfoldable pub says : Extension → TlsClientHello → TlsClientHello
says (server_name name) out = record out { sni = if is_utf8 name then some name else out.sni }
says (protocols ps) out = record out { alpns = ps }
says (encrypted_hello body) out = record out {
  ech_outer = elim (get_elem? body 0) [ none ↦ false | some b ↦ b == 0 ];
}
says (other kind body) out = out

-- Another extension is of another kind.
abbrev pub Other : Extension → Type 0
Other (other kind body) = (kind < 65536) × (kind ≢ 0) × (kind ≢ 0x0010) × (kind ≢ 0xfe0d)
Other _ = Unit {0}

abbrev pub Carried : Extension → Type 0
Carried e = Other e × (length (body_of e) < 65536)

take_extension-says :
    (e : Extension) (out : TlsClientHello)
    → Carried e
    → take_extension (kind_of e) (body_of e) out ≡ ok (says e out)
unfolding take_extension kind_of body_of says
take_extension-says (server_name name) out c = elim (Bool-cases (is_utf8 name)) [
  | inl u ↦ then_ok (parse_sni_ext (sni_body name)) _ (parse_sni_ext-sni_body name size) (rw u)
  | inr u ↦ then_ok (parse_sni_ext (sni_body name)) _ (parse_sni_ext-sni_body name size) (rw u)
]
  where
    size : length name < 65533
    size = omega (arith, c.1, length-long_text (0 ∷ long_text name), length-long_text name)
take_extension-says (protocols ps) out c =
    then_ok (parse_alpn_ext (alpn_body ps)) _
      (parse_alpn_ext-alpn_body ps (omega (arith, c.1, length-long_text (protocols_bytes ps)))) refl
take_extension-says (encrypted_hello body) out c = refl
take_extension-says (other kind body) out ((k, k0, k1, k2), c) =
    let a : (kind == 0) ≡ false = ground arith in
    let b : (kind == 0x0010) ≡ false = ground arith in
    let d : (kind == 0xfe0d) ≡ false = ground arith in rw (take_extension, a, b, d)

unfoldable pub extensions_bytes : List Extension → Bytes
unfolding kind_of body_of
extensions_bytes [] = []
extensions_bytes (e ∷ es) = be_bytes 2 (kind_of e) ++ (long_text (body_of e) ++ extensions_bytes es)

-- What extensions say, one after the other.
unfoldable pub all_say : List Extension → TlsClientHello → TlsClientHello
unfolding says
all_say [] out = out
all_say (e ∷ es) out = all_say es (says e out)

kind_of_lt : (e : Extension) → Other e → kind_of e < 65536
unfolding kind_of
kind_of_lt (server_name name) c = omega arith
kind_of_lt (protocols ps) c = omega arith
kind_of_lt (encrypted_hello body) c = omega arith
kind_of_lt (other kind body) c = c.0

pub length-extensions_bytes : (es : List Extension) → length es ≤ length (extensions_bytes es)
unfolding extensions_bytes
length-extensions_bytes [] = omega arith
length-extensions_bytes (e ∷ es) = omega (
  arith,
  length-extensions_bytes es,
  length-append (be_bytes 2 (kind_of e)) (long_text (body_of e) ++ extensions_bytes es),
  length-be_bytes 2 (kind_of e),
  length-append (long_text (body_of e)) (extensions_bytes es),
)

pub extensions_end :
    (fuel : ℕ) (er : Reader) (es : List Extension) (out : TlsClientHello)
    → length es < fuel
    → All Carried es
    → At er.buf er.pos (extensions_bytes es)
    → extensions fuel er out ≡ ok (all_say es out)
unfolding extensions extensions_bytes all_say
extensions_end zero er es out f c at = absurd (omega arith)
extensions_end (suc fuel) er [] out f c at =
    let e : is_empty er ≡ true = ground (arith, at.ends) in rw (extensions, e)
extensions_end (suc fuel) er (x ∷ es) out f c at =
    let body = body_of x in
    let e : is_empty er ≡ false = ground (arith, at.ends, length-extensions_bytes (x ∷ es)) in
    let a1 =
      At-next 2 (be_bytes 2 (kind_of x)) (long_text body ++ extensions_bytes es)
        (length-be_bytes 2 (kind_of x)) at in
    let a1' : At er.buf (er.pos + 2) (be_bytes 2 (length body) ++ (body ++ extensions_bytes es)) =
      rw (← append_assoc (be_bytes 2 (length body)) body (extensions_bytes es)) a1 in
    let a2 =
      At-next 2 (be_bytes 2 (length body)) (body ++ extensions_bytes es)
        (length-be_bytes 2 (length body)) a1' in
    let a3 = At-next (length body) body (extensions_bytes es) refl a2 in
    let here : extensions (suc fuel) er out
        ≡ extensions fuel (advance (length body) (advance 2 (advance 2 er))) (says x out) =
      rw (extensions, e)
        (then_ok (u16 er) _
          (u16_eq (kind_of x) (long_text body ++ extensions_bytes es) (kind_of_lt x c.0.0) at)
          (then_ok (u16 (advance 2 er)) _
            (u16_eq (length body) (body ++ extensions_bytes es) c.0.1 a1')
            (then_ok (slice (length body) (advance 2 (advance 2 er))) _
              (slice_eq (length body) body (extensions_bytes es) refl a2)
              (then_ok (take_extension (kind_of x) body out) _ (take_extension-says x out c.0)
                refl)))) in
    here
    ∙ extensions_end fuel (advance (length body) (advance 2 (advance 2 er))) es (says x out)
        (omega arith) c.1 a3
