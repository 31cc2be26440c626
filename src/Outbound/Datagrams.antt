-- ===== src/Outbound/Datagrams.antt =====
-- Frames of socks5_udp.rs: a frame that is written is read back, and the reader stays inside.
use pao_pao_gate_way.Common.{
  ℕ, ◌+◌, ◌^◌, ◌≤◌, ◌<◌, suc, ◌≡◌, refl, ◌∷◌, ◌++◌, arith, length, length-append, drop, take_eq,
  drop_eq, drop_eq_two, get_or,
}
use pao_pao_gate_way.Common.Bytes.{Bytes, be_bytes, from_be, length-be_bytes, from_be-be_bytes}
use pao_pao_gate_way.Common.Net.{v4, v6, Endpoint}
use pao_pao_gate_way.Outbound.Wire.{value}
use pao_pao_gate_way.Outbound.Socks5Udp.{
  encode_udp_request, encode_udp_request_domain, decode_udp_reply,
}

-- The bits of an address fit its version, and a port fits 16 bits.
abbrev pub Fits : Endpoint → Type 0
Fits (v4 ip, port) = (ip < 256 ^ 4) × (port < 256 ^ 2)
Fits (v6 ip, port) = (ip < 256 ^ 16) × (port < 256 ^ 2)

-- A frame read back: its address and port, with the offset at which the payload begins.
abbrev pub ReadsAs : Bytes → Endpoint → Bytes → Type 0
ReadsAs frame a payload =
    (off : ℕ) × (decode_udp_reply frame ≡ value (a, off)) × (drop off frame ≡ payload)

module _ (ip port payload : Bytes) (two : length port ≡ 2) where
  decode-v4 :
      length ip ≡ 4
      → ReadsAs (0 ∷ 0 ∷ 0 ∷ 1 ∷ (ip ++ (port ++ payload))) (v4 (from_be ip), from_be port) payload
  unfolding decode_udp_reply
  decode-v4 four = (
    10,
    ground (
      arith,
      length-append ip (port ++ payload),
      length-append port payload,
      take_eq ip (port ++ payload) four,
      drop_eq ip (port ++ payload) four,
      take_eq port payload two,
    ),
    drop_eq_two {n = 6} ip port payload (omega arith),
  )

  decode-v6 :
      length ip ≡ 16
      → ReadsAs (0 ∷ 0 ∷ 0 ∷ 4 ∷ (ip ++ (port ++ payload))) (v6 (from_be ip), from_be port) payload
  unfolding decode_udp_reply
  decode-v6 sixteen = (
    22,
    ground (
      arith,
      length-append ip (port ++ payload),
      length-append port payload,
      take_eq ip (port ++ payload) sixteen,
      drop_eq ip (port ++ payload) sixteen,
      take_eq port payload two,
    ),
    drop_eq_two {n = 18} ip port payload (omega arith),
  )

  decode-domain :
      ReadsAs (0 ∷ 0 ∷ 0 ∷ 3 ∷ length ip ∷ (ip ++ (port ++ payload))) (v4 0, from_be port) payload
  unfolding decode_udp_reply
  decode-domain =
      let e : 5 + length ip ≡ suc (suc (suc (suc (suc (length ip))))) = omega arith in
      let f : 5 + length ip + 2 ≡ suc (suc (suc (suc (suc (length ip + 2))))) = omega arith in
      (
        5 + length ip + 2,
        ground (
          arith,
          e,
          f,
          length-append ip (port ++ payload),
          length-append port payload,
          drop_eq {n = length ip} ip (port ++ payload) refl,
          take_eq port payload two,
        ),
        rw f (drop_eq_two {n = length ip + 2} ip port payload (omega arith)),
      )

-- A frame to an address and a port that fit their widths is read back as that address and payload.
pub decode-encode_udp_request :
    (dst : Endpoint) (payload : Bytes)
    → Fits dst
    → ReadsAs (encode_udp_request dst payload) dst payload
unfolding encode_udp_request
decode-encode_udp_request (v4 ip, port) payload h =
    let (off, d, r) =
      decode-v4 (be_bytes 4 ip) (be_bytes 2 port) payload (length-be_bytes 2 port)
        (length-be_bytes 4 ip) in
    (off, ground (arith, from_be-be_bytes 4 ip h.0, from_be-be_bytes 2 port h.1), r)
decode-encode_udp_request (v6 ip, port) payload h =
    let (off, d, r) =
      decode-v6 (be_bytes 16 ip) (be_bytes 2 port) payload (length-be_bytes 2 port)
        (length-be_bytes 16 ip) in
    (off, ground (arith, from_be-be_bytes 16 ip h.0, from_be-be_bytes 2 port h.1), r)

-- A frame to a host name of 1 to 255 bytes is read back with its port and payload, and with the
-- unspecified address in place of the name.
pub decode-encode_udp_request_domain :
    (host : Bytes) (port : ℕ) (payload : Bytes)
    → 0 < length host
    → length host ≤ 255
    → port < 256 ^ 2
    → (frame : Bytes) × (encode_udp_request_domain host port payload ≡ value frame)
      × ReadsAs frame (v4 0, port) payload
unfolding encode_udp_request_domain
decode-encode_udp_request_domain host port payload h k f =
    let (off, d, r) = decode-domain host (be_bytes 2 port) payload (length-be_bytes 2 port) in
    (
      0 ∷ 0 ∷ 0 ∷ 3 ∷ length host ∷ (host ++ (be_bytes 2 port ++ payload)),
      ground arith,
      (off, ground (arith, from_be-be_bytes 2 port f), r),
    )

-- A frame that is read has zero in its reserved bytes and its fragment number, and its payload
-- begins inside it, behind an address and a port.
pub decode_udp_reply_bounds :
    (buf : Bytes) {a : Endpoint} {off : ℕ}
    → decode_udp_reply buf ≡ value (a, off)
    → (get_or buf 0 1 ≡ 0)
      × (get_or buf 1 1 ≡ 0)
      × (get_or buf 2 1 ≡ 0)
      × (7 ≤ off)
      × (off ≤ length buf)
unfolding decode_udp_reply
decode_udp_reply_bounds (a ∷ b ∷ c ∷ d ∷ rest) h =
    (ground arith, ground arith, ground arith, ground arith, ground arith)
decode_udp_reply_bounds _ h = absurd (ground arith)
