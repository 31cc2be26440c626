-- ===== src/Sniff/Recognise.antt =====
-- sniffbox/crates/sb-sniff/src/lib.rs: what the first bytes of a stream are.
mod Order
mod Tests
use pao_pao_gate_way.Common.{
  ℕ, Bool, true, false, not, ◌&&◌, ◌||◌, List, [], ◌∷◌, Option, none, some, any, is_some, length,
  ◌==◌, if◌then◌else◌,
}
use pao_pao_gate_way.Common.Bytes.{Bytes, starts_with}
use pao_pao_gate_way.Sniff.Errors.{Result, ok, err, unfinished, ◌>>=◌}
use pao_pao_gate_way.Sniff.Tls.{TlsClientHello, collect_handshake, parse_handshake}
use pao_pao_gate_way.Sniff.Http.{Parse, parse_head}
use pao_pao_gate_way.Sniff.Bittorrent.{is_bittorrent_handshake}

pub data SniffedProto : Type 0 where
  tls http bittorrent unknown : SniffedProto

pub record Sniffed : Type 0 where
  pub proto : SniffedProto
  pub domain : Option Bytes
  pub ech_outer : Bool
  pub need_more : Bool

abbrev pub nothing : Sniffed
nothing = record { proto = unknown; domain = none; ech_outer = false; need_more = false }

abbrev methods : List Bytes
methods =
    (b'G' ∷ b'E' ∷ b'T' ∷ b' ' ∷ [])
    ∷ (b'P' ∷ b'O' ∷ b'S' ∷ b'T' ∷ b' ' ∷ [])
    ∷ (b'H' ∷ b'E' ∷ b'A' ∷ b'D' ∷ b' ' ∷ [])
    ∷ (b'P' ∷ b'U' ∷ b'T' ∷ b' ' ∷ [])
    ∷ (b'D' ∷ b'E' ∷ b'L' ∷ b'E' ∷ b'T' ∷ b'E' ∷ b' ' ∷ [])
    ∷ (b'O' ∷ b'P' ∷ b'T' ∷ b'I' ∷ b'O' ∷ b'N' ∷ b'S' ∷ b' ' ∷ [])
    ∷ (b'P' ∷ b'A' ∷ b'T' ∷ b'C' ∷ b'H' ∷ b' ' ∷ [])
    ∷ []

unfoldable pub looks_like_http_request_line : Bytes → Bool
unfolding starts_with
looks_like_http_request_line buf = any (starts_with buf) methods

-- What is tried when the stream is not TLS.
unfoldable pub sniff_plain : (Bytes → Parse) → Bytes → Sniffed
unfolding looks_like_http_request_line is_bittorrent_handshake
sniff_plain parse buf =
    let other =
      if is_bittorrent_handshake buf then record nothing { proto = bittorrent } else nothing in
    elim (parse_head parse buf) [
      | ok (host, head_complete) ↦
          if is_some host || looks_like_http_request_line buf
          then record {
            proto = http;
            domain = host;
            ech_outer = false;
            need_more = not (is_some host) && not head_complete;
          }
          else other
      | err e ↦ other
      | unfinished ↦ other
    ]

unfoldable pub sniff_all : (Bytes → Parse) → Bytes → Sniffed
unfolding sniff_plain collect_handshake parse_handshake
sniff_all parse buf =
    if length buf == 0 then nothing else elim (collect_handshake buf >>= parse_handshake) [
      | ok h ↦ record { proto = tls; domain = h.sni; ech_outer = h.ech_outer; need_more = false }
      | err e ↦ sniff_plain parse buf
      | unfinished ↦ sniff_plain parse buf
    ]
