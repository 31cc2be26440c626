-- ===== src/Sniff/Bittorrent.antt =====
-- sniffbox/crates/sb-sniff/src/bittorrent.rs: BitTorrent over TCP and UDP.
use Prim.Native.Nat.{bit_and}
use pao_pao_gate_way.Common.{
  ℕ, ◌/◌, Bool, false, not, ◌&&◌, ◌||◌, [], ◌∷◌, ltb, leb, ◌==◌, if◌then◌else◌, length, get_or,
}
use pao_pao_gate_way.Common.Bytes.{Bytes, starts_with}

-- "\x13BitTorrent protocol"
abbrev pub bt_handshake_prefix : Bytes
bt_handshake_prefix =
    0x13 ∷ b'B' ∷ b'i' ∷ b't' ∷ b'T' ∷ b'o' ∷ b'r' ∷ b'r' ∷ b'e' ∷ b'n' ∷ b't' ∷ b' ' ∷ b'p' ∷ b'r'
    ∷ b'o' ∷ b't' ∷ b'o' ∷ b'c' ∷ b'o' ∷ b'l' ∷ []

unfoldable pub is_bittorrent_handshake : Bytes → Bool
is_bittorrent_handshake buf = starts_with buf bt_handshake_prefix

abbrev pub utp_header_len : ℕ
utp_header_len = 20

abbrev pub bt_udp_tracker_magic : Bytes
bt_udp_tracker_magic = 0x00 ∷ 0x00 ∷ 0x04 ∷ 0x17 ∷ 0x27 ∷ 0x10 ∷ 0x19 ∷ 0x80 ∷ []

unfoldable pub is_utp_packet : Bytes → Bool
is_utp_packet buf =
    if ltb (length buf) utp_header_len
    then false
    else (let version = bit_and (get_or buf 0 0) 0x0f in
        let ptype = get_or buf 0 0 / 16 in
        if not (version == 1) || ltb 4 ptype then false else leb (get_or buf 1 0) 3)

unfoldable pub is_udp_tracker : Bytes → Bool
is_udp_tracker buf = leb 16 (length buf) && starts_with buf bt_udp_tracker_magic

pub is_bittorrent_udp_packet : Bytes → Bool
unfolding is_utp_packet is_udp_tracker
is_bittorrent_udp_packet buf = is_utp_packet buf || is_udp_tracker buf
