-- ===== src/Stats/Records.antt =====
-- sniffbox/crates/sb-stats/src/types.rs: the record of a connection. An atomic counter is its value;
-- `started`, an `Instant` that nothing of the crate reads, is left out. Texts are their bytes, and
-- the time of the system is an argument.
use pao_pao_gate_way.Common.{
  ℕ, zero, suc, ◌+◌, ◌-◌, ◌/◌, ◌%◌, min, Bool, false, [], ◌∷◌, ◌++◌, Option, none, some, leb, ltb,
  ◌==◌, if◌then◌else◌, length, take,
}
use pao_pao_gate_way.Common.Bytes.{Bytes, be_bytes, from_be}
use pao_pao_gate_way.Common.Net.{IpAddr, Endpoint, v4}

pub data SniffedProto : Type 0 where
  tls http bittorrent quic : SniffedProto
  ip_group : Bytes → SniffedProto
  skipped fake_ip real_ip socks5 http_proxy unknown : SniffedProto

-- "tls", "http", "bt", "quic", "skip", "FakeIP", "RealIP", "SOCKS5", "httpProxy"
unfoldable pub proto_str : SniffedProto → Bytes
proto_str tls = b't' ∷ b'l' ∷ b's' ∷ []
proto_str http = b'h' ∷ b't' ∷ b't' ∷ b'p' ∷ []
proto_str bittorrent = b'b' ∷ b't' ∷ []
proto_str quic = b'q' ∷ b'u' ∷ b'i' ∷ b'c' ∷ []
proto_str (ip_group label) = label
proto_str skipped = b's' ∷ b'k' ∷ b'i' ∷ b'p' ∷ []
proto_str fake_ip = b'F' ∷ b'a' ∷ b'k' ∷ b'e' ∷ b'I' ∷ b'P' ∷ []
proto_str real_ip = b'R' ∷ b'e' ∷ b'a' ∷ b'l' ∷ b'I' ∷ b'P' ∷ []
proto_str socks5 = b'S' ∷ b'O' ∷ b'C' ∷ b'K' ∷ b'S' ∷ b'5' ∷ []
proto_str http_proxy = b'h' ∷ b't' ∷ b't' ∷ b'p' ∷ b'P' ∷ b'r' ∷ b'o' ∷ b'x' ∷ b'y' ∷ []
proto_str unknown = []

pub data InboundKind : Type 0 where
  tproxy socks_in http_in health_check cloudflared : InboundKind
  clash : Bytes → InboundKind

-- "tproxy", "socks5", "http", "healthcheck", "cloudflared"
unfoldable pub inbound_str : InboundKind → Bytes
inbound_str tproxy = b't' ∷ b'p' ∷ b'r' ∷ b'o' ∷ b'x' ∷ b'y' ∷ []
inbound_str socks_in = b's' ∷ b'o' ∷ b'c' ∷ b'k' ∷ b's' ∷ b'5' ∷ []
inbound_str http_in = b'h' ∷ b't' ∷ b't' ∷ b'p' ∷ []
inbound_str health_check =
    b'h' ∷ b'e' ∷ b'a' ∷ b'l' ∷ b't' ∷ b'h' ∷ b'c' ∷ b'h' ∷ b'e' ∷ b'c' ∷ b'k' ∷ []
inbound_str cloudflared =
    b'c' ∷ b'l' ∷ b'o' ∷ b'u' ∷ b'd' ∷ b'f' ∷ b'l' ∷ b'a' ∷ b'r' ∷ b'e' ∷ b'd' ∷ []
inbound_str (clash label) = label

pub data Transport : Type 0 where
  tcp udp : Transport

-- "tcp", "udp"
unfoldable pub transport_str : Transport → Bytes
transport_str tcp = b't' ∷ b'c' ∷ b'p' ∷ []
transport_str udp = b'u' ∷ b'd' ∷ b'p' ∷ []

pub data RecordKind : Type 0 where
  normal internal : RecordKind

-- "normal", "internal"
unfoldable pub kind_str : RecordKind → Bytes
kind_str normal = b'n' ∷ b'o' ∷ b'r' ∷ b'm' ∷ b'a' ∷ b'l' ∷ []
kind_str internal = b'i' ∷ b'n' ∷ b't' ∷ b'e' ∷ b'r' ∷ b'n' ∷ b'a' ∷ b'l' ∷ []

abbrev pub u64_mod : ℕ
u64_mod = 0x10000000000000000

pub record ConnRecord : Type 0 where
  pub id : ℕ
  pub src : Endpoint
  pub dst : Endpoint
  pub domain : Option Bytes
  pub proto : SniffedProto
  pub upload : ℕ
  pub download : ℕ
  pub last_drained_up : ℕ
  pub last_drained_down : ℕ
  pub last_folded_up : ℕ
  pub last_folded_down : ℕ
  pub last_seen_ms : ℕ
  pub closed_ms : ℕ
  pub created_epoch_ms : ℕ
  pub inbound : InboundKind
  pub transport : Transport
  pub kind : RecordKind
  pub head : ℕ
  pub head_len : ℕ
  pub agg_counted : Bool
  pub socks_src_port : ℕ

unfoldable pub new_record : ℕ → ℕ → Endpoint → Endpoint → SniffedProto → Option Bytes → ConnRecord
new_record now_epoch id src dst proto domain = record {
  id = id;
  src = src;
  dst = dst;
  domain = domain;
  proto = proto;
  upload = 0;
  download = 0;
  last_drained_up = 0;
  last_drained_down = 0;
  last_folded_up = 0;
  last_folded_down = 0;
  last_seen_ms = 0;
  closed_ms = 0;
  created_epoch_ms = now_epoch;
  inbound = tproxy;
  transport = tcp;
  kind = normal;
  head = 0;
  head_len = 0;
  agg_counted = false;
  socks_src_port = 0;
}

-- The first eight bytes, filled up with zeros.
zeros : ℕ → Bytes
zeros zero = []
zeros (suc n) = 0 ∷ zeros n

unfoldable pub set_head : ConnRecord → Bytes → ConnRecord
unfolding zeros
set_head r bytes =
    let n = min (length bytes) 8 in
    if n == 0 then r else record r { head = from_be (take n bytes ++ zeros (8 - n)); head_len = n }

unfoldable pub head_bytes : ConnRecord → Option Bytes
head_bytes r = if r.head_len == 0 then none else some (take r.head_len (be_bytes 8 r.head))

-- A digit of `{:02x}`.
hex_digit : ℕ → ℕ
hex_digit d = if ltb d 10 then b'0' + d else b'a' + (d - 10)

hex : Bytes → Bytes
unfolding hex_digit
hex [] = []
hex (b ∷ bs) = hex_digit (b / 16) ∷ hex_digit (b % 16) ∷ hex bs

unfoldable pub head_hex : ConnRecord → Option Bytes
unfolding head_bytes hex
head_hex r = elim (head_bytes r) [ none ↦ none | some b ↦ some (hex b) ]

pub with_inbound : ConnRecord → InboundKind → Transport → ConnRecord
with_inbound r inbound transport = record r { inbound = inbound; transport = transport }

pub internal_record : ℕ → ℕ → Endpoint → Option Bytes → ConnRecord
unfolding new_record
internal_record now_epoch id dst domain =
    record (new_record now_epoch id (v4 0x7f000001, 0) dst unknown domain) { kind = internal }

-- How an address is written is an argument.
unfoldable pub display_domain : (IpAddr → Bytes) → ConnRecord → Bytes
display_domain to_string r = elim r.domain [ some d ↦ d | none ↦ to_string r.dst.0 ]

unfoldable pub add_up : ConnRecord → ℕ → ConnRecord
add_up r n = record r { upload = (r.upload + n) % u64_mod }

unfoldable pub add_down : ConnRecord → ℕ → ConnRecord
add_down r n = record r { download = (r.download + n) % u64_mod }

-- `drain_one` that nothing interrupts: the difference, and the mark afterwards.
unfoldable pub drain_one : ℕ → ℕ → ℕ × ℕ
drain_one cur last = if leb cur last then (0, last) else (cur - last, cur)

unfoldable pub drain_delta : ConnRecord → ConnRecord × (ℕ × ℕ)
drain_delta r =
    let (up, marked_up) = drain_one r.upload r.last_drained_up in
    let (down, marked_down) = drain_one r.download r.last_drained_down in
    (record r { last_drained_up = marked_up; last_drained_down = marked_down }, (up, down))

unfoldable pub fold_delta : ConnRecord → ConnRecord × (ℕ × ℕ)
fold_delta r =
    let (up, marked_up) = drain_one r.upload r.last_folded_up in
    let (down, marked_down) = drain_one r.download r.last_folded_down in
    (record r { last_folded_up = marked_up; last_folded_down = marked_down }, (up, down))
