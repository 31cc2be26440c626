-- ===== src/Outbound/Socks5Udp.antt =====
-- sniffbox/crates/sb-outbound/src/socks5_udp.rs: associations and the frames of relayed datagrams.
use pao_pao_gate_way.Common.{
  ℕ, ◌+◌, not, ◌||◌, ◌∷◌, ◌++◌, Option, none, ltb, ◌==◌, if◌then◌else◌, length, get_or, take, drop,
}
use pao_pao_gate_way.Common.Bytes.{Bytes, be_bytes, from_be}
use pao_pao_gate_way.Common.Net.{IpAddr, v4, v6, Endpoint}
use pao_pao_gate_way.Outbound.Wire.{
  Checked, value, refused, proto, rejected, host_too_long, Io, ◌>>=◌, ◌>>◌, return, fail, refuse_if,
  read_exact, write_all,
}
use pao_pao_gate_way.Outbound.Socks5.{
  ver, rep_succeeded, atyp_ipv4, atyp_ipv6, atyp_domain, address_bytes, handshake,
}

abbrev pub cmd_udp_associate : ℕ
cmd_udp_associate = 0x03

unfoldable pub read_associate_reply : Io Endpoint
read_associate_reply = do
  head ← read_exact 4
  refuse_if (not (get_or head 0 0 == ver)) (proto "bad version in associate reply")
  refuse_if (not (get_or head 1 0 == rep_succeeded)) (rejected (get_or head 1 0))
  refuse_if (not (get_or head 2 0 == 0x00)) (proto "RSV != 0 in associate reply")
  if get_or head 3 0 == atyp_ipv4
      then (do b ← read_exact 4; p ← read_exact 2; return (v4 (from_be b), from_be p))
      else if get_or head 3 0 == atyp_ipv6
      then (do b ← read_exact 16; p ← read_exact 2; return (v6 (from_be b), from_be p))
      else if get_or head 3 0 == atyp_domain
      then (do
        n ← read_exact 1
        _ ← read_exact (get_or n 0 0 + 2)
        fail (proto "ASSOCIATE reply with domain not supported"))
      else fail (proto "unknown ATYP in associate reply")

unfoldable pub udp_associate_auth : Endpoint → Option (Bytes × Bytes) → Io Endpoint
unfolding read_associate_reply
udp_associate_auth (ip, port) auth = do
  handshake auth
  write_all (ver ∷ cmd_udp_associate ∷ 0x00 ∷ (address_bytes ip ++ be_bytes 2 port))
  read_associate_reply

unfoldable pub udp_associate : Endpoint → Io Endpoint
unfolding udp_associate_auth
udp_associate local_hint = udp_associate_auth local_hint none

unfoldable pub encode_udp_request : Endpoint → Bytes → Bytes
encode_udp_request (ip, port) payload =
    0 ∷ 0 ∷ 0 ∷ (address_bytes ip ++ (be_bytes 2 port ++ payload))

unfoldable pub encode_udp_request_domain : Bytes → ℕ → Bytes → Checked Bytes
encode_udp_request_domain host dst_port payload =
    if length host == 0 || ltb 255 (length host)
    then refused (host_too_long (length host))
    else value (0 ∷ 0 ∷ 0 ∷ atyp_domain ∷ length host ∷ (host ++ (be_bytes 2 dst_port ++ payload)))

-- The port after the address that ends at `off`, with the offset of the payload.
abbrev with_port : IpAddr → ℕ → Bytes → Checked (Endpoint × ℕ)
with_port ip off buf = value ((ip, from_be (take 2 (drop off buf))), off + 2)

unfoldable pub decode_udp_reply : Bytes → Checked (Endpoint × ℕ)
decode_udp_reply buf =
    if ltb (length buf) 4
    then refused (proto "udp reply too short")
    else if not (get_or buf 0 0 == 0) || not (get_or buf 1 0 == 0)
    then refused (proto "udp reply RSV != 0")
    else if not (get_or buf 2 0 == 0)
    then refused (proto "udp reply fragmented")
    else if get_or buf 3 0 == atyp_ipv4
    then (if ltb (length buf) 10
        then refused (proto "ipv4 udp reply truncated")
        else with_port (v4 (from_be (take 4 (drop 4 buf)))) 8 buf)
    else if get_or buf 3 0 == atyp_ipv6
    then (if ltb (length buf) 22
        then refused (proto "ipv6 udp reply truncated")
        else with_port (v6 (from_be (take 16 (drop 4 buf)))) 20 buf)
    else if get_or buf 3 0 == atyp_domain
    then (if ltb (length buf) 5
        then refused (proto "domain udp reply truncated")
        else if ltb (length buf) (5 + get_or buf 4 0 + 2)
        then refused (proto "domain udp reply truncated")
        else with_port (v4 0) (5 + get_or buf 4 0) buf)
    else refused (proto "unknown ATYP in udp reply")
