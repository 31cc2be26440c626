-- ===== src/Outbound/Socks5.antt =====
-- sniffbox/crates/sb-outbound/src/socks5.rs: the client. A buffer with a fill count in the source
-- is the list of the bytes filled in.
use pao_pao_gate_way.Common.{
  ℕ, ◌+◌, not, ◌&&◌, [], ◌∷◌, ◌++◌, Option, none, some, ltb, leb, ◌==◌, if◌then◌else◌, length,
  get_or,
}
use pao_pao_gate_way.Common.Bytes.{Bytes, be_bytes}
use pao_pao_gate_way.Common.Net.{IpAddr, v4, v6, Endpoint}
use pao_pao_gate_way.Outbound.Wire.{
  Checked, value, refused, proto, rejected, host_too_long, Io, ◌>>=◌, ◌>>◌, return, fail, refuse_if,
  read_exact, write_all,
}

abbrev pub ver : ℕ
ver = 0x05

abbrev pub method_no_auth : ℕ
method_no_auth = 0x00

abbrev pub method_userpass : ℕ
method_userpass = 0x02

abbrev pub method_rejected : ℕ
method_rejected = 0xff

abbrev pub auth_ver : ℕ
auth_ver = 0x01

abbrev pub cmd_connect : ℕ
cmd_connect = 0x01

abbrev pub rep_succeeded : ℕ
rep_succeeded = 0x00

abbrev pub atyp_ipv4 : ℕ
atyp_ipv4 = 0x01

abbrev pub atyp_domain : ℕ
atyp_domain = 0x03

abbrev pub atyp_ipv6 : ℕ
atyp_ipv6 = 0x04

unfoldable pub read_method_reply : Io ℕ
read_method_reply = do
  buf ← read_exact 2
  refuse_if (not (get_or buf 0 0 == ver)) (proto "bad version in method reply")
  refuse_if (get_or buf 1 0 == method_rejected) (proto "server rejected all methods")
  return (get_or buf 1 0)

unfoldable pub send_userpass : Bytes → Bytes → Io (Unit {0})
send_userpass user pass = do
  refuse_if (ltb 255 (length user)) (host_too_long (length user))
  refuse_if (ltb 255 (length pass)) (host_too_long (length pass))
  write_all (auth_ver ∷ length user ∷ (user ++ length pass ∷ pass))
  rep ← read_exact 2
  refuse_if (not (get_or rep 0 0 == auth_ver)) (proto "bad auth subnegotiation version")
  refuse_if (not (get_or rep 1 0 == 0)) (proto "user/pass auth rejected by upstream")
  return tt

unfoldable pub handshake : Option (Bytes × Bytes) → Io (Unit {0})
unfolding read_method_reply send_userpass
handshake (some (user, pass)) = do
  write_all (ver ∷ 0x02 ∷ method_no_auth ∷ method_userpass ∷ [])
  chosen ← read_method_reply
  if chosen == method_no_auth
      then return tt
      else if chosen == method_userpass
      then send_userpass user pass
      else fail (proto "server chose unsupported method")
handshake none = do
  write_all (ver ∷ 0x01 ∷ method_no_auth ∷ [])
  chosen ← read_method_reply
  if chosen == method_no_auth then return tt else fail (proto "server chose unsupported method")

-- The address type and the address of `SocketAddr`.
abbrev pub address_bytes : IpAddr → Bytes
address_bytes (v4 ip) = atyp_ipv4 ∷ be_bytes 4 ip
address_bytes (v6 ip) = atyp_ipv6 ∷ be_bytes 16 ip

unfoldable pub encode_connect : Endpoint → Option Bytes → Checked Bytes
encode_connect (ip, port) none =
    value (ver ∷ cmd_connect ∷ 0x00 ∷ (address_bytes ip ++ be_bytes 2 port))
encode_connect (ip, port) (some host) =
    if leb (length host) 255 && not (length host == 0)
    then value (ver ∷ cmd_connect ∷ 0x00 ∷ atyp_domain ∷ length host ∷ (host ++ be_bytes 2 port))
    else refused (host_too_long (length host))

unfoldable pub read_connect_reply : Io (Unit {0})
read_connect_reply = do
  head ← read_exact 4
  refuse_if (not (get_or head 0 0 == ver)) (proto "bad version in connect reply")
  refuse_if (not (get_or head 1 0 == rep_succeeded)) (rejected (get_or head 1 0))
  refuse_if (not (get_or head 2 0 == 0x00)) (proto "RSV != 0 in connect reply")
  if get_or head 3 0 == atyp_ipv4
      then (do _ ← read_exact 6; return tt)
      else if get_or head 3 0 == atyp_ipv6
      then (do _ ← read_exact 18; return tt)
      else if get_or head 3 0 == atyp_domain
      then (do n ← read_exact 1; _ ← read_exact (get_or n 0 0 + 2); return tt)
      else fail (proto "unknown ATYP in reply")

unfoldable pub send_connect : Endpoint → Option Bytes → Io (Unit {0})
unfolding encode_connect read_connect_reply
send_connect dst host = elim (encode_connect dst host) [
  | value bytes ↦ write_all bytes >> read_connect_reply
  | refused e ↦ fail e
]
