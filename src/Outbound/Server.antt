-- ===== src/Outbound/Server.antt =====
-- sniffbox/crates/sb-outbound/src/server.rs: the server of the gateway's own SOCKS5 port.
use pao_pao_gate_way.Common.{
  ℕ, ◌+◌, Bool, not, ◌&&◌, [], ◌∷◌, ◌++◌, Option, none, some, ◌==◌, if◌then◌else◌, get_or, take,
  drop, any,
}
use pao_pao_gate_way.Common.Bytes.{Bytes, be_bytes, from_be, bytes_eq, is_utf8}
use pao_pao_gate_way.Common.Net.{v4, v6, Endpoint}
use pao_pao_gate_way.Outbound.Wire.{
  proto, Io, ◌>>=◌, ◌>>◌, return, fail, refuse_if, read_exact, write_all,
}
use pao_pao_gate_way.Outbound.Socks5.{
  ver, method_no_auth, method_userpass, auth_ver, cmd_connect, rep_succeeded, atyp_ipv4, atyp_ipv6,
  atyp_domain, address_bytes,
}

abbrev pub method_none_acceptable : ℕ
method_none_acceptable = 0xff

abbrev pub cmd_udp_associate : ℕ
cmd_udp_associate = 0x03

pub data SocksCmd : Type 0 where
  connect : SocksCmd
  udp_associate : SocksCmd
  other : ℕ → SocksCmd

pub data DestAddr : Type 0 where
  ip : Endpoint → DestAddr
  domain : Bytes → ℕ → DestAddr

pub port : DestAddr → ℕ
port (ip a) = a.1
port (domain host p) = p

unfoldable pub verify_userpass : Bytes → Bytes → Io (Unit {0})
verify_userpass user pass = do
  head ← read_exact 2
  refuse_if (not (get_or head 0 0 == auth_ver)) (proto "bad auth subnegotiation version")
  ubuf ← read_exact (get_or head 1 0)
  plen_b ← read_exact 1
  pbuf ← read_exact (get_or plen_b 0 0)
  if bytes_eq ubuf user && bytes_eq pbuf pass
      then write_all (auth_ver ∷ 0x00 ∷ [])
      else (do write_all (auth_ver ∷ 0x01 ∷ []); fail (proto "user/pass auth failed"))

-- `offered.contains(&method)`.
abbrev offers : Bytes → ℕ → Bool
offers offered method = any (λ m. m == method) offered

unfoldable pub negotiate_method : Option (Bytes × Bytes) → Io (Unit {0})
unfolding verify_userpass
negotiate_method require_auth = do
  head ← read_exact 2
  refuse_if (not (get_or head 0 0 == ver)) (proto "bad version in client greeting")
  refuse_if (get_or head 1 0 == 0) (proto "client offered zero methods")
  offered ← read_exact (get_or head 1 0)
  elim require_auth [
    | some (user, pass) ↦
        if not (offers offered method_userpass)
        then (do
          write_all (ver ∷ method_none_acceptable ∷ [])
          fail (proto "client did not offer user/pass auth"))
        else (do write_all (ver ∷ method_userpass ∷ []); verify_userpass user pass)
    | none ↦
        if not (offers offered method_no_auth)
        then (do
          write_all (ver ∷ method_none_acceptable ∷ [])
          fail (proto "client did not offer no-auth"))
        else write_all (ver ∷ method_no_auth ∷ [])
  ]

abbrev command : ℕ → SocksCmd
command b =
    if b == cmd_connect then connect else if b == cmd_udp_associate then udp_associate else other b

unfoldable pub read_request : Io (SocksCmd × DestAddr)
read_request = do
  head ← read_exact 4
  refuse_if (not (get_or head 0 0 == ver)) (proto "bad version in request")
  let cmd = command (get_or head 1 0)
  if get_or head 3 0 == atyp_ipv4
      then (do b ← read_exact 6; return (cmd, ip (v4 (from_be (take 4 b)), from_be (drop 4 b))))
      else if get_or head 3 0 == atyp_ipv6
      then (do b ← read_exact 18; return (cmd, ip (v6 (from_be (take 16 b)), from_be (drop 16 b))))
      else if get_or head 3 0 == atyp_domain
      then (do
        n ← read_exact 1
        refuse_if (get_or n 0 0 == 0) (proto "empty domain in request")
        buf ← read_exact (get_or n 0 0 + 2)
        let host = take (get_or n 0 0) buf
        refuse_if (not (is_utf8 host)) (proto "non-utf8 domain")
        return (cmd, domain host (from_be (drop (get_or n 0 0) buf))))
      else fail (proto "unknown ATYP in request")

unfoldable pub write_reply : ℕ → Endpoint → Io (Unit {0})
write_reply rep (addr, p) = write_all (ver ∷ rep ∷ 0x00 ∷ (address_bytes addr ++ be_bytes 2 p))

unfoldable pub write_success : Endpoint → Io (Unit {0})
unfolding write_reply
write_success bnd = write_reply rep_succeeded bnd
