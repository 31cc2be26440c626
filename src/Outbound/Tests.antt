-- ===== src/Outbound/Tests.antt =====
-- The SOCKS5 client, server and frames at concrete inputs.
use pao_pao_gate_way.Common.{
  ◌≡◌, ◌↔◌, refl, Bool, true, [], ◌∷◌, ◌++◌, none, some, arith, ◌==◌, if◌then◌else◌, drop,
}
use pao_pao_gate_way.Common.Bytes.{Bytes, be_bytes, from_be_at, is_utf8, split_at}
use pao_pao_gate_way.Common.Net.{Endpoint, v4}
use pao_pao_gate_way.Outbound.Wire.{ok, err, value, rejected, read_exact}
use pao_pao_gate_way.Outbound.Socks5.{encode_connect, read_connect_reply, handshake, address_bytes}
use pao_pao_gate_way.Outbound.Server.{SocksCmd, read_request, write_reply, negotiate_method}
use pao_pao_gate_way.Outbound.Socks5Udp.{
  encode_udp_request, encode_udp_request_domain, decode_udp_reply,
}
use pao_pao_gate_way.Outbound.Datagrams.{ReadsAs, decode-encode_udp_request}
use pao_pao_gate_way.Outbound.Requests.{
  requested, read_request-encode_connect, read_connect_reply-write_reply,
}
use pao_pao_gate_way.Outbound.Greeting.{
  at_start, verdict, client_bytes, server_bytes, greeting_agrees,
}

program : Unit {0}
unfolding read_exact split_at be_bytes from_be_at is_utf8 encode_connect read_connect_reply
    handshake read_request write_reply negotiate_method encode_udp_request encode_udp_request_domain
    decode_udp_reply requested
program = tt

abbrev dst : Endpoint
dst = (v4 0x01020304, 443)

abbrev site : Bytes
site = b'a' ∷ b'.' ∷ b'b' ∷ []

encode_dst : encode_connect dst none ≡ value (5 ∷ 1 ∷ 0 ∷ 1 ∷ 1 ∷ 2 ∷ 3 ∷ 4 ∷ 1 ∷ 187 ∷ [])
unfolding program
encode_dst = refl

decode_ipv4 : decode_udp_reply (0 ∷ 0 ∷ 0 ∷ 1 ∷ 1 ∷ 2 ∷ 3 ∷ 4 ∷ 1 ∷ 187 ∷ 7 ∷ []) ≡ value (dst, 10)
unfolding program
decode_ipv4 = refl

decode-encode_udp_request_example : ReadsAs (encode_udp_request dst (7 ∷ [])) dst (7 ∷ [])
decode-encode_udp_request_example =
    decode-encode_udp_request dst (7 ∷ []) (omega arith, omega arith)

abbrev frame_in : Bytes
frame_in = 0 ∷ 0 ∷ 0 ∷ 1 ∷ 1 ∷ 2 ∷ 3 ∷ 4 ∷ 1 ∷ 187 ∷ 7 ∷ []

read_request-encode_connect_example :
    (request : Bytes) × (encode_connect dst (some site) ≡ value request)
    × (read_request (record { incoming = request ++ 9 ∷ []; written = [] })
        ≡ ok
            (SocksCmd.connect, requested dst (some site))
            (record { incoming = 9 ∷ []; written = [] }))
unfolding is_utf8
read_request-encode_connect_example =
    read_request-encode_connect dst (some site) (9 ∷ []) [] (omega arith, omega arith)
      (omega arith, omega arith, refl)

read_connect_reply-write_reply_example :
    (reply : Bytes) × (write_reply 5 dst (record { incoming = []; written = [] })
      ≡ ok tt (record { incoming = []; written = [] ++ reply }))
    × (read_connect_reply (record { incoming = reply ++ []; written = [] }) ≡ (
        if 5 == 0
        then ok tt (record { incoming = []; written = [] })
        else err (rejected 5) (record {
          incoming = drop 1 (address_bytes dst.0 ++ be_bytes 2 dst.1) ++ [];
          written = [];
        })))
read_connect_reply-write_reply_example = read_connect_reply-write_reply 5 dst [] [] []

abbrev user : Bytes
user = b'u' ∷ []

abbrev pass : Bytes
pass = b'p' ∷ []

greeting_agrees_example :
    (same : Bool) × (same ≡ true ↔ (user ≡ user) × (pass ≡ site))
    × (negotiate_method (some (user, site)) (at_start (client_bytes user pass))
        ≡ verdict same "user/pass auth failed" (server_bytes same))
    × (handshake (some (user, pass)) (at_start (server_bytes same))
        ≡ verdict same "user/pass auth rejected by upstream" (client_bytes user pass))
greeting_agrees_example = greeting_agrees user site user pass (omega arith) (omega arith)
