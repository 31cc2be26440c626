-- ===== src/Sniff/Recognise/Tests.antt =====
-- Streams at concrete inputs.
use pao_pao_gate_way.Common.{
  ◌≡◌, refl, arith, false, [], ◌∷◌, ◌++◌, length-append, ◌==◌, if◌then◌else◌,
}
use pao_pao_gate_way.Common.Bytes.{Bytes}
use pao_pao_gate_way.Sniff.Http.{Parse, failed, partial}
use pao_pao_gate_way.Sniff.Tls.Handshakes.{records_bytes}
use pao_pao_gate_way.Sniff.Tls.Hello.{hello_bytes, told}
use pao_pao_gate_way.Sniff.Tls.Sample.{hello, hello-IsHello, length-hello}
use pao_pao_gate_way.Sniff.Recognise.{SniffedProto, sniff_all}
use pao_pao_gate_way.Sniff.Recognise.Order.{sniff_all-hello_bytes}

-- A parser that takes a stream for a request when it starts with "G".
abbrev parse : Bytes → Parse
parse [] = failed
parse (b ∷ bs) = if b == b'G' then partial [] else failed

-- "GET /"
abbrev get : Bytes
get = b'G' ∷ b'E' ∷ b'T' ∷ b' ' ∷ b'/' ∷ []

-- The hello in one record, with a byte behind it.
sniff_all-hello_bytes_example :
    sniff_all parse (records_bytes (3, 1) (hello_bytes hello ∷ []) ++ 7 ∷ []) ≡ record {
      proto = SniffedProto.tls;
      domain = (told hello).sni;
      ech_outer = (told hello).ech_outer;
      need_more = false;
    }
sniff_all-hello_bytes_example =
    sniff_all-hello_bytes parse hello (3, 1) (hello_bytes hello) [] (7 ∷ []) [] hello-IsHello
      (omega (arith, length-hello), tt) refl
      (omega (arith, length-hello, length-append (hello_bytes hello) []))
