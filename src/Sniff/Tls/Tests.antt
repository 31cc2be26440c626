-- ===== src/Sniff/Tls/Tests.antt =====
-- ClientHellos at concrete inputs.
use pao_pao_gate_way.Common.{◌≡◌, refl, arith, true, [], ◌∷◌, ◌++◌}
use pao_pao_gate_way.Common.Bytes.{be_bytes, from_be_at}
use pao_pao_gate_way.Sniff.Errors.{ok, is_finished}
use pao_pao_gate_way.Sniff.Tls.{collect_handshake, parse_handshake}
use pao_pao_gate_way.Sniff.Tls.Handshakes.{
  records_bytes, record_bytes, collect_handshake-records_bytes,
}
use pao_pao_gate_way.Sniff.Tls.Hello.{hello_bytes, told, parse_handshake-hello_bytes}
use pao_pao_gate_way.Sniff.Tls.Sample.{hello, hello-IsHello}
use pao_pao_gate_way.Sniff.Tls.Termination.{parse_handshake_total}

program : Unit {0}
unfolding from_be_at records_bytes record_bytes be_bytes
program = tt

parse_handshake-hello_bytes_example : parse_handshake (hello_bytes hello) ≡ ok (told hello)
parse_handshake-hello_bytes_example = parse_handshake-hello_bytes hello hello-IsHello

-- A handshake of five bytes in two records, with a byte behind it.
collect_handshake-records_bytes_example :
    collect_handshake (records_bytes (3, 1) ((1 ∷ 0 ∷ []) ∷ (0 ∷ 1 ∷ 7 ∷ 8 ∷ []) ∷ []) ++ 5 ∷ [])
    ≡ ok (1 ∷ 0 ∷ 0 ∷ 1 ∷ 7 ∷ [])
collect_handshake-records_bytes_example =
    collect_handshake-records_bytes (3, 1) (1 ∷ 0 ∷ []) ((0 ∷ 1 ∷ 7 ∷ 8 ∷ []) ∷ []) (5 ∷ [])
      (1 ∷ 0 ∷ 0 ∷ 1 ∷ 7 ∷ []) (8 ∷ []) (omega arith, (omega arith, tt)) refl
      (unfold program in refl) (omega arith)

parse_handshake_total_example : is_finished (parse_handshake (1 ∷ 0 ∷ 0 ∷ 2 ∷ 3 ∷ [])) ≡ true
parse_handshake_total_example = parse_handshake_total (1 ∷ 0 ∷ 0 ∷ 2 ∷ 3 ∷ [])
