-- ===== src/Sniff/Tls/Sample.antt =====
-- A ClientHello for the tests.
use pao_pao_gate_way.Common.{◌≤◌, refl, arith, [], ◌∷◌, length, take}
use pao_pao_gate_way.Common.Bytes.{be_bytes}
use pao_pao_gate_way.Sniff.Tls.Extensions.{
  Extension, extensions_bytes, body_of, kind_of, sni_body, alpn_body, protocols_bytes,
}
use pao_pao_gate_way.Sniff.Tls.Hello.{Hello, IsHello, hello_bytes, hello_body}

program : Unit {0}
unfolding hello_body extensions_bytes body_of kind_of sni_body alpn_body protocols_bytes be_bytes
program = tt

-- The server name "a.b", the protocol "h2", and an outer encrypted hello.
abbrev pub hello : Hello
hello = record {
  version = 0x0303;
  random = take 32 (
      0 ∷ 1 ∷ 2 ∷ 3 ∷ 4 ∷ 5 ∷ 6 ∷ 7 ∷ 8 ∷ 9 ∷ 10 ∷ 11 ∷ 12 ∷ 13 ∷ 14 ∷ 15 ∷ 16 ∷ 17 ∷ 18 ∷ 19 ∷ 20
      ∷ 21 ∷ 22 ∷ 23 ∷ 24 ∷ 25 ∷ 26 ∷ 27 ∷ 28 ∷ 29 ∷ 30 ∷ 31 ∷ []);
  session = 9 ∷ [];
  suites = 0x13 ∷ 0x01 ∷ [];
  methods = 0 ∷ [];
  extensions =
      Extension.other 43 (2 ∷ 3 ∷ 4 ∷ [])
      ∷ Extension.server_name (b'a' ∷ b'.' ∷ b'b' ∷ [])
      ∷ Extension.protocols ((b'h' ∷ b'2' ∷ []) ∷ [])
      ∷ Extension.encrypted_hello (0 ∷ [])
      ∷ [];
}

pub hello-IsHello : IsHello hello
unfolding program
hello-IsHello = record {
  version_fits = omega arith;
  random_size = refl;
  suites_fit = omega arith;
  extensions_fit = omega arith;
  carried = (
    ((omega arith, (λ e. ground arith), (λ e. ground arith), (λ e. ground arith)), omega arith),
    ((tt, omega arith), ((tt, omega arith), ((tt, omega arith), tt))),
  );
  fits = omega arith;
}

pub length-hello : length (hello_bytes hello) ≤ 300
unfolding program hello_bytes
length-hello = omega arith
