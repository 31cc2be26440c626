-- ===== src/Outbound/Greeting.antt =====
-- The greeting of a client (socks5.rs) and a server (server.rs) that are connected to one another.
use pao_pao_gate_way.Common.{
  ◌≤◌, ◌≡◌, ◌↔◌, refl, Bool, true, false, ◌&&◌, [], ◌∷◌, ◌++◌, some, arith, length, ltb,
  if◌then◌else◌, Bool-cases, inl, inr,
}
use Prim.Native.String.{String}
use pao_pao_gate_way.Common.Bytes.{Bytes, split_at, bytes_eq, bytes_eq_iff}
use pao_pao_gate_way.Outbound.Wire.{
  Wire, Outcome, ◌>>=◌, ◌>>◌, ok, err, proto, read_exact_eq, read_exact_all, read_exact,
}
use pao_pao_gate_way.Outbound.Socks5.{handshake}
use pao_pao_gate_way.Outbound.Server.{negotiate_method, verify_userpass}

-- All that the client, and the server, write.
pub client_bytes : Bytes → Bytes → Bytes
client_bytes user pass = 5 ∷ 2 ∷ 0 ∷ 2 ∷ 1 ∷ length user ∷ (user ++ length pass ∷ pass)

pub server_bytes : Bool → Bytes
server_bytes same = 5 ∷ 2 ∷ 1 ∷ (if same then 0 else 1) ∷ []

-- A side that has read `incoming` and is left with nothing to read, or is done.
abbrev pub at_start : Bytes → Wire
at_start incoming = record { incoming = incoming; written = [] }

abbrev pub at_end : Bytes → Wire
at_end written = record { incoming = []; written = written }

abbrev pub verdict : Bool → String → Bytes → Outcome (Unit {0})
verdict same refusal written =
    if same then ok tt (at_end written) else err (proto refusal) (at_end written)

client_side :
    (user pass : Bytes) (same : Bool)
    → length user ≤ 255
    → length pass ≤ 255
    → handshake (some (user, pass)) (at_start (server_bytes same))
      ≡ verdict same "user/pass auth rejected by upstream" (client_bytes user pass)
unfolding handshake server_bytes client_bytes read_exact split_at
client_side user pass same h k =
    let u : ltb 255 (length user) ≡ false = ground arith in
    let p : ltb 255 (length pass) ≡ false = ground arith in
    elim (Bool-cases same) [ inl e ↦ rw (e, u, ◌>>◌, p, ◌>>=◌) | inr e ↦ rw (e, u, ◌>>◌, p, ◌>>=◌) ]

server_side :
    (user pass user' pass' : Bytes)
    → let same = bytes_eq user' user && bytes_eq pass' pass in
      negotiate_method (some (user, pass)) (at_start (client_bytes user' pass'))
      ≡ verdict same "user/pass auth failed" (server_bytes same)
unfolding negotiate_method server_bytes client_bytes
server_side user pass user' pass' =
    rw
      (
        negotiate_method,
        verify_userpass,
        ◌>>=◌,
        ◌>>◌,
        read_exact_eq {n = 2} (5 ∷ 2 ∷ [])
            (0 ∷ 2 ∷ 1 ∷ length user' ∷ (user' ++ length pass' ∷ pass')) [] refl,
        read_exact_eq {n = 2} (0 ∷ 2 ∷ []) (1 ∷ length user' ∷ (user' ++ length pass' ∷ pass')) []
            refl,
        read_exact_eq {n = 2} (1 ∷ length user' ∷ []) (user' ++ length pass' ∷ pass') (5 ∷ 2 ∷ [])
            refl,
        read_exact_eq {n = length user'} user' (length pass' ∷ pass') (5 ∷ 2 ∷ []) refl,
        read_exact_eq {n = 1} (length pass' ∷ []) pass' (5 ∷ 2 ∷ []) refl,
        read_exact_all {n = length pass'} pass' (5 ∷ 2 ∷ []) refl,
      )
      (ground arith)

-- A client and a server that both ask for a user name and a password, of at most 255 bytes each on
-- the client's side, and that read what the other writes: the server accepts the client, and the
-- client goes on, exactly if the two have the same name and password. Neither is left with unread
-- bytes or waits for more.
pub greeting_agrees :
    (user pass user' pass' : Bytes)
    → length user' ≤ 255
    → length pass' ≤ 255
    → (same : Bool) × (same ≡ true ↔ (user' ≡ user) × (pass' ≡ pass))
      × (negotiate_method (some (user, pass)) (at_start (client_bytes user' pass'))
          ≡ verdict same "user/pass auth failed" (server_bytes same))
      × (handshake (some (user', pass')) (at_start (server_bytes same))
          ≡ verdict same "user/pass auth rejected by upstream" (client_bytes user' pass'))
greeting_agrees user pass user' pass' h k =
    let same = bytes_eq user' user && bytes_eq pass' pass in
    (
      same,
      (
        λ e. (
          ground (arith, bytes_eq_iff user' user, bytes_eq_iff pass' pass),
          ground (arith, bytes_eq_iff user' user, bytes_eq_iff pass' pass),
        ),
        λ e. ground (arith, bytes_eq_iff user' user, bytes_eq_iff pass' pass),
      ),
      server_side user pass user' pass',
      client_side user' pass' same h k,
    )
