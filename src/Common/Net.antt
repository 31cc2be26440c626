-- ===== src/Common/Net.antt =====
-- Addresses of std::net. An address is its version with its bits as a number.
use Prim.Native.Nat.{ℕ}
use native.Mathlib.Decide.{ℕ_discrete}

pub data IpAddr : Type 0 where
  v4 : ℕ → IpAddr
  v6 : ℕ → IpAddr

unfoldable pub IpAddr-discrete : Discrete IpAddr
unfolding ℕ_discrete
IpAddr-discrete = hlevel ℕ_discrete

-- An address and a port: `SocketAddr`, and the key `(IpAddr, u16)`.
abbrev pub Endpoint : Type 0
Endpoint = IpAddr × ℕ

unfoldable pub Endpoint-discrete : Discrete Endpoint
unfolding IpAddr-discrete
Endpoint-discrete = hlevel (IpAddr-discrete, ℕ_discrete)
