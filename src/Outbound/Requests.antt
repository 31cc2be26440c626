-- ===== src/Outbound/Requests.antt =====
-- What the client writes, the server reads; and the other way round.
use pao_pao_gate_way.Common.{
  ℕ, ◌+◌, ◌≤◌, ◌<◌, ◌≡◌, refl, true, false, [], ◌∷◌, ◌++◌, Option, none, some, arith, length,
  length-append, drop, take_eq, drop_eq, Bool-cases, inl, inr, ◌==◌, if◌then◌else◌,
}
use pao_pao_gate_way.Common.Bytes.{
  Bytes, be_bytes, from_be, length-be_bytes, from_be-be_bytes, is_utf8,
}
use pao_pao_gate_way.Common.Net.{v4, v6, Endpoint}
use pao_pao_gate_way.Outbound.Wire.{
  Wire, Outcome, ◌>>=◌, ◌>>◌, ok, err, rejected, value, read_exact_eq,
}
use pao_pao_gate_way.Outbound.Socks5.{encode_connect, read_connect_reply, address_bytes}
use pao_pao_gate_way.Outbound.Server.{SocksCmd, DestAddr, read_request, write_reply}
use pao_pao_gate_way.Outbound.Datagrams.{Fits}

-- A length that fits 16 bits less two, in front of a text with a port.
length_with : {n : ℕ} (xs ys : Bytes) → length ys ≡ 2 → length xs ≡ n → length (xs ++ ys) ≡ n + 2
length_with xs ys h k = omega (arith, length-append xs ys)

module _ (rest out addr port : Bytes) (two : length port ≡ 2) where
  abbrev sent : Bytes → Wire
  sent head = record { incoming = head ++ ((addr ++ port) ++ rest); written = out }

  abbrev left : Wire
  left = record { incoming = rest; written = out }

  read_request-v4 :
      length addr ≡ 4
      → read_request (sent (5 ∷ 1 ∷ 0 ∷ 1 ∷ []))
        ≡ ok (SocksCmd.connect, DestAddr.ip (v4 (from_be addr), from_be port)) left
  unfolding read_request
  read_request-v4 h = rw (
    read_request,
    ◌>>=◌,
    read_exact_eq {n = 4} (5 ∷ 1 ∷ 0 ∷ 1 ∷ []) ((addr ++ port) ++ rest) out refl,
    read_exact_eq {n = 6} (addr ++ port) rest out (length_with addr port two h),
    take_eq {n = 4} addr port h,
    drop_eq {n = 4} addr port h,
  )

  read_request-v6 :
      length addr ≡ 16
      → read_request (sent (5 ∷ 1 ∷ 0 ∷ 4 ∷ []))
        ≡ ok (SocksCmd.connect, DestAddr.ip (v6 (from_be addr), from_be port)) left
  unfolding read_request
  read_request-v6 h = rw (
    read_request,
    ◌>>=◌,
    read_exact_eq {n = 4} (5 ∷ 1 ∷ 0 ∷ 4 ∷ []) ((addr ++ port) ++ rest) out refl,
    read_exact_eq {n = 18} (addr ++ port) rest out (length_with addr port two h),
    take_eq {n = 16} addr port h,
    drop_eq {n = 16} addr port h,
  )

  read_request-domain :
      0 < length addr
      → is_utf8 addr ≡ true
      → read_request (sent (5 ∷ 1 ∷ 0 ∷ 3 ∷ length addr ∷ []))
        ≡ ok (SocksCmd.connect, DestAddr.domain addr (from_be port)) left
  unfolding read_request
  read_request-domain h u =
      let e : (length addr == 0) ≡ false = ground arith in
      rw (
        read_request,
        ◌>>=◌,
        ◌>>◌,
        read_exact_eq {n = 4} (5 ∷ 1 ∷ 0 ∷ 3 ∷ []) (length addr ∷ ((addr ++ port) ++ rest)) out
            refl,
        read_exact_eq {n = 1} (length addr ∷ []) ((addr ++ port) ++ rest) out refl,
        e,
        read_exact_eq {n = length addr + 2} (addr ++ port) rest out
            (length_with addr port two refl),
        take_eq {n = length addr} addr port refl,
        u,
        drop_eq {n = length addr} addr port refl,
        take_eq {n = length addr} addr port refl,
      )

-- The destination that the client asks for.
unfoldable pub requested : Endpoint → Option Bytes → DestAddr
requested dst none = DestAddr.ip dst
requested dst (some host) = DestAddr.domain host dst.1

-- A name that a request can carry, if there is one: 1 to 255 bytes of UTF-8.
abbrev pub CanName : Option Bytes → Type 0
CanName none = Unit {0}
CanName (some host) = (0 < length host) × (length host ≤ 255) × (is_utf8 host ≡ true)

-- The server reads the request that the client writes: as a connection to the destination asked
-- for, by an address and a port that fit their widths or by a name of 1 to 255 bytes of UTF-8, and
-- it reads nothing behind the request.
pub read_request-encode_connect :
    (dst : Endpoint) (host : Option Bytes) (rest out : Bytes)
    → Fits dst
    → CanName host
    → (request : Bytes) × (encode_connect dst host ≡ value request)
      × (read_request (record { incoming = request ++ rest; written = out })
          ≡ ok (SocksCmd.connect, requested dst host) (record { incoming = rest; written = out }))
unfolding encode_connect requested
read_request-encode_connect (v4 ip, port) none rest out h n = (
  _,
  refl,
  rw (
    read_request-v4 rest out (be_bytes 4 ip) (be_bytes 2 port) (length-be_bytes 2 port)
        (length-be_bytes 4 ip),
    from_be-be_bytes 4 ip h.0,
    from_be-be_bytes 2 port h.1,
  ),
)
read_request-encode_connect (v6 ip, port) none rest out h n = (
  _,
  refl,
  rw (
    read_request-v6 rest out (be_bytes 16 ip) (be_bytes 2 port) (length-be_bytes 2 port)
        (length-be_bytes 16 ip),
    from_be-be_bytes 16 ip h.0,
    from_be-be_bytes 2 port h.1,
  ),
)
read_request-encode_connect (ip, port) (some host) rest out h n = (
  5 ∷ 1 ∷ 0 ∷ 3 ∷ length host ∷ (host ++ be_bytes 2 port),
  ground arith,
  rw (
    read_request-domain rest out host (be_bytes 2 port) (length-be_bytes 2 port) n.0 n.2,
    from_be-be_bytes 2 port (ground arith),
  ),
)

module _ (rep : ℕ) (addr port rest out : Bytes) (two : length port ≡ 2) where
  abbrev answered : ℕ → Outcome (Unit {0})
  answered atyp =
      read_connect_reply
        (record { incoming = 5 ∷ rep ∷ 0 ∷ atyp ∷ ((addr ++ port) ++ rest); written = out })

  abbrev understood : Outcome (Unit {0})
  understood =
      if rep == 0
      then ok tt (record { incoming = rest; written = out })
      else err (rejected rep) (record { incoming = (addr ++ port) ++ rest; written = out })

  read_connect_reply-v4 : length addr ≡ 4 → answered 1 ≡ understood
  unfolding read_connect_reply
  read_connect_reply-v4 h = elim (Bool-cases (rep == 0)) [
    | inl e ↦ rw (
      read_connect_reply,
      ◌>>=◌,
      ◌>>◌,
      read_exact_eq {n = 4} (5 ∷ rep ∷ 0 ∷ 1 ∷ []) ((addr ++ port) ++ rest) out refl,
      e,
      read_exact_eq {n = 6} (addr ++ port) rest out (length_with addr port two h),
    )
    | inr e ↦ rw (
      read_connect_reply,
      ◌>>=◌,
      ◌>>◌,
      read_exact_eq {n = 4} (5 ∷ rep ∷ 0 ∷ 1 ∷ []) ((addr ++ port) ++ rest) out refl,
      e,
    )
  ]

  read_connect_reply-v6 : length addr ≡ 16 → answered 4 ≡ understood
  unfolding read_connect_reply
  read_connect_reply-v6 h = elim (Bool-cases (rep == 0)) [
    | inl e ↦ rw (
      read_connect_reply,
      ◌>>=◌,
      ◌>>◌,
      read_exact_eq {n = 4} (5 ∷ rep ∷ 0 ∷ 4 ∷ []) ((addr ++ port) ++ rest) out refl,
      e,
      read_exact_eq {n = 18} (addr ++ port) rest out (length_with addr port two h),
    )
    | inr e ↦ rw (
      read_connect_reply,
      ◌>>=◌,
      ◌>>◌,
      read_exact_eq {n = 4} (5 ∷ rep ∷ 0 ∷ 4 ∷ []) ((addr ++ port) ++ rest) out refl,
      e,
    )
  ]

-- The client takes the server's reply for what it is: success, or the refusal with its code.
pub read_connect_reply-write_reply :
    (rep : ℕ) (bnd : Endpoint) (rest sent out : Bytes)
    → (reply : Bytes) × (write_reply rep bnd (record { incoming = rest; written = sent })
        ≡ ok tt (record { incoming = rest; written = sent ++ reply }))
      × (read_connect_reply (record { incoming = reply ++ rest; written = out }) ≡ (
          if rep == 0
          then ok tt (record { incoming = rest; written = out })
          else err (rejected rep) (record {
            incoming = drop 1 (address_bytes bnd.0 ++ be_bytes 2 bnd.1) ++ rest;
            written = out;
          })))
unfolding write_reply
read_connect_reply-write_reply rep (v4 ip, port) rest sent out = (
  _,
  refl,
  read_connect_reply-v4 rep (be_bytes 4 ip) (be_bytes 2 port) rest out (length-be_bytes 2 port)
      (length-be_bytes 4 ip),
)
read_connect_reply-write_reply rep (v6 ip, port) rest sent out = (
  _,
  refl,
  read_connect_reply-v6 rep (be_bytes 16 ip) (be_bytes 2 port) rest out (length-be_bytes 2 port)
      (length-be_bytes 16 ip),
)
