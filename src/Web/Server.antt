-- ===== src/Web/Server.antt =====
-- Who is served: sniffbox/crates/sb-web/src/acl.rs and of server.rs, `handle_conn`, the tests in front
-- of the routes. A net is what the package ipnet says of an address.
use pao_pao_gate_way.Common.{
  ℕ, ◌/◌, ◌%◌, ◌^◌, ◌≡◌, ◌⊎◌, ◌↔◌, refl, sym, ap, ◌∙◌, Bool, true, false, not, ◌&&◌, ◌||◌, List, [],
  ◌∷◌, Option, none, some, arith, any, length, ◌==◌, if◌then◌else◌, Bool-cases, inl, inr,
}
use pao_pao_gate_way.Common.Bytes.{Bytes, bytes_eq, starts_with, bytes_eq_iff, is_utf8}
use pao_pao_gate_way.Common.Net.{IpAddr, v4, v6}
use pao_pao_gate_way.Sniff.Http.{before, eq_ignore_ascii_case}
use pao_pao_gate_way.Web.Tokens.{check_bearer, check_bearer_iff, Bears}
use pao_pao_gate_way.Web.Router.{Route, needs_auth, classify, ui, ui_files, get}

-- `Ipv4Net`: which addresses it contains.
abbrev pub Ipv4Net : Type 0
Ipv4Net = ℕ → Bool

pub record AdminAcl : Type 0 where
  pub nets : List Ipv4Net

-- `IpAddr::is_loopback`: 127.0.0.0/8 and ::1.
abbrev pub is_loopback : IpAddr → Bool
is_loopback (v4 a) = a / 2 ^ 24 == 127
is_loopback (v6 a) = a == 1

-- `Ipv6Addr::to_ipv4_mapped`: ::ffff:0:0/96.
abbrev pub to_ipv4_mapped : ℕ → Option ℕ
to_ipv4_mapped a = if a / 2 ^ 32 == 0xffff then some (a % 2 ^ 32) else none

abbrev pub allows_v4 : AdminAcl → ℕ → Bool
allows_v4 acl a = is_loopback (v4 a) || any (λ n. n a) acl.nets

unfoldable pub allows : AdminAcl → IpAddr → Bool
allows acl ip = if length acl.nets == 0 then true else elim ip [
  | v4 a ↦ allows_v4 acl a
  | v6 a ↦ elim (to_ipv4_mapped a) [ some b ↦ allows_v4 acl b | none ↦ is_loopback (v6 a) ]
]

-- What is read of the head of a request.
pub record Request : Type 0 where
  pub method : Bytes
  pub path : Bytes
  pub authorization : Option Bytes

unfoldable pub path_only : Request → Bytes
path_only req = elim (before b'?' req.path) [ none ↦ req.path | some p ↦ p ]

pub data Admission : Type 0 where
  closed forbidden unauthorized : Admission
  dispatched : Route → Admission

-- "/sniffbox/clash/up"
abbrev pub clash_up : Bytes
clash_up =
    b'/' ∷ b's' ∷ b'n' ∷ b'i' ∷ b'f' ∷ b'f' ∷ b'b' ∷ b'o' ∷ b'x' ∷ b'/' ∷ b'c' ∷ b'l' ∷ b'a' ∷ b's'
    ∷ b'h' ∷ b'/' ∷ b'u' ∷ b'p' ∷ []

-- A request of a peer, up to the arm of its route. What the arm does is not modelled: that of
-- `blocked` answers 403.
unfoldable pub handle_request : Bytes → IpAddr → Request → Admission
handle_request token peer req =
    let path = path_only req in
    let route = classify req.method path in
    let local_ctl = bytes_eq path clash_up in
    if local_ctl && not (is_loopback peer)
    then forbidden
    else if needs_auth route && not local_ctl && not (check_bearer req.authorization token)
    then unauthorized
    else dispatched route

-- A request on a connection: the list of nets is asked when the connection comes, before its first
-- request is read.
unfoldable pub handle_conn : AdminAcl → Bytes → IpAddr → Request → Admission
handle_conn acl token peer req =
    let served = handle_request token peer req in if not (allows acl peer) then closed else served

-- A request for the interface itself.
pub IsUi : Bytes → Bytes → Type 0
IsUi method path =
    ((eq_ignore_ascii_case method get ≡ true) × ((path ≡ []) ⊎ (path ≡ b'/' ∷ [])))
    ⊎ (path ≡ ui)
    ⊎ (starts_with path ui_files ≡ true)

-- The call that brings the proxy up is for the machine itself, which needs no token for it; any
-- other request is for the interface or bears the token.
pub IsPermitted : Bytes → IpAddr → Request → Type 0
IsPermitted token peer req =
    ((path_only req ≡ clash_up) × (is_loopback peer ≡ true))
    ⊎ ((¬ path_only req ≡ clash_up)
        × (IsUi req.method (path_only req)
            ⊎ ((v : Bytes) × (req.authorization ≡ some v) × (is_utf8 v ≡ true) × Bears v token)))

empty_path : (path : Bytes) → (length path == 0) ≡ true → path ≡ []
empty_path [] h = refl
empty_path (b ∷ path) h = absurd (ground arith)

guarded :
    (method path : Bytes)
    → (eq_ignore_ascii_case method get && (bytes_eq path (b'/' ∷ []) || length path == 0)) ≡ false
    → bytes_eq path ui ≡ false
    → starts_with path ui_files ≡ false
    → needs_auth (classify method path) ≡ true
unfolding classify needs_auth
guarded method path a b c = ground arith

root_path :
    (method path : Bytes)
    → (eq_ignore_ascii_case method get && (bytes_eq path (b'/' ∷ []) || length path == 0)) ≡ true
    → (eq_ignore_ascii_case method get ≡ true) × ((path ≡ []) ⊎ (path ≡ b'/' ∷ []))
root_path method path h = elim (Bool-cases (length path == 0)) [
  | inl e ↦ (ground arith, inl (empty_path path e))
  | inr e ↦ (ground arith, inr ((bytes_eq_iff path (b'/' ∷ [])).0 (ground arith)))
]

needs_auth_sound :
    (method path : Bytes) → needs_auth (classify method path) ≡ false → IsUi method path
unfolding IsUi
needs_auth_sound method path h =
    elim (Bool-cases
      (eq_ignore_ascii_case method get && (bytes_eq path (b'/' ∷ []) || length path == 0))) [
        | inl e ↦ inl (root_path method path e)
        | inr e1 ↦ elim (Bool-cases (bytes_eq path ui)) [
          | inl e ↦ inr (inl ((bytes_eq_iff path ui).0 e))
          | inr e2 ↦ elim (Bool-cases (starts_with path ui_files)) [
            | inl e ↦ inr (inr e)
            | inr e3 ↦ absurd (ground (arith, h, guarded method path e1 e2 e3))
          ]
        ]
      ]

unguarded :
    (method path : Bytes)
    → ((eq_ignore_ascii_case method get && (bytes_eq path (b'/' ∷ []) || length path == 0)) ≡ true)
      ⊎ ((bytes_eq path ui || starts_with path ui_files) ≡ true)
    → needs_auth (classify method path) ≡ false
unfolding classify needs_auth
unguarded method path (inl e) = ground arith
unguarded method path (inr e) = ground arith

needs_auth_complete :
    (method path : Bytes) → IsUi method path → needs_auth (classify method path) ≡ false
unfolding IsUi
needs_auth_complete method path (inl (g, inl e)) =
    unguarded method path (inl (ground (arith, g, ap length e)))
needs_auth_complete method path (inl (g, inr e)) =
    unguarded method path (inl (ground (arith, g, (bytes_eq_iff path (b'/' ∷ [])).1 e)))
needs_auth_complete method path (inr (inl e)) =
    unguarded method path (inr (ground (arith, (bytes_eq_iff path ui).1 e)))
needs_auth_complete method path (inr (inr e)) = unguarded method path (inr (ground (arith, e)))

module _ (acl : AdminAcl) (token : Bytes) (peer : IpAddr) (req : Request) where
  other : bytes_eq (path_only req) clash_up ≡ false → ¬ path_only req ≡ clash_up
  other e p = ground (arith, e, (bytes_eq_iff (path_only req) clash_up).1 p)

  tested :
      (route : Route)
      → handle_conn acl token peer req ≡ dispatched route
      → (allows acl peer ≡ true) × (route ≡ classify req.method (path_only req))
  unfolding handle_conn handle_request
  tested route h = (ground arith, ground arith)

  sound :
      (route : Route)
      → handle_conn acl token peer req ≡ dispatched route
      → IsPermitted token peer req
  unfolding handle_conn handle_request IsPermitted
  sound route h = elim (Bool-cases (bytes_eq (path_only req) clash_up)) [
    | inl c ↦ inl ((bytes_eq_iff (path_only req) clash_up).0 c, ground arith)
    | inr c ↦ elim (Bool-cases (needs_auth (classify req.method (path_only req)))) [
      | inr n ↦ inr (other c, inl (needs_auth_sound req.method (path_only req) n))
      | inl n ↦ inr (other c, inr ((check_bearer_iff req.authorization token).0 (ground arith)))
    ]
  ]

  complete :
      allows acl peer ≡ true
      → IsPermitted token peer req
      → handle_conn acl token peer req ≡ dispatched (classify req.method (path_only req))
  unfolding handle_conn handle_request IsPermitted
  complete a (inl (c, l)) = ground (arith, a, l, (bytes_eq_iff (path_only req) clash_up).1 c)
  complete a (inr (c, inl u)) = ground (
    arith,
    a,
    c,
    bytes_eq_iff (path_only req) clash_up,
    needs_auth_complete req.method (path_only req) u,
  )
  complete a (inr (c, inr b)) = ground (
    arith,
    a,
    c,
    bytes_eq_iff (path_only req) clash_up,
    (check_bearer_iff req.authorization token).1 b,
  )

-- Which requests get past the tests, each to the arm of the route of its method and path: those that
-- are permitted, of the peers that the list of nets allows.
pub handle_conn_iff :
    (acl : AdminAcl) (token : Bytes) (peer : IpAddr) (req : Request) (route : Route)
    → (handle_conn acl token peer req ≡ dispatched route) ↔ (
        (allows acl peer ≡ true)
        × (route ≡ classify req.method (path_only req))
        × IsPermitted token peer req)
handle_conn_iff acl token peer req route = (
  λ h. let (a, r) = tested acl token peer req route h in (a, r, sound acl token peer req route h),
  λ (a, r, p). complete acl token peer req a p ∙ ap dispatched (sym r),
)
