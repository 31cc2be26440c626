-- ===== src/Sniff/Http.antt =====
-- sniffbox/crates/sb-sniff/src/http.rs: the host that a request names. The parser of the package
-- httparse is an argument: what it makes of a buffer, with the headers that it filled in.
use pao_pao_gate_way.Common.{
  ℕ, zero, suc, Bool, true, false, List, [], ◌∷◌, Option, none, some, ◌==◌, if◌then◌else◌, map,
  length, drop,
}
use pao_pao_gate_way.Common.Bytes.{Bytes, bytes_eq, starts_with, is_utf8}
use pao_pao_gate_way.Common.Text.{to_ascii_lowercase}
use pao_pao_gate_way.Sniff.Errors.{malformed, Result, ok, err, ◌>>=◌}

pub record Header : Type 0 where
  pub name : Bytes
  pub value : Bytes

pub data Parse : Type 0 where
  complete partial : List Header → Parse
  failed : Parse

-- `str::trim`: the characters of Unicode's White_Space, as their bytes.
abbrev white_space : List Bytes
white_space =
    (9 ∷ [])
    ∷ (10 ∷ [])
    ∷ (11 ∷ [])
    ∷ (12 ∷ [])
    ∷ (13 ∷ [])
    ∷ (32 ∷ [])
    ∷ (0xc2 ∷ 0x85 ∷ [])
    ∷ (0xc2 ∷ 0xa0 ∷ [])
    ∷ (0xe1 ∷ 0x9a ∷ 0x80 ∷ [])
    ∷ (0xe2 ∷ 0x80 ∷ 0x80 ∷ [])
    ∷ (0xe2 ∷ 0x80 ∷ 0x81 ∷ [])
    ∷ (0xe2 ∷ 0x80 ∷ 0x82 ∷ [])
    ∷ (0xe2 ∷ 0x80 ∷ 0x83 ∷ [])
    ∷ (0xe2 ∷ 0x80 ∷ 0x84 ∷ [])
    ∷ (0xe2 ∷ 0x80 ∷ 0x85 ∷ [])
    ∷ (0xe2 ∷ 0x80 ∷ 0x86 ∷ [])
    ∷ (0xe2 ∷ 0x80 ∷ 0x87 ∷ [])
    ∷ (0xe2 ∷ 0x80 ∷ 0x88 ∷ [])
    ∷ (0xe2 ∷ 0x80 ∷ 0x89 ∷ [])
    ∷ (0xe2 ∷ 0x80 ∷ 0x8a ∷ [])
    ∷ (0xe2 ∷ 0x80 ∷ 0xa8 ∷ [])
    ∷ (0xe2 ∷ 0x80 ∷ 0xa9 ∷ [])
    ∷ (0xe2 ∷ 0x80 ∷ 0xaf ∷ [])
    ∷ (0xe2 ∷ 0x81 ∷ 0x9f ∷ [])
    ∷ (0xe3 ∷ 0x80 ∷ 0x80 ∷ [])
    ∷ []

-- How many bytes the white space in front has, `0` for none.
lead_space : List Bytes → Bytes → ℕ
lead_space [] bs = 0
lead_space (w ∷ ws) bs = if starts_with bs w then length w else lead_space ws bs

-- On fuel of the length: a round takes a character.
trim_lead : ℕ → List Bytes → Bytes → Bytes
unfolding lead_space
trim_lead zero ws bs = bs
trim_lead (suc fuel) ws bs =
    let n = lead_space ws bs in
    let rest = trim_lead fuel ws (drop n bs) in if n == 0 then bs else rest

reversed : Bytes → Bytes → Bytes
reversed acc [] = acc
reversed acc (b ∷ bs) = reversed (b ∷ acc) bs

unfoldable pub trim : Bytes → Bytes
unfolding trim_lead reversed
trim bs =
    let front = trim_lead (length bs) white_space bs in
    reversed [] (trim_lead (length front) (map (reversed []) white_space) (reversed [] front))

unfoldable pub eq_ignore_ascii_case : Bytes → Bytes → Bool
unfolding bytes_eq
eq_ignore_ascii_case xs ys = bytes_eq (map to_ascii_lowercase xs) (map to_ascii_lowercase ys)

-- What stands in front of a byte, if it occurs.
unfoldable pub before : ℕ → Bytes → Option Bytes
before b [] = none
before b (x ∷ xs) =
    if x == b then some [] else elim (before b xs) [ none ↦ none | some ys ↦ some (x ∷ ys) ]

-- The part of a host header that is the name, without a port or the brackets of an address.
unfoldable pub hostname : Bytes → Result Bytes
unfolding before
hostname [] = ok []
hostname (b ∷ bs) =
    if b == b'['
    then elim (before b']' bs) [
      | none ↦ err (malformed "unmatched '[' in host")
      | some name ↦ ok name
    ]
    else elim (before b':' (b ∷ bs)) [ none ↦ ok (b ∷ bs) | some name ↦ ok name ]

-- The loop over the headers.
unfoldable pub find_host : List Header → Result (Option Bytes)
unfolding eq_ignore_ascii_case trim hostname
find_host [] = ok none
find_host (h ∷ hs) =
    if eq_ignore_ascii_case h.name (b'h' ∷ b'o' ∷ b's' ∷ b't' ∷ [])
    then (if is_utf8 h.value
        then hostname (trim h.value)
          >>= (λ name. if length name == 0 then ok none else ok (some name))
        else err (malformed "host not utf8"))
    else find_host hs

unfoldable pub parse_head : (Bytes → Parse) → Bytes → Result (Option Bytes × Bool)
unfolding find_host
parse_head parse buf = elim (parse buf) [
  | complete hs ↦ find_host hs >>= (λ host. ok (host, true))
  | partial hs ↦ find_host hs >>= (λ host. ok (host, false))
  | failed ↦ err (malformed "not http")
]

pub parse_host : (Bytes → Parse) → Bytes → Result (Option Bytes)
unfolding parse_head
parse_host parse buf = parse_head parse buf >>= (λ (host, whole). ok host)
