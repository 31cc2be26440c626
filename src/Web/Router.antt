-- ===== src/Web/Router.antt =====
-- sniffbox/crates/sb-web/src/router.rs: where a request goes. A method and a path are their bytes.
-- `configs_patch_mode_only` is not modelled: it is the package serde_json on the body.
pub mod Targets
pub mod Escapes
use pao_pao_gate_way.Common.{
  ℕ, zero, suc, ◌+◌, ◌-◌, ◌*◌, Bool, true, false, not, ◌&&◌, ◌||◌, List, [], ◌∷◌, ◌++◌, Option,
  none, some, any, ltb, leb, ◌==◌, if◌then◌else◌, length,
}
use pao_pao_gate_way.Common.Bytes.{Bytes, bytes_eq, starts_with}
use pao_pao_gate_way.Common.Text.{from_utf8_lossy}
use pao_pao_gate_way.Sniff.Http.{eq_ignore_ascii_case}

pub data Route : Type 0 where
  redirect_root static files blocked config_patch config_get native geo_update proxy_clash : Route

unfoldable pub needs_auth : Route → Bool
needs_auth redirect_root = false
needs_auth static = false
needs_auth _ = true

pub data Seg : Type 0 where
  lit : Bytes → Seg
  param : Seg

abbrev pub get : Bytes
get = b'G' ∷ b'E' ∷ b'T' ∷ []

abbrev pub put : Bytes
put = b'P' ∷ b'U' ∷ b'T' ∷ []

abbrev pub post : Bytes
post = b'P' ∷ b'O' ∷ b'S' ∷ b'T' ∷ []

abbrev pub patch : Bytes
patch = b'P' ∷ b'A' ∷ b'T' ∷ b'C' ∷ b'H' ∷ []

abbrev pub delete : Bytes
delete = b'D' ∷ b'E' ∷ b'L' ∷ b'E' ∷ b'T' ∷ b'E' ∷ []

abbrev pub connections : Bytes
connections = b'c' ∷ b'o' ∷ b'n' ∷ b'n' ∷ b'e' ∷ b'c' ∷ b't' ∷ b'i' ∷ b'o' ∷ b'n' ∷ b's' ∷ []

abbrev pub proxies : Bytes
proxies = b'p' ∷ b'r' ∷ b'o' ∷ b'x' ∷ b'i' ∷ b'e' ∷ b's' ∷ []

abbrev pub delay : Bytes
delay = b'd' ∷ b'e' ∷ b'l' ∷ b'a' ∷ b'y' ∷ []

abbrev pub group : Bytes
group = b'g' ∷ b'r' ∷ b'o' ∷ b'u' ∷ b'p' ∷ []

abbrev pub providers : Bytes
providers = b'p' ∷ b'r' ∷ b'o' ∷ b'v' ∷ b'i' ∷ b'd' ∷ b'e' ∷ b'r' ∷ b's' ∷ []

abbrev pub healthcheck : Bytes
healthcheck = b'h' ∷ b'e' ∷ b'a' ∷ b'l' ∷ b't' ∷ b'h' ∷ b'c' ∷ b'h' ∷ b'e' ∷ b'c' ∷ b'k' ∷ []

abbrev pub rules : Bytes
rules = b'r' ∷ b'u' ∷ b'l' ∷ b'e' ∷ b's' ∷ []

abbrev pub disable : Bytes
disable = b'd' ∷ b'i' ∷ b's' ∷ b'a' ∷ b'b' ∷ b'l' ∷ b'e' ∷ []

-- "/ui"
abbrev pub ui : Bytes
ui = b'/' ∷ b'u' ∷ b'i' ∷ []

-- "/ui/"
abbrev pub ui_files : Bytes
ui_files = b'/' ∷ b'u' ∷ b'i' ∷ b'/' ∷ []

-- "/data"
abbrev pub data_root : Bytes
data_root = b'/' ∷ b'd' ∷ b'a' ∷ b't' ∷ b'a' ∷ []

-- "/data/"
abbrev pub data_files : Bytes
data_files = b'/' ∷ b'd' ∷ b'a' ∷ b't' ∷ b'a' ∷ b'/' ∷ []

-- "/sniffbox"
abbrev pub sniffbox : Bytes
sniffbox = b'/' ∷ b's' ∷ b'n' ∷ b'i' ∷ b'f' ∷ b'f' ∷ b'b' ∷ b'o' ∷ b'x' ∷ []

-- "/sniffbox/"
abbrev pub sniffbox_files : Bytes
sniffbox_files = b'/' ∷ b's' ∷ b'n' ∷ b'i' ∷ b'f' ∷ b'f' ∷ b'b' ∷ b'o' ∷ b'x' ∷ b'/' ∷ []

-- "/upgrade/geo"
abbrev pub upgrade_geo : Bytes
upgrade_geo = b'/' ∷ b'u' ∷ b'p' ∷ b'g' ∷ b'r' ∷ b'a' ∷ b'd' ∷ b'e' ∷ b'/' ∷ b'g' ∷ b'e' ∷ b'o' ∷ []

-- "/configs"
abbrev pub configs : Bytes
configs = b'/' ∷ b'c' ∷ b'o' ∷ b'n' ∷ b'f' ∷ b'i' ∷ b'g' ∷ b's' ∷ []

-- "/configs/"
abbrev pub configs_slash : Bytes
configs_slash = b'/' ∷ b'c' ∷ b'o' ∷ b'n' ∷ b'f' ∷ b'i' ∷ b'g' ∷ b's' ∷ b'/' ∷ []

abbrev pub clash_allow : List (Bytes × List Seg)
clash_allow =
    (get, lit connections ∷ [])
    ∷ (delete, lit connections ∷ [])
    ∷ (delete, lit connections ∷ param ∷ [])
    ∷ (get, lit proxies ∷ [])
    ∷ (get, lit proxies ∷ param ∷ [])
    ∷ (put, lit proxies ∷ param ∷ [])
    ∷ (delete, lit proxies ∷ param ∷ [])
    ∷ (get, lit proxies ∷ param ∷ lit delay ∷ [])
    ∷ (get, lit group ∷ param ∷ lit delay ∷ [])
    ∷ (get, lit providers ∷ lit proxies ∷ [])
    ∷ (put, lit providers ∷ lit proxies ∷ param ∷ [])
    ∷ (get, lit providers ∷ lit proxies ∷ param ∷ lit healthcheck ∷ [])
    ∷ (get, lit providers ∷ lit proxies ∷ param ∷ param ∷ lit healthcheck ∷ [])
    ∷ (get, lit providers ∷ lit rules ∷ [])
    ∷ (put, lit providers ∷ lit rules ∷ param ∷ [])
    ∷ (get, lit rules ∷ [])
    ∷ (patch, lit rules ∷ lit disable ∷ [])
    ∷ []

-- `split(c)`: there is always a piece, and one more for each `c`.
unfoldable pub split : ℕ → Bytes → List Bytes
split c [] = [] ∷ []
split c (b ∷ bs) = elim (split c bs) [
  | [] ↦ [] ∷ []
  | piece ∷ pieces ↦ if b == c then [] ∷ piece ∷ pieces else (b ∷ piece) ∷ pieces
]

-- `filter(|s| !s.is_empty())`.
unfoldable pub non_empty : List Bytes → List Bytes
non_empty [] = []
non_empty (s ∷ ss) = let rest = non_empty ss in if not (length s == 0) then s ∷ rest else rest

unfoldable pub segments : Bytes → List Bytes
segments path = non_empty (split b'/' path)

-- `pat.len() == segs.len()` and the test of each pair.
unfoldable pub fits : List Seg → List Bytes → Bool
fits [] [] = true
fits (lit word ∷ pat) (s ∷ segs) = bytes_eq s word && fits pat segs
fits (param ∷ pat) (s ∷ segs) = not (length s == 0) && fits pat segs
fits _ _ = false

unfoldable pub clash_allowed : Bytes → Bytes → Bool
unfolding fits
clash_allowed method path =
    any (λ (m, pat). eq_ignore_ascii_case method m && fits pat (segments path)) clash_allow

abbrev pub is_configs : Bytes → Bool
is_configs path = bytes_eq path configs || bytes_eq path configs_slash

unfoldable pub classify : Bytes → Bytes → Route
classify method path =
    if eq_ignore_ascii_case method get && (bytes_eq path (b'/' ∷ []) || length path == 0)
    then redirect_root
    else if bytes_eq path ui || starts_with path ui_files
    then static
    else if bytes_eq path data_root || starts_with path data_files
    then files
    else if bytes_eq path sniffbox || starts_with path sniffbox_files
    then native
    else if eq_ignore_ascii_case method post && bytes_eq path upgrade_geo
    then geo_update
    else if eq_ignore_ascii_case method patch && is_configs path
    then config_patch
    else if eq_ignore_ascii_case method get && is_configs path
    then config_get
    else if clash_allowed method path
    then proxy_clash
    else blocked

-- `char::to_digit(16)`.
unfoldable pub hex : ℕ → Option ℕ
hex c =
    if leb b'0' c && leb c b'9'
    then some (c - b'0')
    else if leb b'a' c && leb c b'f'
    then some (c - b'a' + 10)
    else if leb b'A' c && leb c b'F'
    then some (c - b'A' + 10)
    else none

abbrev pub escape : Bytes → Option ℕ
escape [] = none
escape (h ∷ []) = none
escape (h ∷ l ∷ rest) = elim (hex h) [
  | none ↦ none
  | some x ↦ elim (hex l) [ none ↦ none | some y ↦ some (x * 16 + y) ]
]

-- The loop of `pct_decode_segment`, with how many bytes of an escape are still to be passed over.
unfoldable pub decoded : ℕ → Bytes → Bytes
decoded skip [] = []
decoded (suc skip) (b ∷ bs) = decoded skip bs
decoded zero (b ∷ bs) =
    let passed = decoded 2 bs in
    let next = decoded 0 bs in
    elim (escape bs) [ none ↦ b ∷ next | some x ↦ if b == b'%' then x ∷ passed else b ∷ next ]

unfoldable pub pct_decode_segment : Bytes → Bytes
unfolding decoded
pct_decode_segment s = from_utf8_lossy (decoded 0 s)

abbrev pub group_of : List Bytes → Option Bytes
group_of (a ∷ name ∷ b ∷ []) =
    if bytes_eq a group && bytes_eq b delay && not (length name == 0)
    then some (pct_decode_segment name)
    else none
group_of _ = none

unfoldable pub group_delay_target : Bytes → Bytes → Option Bytes
group_delay_target method path =
    if not (eq_ignore_ascii_case method get) then none else group_of (segments path)
