-- ===== src/FakeIp/Valid.antt =====
-- sniffbox/crates/sb-dns/src/valid.rs: which names get a fake address. A name is its bytes.
use pao_pao_gate_way.Common.{
  ℕ, ◌+◌, ◌-◌, Bool, false, not, ◌&&◌, ◌||◌, List, [], ◌∷◌, ltb, leb, ◌==◌, if◌then◌else◌, length,
  Option, none, some, get_or, take, any, all,
}
use pao_pao_gate_way.Common.Bytes.{Bytes}
use pao_pao_gate_way.Common.Text.{split_dot}
use pao_pao_gate_way.Sniff.Http.{eq_ignore_ascii_case}
use pao_pao_gate_way.Rules.{without_dot}

is_ascii_alphanumeric : ℕ → Bool
is_ascii_alphanumeric c =
    (leb b'0' c && leb c b'9') || (leb b'a' c && leb c b'z') || (leb b'A' c && leb c b'Z')

unfoldable pub is_valid_label : Bytes → Bool
unfolding is_ascii_alphanumeric eq_ignore_ascii_case
is_valid_label b =
    let len = length b in
    if len == 0 || ltb 63 len
    then false
    else if not (all (λ c. is_ascii_alphanumeric c || c == b'-') b)
    then false
    else if get_or b 0 0 == b'-' || get_or b (len - 1) 0 == b'-'
    then false
    else not (
        leb 4 len
        && get_or b 2 0 == b'-'
        && get_or b 3 0 == b'-'
        && not (eq_ignore_ascii_case (take 2 b) (b'x' ∷ b'n' ∷ [])))

-- "test", "example", "invalid", "localhost", "arpa", "local", "onion", "alt"
abbrev pub reserved_tlds : List Bytes
reserved_tlds =
    (b't' ∷ b'e' ∷ b's' ∷ b't' ∷ [])
    ∷ (b'e' ∷ b'x' ∷ b'a' ∷ b'm' ∷ b'p' ∷ b'l' ∷ b'e' ∷ [])
    ∷ (b'i' ∷ b'n' ∷ b'v' ∷ b'a' ∷ b'l' ∷ b'i' ∷ b'd' ∷ [])
    ∷ (b'l' ∷ b'o' ∷ b'c' ∷ b'a' ∷ b'l' ∷ b'h' ∷ b'o' ∷ b's' ∷ b't' ∷ [])
    ∷ (b'a' ∷ b'r' ∷ b'p' ∷ b'a' ∷ [])
    ∷ (b'l' ∷ b'o' ∷ b'c' ∷ b'a' ∷ b'l' ∷ [])
    ∷ (b'o' ∷ b'n' ∷ b'i' ∷ b'o' ∷ b'n' ∷ [])
    ∷ (b'a' ∷ b'l' ∷ b't' ∷ [])
    ∷ []

-- The loop over the labels: how many there are and the last, or `none` at the first that is no label.
unfoldable pub labels : List Bytes → ℕ → Bytes → Option (ℕ × Bytes)
unfolding is_valid_label
labels [] n tld = some (n, tld)
labels (label ∷ rest) n tld =
    let more = labels rest (n + 1) label in if is_valid_label label then more else none

unfoldable pub is_valid_fakeip_domain : Bytes → Bool
unfolding without_dot split_dot labels eq_ignore_ascii_case
is_valid_fakeip_domain domain =
    let name = without_dot domain in
    if length name == 0 || ltb 253 (length name)
    then false
    else elim (labels (split_dot name) 0 []) [
      | none ↦ false
      | some (n, tld) ↦
          if ltb n 2
          then false
          else if ltb (length tld) 2
          then false
          else not (any (λ r. eq_ignore_ascii_case r tld) reserved_tlds)
    ]
