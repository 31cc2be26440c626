-- ===== src/Rules.antt =====
-- sniffbox/crates/sniffbox/src/domain_rules.rs: names that belong to a group, and the addresses that
-- were seen for such names. A label is its bytes; the tables of groups are arguments of the helpers.
-- An operation on hints runs here without another in between; Threads has the steps of calls that
-- overlap.
mod Suffixes
mod Hints
mod Threads
mod Tests
use pao_pao_gate_way.Common.{
  ℕ, zero, suc, ◌+◌, ◌-◌, ◌/◌, min, max, Bool, true, false, ◌&&◌, List, [], ◌∷◌, ◌++◌, Option, none,
  some, any, is_some, ltb, leb, ◌==◌, if◌then◌else◌, length, get_or, drop, take,
}
use pao_pao_gate_way.Common.Bytes.{Bytes}
use pao_pao_gate_way.Common.Net.{IpAddr, IpAddr-discrete}
use pao_pao_gate_way.Common.Maps.{get, insert, retain}
use pao_pao_gate_way.Sniff.Http.{eq_ignore_ascii_case}

unfoldable pub is_suffix_match : Bytes → Bytes → Bool
is_suffix_match d suffix =
    if length d == length suffix
    then eq_ignore_ascii_case d suffix
    else if leb (length suffix + 2) (length d)
    then (let cut = length d - length suffix in
        get_or d (cut - 1) 0 == b'.' && eq_ignore_ascii_case (drop cut d) suffix)
    else false

-- `strip_suffix('.')`, or the text as it is.
unfoldable pub without_dot : Bytes → Bytes
without_dot d = if get_or d (length d - 1) 0 == b'.' then take (length d - 1) d else d

unfoldable pub find_group : List (Bytes × List Bytes) → Bytes → Option Bytes
unfolding is_suffix_match
find_group [] d = none
find_group ((label, suffixes) ∷ groups) d =
    if any (is_suffix_match d) suffixes then some label else find_group groups d

-- "cftunnel.com" and "argotunnel.com"
abbrev pub cloudflared_domains : List Bytes
cloudflared_domains =
    (b'c' ∷ b'f' ∷ b't' ∷ b'u' ∷ b'n' ∷ b'n' ∷ b'e' ∷ b'l' ∷ b'.' ∷ b'c' ∷ b'o' ∷ b'm' ∷ [])
    ∷ (b'a' ∷ b'r' ∷ b'g' ∷ b'o' ∷ b't' ∷ b'u' ∷ b'n' ∷ b'n' ∷ b'e' ∷ b'l' ∷ b'.' ∷ b'c' ∷ b'o'
        ∷ b'm' ∷ [])
    ∷ []

abbrev pub groups : List (Bytes × List Bytes)
groups =
    (
      b'c' ∷ b'l' ∷ b'o' ∷ b'u' ∷ b'd' ∷ b'f' ∷ b'l' ∷ b'a' ∷ b'r' ∷ b'e' ∷ b'd' ∷ [],
      cloudflared_domains,
    )
    ∷ []

unfoldable pub match_group : Bytes → Option Bytes
unfolding without_dot find_group
match_group domain =
    let d = without_dot domain in if length d == 0 then none else find_group groups d

abbrev pub hints_cap : ℕ
hints_cap = 512

pub record Hint : Type 0 where
  pub label : Bytes
  pub seq : ℕ

pub record IpHints : Type 0 where
  pub map : List (IpAddr × Hint)
  pub seq : ℕ
  pub count : ℕ
  pub cap : ℕ

pub with_cap : ℕ → IpHints
with_cap cap = record { map = []; seq = 0; count = 0; cap = max cap 1 }

-- The label, and the table with the hint marked as used.
pub lookup : IpHints → IpAddr → Option Bytes × IpHints
lookup t ip = if t.count == 0 then (none, t) else elim (get IpAddr-discrete ip t.map) [
  | none ↦ (none, t)
  | some e ↦ (
    some e.label,
    record t { map = insert IpAddr-discrete ip (record e { seq = t.seq }) t.map; seq = t.seq + 1 },
  )
]

-- `sort_unstable` on numbers.
put_in : ℕ → List ℕ → List ℕ
put_in x [] = x ∷ []
put_in x (y ∷ ys) = if leb x y then x ∷ y ∷ ys else y ∷ put_in x ys

pub sorted : List ℕ → List ℕ
unfolding put_in
sorted [] = []
sorted (x ∷ xs) = put_in x (sorted xs)

pub seqs : List (IpAddr × Hint) → List ℕ
seqs [] = []
seqs ((ip, h) ∷ m) = h.seq ∷ seqs m

-- From which mark on the hints stay, of the marks in order.
abbrev pub threshold_of : List ℕ → ℕ
threshold_of all = get_or all (min (max (length all / 4) 1) (length all - 1)) 0

pub evict_oldest : IpHints → IpHints
unfolding sorted seqs
evict_oldest t =
    let all = sorted (seqs t.map) in
    let threshold = threshold_of all in
    let live = retain (λ ip h. leb threshold h.seq) t.map in
    if length all == 0 then t else record t { map = live; count = length live }

pub note : IpHints → IpAddr → Bytes → IpHints
unfolding evict_oldest
note t0 ip label =
    let seq = t0.seq in
    let t = record t0 { seq = seq + 1 } in
    let u = if leb t.cap (length t.map) then evict_oldest t else t in
    elim (get IpAddr-discrete ip t.map) [
      | some e ↦ record t { map = insert IpAddr-discrete ip (record e { seq = seq }) t.map }
      | none ↦ record u {
        map = insert IpAddr-discrete ip (record { label = label; seq = seq }) u.map;
        count = if is_some (get IpAddr-discrete ip u.map) then u.count else u.count + 1;
      }
    ]

pub len : IpHints → ℕ
len t = t.count
