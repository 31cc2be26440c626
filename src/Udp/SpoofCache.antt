-- ===== src/Udp/SpoofCache.antt =====
-- sniffbox/crates/sb-tproxy/src/spoof_cache.rs: the sockets that reply under a foreign address, one
-- for each address, the oldest given up for a new one, and the addresses that could not be bound.
-- The clock's reading is an argument, in milliseconds, and so is what binding gives: `some` of a
-- socket, by its number, or `none`. An operation holds the lock throughout and is one step.
mod Answers
mod Order
mod Tests
use pao_pao_gate_way.Common.{
  ℕ, ◌+◌, ◌-◌, Bool, List, [], ◌∷◌, ◌++◌, Option, none, some, ltb, leb, ◌==◌, if◌then◌else◌, length,
}
use pao_pao_gate_way.Common.Net.{Endpoint, Endpoint-discrete}
use pao_pao_gate_way.Common.Maps.{retain, get, insert, remove}

abbrev pub nx_ttl : ℕ
nx_ttl = 2000

abbrev pub nx_cap : ℕ
nx_cap = 1024

pub record SpoofCache : Type 0 where
  pub map : List (Endpoint × ℕ)
  pub order : List Endpoint
  pub nx : List (Endpoint × ℕ)
  pub cap : ℕ

pub new : ℕ → SpoofCache
new cap = record { map = []; order = []; nx = []; cap = cap }

pub len : SpoofCache → ℕ
len c = length c.map

pub is_empty : SpoofCache → Bool
unfolding len
is_empty c = len c == 0

-- A failure that is still remembered.
abbrev pub is_fresh : ℕ → Endpoint → ℕ → Bool
is_fresh now _ t = ltb (now - t) nx_ttl

pub nx_len : SpoofCache → ℕ → ℕ
nx_len c now = length (retain (is_fresh now) c.nx)

-- The socket that came first is given up, if the table is full and there is one.
pub evict : SpoofCache → SpoofCache
evict c =
    if leb c.cap (length c.map)
    then elim c.order [
      | [] ↦ c
      | oldest ∷ order ↦ record c { map = remove Endpoint-discrete oldest c.map; order = order }
    ]
    else c

-- A socket that was bound.
pub keep : SpoofCache → Endpoint → ℕ → SpoofCache
unfolding evict
keep c src sock =
    let d = evict c in
    record d {
      order = d.order ++ src ∷ [];
      map = insert Endpoint-discrete src sock d.map;
      nx = remove Endpoint-discrete src d.nx;
    }

-- A binding that failed.
pub fail : SpoofCache → ℕ → Endpoint → SpoofCache
fail c now src = record c {
  nx =
      insert Endpoint-discrete src now
        (if leb nx_cap (length c.nx) then retain (is_fresh now) c.nx else c.nx);
}

pub bind_spoof : SpoofCache → ℕ → Endpoint → Option ℕ → Option ℕ × SpoofCache
unfolding keep fail
bind_spoof c now src bound = elim bound [
  | some sock ↦ (some sock, keep c src sock)
  | none ↦ (none, fail c now src)
]

-- `none` is the error.
pub get_or_bind : SpoofCache → ℕ → Endpoint → Option ℕ → Option ℕ × SpoofCache
unfolding bind_spoof
get_or_bind c now src bound = elim (get Endpoint-discrete src c.map) [
  | some sock ↦ (some sock, c)
  | none ↦ elim (get Endpoint-discrete src c.nx) [
    | some t ↦
        if ltb (now - t) nx_ttl
        then (none, c)
        else bind_spoof (record c { nx = remove Endpoint-discrete src c.nx }) now src bound
    | none ↦ bind_spoof c now src bound
  ]
]
