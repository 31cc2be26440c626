-- ===== src/Sniff/NegCache.antt =====
-- sniffbox/crates/sb-sniff/src/neg_cache.rs: destinations whose streams could not be recognised.
-- Each reading of the clock is an argument in milliseconds. An operation here runs without another in
-- between; Threads has the steps of calls that overlap.
mod Validity
mod Streaks
mod Histories
mod Threads
mod Tests
use pao_pao_gate_way.Common.{
  ℕ, ◌+◌, ◌-◌, ◌%◌, min, max, Bool, true, false, ◌&&◌, List, [], Option, none, some, ltb, leb, ◌==◌,
  if◌then◌else◌, is_some, length,
}
use pao_pao_gate_way.Common.Net.{Endpoint, Endpoint-discrete}
use pao_pao_gate_way.Common.Maps.{retain, get, insert, remove}

abbrev pub default_neg_ttl : ℕ
default_neg_ttl = 30000

abbrev pub default_fail_threshold : ℕ
default_fail_threshold = 3

abbrev pub cap_before_gc : ℕ
cap_before_gc = 4096

-- `fails` is a u8.
pub record Entry : Type 0 where
  pub fails : ℕ
  pub expires : ℕ

pub record SniffNegCache : Type 0 where
  pub inner : List (Endpoint × Entry)
  pub ttl : ℕ
  pub threshold : ℕ
  pub count : ℕ

pub with_threshold : ℕ → ℕ → SniffNegCache
with_threshold ttl threshold = record {
  inner = [];
  ttl = ttl;
  threshold = max threshold 1;
  count = 0;
}

pub new : ℕ → SniffNegCache
unfolding with_threshold
new ttl = with_threshold ttl default_fail_threshold

pub default : SniffNegCache
unfolding new
default = new default_neg_ttl

abbrev pub find : SniffNegCache → Endpoint → Option Entry
find c dst = get Endpoint-discrete dst c.inner

pub is_hit : SniffNegCache → ℕ → Endpoint → Bool
is_hit c now dst =
    if c.count == 0
    then false
    else elim (find c dst) [ none ↦ false | some e ↦ leb c.threshold e.fails && ltb now e.expires ]

pub gc : SniffNegCache → ℕ → SniffNegCache
gc c now = record c { inner = live; count = length live }
  where
    live : List (Endpoint × Entry)
    live = retain (λ _ e. ltb now e.expires) c.inner

-- The addition is on u8 and wraps.
unfoldable pub bump : SniffNegCache → ℕ → Entry → Entry
bump c now e = record {
  fails = min (((if leb e.expires now then 0 else e.fails) + 1) % 256) c.threshold;
  expires = now + c.ttl;
}

unfoldable pub first : SniffNegCache → ℕ → Entry
first c now = record { fails = min 1 c.threshold; expires = now + c.ttl }

-- The call of `entry`, and whether it made the entry; the entry's part of the table is locked.
unfoldable pub entered : SniffNegCache → ℕ → Endpoint → SniffNegCache × Bool
unfolding bump first
entered c now dst = elim (find c dst) [
  | some e ↦ (record c { inner = insert Endpoint-discrete dst (bump c now e) c.inner }, false)
  | none ↦ (record c { inner = insert Endpoint-discrete dst (first c now) c.inner }, true)
]

record_failure : SniffNegCache → ℕ → Endpoint → SniffNegCache
unfolding entered
record_failure c now dst =
    let (c', fresh) = entered c now dst in if fresh then record c' { count = c'.count + 1 } else c'

-- `gc` reads the clock again: `gc_now`.
pub note_failure : SniffNegCache → ℕ → ℕ → Endpoint → SniffNegCache
note_failure c now gc_now dst =
    record_failure (if leb cap_before_gc (length c.inner) then gc c gc_now else c) now dst

pub note_success : SniffNegCache → Endpoint → SniffNegCache
note_success c dst =
    if c.count == 0
    then c
    else if is_some (find c dst)
    then record c { inner = remove Endpoint-discrete dst c.inner; count = c.count - 1 }
    else c
