-- ===== src/Rules/Threads.antt =====
-- The calls on `IpHints` of sniffbox/crates/sniffbox/src/domain_rules.rs as threads run them: the table
-- locks no more than the part that it reads or changes, and the marks and the counter are atomics.
-- Each such access is a step. What a reading of `len` or of all the marks gives is anything, since
-- it goes through parts that others change.
pub mod Invariants
use pao_pao_gate_way.Common.{
  ℕ, ◌+◌, ◌%◌, ◌^◌, ◌≡◌, Bool, true, false, not, ◌||◌, List, [], ◌∷◌, Option, some, none, leb, ◌==◌,
  if◌then◌else◌, is_some, get_elem?, set, length,
}
use pao_pao_gate_way.Common.Bytes.{Bytes}
use pao_pao_gate_way.Common.Net.{IpAddr, IpAddr-discrete}
use pao_pao_gate_way.Common.Maps.{get, insert, retain}
use pao_pao_gate_way.Rules.{Hint, IpHints, with_cap, sorted, threshold_of}

-- Where a call stands: `noting` to `adding` are `note`, in which `collecting` to `storing` are
-- `evict_oldest`; `looking` to `stamping` are `get`.
pub data Task : Type 0 where
  noting : (ip : IpAddr) (label : Bytes) → Task
  finding measuring collecting inserting : (ip : IpAddr) (label : Bytes) (seq : ℕ) → Task
  retaining : (threshold : ℕ) (ip : IpAddr) (label : Bytes) (seq : ℕ) → Task
  storing : (ip : IpAddr) (label : Bytes) (seq : ℕ) → Task
  adding : Task
  looking reaching : (ip : IpAddr) → Task
  stamping : (ip : IpAddr) (seq : ℕ) → Task
  finished : Task

-- What a step meets: a reading of `len`, one of the marks, the part of the table that `retain` locks
-- next, and whether that is the last.
pub record Chance : Type 0 where
  pub len : ℕ
  pub marks : List ℕ
  pub part : IpAddr → Bool
  pub last : Bool

abbrev pub word : ℕ
word = 2 ^ 64

-- `seq.store` on the hint of an address, if it has one.
unfoldable pub stamp : IpHints → IpAddr → ℕ → IpHints
stamp t ip seq = elim (get IpAddr-discrete ip t.map) [
  | none ↦ t
  | some e ↦ record t { map = insert IpAddr-discrete ip (record e { seq = seq }) t.map }
]

unfoldable pub advance : Chance → IpHints → Task → IpHints × Task
unfolding stamp
advance ch t (noting ip label) = (record t { seq = (t.seq + 1) % word }, finding ip label t.seq)
advance ch t (finding ip label seq) =
    let stamped = stamp t ip seq in
    (stamped, if is_some (get IpAddr-discrete ip t.map) then finished else measuring ip label seq)
advance ch t (measuring ip label seq) =
    (t, if leb t.cap ch.len then collecting ip label seq else inserting ip label seq)
advance ch t (collecting ip label seq) = (
  t,
  if length ch.marks == 0
      then inserting ip label seq
      else retaining (threshold_of (sorted ch.marks)) ip label seq,
)
advance ch t (retaining threshold ip label seq) = (
  record t { map = retain (λ i h. leb threshold h.seq || not (ch.part i)) t.map },
  if ch.last then storing ip label seq else retaining threshold ip label seq,
)
advance ch t (storing ip label seq) = (record t { count = ch.len }, inserting ip label seq)
advance ch t (inserting ip label seq) = (
  record t { map = insert IpAddr-discrete ip (record { label = label; seq = seq }) t.map },
  if is_some (get IpAddr-discrete ip t.map) then finished else adding,
)
advance ch t adding = (record t { count = (t.count + 1) % word }, finished)
advance ch t (looking ip) = (t, if t.count == 0 then finished else reaching ip)
advance ch t (reaching ip) =
    if is_some (get IpAddr-discrete ip t.map)
    then (record t { seq = (t.seq + 1) % word }, stamping ip t.seq)
    else (t, finished)
advance ch t (stamping ip seq) = (stamp t ip seq, finished)
advance ch t finished = (t, finished)

-- The table, the calls, and how many steps of evictions there were, which the program does not keep.
pub record Shared : Type 0 where
  pub table : IpHints
  pub tasks : List Task
  pub evictions : ℕ

unfoldable pub eviction_of : Task → ℕ
eviction_of (retaining threshold ip label seq) = 1
eviction_of (storing ip label seq) = 1
eviction_of _ = 0

pub data Begins : Task → Type 0 where
  note : (ip : IpAddr) (label : Bytes) → Begins (noting ip label)
  lookup : (ip : IpAddr) → Begins (looking ip)

pub data Step : Shared → Shared → Type 0 where
  called : {s : Shared} (t : Task) → Begins t → Step s (record s { tasks = t ∷ s.tasks })
  ran :
      {s : Shared} (ch : Chance) (i : ℕ) (t : Task)
      → get_elem? s.tasks i ≡ some t
      → Step s (record {
        table = (advance ch s.table t).0;
        tasks = set s.tasks i (advance ch s.table t).1;
        evictions = s.evictions + eviction_of t;
      })

pub data Reach (s : Shared) : Shared → Type 0 where
  here : Reach s s
  next : {t u : Shared} → Reach s t → Step t u → Reach s u

abbrev pub at_rest : ℕ → Shared
at_rest cap = record { table = with_cap cap; tasks = []; evictions = 0 }
