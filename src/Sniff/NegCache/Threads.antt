-- ===== src/Sniff/NegCache/Threads.antt =====
-- The calls of sniffbox/crates/sb-sniff/src/neg_cache.rs as threads run them: the table locks no more
-- than the part that it reads or changes, and the counter is an atomic of its own. Each such access is
-- a step. What a reading of `len` gives is any number, since it sums parts that others change.
pub mod Invariants
use pao_pao_gate_way.Common.{
  ℕ, ◌+◌, ◌-◌, ◌%◌, ◌^◌, ◌≡◌, Bool, true, false, not, ◌||◌, List, [], ◌∷◌, some, leb, ltb, ◌==◌,
  if◌then◌else◌, is_some, get_elem?, set,
}
use pao_pao_gate_way.Common.Net.{Endpoint, Endpoint-discrete}
use pao_pao_gate_way.Common.Maps.{retain, remove}
use pao_pao_gate_way.Sniff.NegCache.{SniffNegCache, with_threshold, cap_before_gc, find, entered}

-- Where a call stands: `failing` to `adding` are `note_failure`, `succeeding` to `subtracting` are
-- `note_success`, and `sweeping` and `counting` are `gc`, for the call that goes on afterwards.
pub data Task : Type 0 where
  failing : (now : ℕ) (dst : Endpoint) → Task
  entering : (now : ℕ) (dst : Endpoint) → Task
  adding : Task
  succeeding : (dst : Endpoint) → Task
  removing : (dst : Endpoint) → Task
  subtracting : Task
  sweeping : (now : ℕ) → Task → Task
  counting : Task → Task
  finished : Task

-- What a step meets: a reading of `len`, one of the clock, the part of the table that `retain` locks
-- next, and whether that is the last.
pub record Chance : Type 0 where
  pub len : ℕ
  pub clock : ℕ
  pub part : Endpoint → Bool
  pub last : Bool

abbrev pub usize_mod : ℕ
usize_mod = 2 ^ 64

-- `fetch_add(1)` and `fetch_sub(1)`, which wrap.
unfoldable pub fetch_add : SniffNegCache → SniffNegCache
fetch_add c = record c { count = (c.count + 1) % usize_mod }

unfoldable pub fetch_sub : SniffNegCache → SniffNegCache
fetch_sub c = record c { count = (c.count + (usize_mod - 1)) % usize_mod }

-- `retain` on one part.
unfoldable pub retain_part : SniffNegCache → ℕ → (Endpoint → Bool) → SniffNegCache
retain_part c now part = record c {
  inner = retain (λ k e. ltb now e.expires || not (part k)) c.inner;
}

unfoldable pub advance : Chance → SniffNegCache → Task → SniffNegCache × Task
unfolding entered
advance ch c (failing now dst) =
    (c, if leb cap_before_gc ch.len then sweeping ch.clock (entering now dst) else entering now dst)
advance ch c (entering now dst) =
    let (c', fresh) = entered c now dst in (c', if fresh then adding else finished)
advance ch c adding = (fetch_add c, finished)
advance ch c (succeeding dst) = (c, if c.count == 0 then finished else removing dst)
advance ch c (removing dst) = (
  record c { inner = remove Endpoint-discrete dst c.inner },
  if is_some (find c dst) then subtracting else finished,
)
advance ch c subtracting = (fetch_sub c, finished)
advance ch c (sweeping now onward) =
    (retain_part c now ch.part, if ch.last then counting onward else sweeping now onward)
advance ch c (counting onward) = (record c { count = ch.len }, onward)
advance ch c finished = (c, finished)

-- The table, the calls, and how many steps of `gc` there were, which the program does not keep.
pub record Shared : Type 0 where
  pub cache : SniffNegCache
  pub tasks : List Task
  pub sweeps : ℕ

unfoldable pub sweep_of : Task → ℕ
sweep_of (sweeping now onward) = 1
sweep_of (counting onward) = 1
sweep_of _ = 0

-- A call at its begin.
pub data Begins : Task → Type 0 where
  failure : (now : ℕ) (dst : Endpoint) → Begins (failing now dst)
  success : (dst : Endpoint) → Begins (succeeding dst)
  collect : (now : ℕ) → Begins (sweeping now finished)

pub data Step : Shared → Shared → Type 0 where
  called : {s : Shared} (t : Task) → Begins t → Step s (record s { tasks = t ∷ s.tasks })
  ran :
      {s : Shared} (ch : Chance) (i : ℕ) (t : Task)
      → get_elem? s.tasks i ≡ some t
      → Step s (record {
        cache = (advance ch s.cache t).0;
        tasks = set s.tasks i (advance ch s.cache t).1;
        sweeps = s.sweeps + sweep_of t;
      })

pub data Reach (s : Shared) : Shared → Type 0 where
  here : Reach s s
  next : {t u : Shared} → Reach s t → Step t u → Reach s u

abbrev pub at_rest : ℕ → ℕ → Shared
at_rest ttl threshold = record { cache = with_threshold ttl threshold; tasks = []; sweeps = 0 }
