-- ===== src/Stats/Drains.antt =====
-- `drain_one` of sniffbox/crates/sb-stats/src/types.rs as threads run it: any number of calls for one
-- counter and one mark, interleaved with one another and with the additions. A load and an exchange
-- are one step each; the additions are on u64 and wrap.
pub mod Conservation
use pao_pao_gate_way.Common.{
  ℕ, zero, suc, ◌+◌, ◌-◌, ◌%◌, ◌<◌, ◌≤◌, ◌≡◌, refl, subst, Bool, true, false, List, [], ◌∷◌, some,
  All, arith, leb, ◌==◌, if◌then◌else◌, set, get_elem?, Bool-cases, inl, inr,
}
use pao_pao_gate_way.Stats.Records.{u64_mod, drain_one}

-- Where a call stands: before the loop, after it read the mark, after it read the counter, and at its
-- end with what it returns.
pub data Call : Type 0 where
  entered : Call
  marked : (prev : ℕ) → Call
  seen : (prev now : ℕ) → Call
  returned : (delta : ℕ) → Call

-- The counter, the mark, the calls, and what was added so far, which the program does not keep.
pub record Shared : Type 0 where
  pub cur : ℕ
  pub last : ℕ
  pub calls : List Call
  pub sum : ℕ

-- What `now <= prev` makes of a call.
unfoldable pub compare_now : ℕ → ℕ → Call
compare_now prev now = if leb now prev then returned 0 else seen prev now

-- The step of one call; the exchange may fail although the mark is the one that was read.
unfoldable pub advance : ℕ → ℕ → Bool → Call → ℕ × Call
unfolding compare_now
advance cur last fails entered = (last, marked last)
advance cur last fails (marked prev) = (last, compare_now prev cur)
advance cur last true (seen prev now) = (last, marked last)
advance cur last false (seen prev now) =
    if last == prev then (now, returned (now - prev)) else (last, marked last)
advance cur last fails (returned delta) = (last, returned delta)

pub data Step : Shared → Shared → Type 0 where
  added : {s : Shared} (n : ℕ) → Step s (record s { cur = (s.cur + n) % u64_mod; sum = s.sum + n })
  called : {s : Shared} → Step s (record s { calls = entered ∷ s.calls })
  ran :
      {s : Shared} (fails : Bool) (i : ℕ) (c : Call)
      → get_elem? s.calls i ≡ some c
      → Step s (record s {
        last = (advance s.cur s.last fails c).0;
        calls = set s.calls i (advance s.cur s.last fails c).1;
      })

pub data Reach (s : Shared) : Shared → Type 0 where
  here : Reach s s
  next : {t u : Shared} → Reach s t → Step t u → Reach s u

-- What the calls have returned.
unfoldable pub delta_of : Call → ℕ
delta_of entered = 0
delta_of (marked prev) = 0
delta_of (seen prev now) = 0
delta_of (returned delta) = delta

unfoldable pub total : List Call → ℕ
total [] = 0
total (c ∷ cs) = delta_of c + total cs
