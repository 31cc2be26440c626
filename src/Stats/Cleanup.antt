-- ===== src/Stats/Cleanup.antt =====
-- sniffbox/crates/sb-stats/src/cleanup.rs: the day of the month on which the statistics start anew. The
-- year, the month and the day of the clock are arguments; `clear` is the caller's to do on `true`.
use pao_pao_gate_way.Common.{
  ℕ, Bool, true, false, not, ◌&&◌, ◌||◌, Option, none, some, ltb, ◌==◌, if◌then◌else◌,
}

pub record CleanState : Type 0 where
  pub last_fired_ym : Option (ℕ × ℕ)

abbrev pub fired_in : Option (ℕ × ℕ) → ℕ → ℕ → Bool
fired_in none year month = false
fired_in (some (y, m)) year month = y == year && m == month

pub should_clean : ℕ → ℕ → ℕ → ℕ → CleanState → Bool
should_clean year month day cfg_day s =
    if cfg_day == 0 || ltb 31 cfg_day
    then false
    else if not (day == cfg_day)
    then false
    else not (fired_in s.last_fired_ym year month)

pub maybe_clean_at : ℕ → CleanState → ℕ → ℕ → ℕ → CleanState × Bool
unfolding should_clean
maybe_clean_at cfg_day s year month day =
    if should_clean year month day cfg_day s
    then (record { last_fired_ym = some (year, month) }, true)
    else (s, false)
