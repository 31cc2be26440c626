-- ===== src/Sniff/NegCache/Histories.antt =====
-- Histories of calls: when a destination is suppressed, and the invariant along any history.
use pao_pao_gate_way.Common.{
  ℕ, suc, ◌+◌, ◌≤◌, ◌<◌, ◌≡◌, ◌≢◌, ◌∙◌, min, false, ◌&&◌, List, [], ◌∷◌, arith, none, length, ltb,
  leb, if◌then◌else◌,
}
use pao_pao_gate_way.Common.Net.{Endpoint}
use pao_pao_gate_way.Sniff.NegCache.{
  SniffNegCache, with_threshold, find, is_hit, gc, record_failure, note_failure, note_success,
}
use pao_pao_gate_way.Sniff.NegCache.Validity.{
  IsValid, with_threshold-IsValid, gc-IsValid, note_failure-IsValid, note_success-IsValid,
}
use pao_pao_gate_way.Sniff.NegCache.Streaks.{
  streak, streak_unknown, streak-note_failure, streak-note_failure_ne, is_hit-streak,
  streak-note_success, streak-note_success_ne,
}

-- A call with its readings of the clock; a failure has two.
pub data Call : Type 0 where
  failure : ℕ → ℕ → Endpoint → Call
  success : Endpoint → Call
  collect : ℕ → Call

unfoldable pub step : SniffNegCache → Call → SniffNegCache
step c (failure now gc_now dst) = note_failure c now gc_now dst
step c (success dst) = note_success c dst
step c (collect now) = gc c now

unfoldable pub run : SniffNegCache → List Call → SniffNegCache
run c [] = c
run c (call ∷ calls) = run (step c call) calls

run-IsValid : (c : SniffNegCache) (calls : List Call) → IsValid c → IsValid (run c calls)
unfolding run step
run-IsValid c [] v = v
run-IsValid c (failure now gc_now dst ∷ calls) v =
    run-IsValid (note_failure c now gc_now dst) calls (note_failure-IsValid c now gc_now dst v)
run-IsValid c (success dst ∷ calls) v =
    run-IsValid (note_success c dst) calls (note_success-IsValid c dst v)
run-IsValid c (collect now ∷ calls) v = run-IsValid (gc c now) calls (gc-IsValid c now v)

-- After any calls, one after another, on a new table whose threshold is below 255, no destination has two entries,
-- the counter is the number of entries, and each streak is between one and the threshold.
pub run-with_threshold-IsValid :
    (ttl n : ℕ) (calls : List Call) → n ≤ 254 → IsValid (run (with_threshold ttl n) calls)
run-with_threshold-IsValid ttl n calls h = run-IsValid _ calls (with_threshold-IsValid ttl n h)

-- Failures of one destination, each at a pair of readings of the clock.
unfoldable pub failures : SniffNegCache → List (ℕ × ℕ) → Endpoint → SniffNegCache
failures c [] dst = c
failures c ((now, gc_now) ∷ ts) dst = failures (note_failure c now gc_now dst) ts dst

-- Each failure comes before the term of the one before it ends.
abbrev pub Within : ℕ → ℕ → List (ℕ × ℕ) → Type 0
Within ttl prev [] = Unit
Within ttl prev ((now, gc_now) ∷ ts) =
    (prev ≤ now) × (now ≤ gc_now) × (gc_now < prev + ttl) × Within ttl now ts

abbrev pub last : ℕ → List (ℕ × ℕ) → ℕ
last prev [] = prev
last prev ((now, gc_now) ∷ ts) = last now ts

note_failure-config :
    (c : SniffNegCache) (now gc_now : ℕ) (dst : Endpoint)
    → ((note_failure c now gc_now dst).ttl ≡ c.ttl)
      × ((note_failure c now gc_now dst).threshold ≡ c.threshold)
unfolding note_failure record_failure gc
note_failure-config c now gc_now dst = (ground arith, ground arith)

note_success-config :
    (c : SniffNegCache) (dst : Endpoint) → (note_success c dst).threshold ≡ c.threshold
unfolding note_success
note_success-config c dst = ground arith

-- The streak has length `n` until the term that began at `prev` ends.
abbrev Runs : SniffNegCache → Endpoint → ℕ → ℕ → ℕ → ℕ → Type 0
Runs c dst ttl threshold prev n =
    (t : ℕ) → streak c t dst ≡ (if ltb t (prev + ttl) then min n threshold else 0)

failures-Runs :
    (c : SniffNegCache) (ts : List (ℕ × ℕ)) (dst : Endpoint) (ttl threshold prev n : ℕ)
    → IsValid c
    → c.ttl ≡ ttl
    → c.threshold ≡ threshold
    → Within ttl prev ts
    → Runs c dst ttl threshold prev n
    → IsValid (failures c ts dst)
      × ((failures c ts dst).threshold ≡ threshold)
      × Runs (failures c ts dst) dst ttl threshold (last prev ts) (n + length ts)
unfolding failures
failures-Runs c [] dst ttl threshold prev n v et eth w r = (v, eth, λ t. ground (arith, r t))
failures-Runs c ((now, gc_now) ∷ ts) dst ttl threshold prev n v et eth w r =
    let (a, b, d) =
      failures-Runs (note_failure c now gc_now dst) ts dst ttl threshold now (n + 1)
        (note_failure-IsValid c now gc_now dst v) (k.0 ∙ et) (k.1 ∙ eth) w.3
        (λ t. ground (arith, streak-note_failure c now gc_now t dst v w.1, r now, r gc_now)) in
    (a, b, λ t. ground (arith, d t))
  where
    k :
        ((note_failure c now gc_now dst).ttl ≡ c.ttl)
        × ((note_failure c now gc_now dst).threshold ≡ c.threshold)
    k = note_failure-config c now gc_now dst

-- Take a valid table that has no entry of a destination. After failures of it, each before the
-- term of the one before it ends, it is suppressed exactly if there were as many as the threshold
-- and the term of the last one has not ended.
pub is_hit-failures :
    (c : SniffNegCache) (now gc_now t : ℕ) (ts : List (ℕ × ℕ)) (dst : Endpoint)
    → IsValid c
    → find c dst ≡ none
    → now ≤ gc_now
    → Within c.ttl now ts
    → is_hit (failures c ((now, gc_now) ∷ ts) dst) t dst
      ≡ (ltb t (last now ts + c.ttl) && leb c.threshold (suc (length ts)))
unfolding failures
is_hit-failures c now gc_now t ts dst v e h w =
    let k = note_failure-config c now gc_now dst in
    let (a, b, d) =
      failures-Runs (note_failure c now gc_now dst) ts dst c.ttl c.threshold now 1
        (note_failure-IsValid c now gc_now dst v) k.0 k.1 w
        (λ t.
          ground
            (arith, streak-note_failure c now gc_now t dst v h, unknown now, unknown gc_now)) in
    ground (
      arith,
      is_hit-streak (failures (note_failure c now gc_now dst) ts dst) t dst a,
      d t,
      b,
      v.positive,
    )
  where
    unknown : (t : ℕ) → streak c t dst ≡ 0
    unknown t = streak_unknown c t dst e

-- A success lifts the suppression of its destination, and a failure or a success of one
-- destination does not change whether another one is suppressed, from the last reading of the
-- clock on.
pub is_hit-success_or_other :
    (c : SniffNegCache) (now gc_now t : ℕ) (dst other : Endpoint)
    → IsValid c
    → dst ≢ other
    → gc_now ≤ t
    → (is_hit (note_success c dst) t dst ≡ false)
      × (is_hit (note_success c dst) t other ≡ is_hit c t other)
      × (is_hit (note_failure c now gc_now dst) t other ≡ is_hit c t other)
is_hit-success_or_other c now gc_now t dst other v n h = (
  ground (
    arith,
    is_hit-streak (note_success c dst) t dst s,
    streak-note_success c t dst v,
    s.positive,
  ),
  ground (
    arith,
    is_hit-streak (note_success c dst) t other s,
    is_hit-streak c t other v,
    streak-note_success_ne c t dst other n,
    note_success-config c dst,
  ),
  ground (
    arith,
    is_hit-streak (note_failure c now gc_now dst) t other f,
    is_hit-streak c t other v,
    streak-note_failure_ne c now gc_now t dst other v h n,
    note_failure-config c now gc_now dst,
  ),
)
  where
    s : IsValid (note_success c dst)
    s = note_success-IsValid c dst v

    f : IsValid (note_failure c now gc_now dst)
    f = note_failure-IsValid c now gc_now dst v
