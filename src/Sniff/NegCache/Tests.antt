-- ===== src/Sniff/NegCache/Tests.antt =====
-- The table at concrete inputs.
use pao_pao_gate_way.Common.{
  ◌+◌, ◌%◌, ◌≤◌, ◌≡◌, ◌⊎◌, length, sum_of, refl, ◌&&◌, true, false, [], ◌∷◌, arith, ltb, leb,
}
use pao_pao_gate_way.Common.Net.{Endpoint, Endpoint-discrete, v4}
use pao_pao_gate_way.Common.Maps.{get, insert, remove, retain}
use pao_pao_gate_way.Sniff.NegCache.{
  with_threshold, default, is_hit, gc, note_failure, note_success, record_failure, entered, first,
  bump,
}
use pao_pao_gate_way.Sniff.NegCache.Validity.{IsValid, with_threshold-IsValid}
use pao_pao_gate_way.Sniff.NegCache.Threads.{
  Chance, Shared, Reach, here, next, called, ran, Begins, collect, failing, entering, adding,
  sweeping, counting, finished, usize_mod, advance, sweep_of, fetch_add, retain_part, at_rest,
}
use pao_pao_gate_way.Sniff.NegCache.Threads.Invariants.{
  Sound, added_by, subtracted_by, overlapping_counts,
}
use pao_pao_gate_way.Sniff.NegCache.Histories.{failures, last, is_hit-failures}

program : Unit {0}
unfolding default is_hit gc note_failure note_success record_failure get insert remove retain
    Endpoint-discrete failures
program = tt

abbrev ssh : Endpoint
ssh = (v4 0x0a000001, 22)

abbrev web : Endpoint
web = (v4 0xcb007105, 443)

two_misses : is_hit (failures default ((0, 0) ∷ (10, 10) ∷ []) web) 20 web ≡ false
unfolding program
two_misses = refl

three_misses : is_hit (failures default ((0, 0) ∷ (10, 10) ∷ (20, 20) ∷ []) web) 30 web ≡ true
unfolding program
three_misses = refl

default-IsValid : IsValid default
unfolding default
default-IsValid = with_threshold-IsValid 30000 3 (omega arith)

-- A failure whose addition to the counter is due.
abbrev chance : Chance
chance = record { len = 0; clock = 0; part = λ k. true; last = true }

abbrev one_due : Shared
one_due = record {
  cache = record (with_threshold 30000 3) {
    inner = (web, record { fails = 1; expires = 30005 }) ∷ [];
  };
  tasks = adding ∷ [];
  sweeps = 0;
}

one_due-Reach : Reach (at_rest 30000 3) one_due
unfolding program advance with_threshold sweep_of entered first bump
one_due-Reach =
    let s1 : Shared = record (at_rest 30000 3) { tasks = failing 5 web ∷ [] } in
    let s2 : Shared = record (at_rest 30000 3) { tasks = entering 5 web ∷ [] } in
    next
      (next (next here (called (failing 5 web) (Begins.failure 5 web)))
        (ran {s = s1} chance 0 (failing 5 web) refl))
      (ran {s = s2} chance 0 (entering 5 web) refl)

overlapping_counts_example :
    Sound one_due.cache
    × ((1 ≤ one_due.sweeps)
        ⊎ ((one_due.cache.count + sum_of added_by one_due.tasks) % usize_mod
            ≡ (length one_due.cache.inner + sum_of subtracted_by one_due.tasks) % usize_mod))
overlapping_counts_example = overlapping_counts 30000 3 (omega arith) one_due-Reach

-- A sweep between the two steps of the failure counts the entry, which is counted again.
counted_twice : (s : Shared) × Reach one_due s × (s.cache.count ≡ 2) × (length s.cache.inner ≡ 1)
unfolding program advance with_threshold sweep_of fetch_add retain_part
counted_twice =
    let c = one_due.cache in
    let read_one : Chance = record chance { len = 1 } in
    let s1 : Shared = record one_due { tasks = sweeping 9 finished ∷ adding ∷ [] } in
    let s2 : Shared = record { cache = c; tasks = counting finished ∷ adding ∷ []; sweeps = 1 } in
    let s3 : Shared = record {
      cache = record c { count = 1 };
      tasks = finished ∷ adding ∷ [];
      sweeps = 2;
    } in
    let s4 : Shared = record {
      cache = record c { count = 2 };
      tasks = finished ∷ finished ∷ [];
      sweeps = 2;
    } in
    (
      s4,
      next
          (next
            (next (next here (called (sweeping 9 finished) (collect 9)))
              (ran {s = s1} chance 0 (sweeping 9 finished) refl))
            (ran {s = s2} read_one 0 (counting finished) refl))
          (ran {s = s3} chance 1 adding refl),
      refl,
      refl,
    )

is_hit-failures_example :
    is_hit (failures default ((0, 0) ∷ (10, 10) ∷ (20, 20) ∷ []) web) 30 web
    ≡ (ltb 30 (last 0 ((10, 10) ∷ (20, 20) ∷ []) + 30000) && leb 3 3)
unfolding default
is_hit-failures_example =
    is_hit-failures default 0 0 30 ((10, 10) ∷ (20, 20) ∷ []) web default-IsValid
      (unfold get in refl) (omega arith) (omega arith)
