-- ===== src/Sniff/NegCache/Threads/Invariants.antt =====
-- What holds of the table however the calls overlap.
use pao_pao_gate_way.Common.{
  ℕ, ◌+◌, ◌%◌, ◌≤◌, ◌≡◌, ◌⊎◌, refl, ap, arith, length, sum_of, sum_of-set, Option-cases, inl, inr,
}
use pao_pao_gate_way.Common.Net.{Endpoint, Endpoint-discrete as dec}
use pao_pao_gate_way.Common.Maps.{
  remove, remove_absent, Distinct, Distinct-insert, Distinct-remove, Distinct-retain,
  length-insert_new, length-insert_old, length-remove,
}
use pao_pao_gate_way.Sniff.NegCache.{SniffNegCache, with_threshold, find, bump, first, entered}
use pao_pao_gate_way.Sniff.NegCache.Validity.{
  Counts, Counts-insert, Counts-get, Counts-remove, Counts-retain,
}
use pao_pao_gate_way.Sniff.NegCache.Threads.{
  Task, failing, entering, adding, succeeding, removing, subtracting, sweeping, counting, finished,
  Chance, usize_mod, fetch_add, fetch_sub, retain_part, advance, Shared, sweep_of, Begins, failure,
  success, collect, Step, called, ran, Reach, here, next, at_rest,
}

-- How many additions and subtractions of the counter are due.
unfoldable pub added_by : Task → ℕ
added_by adding = 1
added_by _ = 0

unfoldable pub subtracted_by : Task → ℕ
subtracted_by subtracting = 1
subtracted_by _ = 0

-- No destination has two entries, and each streak is between one and the threshold.
pub record Sound (c : SniffNegCache) : Type 0 where
  pub distinct : Distinct dec c.inner
  pub positive : 1 ≤ c.threshold
  pub small : c.threshold ≤ 254
  pub streaks : Counts c.threshold c.inner

-- What a step of a call does to the counter and the table, but for the steps of `gc`.
record Moved (c : SniffNegCache) (t : Task) (out : SniffNegCache × Task) : Type 0 where
  sound : Sound out.0
  balanced :
      (1 ≤ sweep_of t)
      ⊎ ((out.0.count + added_by out.1 + length c.inner + subtracted_by t) % usize_mod
          ≡ (c.count + added_by t + length out.0.inner + subtracted_by out.1) % usize_mod)

entering-Moved :
    (ch : Chance) (c : SniffNegCache) (now : ℕ) (dst : Endpoint)
    → Sound c
    → Moved c (entering now dst) (advance ch c (entering now dst))
unfolding advance entered added_by subtracted_by first bump
entering-Moved ch c now dst v = elim (Option-cases (find c dst)) [
  | inl e ↦
      rw (advance, entered, e)
        (record {
          sound = record {
            distinct = Distinct-insert dec dst _ c.inner v.distinct;
            positive = v.positive;
            small = v.small;
            streaks =
                Counts-insert dst (first c now) c.threshold c.inner (omega (arith, v.positive))
                  (omega (arith, v.positive)) v.streaks;
          };
          balanced = inr (
              ap (λ n. n % usize_mod)
                (omega (arith, length-insert_new dec dst (first c now) c.inner e)));
        })
  | inr (w, e) ↦
      let b = Counts-get dst w c.threshold c.inner v.streaks e in
      rw (advance, entered, e)
        (record {
          sound = record {
            distinct = Distinct-insert dec dst _ c.inner v.distinct;
            positive = v.positive;
            small = v.small;
            streaks =
                Counts-insert dst (bump c now w) c.threshold c.inner
                  (ground (arith, b.0, b.1, v.positive, v.small))
                  (ground (arith, b.0, b.1, v.positive, v.small)) v.streaks;
          };
          balanced = inr (
              ap (λ n. n % usize_mod)
                (omega (arith, length-insert_old dec dst (bump c now w) w c.inner e)));
        })
]

removing-Moved :
    (ch : Chance) (c : SniffNegCache) (dst : Endpoint)
    → Sound c
    → Moved c (removing dst) (advance ch c (removing dst))
unfolding advance added_by subtracted_by
removing-Moved ch c dst v =
    let sound : Sound (record c { inner = remove dec dst c.inner }) = record {
      distinct = Distinct-remove dec dst c.inner v.distinct;
      positive = v.positive;
      small = v.small;
      streaks = Counts-remove dst c.threshold c.inner v.streaks;
    } in
    elim (Option-cases (find c dst)) [
      | inl e ↦
          rw (advance, e)
            (record {
              sound = sound;
              balanced = inr (
                  ap (λ n. n % usize_mod)
                    (omega (arith, ap length (remove_absent dec dst c.inner e))));
            })
      | inr (w, e) ↦
          rw (advance, e)
            (record {
              sound = sound;
              balanced = inr (
                  ap (λ n. n % usize_mod)
                    (omega (arith, length-remove dec dst w c.inner v.distinct e)));
            })
    ]

-- A step that leaves the table, the counter and what is due.
still :
    (c : SniffNegCache) (t u : Task)
    → Sound c
    → added_by u ≡ added_by t
    → subtracted_by u ≡ subtracted_by t
    → Moved c t (c, u)
still c t u v a b = record {
  sound = v;
  balanced = inr (ap (λ n. n % usize_mod) (omega (arith, a, b)));
}

-- The counter alone is written.
recount : (c : SniffNegCache) (n : ℕ) → Sound c → Sound (record c { count = n })
recount c n v = record {
  distinct = v.distinct;
  positive = v.positive;
  small = v.small;
  streaks = v.streaks;
}

advance-Moved : (ch : Chance) (c : SniffNegCache) (t : Task) → Sound c → Moved c t (advance ch c t)
unfolding advance added_by subtracted_by sweep_of fetch_add fetch_sub retain_part
advance-Moved ch c (failing now dst) v = still c (failing now dst) _ v (ground arith) (ground arith)
advance-Moved ch c (entering now dst) v = entering-Moved ch c now dst v
advance-Moved ch c adding v = record { sound = recount c _ v; balanced = inr (omega arith) }
advance-Moved ch c (succeeding dst) v = still c (succeeding dst) _ v (ground arith) (ground arith)
advance-Moved ch c (removing dst) v = removing-Moved ch c dst v
advance-Moved ch c subtracting v = record { sound = recount c _ v; balanced = inr (omega arith) }
advance-Moved ch c (sweeping now onward) v = record {
  sound = record {
    distinct = Distinct-retain dec _ c.inner v.distinct;
    positive = v.positive;
    small = v.small;
    streaks = Counts-retain _ c.threshold c.inner v.streaks;
  };
  balanced = inl (omega arith);
}
advance-Moved ch c (counting onward) v = record {
  sound = recount c _ v;
  balanced = inl (omega arith);
}
advance-Moved ch c finished v = still c finished finished v refl refl

-- The table is sound, and the counter is off by what is due, unless there was a step of `gc`.
record Counted (s : Shared) : Type 0 where
  sound : Sound s.cache
  counted :
      (1 ≤ s.sweeps)
      ⊎ ((s.cache.count + sum_of added_by s.tasks) % usize_mod
          ≡ (length s.cache.inner + sum_of subtracted_by s.tasks) % usize_mod)

begun : (t : Task) → Begins t → (added_by t ≡ 0) × (subtracted_by t ≡ 0)
unfolding added_by subtracted_by
begun t (failure now dst) = (refl, refl)
begun t (success dst) = (refl, refl)
begun t (collect now) = (refl, refl)

Step-Counted : {s t : Shared} → Step s t → Counted s → Counted t
Step-Counted (called {s} t b) v = record {
  sound = v.sound;
  counted = elim v.counted [ inl e ↦ inl e | inr e ↦ inr (omega (arith, e, begun t b)) ];
}
Step-Counted (ran {s} ch i t e) v =
    let m = advance-Moved ch s.cache t v.sound in
    let u = (advance ch s.cache t).1 in
    record {
      sound = m.sound;
      counted = elim v.counted [
        | inl g ↦ inl (omega (arith, g))
        | inr g ↦ elim m.balanced [
          | inl w ↦ inl (omega (arith, w))
          | inr w ↦ inr (
              omega (
                arith,
                g,
                w,
                sum_of-set added_by s.tasks i t u e,
                sum_of-set subtracted_by s.tasks i t u e,
              ))
        ]
      ];
    }

Reach-Counted : (ttl n : ℕ) {s : Shared} → n ≤ 254 → Reach (at_rest ttl n) s → Counted s
unfolding with_threshold
Reach-Counted ttl n h here = record {
  sound = record { distinct = tt; positive = omega arith; small = omega arith; streaks = tt };
  counted = inr refl;
}
Reach-Counted ttl n h (next r st) = Step-Counted st (Reach-Counted ttl n h r)

-- However the calls on a new table overlap, for a threshold below 255: no destination has two
-- entries, and each streak is between one and the threshold. And unless a step of `gc` was taken, the
-- counter with the additions that are due is, in 64 bits, the number of entries with the subtractions
-- that are due.
pub overlapping_counts :
    (ttl n : ℕ) {s : Shared}
    → n ≤ 254
    → Reach (at_rest ttl n) s
    → Sound s.cache
      × ((1 ≤ s.sweeps)
          ⊎ ((s.cache.count + sum_of added_by s.tasks) % usize_mod
              ≡ (length s.cache.inner + sum_of subtracted_by s.tasks) % usize_mod))
overlapping_counts ttl n h r = let v = Reach-Counted ttl n h r in (v.sound, v.counted)
