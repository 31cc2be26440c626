-- ===== src/Rules/Threads/Invariants.antt =====
-- What holds of the hints however the calls overlap.
use pao_pao_gate_way.Common.{
  ℕ, ◌+◌, ◌%◌, ◌≤◌, ◌≡◌, ◌⊎◌, refl, ap, arith, is_some, length, Bool-cases, Option-cases, inl, inr,
  sum_of, sum_of-set,
}
use pao_pao_gate_way.Common.Bytes.{Bytes}
use pao_pao_gate_way.Common.Net.{IpAddr, IpAddr-discrete}
use pao_pao_gate_way.Common.Maps.{
  get, Distinct, Distinct-insert, Distinct-retain, length-insert_new, length-insert_old,
}
use pao_pao_gate_way.Rules.{Hint, IpHints, with_cap}
use pao_pao_gate_way.Rules.Threads.{
  Task, noting, finding, measuring, collecting, inserting, retaining, storing, adding, looking,
  reaching, stamping, finished, Chance, word, stamp, advance, Shared, eviction_of, Begins, note,
  lookup, Step, called, ran, Reach, here, next, at_rest,
}

-- How many additions to the counter are due.
unfoldable pub added_by : Task → ℕ
added_by adding = 1
added_by _ = 0

record Moved (t : IpHints) (k : Task) (out : IpHints × Task) : Type 0 where
  distinct : Distinct IpAddr-discrete out.0.map
  balanced :
      (1 ≤ eviction_of k)
      ⊎ ((out.0.count + added_by out.1 + length t.map) % word
          ≡ (t.count + added_by k + length out.0.map) % word)

-- A step that leaves the table, the counter and what is due.
still :
    (t : IpHints) (seq : ℕ) (k u : Task)
    → Distinct IpAddr-discrete t.map
    → added_by u ≡ added_by k
    → Moved t k (record t { seq = seq }, u)
still t seq k u d a = record {
  distinct = d;
  balanced = inr (ap (λ n. n % word) (omega (arith, a)));
}

stamp_lem :
    (t : IpHints) (ip : IpAddr) (seq : ℕ)
    → Distinct IpAddr-discrete t.map
    → Distinct IpAddr-discrete (stamp t ip seq).map
      × (length (stamp t ip seq).map ≡ length t.map)
      × ((stamp t ip seq).count ≡ t.count)
unfolding stamp
stamp_lem t ip seq d = elim (Option-cases (get IpAddr-discrete ip t.map)) [
  | inl e ↦ rw (stamp, e) (d, refl, refl)
  | inr (h, e) ↦
      rw (stamp, e)
        (
          Distinct-insert IpAddr-discrete ip (record h { seq = seq }) t.map d,
          length-insert_old IpAddr-discrete ip (record h { seq = seq }) h t.map e,
          refl,
        )
]

stamp-Moved :
    (t : IpHints) (ip : IpAddr) (seq : ℕ) (k u : Task)
    → Distinct IpAddr-discrete t.map
    → added_by u ≡ added_by k
    → Moved t k (stamp t ip seq, u)
stamp-Moved t ip seq k u d a =
    let (d', l, c) = stamp_lem t ip seq d in
    record { distinct = d'; balanced = inr (ap (λ n. n % word) (omega (arith, a, l, c))) }

inserting-Moved :
    (ch : Chance) (t : IpHints) (ip : IpAddr) (label : Bytes) (seq : ℕ)
    → Distinct IpAddr-discrete t.map
    → Moved t (inserting ip label seq) (advance ch t (inserting ip label seq))
unfolding advance added_by
inserting-Moved ch t ip label seq d =
    let h : Hint = record { label = label; seq = seq } in
    elim (Option-cases (get IpAddr-discrete ip t.map)) [
      | inl e ↦
          rw (advance, e)
            (record {
              distinct = Distinct-insert IpAddr-discrete ip h t.map d;
              balanced = inr (
                  ap (λ n. n % word)
                    (omega (arith, length-insert_new IpAddr-discrete ip h t.map e)));
            })
      | inr (w, e) ↦
          rw (advance, e)
            (record {
              distinct = Distinct-insert IpAddr-discrete ip h t.map d;
              balanced = inr (
                  ap (λ n. n % word)
                    (omega (arith, length-insert_old IpAddr-discrete ip h w t.map e)));
            })
    ]

advance-Moved :
    (ch : Chance) (t : IpHints) (k : Task)
    → Distinct IpAddr-discrete t.map
    → Moved t k (advance ch t k)
unfolding advance added_by eviction_of
advance-Moved ch t (noting ip label) d = still t _ (noting ip label) _ d (ground arith)
advance-Moved ch t (finding ip label seq) d =
    stamp-Moved t ip seq (finding ip label seq) _ d (ground arith)
advance-Moved ch t (measuring ip label seq) d =
    still t t.seq (measuring ip label seq) _ d (ground arith)
advance-Moved ch t (collecting ip label seq) d =
    still t t.seq (collecting ip label seq) _ d (ground arith)
advance-Moved ch t (retaining threshold ip label seq) d = record {
  distinct = Distinct-retain IpAddr-discrete _ t.map d;
  balanced = inl (omega arith);
}
advance-Moved ch t (storing ip label seq) d = record { distinct = d; balanced = inl (omega arith) }
advance-Moved ch t (inserting ip label seq) d = inserting-Moved ch t ip label seq d
advance-Moved ch t adding d = record { distinct = d; balanced = inr (omega arith) }
advance-Moved ch t (looking ip) d = still t t.seq (looking ip) _ d (ground arith)
advance-Moved ch t (reaching ip) d = elim (Bool-cases (is_some (get IpAddr-discrete ip t.map))) [
  | inl e ↦ rw (advance, e) (still t _ (reaching ip) (stamping ip t.seq) d refl)
  | inr e ↦ rw (advance, e) (still t t.seq (reaching ip) finished d refl)
]
advance-Moved ch t (stamping ip seq) d = stamp-Moved t ip seq (stamping ip seq) finished d refl
advance-Moved ch t finished d = still t t.seq finished finished d refl

-- No address has two hints, and the counter is off by what is due, unless there was a step of an
-- eviction.
record Counted (s : Shared) : Type 0 where
  distinct : Distinct IpAddr-discrete s.table.map
  counted :
      (1 ≤ s.evictions)
      ⊎ ((s.table.count + sum_of added_by s.tasks) % word ≡ length s.table.map % word)

begun : (k : Task) → Begins k → added_by k ≡ 0
unfolding added_by
begun k (note ip label) = refl
begun k (lookup ip) = refl

Step-Counted : {s t : Shared} → Step s t → Counted s → Counted t
Step-Counted (called {s} k b) v = record {
  distinct = v.distinct;
  counted = elim v.counted [ inl e ↦ inl e | inr e ↦ inr (omega (arith, e, begun k b)) ];
}
Step-Counted (ran {s} ch i k e) v =
    let m = advance-Moved ch s.table k v.distinct in
    record {
      distinct = m.distinct;
      counted = elim v.counted [
        | inl g ↦ inl (omega (arith, g))
        | inr g ↦ elim m.balanced [
          | inl w ↦ inl (omega (arith, w))
          | inr w ↦
              inr (omega (arith, g, w, sum_of-set added_by s.tasks i k (advance ch s.table k).1 e))
        ]
      ];
    }

Reach-Counted : (cap : ℕ) {s : Shared} → Reach (at_rest cap) s → Counted s
unfolding with_cap
Reach-Counted cap here = record { distinct = tt; counted = inr refl }
Reach-Counted cap (next r st) = Step-Counted st (Reach-Counted cap r)

-- However the calls on a new table overlap, no address has two hints; and unless a step of an
-- eviction was taken, the counter that lookups trust to skip an empty table is, with the additions
-- that are due and in 64 bits, the number of hints.
pub overlapping_notes :
    (cap : ℕ) {s : Shared}
    → Reach (at_rest cap) s
    → Distinct IpAddr-discrete s.table.map
      × ((1 ≤ s.evictions)
          ⊎ ((s.table.count + sum_of added_by s.tasks) % word ≡ length s.table.map % word))
overlapping_notes cap r = let v = Reach-Counted cap r in (v.distinct, v.counted)
