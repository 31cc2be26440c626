-- ===== src/Sniff/NegCache/Validity.antt =====
-- The invariant of the table, kept by every operation.
use pao_pao_gate_way.Common.{
  Bool, ℕ, ◌≤◌, ◌≡◌, List, [], ◌∷◌, arith, some, length, leb, Option-cases, Bool-cases, inl, inr,
  All, refl,
}
use pao_pao_gate_way.Common.Net.{Endpoint, Endpoint-discrete as dec}
use pao_pao_gate_way.Common.Maps.{
  Distinct, insert, remove, get, retain, Distinct-insert, Distinct-remove, Distinct-retain,
  length-insert_new, length-insert_old, length-remove,
}
use pao_pao_gate_way.Sniff.NegCache.{
  SniffNegCache, Entry, with_threshold, find, gc, bump, first, entered, record_failure,
  note_failure, note_success,
}

-- The streak of an entry is between one and the threshold.
abbrev pub Counts : ℕ → List (Endpoint × Entry) → Type 0
Counts n = All (λ p. (1 ≤ p.1.fails) × (p.1.fails ≤ n))

pub record IsValid (c : SniffNegCache) : Type 0 where
  pub distinct : Distinct dec c.inner
  pub counted : c.count ≡ length c.inner
  pub positive : 1 ≤ c.threshold
  pub small : c.threshold ≤ 254
  pub streaks : Counts c.threshold c.inner

pub with_threshold-IsValid : (ttl n : ℕ) → n ≤ 254 → IsValid (with_threshold ttl n)
unfolding with_threshold
with_threshold-IsValid ttl n h = record {
  distinct = tt;
  counted = refl;
  positive = omega arith;
  small = omega arith;
  streaks = tt;
}

pub Counts-retain :
    (p : Endpoint → Entry → Bool) (n : ℕ) (m : List (Endpoint × Entry))
    → Counts n m
    → Counts n (retain p m)
unfolding retain
Counts-retain p n [] h = tt
Counts-retain p n ((k, e) ∷ m) h = ground (arith, Counts-retain p n m h.1)

pub Counts-insert :
    (k : Endpoint) (e : Entry) (n : ℕ) (m : List (Endpoint × Entry))
    → 1 ≤ e.fails
    → e.fails ≤ n
    → Counts n m
    → Counts n (insert dec k e m)
unfolding insert
Counts-insert k e n [] a b h = ((a, b), tt)
Counts-insert k e n ((j, f) ∷ m) a b h = ground (arith, Counts-insert k e n m a b h.1)

pub Counts-remove :
    (k : Endpoint) (n : ℕ) (m : List (Endpoint × Entry)) → Counts n m → Counts n (remove dec k m)
unfolding remove
Counts-remove k n [] h = tt
Counts-remove k n ((j, f) ∷ m) h = ground (arith, Counts-remove k n m h.1)

pub Counts-get :
    (k : Endpoint) (e : Entry) (n : ℕ) (m : List (Endpoint × Entry))
    → Counts n m
    → get dec k m ≡ some e
    → (1 ≤ e.fails) × (e.fails ≤ n)
unfolding get
Counts-get k e n [] h g = ground arith
Counts-get k e n ((j, f) ∷ m) h g = ground (arith, Counts-get k e n m h.1)

pub gc-IsValid : (c : SniffNegCache) (now : ℕ) → IsValid c → IsValid (gc c now)
unfolding gc
gc-IsValid c now v = record {
  distinct = Distinct-retain dec _ c.inner v.distinct;
  counted = refl;
  positive = v.positive;
  small = v.small;
  streaks = Counts-retain _ c.threshold c.inner v.streaks;
}

record_failure-IsValid :
    (c : SniffNegCache) (now : ℕ) (dst : Endpoint) → IsValid c → IsValid (record_failure c now dst)
unfolding record_failure entered
record_failure-IsValid c now dst v = elim (Option-cases (find c dst)) [
  | inl e ↦
      rw (record_failure, entered, e)
        (record {
          distinct = Distinct-insert dec dst _ c.inner v.distinct;
          counted = omega (arith, length-insert_new dec dst (first c now) c.inner e, v.counted);
          positive = v.positive;
          small = v.small;
          streaks =
              Counts-insert dst (first c now) c.threshold c.inner (omega arith) (omega arith)
                v.streaks;
        })
  | inr (w, e) ↦
      let b = Counts-get dst w c.threshold c.inner v.streaks e in
      rw (record_failure, entered, e)
        (record {
          distinct = Distinct-insert dec dst _ c.inner v.distinct;
          counted = omega (arith, length-insert_old dec dst (bump c now w) w c.inner e, v.counted);
          positive = v.positive;
          small = v.small;
          streaks =
              Counts-insert dst (bump c now w) c.threshold c.inner (ground arith) (ground arith)
                v.streaks;
        })
]

-- Every failure keeps the invariant.
pub note_failure-IsValid :
    (c : SniffNegCache) (now gc_now : ℕ) (dst : Endpoint)
    → IsValid c
    → IsValid (note_failure c now gc_now dst)
unfolding note_failure
note_failure-IsValid c now gc_now dst v = elim (Bool-cases (leb 4096 (length c.inner))) [
  | inl e ↦ rw e (record_failure-IsValid (gc c gc_now) now dst (gc-IsValid c gc_now v))
  | inr e ↦ rw e (record_failure-IsValid c now dst v)
]

pub note_success-IsValid :
    (c : SniffNegCache) (dst : Endpoint) → IsValid c → IsValid (note_success c dst)
unfolding note_success
note_success-IsValid c dst v = record {
  distinct = ground (arith, Distinct-remove dec dst c.inner v.distinct);
  counted = elim (Option-cases (find c dst)) [
    | inl e ↦ ground arith
    | inr (w, e) ↦ ground (arith, length-remove dec dst w c.inner v.distinct e)
  ];
  positive = ground arith;
  small = ground arith;
  streaks = ground (arith, Counts-remove dst c.threshold c.inner v.streaks);
}
