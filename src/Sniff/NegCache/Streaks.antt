-- ===== src/Sniff/NegCache/Streaks.antt =====
-- What the table remembers: for each destination the length of its live streak of failures.
use pao_pao_gate_way.Common.{
  ℕ, ◌+◌, ◌≤◌, ◌≡◌, ◌≢◌, refl, min, arith, none, some, length, ltb, leb, if◌then◌else◌,
  Option-cases, Bool-cases, inl, inr, Option,
}
use pao_pao_gate_way.Common.Net.{Endpoint, Endpoint-discrete as dec}
use pao_pao_gate_way.Common.Maps.{
  kept, length-pos_of_get, get-insert_self, get-insert_ne, get-remove_self, get-remove_ne,
  get-retain,
}
use pao_pao_gate_way.Sniff.NegCache.{
  SniffNegCache, Entry, find, is_hit, gc, bump, first, entered, record_failure, note_failure,
  note_success,
}
use pao_pao_gate_way.Sniff.NegCache.Validity.{IsValid, Counts-get, gc-IsValid}

live : ℕ → Option Entry → ℕ
live t none = 0
live t (some e) = if ltb t e.expires then e.fails else 0

pub streak : SniffNegCache → ℕ → Endpoint → ℕ
unfolding live
streak c t dst = live t (find c dst)

pub streak_unknown :
    (c : SniffNegCache) (t : ℕ) (dst : Endpoint) → find c dst ≡ none → streak c t dst ≡ 0
unfolding streak live
streak_unknown c t dst e = rw e

streak-gc :
    (c : SniffNegCache) (now t : ℕ) (dst : Endpoint)
    → IsValid c
    → now ≤ t
    → streak (gc c now) t dst ≡ streak c t dst
unfolding streak gc kept
streak-gc c now t dst v h =
    ground (arith, get-retain dec (λ _ e. ltb now e.expires) dst c.inner v.distinct)

streak-record_failure :
    (c : SniffNegCache) (now t : ℕ) (dst : Endpoint)
    → IsValid c
    → streak (record_failure c now dst) t dst
      ≡ (if ltb t (now + c.ttl) then min (streak c now dst + 1) c.threshold else 0)
unfolding streak record_failure entered live
streak-record_failure c now t dst v = elim (Option-cases (find c dst)) [
  | inl e ↦
      rw (record_failure, entered, e)
        (ground (arith, get-insert_self dec dst (first c now) c.inner))
  | inr (w, e) ↦
      let b = Counts-get dst w c.threshold c.inner v.streaks e in
      rw (record_failure, entered, e)
        (ground (arith, get-insert_self dec dst (bump c now w) c.inner))
]

streak-record_failure_ne :
    (c : SniffNegCache) (now t : ℕ) (dst other : Endpoint)
    → dst ≢ other
    → streak (record_failure c now dst) t other ≡ streak c t other
unfolding streak record_failure entered
streak-record_failure_ne c now t dst other n = elim (Option-cases (find c dst)) [
  | inl e ↦
      rw (record_failure, entered, e) (rw (get-insert_ne dec dst other (first c now) c.inner n))
  | inr (w, e) ↦
      rw (record_failure, entered, e) (rw (get-insert_ne dec dst other (bump c now w) c.inner n))
]

streak-gc_early :
    (c : SniffNegCache) (now gc_now : ℕ) (dst : Endpoint)
    → IsValid c
    → now ≤ gc_now
    → streak c now dst ≡ streak c gc_now dst
    → streak (gc c gc_now) now dst ≡ streak c now dst
unfolding streak gc kept live
streak-gc_early c now gc_now dst v h s = elim (Option-cases (find c dst)) [
  | inl e ↦ ground (arith, get-retain dec (λ _ e. ltb gc_now e.expires) dst c.inner v.distinct)
  | inr (w, e) ↦
      let b = Counts-get dst w c.threshold c.inner v.streaks e in
      ground (arith, get-retain dec (λ _ e. ltb gc_now e.expires) dst c.inner v.distinct)
]

-- A failure adds one to the live streak, up to the threshold, and renews its term.
pub streak-note_failure :
    (c : SniffNegCache) (now gc_now t : ℕ) (dst : Endpoint)
    → IsValid c
    → now ≤ gc_now
    → streak c now dst ≡ streak c gc_now dst
    → streak (note_failure c now gc_now dst) t dst
      ≡ (if ltb t (now + c.ttl) then min (streak c now dst + 1) c.threshold else 0)
unfolding note_failure
streak-note_failure c now gc_now t dst v h s = elim (Bool-cases (leb 4096 (length c.inner))) [
  | inl e ↦
      rw
        (
          e,
          streak-record_failure (gc c gc_now) now t dst (gc-IsValid c gc_now v),
          streak-gc_early c now gc_now dst v h s,
        )
        (unfold gc in refl)
  | inr e ↦ rw (e, streak-record_failure c now t dst v)
]

-- It leaves the streaks of other destinations alone.
pub streak-note_failure_ne :
    (c : SniffNegCache) (now gc_now t : ℕ) (dst other : Endpoint)
    → IsValid c
    → gc_now ≤ t
    → dst ≢ other
    → streak (note_failure c now gc_now dst) t other ≡ streak c t other
unfolding note_failure
streak-note_failure_ne c now gc_now t dst other v h n =
    elim (Bool-cases (leb 4096 (length c.inner))) [
      | inl e ↦
          rw (e, streak-record_failure_ne (gc c gc_now) now t dst other n)
            (streak-gc c gc_now t other v h)
      | inr e ↦ rw (e, streak-record_failure_ne c now t dst other n)
    ]

pub is_hit-streak :
    (c : SniffNegCache) (t : ℕ) (dst : Endpoint)
    → IsValid c
    → is_hit c t dst ≡ leb c.threshold (streak c t dst)
unfolding is_hit streak live
is_hit-streak c t dst v = elim (Option-cases (find c dst)) [
  | inl e ↦ ground arith
  | inr (w, e) ↦ ground (arith, length-pos_of_get dec dst c.inner e)
]

pub streak-note_success :
    (c : SniffNegCache) (t : ℕ) (dst : Endpoint) → IsValid c → streak (note_success c dst) t dst ≡ 0
unfolding note_success streak live
streak-note_success c t dst v = elim (Option-cases (find c dst)) [
  | inl e ↦ ground arith
  | inr (w, e) ↦
      ground (arith, length-pos_of_get dec dst c.inner e, get-remove_self dec dst c.inner)
]

pub streak-note_success_ne :
    (c : SniffNegCache) (t : ℕ) (dst other : Endpoint)
    → dst ≢ other
    → streak (note_success c dst) t other ≡ streak c t other
unfolding note_success streak
streak-note_success_ne c t dst other n = ground (arith, get-remove_ne dec dst other c.inner n)
