-- ===== src/Stats/Drains/Conservation.antt =====
-- What the interleaved calls of `drain_one` have returned, together.
use pao_pao_gate_way.Common.{
  ℕ, zero, suc, ◌+◌, ◌%◌, ◌<◌, ◌≤◌, ◌≡◌, refl, subst, Bool, true, false, List, [], ◌∷◌, some, All,
  arith, leb, ◌==◌, set, get_elem?, Bool-cases, inl, inr,
}
use pao_pao_gate_way.Stats.Records.{u64_mod, drain_one}
use pao_pao_gate_way.Stats.Drains.{
  Call, Shared, compare_now, advance, Step, Reach, delta_of, total, entered, marked, seen, returned,
  added, called, ran, here, next,
}

-- What a call has read is behind what was ever added, `top`, and the mark.
abbrev Behind : ℕ → ℕ → Call → Type 0
Behind top last entered = Unit
Behind top last (marked prev) = prev ≤ last
Behind top last (seen prev now) = (prev ≤ last) × (now ≤ top) × (prev < now)
Behind top last (returned delta) = Unit

record Counts (cur last : ℕ) (s : Shared) : Type 0 where
  counted : last + total s.calls ≡ s.last
  within : s.last ≤ cur + s.sum
  wrapped : s.cur ≡ (cur + s.sum) % u64_mod
  behind : All (Behind (cur + s.sum) s.last) s.calls

Behind-later :
    (top last top' last' : ℕ) (c : Call)
    → top ≤ top'
    → last ≤ last'
    → Behind top last c
    → Behind top' last' c
Behind-later top last top' last' entered h k b = tt
Behind-later top last top' last' (marked prev) h k b = omega arith
Behind-later top last top' last' (seen prev now) h k b = ground arith
Behind-later top last top' last' (returned delta) h k b = tt

All-later :
    (top last top' last' : ℕ) (cs : List Call)
    → top ≤ top'
    → last ≤ last'
    → All (Behind top last) cs
    → All (Behind top' last') cs
All-later top last top' last' [] h k b = tt
All-later top last top' last' (c ∷ cs) h k b =
    (Behind-later top last top' last' c h k b.0, All-later top last top' last' cs h k b.1)

-- What one step of a call does to the mark.
record Advanced (top last : ℕ) (c : Call) (out : ℕ × Call) : Type 0 where
  grows : last + delta_of out.1 ≡ out.0 + delta_of c
  no_less : last ≤ out.0
  below : out.0 ≤ top
  behind : Behind top out.0 out.1

compared-Advanced :
    (top cur last prev : ℕ)
    → cur ≤ top
    → last ≤ top
    → prev ≤ last
    → Advanced top last (marked prev) (last, compare_now prev cur)
unfolding compare_now delta_of
compared-Advanced top cur last prev c h b = elim (Bool-cases (leb cur prev)) [
  | inl e ↦
      rw (compare_now, e) (record { grows = refl; no_less = omega arith; below = h; behind = tt })
  | inr e ↦
      rw (compare_now, e)
        (record { grows = refl; no_less = omega arith; below = h; behind = (b, c, ground arith) })
]

exchanged-Advanced :
    (top cur last prev now : ℕ)
    → last ≤ top
    → Behind top last (seen prev now)
    → Advanced top last (seen prev now) (advance cur last false (seen prev now))
unfolding advance delta_of
exchanged-Advanced top cur last prev now h b = elim (Bool-cases (last == prev)) [
  | inl e ↦
      rw (advance, e)
        (record { grows = ground arith; no_less = ground arith; below = b.1; behind = tt })
  | inr e ↦
      rw (advance, e)
        (record { grows = refl; no_less = omega arith; below = h; behind = omega arith })
]

advance-Advanced :
    (top cur last : ℕ) (fails : Bool) (c : Call)
    → cur ≤ top
    → last ≤ top
    → Behind top last c
    → Advanced top last c (advance cur last fails c)
unfolding advance delta_of
advance-Advanced top cur last fails entered k h b = record {
  grows = refl;
  no_less = omega arith;
  below = h;
  behind = omega arith;
}
advance-Advanced top cur last fails (marked prev) k h b = compared-Advanced top cur last prev k h b
advance-Advanced top cur last true (seen prev now) k h b = record {
  grows = refl;
  no_less = omega arith;
  below = h;
  behind = omega arith;
}
advance-Advanced top cur last false (seen prev now) k h b =
    exchanged-Advanced top cur last prev now h b
advance-Advanced top cur last fails (returned delta) k h b = record {
  grows = refl;
  no_less = omega arith;
  below = h;
  behind = tt;
}

total-set :
    (cs : List Call) (i : ℕ) (c d : Call)
    → get_elem? cs i ≡ some c
    → total (set cs i d) + delta_of c ≡ total cs + delta_of d
unfolding total
total-set [] i c d h = cc
total-set (x ∷ cs) zero c d h = ground arith
total-set (x ∷ cs) (suc i) c d h = omega (arith, total-set cs i c d h)

All-get :
    (cur last : ℕ) (cs : List Call) (i : ℕ) (c : Call)
    → get_elem? cs i ≡ some c
    → All (Behind cur last) cs
    → Behind cur last c
All-get cur last [] i c h b = cc
All-get cur last (x ∷ cs) zero c h b = subst (Behind cur last) (ground arith) b.0
All-get cur last (x ∷ cs) (suc i) c h b = All-get cur last cs i c h b.1

All-set :
    (cur last : ℕ) (cs : List Call) (i : ℕ) (d : Call)
    → All (Behind cur last) cs
    → Behind cur last d
    → All (Behind cur last) (set cs i d)
All-set cur last [] i d b h = tt
All-set cur last (x ∷ cs) zero d b h = (h, b.1)
All-set cur last (x ∷ cs) (suc i) d b h = (b.0, All-set cur last cs i d b.1 h)

Step-Counts : {s t : Shared} {cur last : ℕ} → Step s t → Counts cur last s → Counts cur last t
unfolding total delta_of
Step-Counts {cur} {last} (added {s} n) v = record {
  counted = v.counted;
  within = omega (arith, v.within);
  wrapped = omega (arith, v.wrapped);
  behind =
      All-later (cur + s.sum) s.last (cur + (s.sum + n)) s.last s.calls (omega arith) (omega arith)
        v.behind;
}
Step-Counts called v = record {
  counted = omega (arith, v.counted);
  within = v.within;
  wrapped = v.wrapped;
  behind = (tt, v.behind);
}
Step-Counts {cur} {last} (ran {s} fails i c e) v =
    let top = cur + s.sum in
    let a =
      advance-Advanced top s.cur s.last fails c (omega (arith, v.wrapped)) v.within
        (All-get top s.last s.calls i c e v.behind) in
    let out = advance s.cur s.last fails c in
    record {
      counted = omega (arith, v.counted, a.grows, total-set s.calls i c out.1 e);
      within = a.below;
      wrapped = v.wrapped;
      behind =
          All-set top out.0 s.calls i out.1
            (All-later top s.last top out.0 s.calls (omega arith) a.no_less v.behind) a.behind;
    }

abbrev at_rest : ℕ → ℕ → Shared
at_rest cur last = record { cur = cur; last = last; calls = []; sum = 0 }

Reach-Counts :
    (cur last : ℕ) {s : Shared}
    → cur < u64_mod
    → last ≤ cur
    → Reach (at_rest cur last) s
    → Counts cur last s
unfolding total
Reach-Counts cur last b h here = record {
  counted = omega arith;
  within = omega arith;
  wrapped = omega arith;
  behind = tt;
}
Reach-Counts cur last b h (next r st) = Step-Counts st (Reach-Counts cur last b h r)

-- However the calls and the additions interleave, and however often an exchange fails: what the
-- calls have returned is what the mark has moved, so nothing is returned twice, and the mark never
-- passes what the counter began with and was added, so nothing is returned that was not added. The
-- counter is that sum in 64 bits.
pub drains_conserve :
    (cur last : ℕ) {s : Shared}
    → cur < u64_mod
    → last ≤ cur
    → Reach (at_rest cur last) s
    → (last + total s.calls ≡ s.last) × (s.last ≤ cur + s.sum) × (s.cur ≡ (cur + s.sum) % u64_mod)
drains_conserve cur last b h r =
    let v = Reach-Counts cur last b h r in (v.counted, v.within, v.wrapped)

-- A call that nothing interrupts is `drain_one`.
pub alone-drain_one :
    (cur last : ℕ)
    → last < cur
    → (s : Shared) × Reach (at_rest cur last) s
      × (s.last ≡ (drain_one cur last).1)
      × (s.calls ≡ returned (drain_one cur last).0 ∷ [])
unfolding advance drain_one compare_now
alone-drain_one cur last h =
    let s1 : Shared = record { cur = cur; last = last; calls = entered ∷ []; sum = 0 } in
    let s2 : Shared = record { cur = cur; last = last; calls = marked last ∷ []; sum = 0 } in
    let s3 : Shared = record {
      cur = cur;
      last = last;
      calls = compare_now last cur ∷ [];
      sum = 0;
    } in
    let out = advance cur last false (seen last cur) in
    let s4 : Shared = record { cur = cur; last = out.0; calls = out.1 ∷ []; sum = 0 } in
    (
      s4,
      next
          (next (next (next here called) (ran {s = s1} false 0 entered refl))
            (ran {s = s2} false 0 (marked last) refl))
          (ran {s = s3} false 0 (seen last cur) (ground arith)),
      ground arith,
      ground arith,
    )
