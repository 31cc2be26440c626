-- ===== src/Outbound/Pool/Bounds.antt =====
-- How many connections the pool keeps.
use pao_pao_gate_way.Common.{
  ℕ, ◌+◌, ◌-◌, min, ◌≤◌, ◌≡◌, refl, ap, ◌∙◌, Bool, List, [], ◌∷◌, Option, none, some, arith, leb,
  ◌==◌, length, length-append, Bool-cases, inl, inr,
}
use pao_pao_gate_way.Outbound.Pool.{
  PoolCfg, IdleConn, SocksPool, new, drop_stale, evict_stale, acquire, flush_idle, release_clean,
  warm_loop, warm_once, warmed, dials_after, warm_parallel,
}
use pao_pao_gate_way.Outbound.Pool.Choice.{length-acquire, cfg-acquire}

pub data Call : Type 0 where
  acquired : ℕ → (ℕ → Bool) → Option ℕ → Call
  released : ℕ → ℕ → Call
  flushed : Call
  warmed_up : ℕ → List (ℕ × Option ℕ) → Call

unfoldable pub step : SocksPool → Call → SocksPool
step p (acquired now alive dialled) = (acquire p now alive dialled).1
step p (released now stream) = release_clean p now stream
step p flushed = (flush_idle p).1
step p (warmed_up now outcomes) = warm_once p now outcomes

unfoldable pub run : SocksPool → List Call → SocksPool
unfolding step
run p [] = p
run p (c ∷ cs) = run (step p c) cs

-- The pool is configured so and holds at most its maximum.
record Fits (cfg : PoolCfg) (p : SocksPool) : Type 0 where
  same : p.cfg ≡ cfg
  bounded : length p.idle ≤ cfg.max_idle

length-drop_stale :
    (cfg : PoolCfg) (now : ℕ) (idle : List IdleConn)
    → length (drop_stale cfg now idle) ≤ length idle
unfolding drop_stale
length-drop_stale cfg now [] = omega arith
length-drop_stale cfg now (c ∷ cs) = ground (arith, length-drop_stale cfg now cs)

release_clean-Fits :
    (cfg : PoolCfg) (p : SocksPool) (now stream : ℕ)
    → Fits cfg p
    → Fits cfg (release_clean p now stream)
unfolding release_clean
release_clean-Fits cfg p now stream v = elim (Bool-cases (leb p.cfg.max_idle (length p.idle))) [
  | inl b ↦ rw (release_clean, b) v
  | inr b ↦
      rw (release_clean, b)
        (record {
          same = v.same;
          bounded = ground (
            arith,
            ap (λ c. c.max_idle) v.same,
            length-append p.idle (record { stream = stream; put_at = now } ∷ []),
          );
        })
]

-- A change of the counters does not matter.
with_pressure :
    (cfg : PoolCfg) (p q : SocksPool) → q.cfg ≡ p.cfg → q.idle ≡ p.idle → Fits cfg p → Fits cfg q
with_pressure cfg p q e f v = record {
  same = e ∙ v.same;
  bounded = omega (arith, ap length f, v.bounded);
}

warmed-Fits :
    (cfg : PoolCfg) (p : SocksPool) (now stream : ℕ) → Fits cfg p → Fits cfg (warmed p now stream)
unfolding warmed
warmed-Fits cfg p now stream v =
    release_clean-Fits cfg
      (record p { pressure = record p.pressure { new_warmed = p.pressure.new_warmed + 1 } }) now
      stream
      (with_pressure cfg p
        (record p { pressure = record p.pressure { new_warmed = p.pressure.new_warmed + 1 } }) refl
        refl v)

warm_loop-Fits :
    (cfg : PoolCfg) (p : SocksPool) (fails dials lanes target : ℕ) (outcomes : List (ℕ × Option ℕ))
    → Fits cfg p
    → Fits cfg (warm_loop p fails dials lanes target outcomes)
unfolding warm_loop
warm_loop-Fits cfg p fails dials lanes target [] v = v
warm_loop-Fits cfg p fails dials lanes target ((now, some s) ∷ outcomes) v =
    elim (Bool-cases (dials_after lanes p fails dials lanes target == 0)) [
      | inl b ↦ rw (warm_loop, b) v
      | inr b ↦
          rw (warm_loop, b)
            (warm_loop-Fits cfg (warmed p now s) 0
              (dials_after lanes p fails dials lanes target - 1) warm_parallel target outcomes
              (warmed-Fits cfg p now s v))
    ]
warm_loop-Fits cfg p fails dials lanes target ((now, none) ∷ outcomes) v =
    elim (Bool-cases (dials_after lanes p fails dials lanes target == 0)) [
      | inl b ↦ rw (warm_loop, b) v
      | inr b ↦
          rw (warm_loop, b)
            (warm_loop-Fits cfg p (fails + 1) (dials_after lanes p fails dials lanes target - 1)
              lanes target outcomes v)
    ]

evict_stale-Fits :
    (cfg : PoolCfg) (p : SocksPool) (now : ℕ) → Fits cfg p → Fits cfg (evict_stale p now)
unfolding evict_stale
evict_stale-Fits cfg p now v = record {
  same = v.same;
  bounded = omega (arith, v.bounded, length-drop_stale p.cfg now p.idle);
}

warm_once-Fits :
    (cfg : PoolCfg) (q : SocksPool) (now : ℕ) (outcomes : List (ℕ × Option ℕ))
    → Fits cfg q
    → Fits cfg (warm_once q now outcomes)
unfolding warm_once
warm_once-Fits cfg q now outcomes v = elim (Bool-cases (leb p.cfg.min_idle (length p.idle))) [
  | inl b ↦ rw (warm_once, b) (evict_stale-Fits cfg q now v)
  | inr b ↦
      rw (warm_once, b)
        (warm_loop-Fits cfg calm 0 0 1
          (min (p.cfg.min_idle + min p.pressure.cold_pending p.cfg.min_idle) p.cfg.max_idle)
          outcomes (with_pressure cfg p calm refl refl (evict_stale-Fits cfg q now v)))
]
  where
    p : SocksPool
    p = evict_stale q now

    calm : SocksPool
    calm = record p { pressure = record p.pressure { cold_pending = 0 } }

step-Fits : (cfg : PoolCfg) (p : SocksPool) (c : Call) → Fits cfg p → Fits cfg (step p c)
unfolding step flush_idle
step-Fits cfg p (acquired now alive dialled) v = record {
  same = cfg-acquire p now alive dialled ∙ v.same;
  bounded = omega (arith, length-acquire p now alive dialled, v.bounded);
}
step-Fits cfg p (released now stream) v = release_clean-Fits cfg p now stream v
step-Fits cfg p flushed v = record { same = v.same; bounded = omega arith }
step-Fits cfg p (warmed_up now outcomes) v = warm_once-Fits cfg p now outcomes v

run-Fits : (cfg : PoolCfg) (p : SocksPool) (cs : List Call) → Fits cfg p → Fits cfg (run p cs)
unfolding run
run-Fits cfg p [] v = v
run-Fits cfg p (c ∷ cs) v = run-Fits cfg (step p c) cs (step-Fits cfg p c v)

-- Whatever is acquired, released, flushed and warmed, in any order and with any outcomes, a pool
-- that keeps its configuration never holds more idle connections than its maximum.
pub run-new_bounded :
    (cfg : PoolCfg) (cs : List Call) → length (run (new cfg) cs).idle ≤ cfg.max_idle
unfolding new
run-new_bounded cfg cs =
    (run-Fits cfg (new cfg) cs (record { same = refl; bounded = omega arith })).bounded
