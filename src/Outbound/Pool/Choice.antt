-- ===== src/Outbound/Pool/Choice.antt =====
-- Which connection `acquire` gives.
use pao_pao_gate_way.Common.{
  ℕ, ◌≤◌, ◌≡◌, ◌⊎◌, refl, ap, subst, sym, Bool, true, false, List, [], ◌∷◌, ◌++◌, Option, none,
  some, All, arith, length, Bool-cases, Option-cases, inl, inr,
}
use pao_pao_gate_way.Outbound.Pool.{PoolCfg, IdleConn, SocksPool, choose, acquire, is_stale}

-- A connection that is of no use: too old or dead.
pub Useless : PoolCfg → ℕ → (ℕ → Bool) → IdleConn → Type 0
Useless cfg now alive c = (is_stale cfg now c ≡ true) ⊎ (alive c.stream ≡ false)

-- The queue in front of and behind the connection that is given, if one is.
pub data Picked (cfg : PoolCfg) (now : ℕ) (alive : ℕ → Bool) (idle : List IdleConn)
    (chosen : Option ℕ) (left : List IdleConn) : Type 0 where
  one :
      (c : IdleConn) (front : List IdleConn)
      → All (Useless cfg now alive) front
      → is_stale cfg now c ≡ false
      → alive c.stream ≡ true
      → chosen ≡ some c.stream
      → idle ≡ front ++ c ∷ left
      → Picked cfg now alive idle chosen left
  nobody :
      All (Useless cfg now alive) idle
      → chosen ≡ none
      → left ≡ []
      → Picked cfg now alive idle chosen left

one_more :
    (cfg : PoolCfg) (now : ℕ) (alive : ℕ → Bool) (c : IdleConn) (cs : List IdleConn)
    (chosen : Option ℕ) (left : List IdleConn)
    → Useless cfg now alive c
    → Picked cfg now alive cs chosen left
    → Picked cfg now alive (c ∷ cs) chosen left
one_more cfg now alive c cs chosen left u (one d front us s a e q) =
    one d (c ∷ front) (u, us) s a e (ap (λ x. c ∷ x) q)
one_more cfg now alive c cs chosen left u (nobody us e q) = nobody (u, us) e q

choose-Picked :
    (cfg : PoolCfg) (now : ℕ) (alive : ℕ → Bool) (idle : List IdleConn)
    → Picked cfg now alive idle (choose cfg now alive idle).chosen (choose cfg now alive idle).left
unfolding choose Useless
choose-Picked cfg now alive [] = nobody tt refl refl
choose-Picked cfg now alive (c ∷ cs) = elim (Bool-cases (is_stale cfg now c)) [
  | inl s ↦
      rw (choose, s) (one_more cfg now alive c cs _ _ (inl s) (choose-Picked cfg now alive cs))
  | inr s ↦ elim (Bool-cases (alive c.stream)) [
    | inl a ↦ rw (choose, s, a) (one c [] tt s a refl refl)
    | inr a ↦
        rw (choose, s, a) (one_more cfg now alive c cs _ _ (inr a) (choose-Picked cfg now alive cs))
  ]
]

-- `Some` of the first, or the second.
abbrev pub or_else : Option ℕ → Option ℕ → Option ℕ
or_else none b = b
or_else (some a) b = some a

acquire_parts :
    (p : SocksPool) (now : ℕ) (alive : ℕ → Bool) (dialled : Option ℕ)
    → ((acquire p now alive dialled).1.idle ≡ (choose p.cfg now alive p.idle).left)
      × ((acquire p now alive dialled).0 ≡ or_else (choose p.cfg now alive p.idle).chosen dialled)
unfolding acquire
acquire_parts p now alive dialled = elim (Option-cases (choose p.cfg now alive p.idle).chosen) [
  | inl e ↦ (rw (acquire, e), rw (acquire, e))
  | inr (s, e) ↦ (rw (acquire, e), rw (acquire, e))
]

-- `acquire` goes through the queue from its front: it gives up what is too old or dead, gives the
-- first connection that is neither and leaves what is behind it; if there is none it gives what
-- dialling gives, and the queue is empty afterwards.
pub acquire-Picked :
    (p : SocksPool) (now : ℕ) (alive : ℕ → Bool) (dialled : Option ℕ)
    → (chosen : Option ℕ) × ((acquire p now alive dialled).0 ≡ or_else chosen dialled)
      × Picked p.cfg now alive p.idle chosen (acquire p now alive dialled).1.idle
acquire-Picked p now alive dialled =
    let parts = acquire_parts p now alive dialled in
    let f = choose p.cfg now alive p.idle in
    (
      f.chosen,
      parts.1,
      subst (Picked p.cfg now alive p.idle f.chosen) (sym parts.0)
          (choose-Picked p.cfg now alive p.idle),
    )

length-choose :
    (cfg : PoolCfg) (now : ℕ) (alive : ℕ → Bool) (idle : List IdleConn)
    → length (choose cfg now alive idle).left ≤ length idle
unfolding choose
length-choose cfg now alive [] = omega arith
length-choose cfg now alive (c ∷ cs) = ground (arith, length-choose cfg now alive cs)

pub length-acquire :
    (p : SocksPool) (now : ℕ) (alive : ℕ → Bool) (dialled : Option ℕ)
    → length (acquire p now alive dialled).1.idle ≤ length p.idle
length-acquire p now alive dialled =
    omega
      (arith, ap length (acquire_parts p now alive dialled).0, length-choose p.cfg now alive p.idle)

pub cfg-acquire :
    (p : SocksPool) (now : ℕ) (alive : ℕ → Bool) (dialled : Option ℕ)
    → (acquire p now alive dialled).1.cfg ≡ p.cfg
unfolding acquire
cfg-acquire p now alive dialled = elim (Option-cases (choose p.cfg now alive p.idle).chosen) [
  | inl e ↦ rw (acquire, e)
  | inr (s, e) ↦ rw (acquire, e)
]
