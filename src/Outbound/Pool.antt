-- ===== src/Outbound/Pool.antt =====
-- sniffbox/crates/sb-outbound/src/pool.rs: connections to the proxy that are kept ready. The clock's
-- reading, whether a stream is alive, and what dialling gives are arguments; a stream is a number.
-- `warm_notify` is whether the warmer is to wake. A call is not overlapped by another: the source
-- gives the lock up between two candidates of `acquire`. The warmer's loop takes the outcomes of its
-- dials in the order in which they end.
mod Choice
mod Bounds
mod Tests
use pao_pao_gate_way.Common.{
  ℕ, zero, suc, ◌+◌, ◌-◌, min, Bool, true, false, not, ◌&&◌, ◌||◌, List, [], ◌∷◌, ◌++◌, Option,
  none, some, ltb, leb, ◌==◌, if◌then◌else◌, length,
}

pub record PoolCfg : Type 0 where
  pub min_idle : ℕ
  pub max_idle : ℕ
  pub idle_timeout : ℕ

abbrev pub default : PoolCfg
default = record { min_idle = 8; max_idle = 128; idle_timeout = 300000 }

pub record IdleConn : Type 0 where
  pub stream : ℕ
  pub put_at : ℕ

pub record Pressure : Type 0 where
  pub cold_pending : ℕ
  pub acquires_total : ℕ
  pub cold_total : ℕ
  pub discarded_dead : ℕ
  pub new_warmed : ℕ

pub record SocksPool : Type 0 where
  pub cfg : PoolCfg
  pub idle : List IdleConn
  pub pressure : Pressure
  pub warm_notify : Bool

pub new : PoolCfg → SocksPool
new cfg = record {
  cfg = cfg;
  idle = [];
  pressure = record {
    cold_pending = 0;
    acquires_total = 0;
    cold_total = 0;
    discarded_dead = 0;
    new_warmed = 0;
  };
  warm_notify = false;
}

abbrev pub is_stale : PoolCfg → ℕ → IdleConn → Bool
is_stale cfg now c = leb cfg.idle_timeout (now - c.put_at)

-- The front of the queue is given up while it is too old.
unfoldable pub drop_stale : PoolCfg → ℕ → List IdleConn → List IdleConn
drop_stale cfg now [] = []
drop_stale cfg now (c ∷ cs) =
    let rest = drop_stale cfg now cs in if is_stale cfg now c then rest else c ∷ cs

pub evict_stale : SocksPool → ℕ → SocksPool
unfolding drop_stale
evict_stale p now = record p { idle = drop_stale p.cfg now p.idle }

-- What the loop of `acquire` finds.
pub record Found : Type 0 where
  pub chosen : Option ℕ
  pub left : List IdleConn
  pub dead : ℕ
  pub dropped_stale : Bool
  pub below_min : Bool

unfoldable pub choose : PoolCfg → ℕ → (ℕ → Bool) → List IdleConn → Found
choose cfg now alive [] = record {
  chosen = none;
  left = [];
  dead = 0;
  dropped_stale = false;
  below_min = false;
}
choose cfg now alive (c ∷ cs) =
    let later = choose cfg now alive cs in
    if is_stale cfg now c
    then record later { dropped_stale = true }
    else if alive c.stream
    then record {
      chosen = some c.stream;
      left = cs;
      dead = 0;
      dropped_stale = false;
      below_min = ltb (length cs) cfg.min_idle;
    }
    else record later { dead = later.dead + 1 }

-- `dialled` is what dialling would give.
unfoldable pub acquire : SocksPool → ℕ → (ℕ → Bool) → Option ℕ → Option ℕ × SocksPool
unfolding choose
acquire p now alive dialled =
    let f = choose p.cfg now alive p.idle in
    let pressure = record p.pressure {
      acquires_total = p.pressure.acquires_total + 1;
      discarded_dead = p.pressure.discarded_dead + f.dead;
    } in
    let notify = p.warm_notify || (ltb 0 f.dead || f.dropped_stale || f.below_min) in
    elim f.chosen [
      | some s ↦ (some s, record p { idle = f.left; pressure = pressure; warm_notify = notify })
      | none ↦ (
        dialled,
        record p {
          idle = f.left;
          pressure = record pressure {
            cold_pending = pressure.cold_pending + 1;
            cold_total = pressure.cold_total + 1;
          };
          warm_notify = true;
        },
      )
    ]

pub flush_idle : SocksPool → ℕ × SocksPool
flush_idle p = (length p.idle, record p { idle = []; warm_notify = true })

pub release_clean : SocksPool → ℕ → ℕ → SocksPool
release_clean p now stream =
    if leb p.cfg.max_idle (length p.idle)
    then p
    else record p { idle = p.idle ++ record { stream = stream; put_at = now } ∷ [] }

pub resize : SocksPool → PoolCfg → SocksPool
resize p cfg = record p { cfg = cfg; warm_notify = true }

abbrev pub max_consecutive_fail : ℕ
max_consecutive_fail = 3

abbrev pub warm_parallel : ℕ
warm_parallel = 8

-- Dials are started while there are lanes, failures allow it, and connections are wanted.
dials_after : ℕ → SocksPool → ℕ → ℕ → ℕ → ℕ → ℕ
dials_after zero p fails dials lanes target = dials
dials_after (suc more) p fails dials lanes target =
    let rest = dials_after more p fails (dials + 1) lanes target in
    if ltb fails max_consecutive_fail && ltb dials lanes && ltb (length p.idle + dials) target
    then rest
    else dials

warmed : SocksPool → ℕ → ℕ → SocksPool
unfolding release_clean
warmed p now stream =
    release_clean
      (record p { pressure = record p.pressure { new_warmed = p.pressure.new_warmed + 1 } }) now
      stream

-- The loop of `warm_once` over the outcomes of its dials, each with the time at which it is put.
unfoldable pub warm_loop : SocksPool → ℕ → ℕ → ℕ → ℕ → List (ℕ × Option ℕ) → SocksPool
unfolding dials_after warmed
warm_loop p fails dials lanes target [] = p
warm_loop p fails dials lanes target ((now, outcome) ∷ outcomes) =
    let started = dials_after lanes p fails dials lanes target in
    let rest : SocksPool = elim outcome [
      | some s ↦ warm_loop (warmed p now s) 0 (started - 1) warm_parallel target outcomes
      | none ↦ warm_loop p (fails + 1) (started - 1) lanes target outcomes
    ] in
    if started == 0 then p else rest

pub warm_once : SocksPool → ℕ → List (ℕ × Option ℕ) → SocksPool
unfolding evict_stale warm_loop
warm_once q now outcomes =
    let p = evict_stale q now in
    if leb p.cfg.min_idle (length p.idle)
    then p
    else (let boost = min p.pressure.cold_pending p.cfg.min_idle in
        warm_loop (record p { pressure = record p.pressure { cold_pending = 0 } }) 0 0 1
          (min (p.cfg.min_idle + boost) p.cfg.max_idle) outcomes)
