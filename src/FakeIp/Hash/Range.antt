-- ===== src/FakeIp/Hash/Range.antt =====
-- What the hash functions stay below, and the end of their loop.
use pao_pao_gate_way.Common.{ℕ, zero, suc, ◌-◌, ◌*◌, ◌≤◌, ◌<◌, arith}
use pao_pao_gate_way.Common.Bytes.{Bytes}
use pao_pao_gate_way.FakeIp.Hash.{
  u64_mod, fastrange, probe_step, fmix64, xor64, rapidhash, Lanes, rounds, round,
}

pub fmix64-lt : (h : ℕ) → fmix64 h < u64_mod
unfolding fmix64 xor64
fmix64-lt h = omega arith

mul_mono_left : (a b n : ℕ) → a ≤ b → a * n ≤ b * n
mul_mono_left a b n h = grind arith

pub fastrange-lt : (h n : ℕ) → h < u64_mod → 0 < n → n < 0x100000000 → fastrange h n < n
unfolding fastrange
fastrange-lt h n hh hn hb = omega (arith, mul_mono_left h 0xffffffffffffffff n (omega arith))

pub probe_step-bounds :
    (h n : ℕ) → 1 < n → n < 0x100000000 → (1 ≤ probe_step h n) × (probe_step h n < n)
unfolding probe_step
probe_step-bounds h n hn hb = ground (
  arith,
  fastrange-lt (fmix64 (xor64 h 0x9e3779b97f4a7c15)) (n - 1)
      (fmix64-lt (xor64 h 0x9e3779b97f4a7c15)),
)

-- With as much fuel as there are bytes the loop ends by its test.
rounds_end :
    (fuel : ℕ) (key : Bytes) (l : Lanes) → 112 < l.i → l.i ≤ fuel → (rounds fuel key l).i ≤ 112
unfolding rounds round
rounds_end zero key l h b = absurd (omega arith)
rounds_end (suc fuel) key l h b = ground (arith, rounds_end fuel key (round key l))

pub rapidhash-lt : (key : Bytes) (seed : ℕ) → rapidhash key seed < u64_mod
unfolding rapidhash
rapidhash-lt key seed = omega arith
