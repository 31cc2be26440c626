-- ===== src/FakeIp/Pool/Slices.antt =====
-- The shards of a pool take the addresses in turn, and a call finds the right one.
use pao_pao_gate_way.Common.{
  ℕ, zero, suc, ◌+◌, ◌*◌, ◌/◌, ◌<◌, ◌≤◌, ◌≡◌, refl, ap, subst, List, [], ◌∷◌, some, arith, length,
  get_elem?, set,
}
use pao_pao_gate_way.FakeIp.Shard.{Shard, nil, ◌>>=◌}
use pao_pao_gate_way.FakeIp.Shard
use pao_pao_gate_way.FakeIp.Shard.Holders.{Holders, Holds}
use pao_pao_gate_way.FakeIp.Shard.Refinement.{new-Holds}
use pao_pao_gate_way.FakeIp.Pool.{FakeIpPool, shards_from, shard_number, per_shard_cap}

-- A shard of the addresses from `base` on.
pub record Slice (base span : ℕ) (s : Shard) : Type 0 where
  pub names : Holders
  pub holds : Holds s names
  pub lo : s.lo ≡ base
  pub usable : s.usable ≡ span

-- The shards from `base` on, each of `span` addresses.
abbrev pub Slices : ℕ → ℕ → List Shard → Type 0
Slices base span [] = Unit
Slices base span (s ∷ ss) = Slice base span s × Slices (base + span) span ss

pub Slices-get :
    (base span : ℕ) (ss : List Shard) (i : ℕ) {s : Shard}
    → Slices base span ss
    → get_elem? ss i ≡ some s
    → Slice (base + i * span) span s
Slices-get base span [] i {s} v h = cc
Slices-get base span (x ∷ ss) zero {s} v h =
    subst (λ b. Slice b span s) (omega arith) (subst (Slice base span) (ground arith) v.0)
Slices-get base span (x ∷ ss) (suc i) {s} v h =
    subst (λ b. Slice b span s) (grind arith) (Slices-get (base + span) span ss i v.1 h)

pub Slices-set :
    (base span : ℕ) (ss : List Shard) (i : ℕ) (s : Shard)
    → Slices base span ss
    → Slice (base + i * span) span s
    → Slices base span (set ss i s)
Slices-set base span [] i s v h = tt
Slices-set base span (x ∷ ss) zero s v h = (subst (λ b. Slice b span s) (omega arith) h, v.1)
Slices-set base span (x ∷ ss) (suc i) s v h =
    (v.0, Slices-set (base + span) span ss i s v.1 (subst (λ b. Slice b span s) (grind arith) h))

-- An address of the `i`-th slice leads back to it.
pub slice_index : (x span i : ℕ) → i * span ≤ x → x < i * span + span → x / span ≡ i
slice_index x span i a b = grind arith

pub length-shards_from : (k i lo span cap : ℕ) → length (shards_from k i lo span cap) ≡ k
unfolding shards_from
length-shards_from zero i lo span cap = refl
length-shards_from (suc k) i lo span cap = ap suc (length-shards_from k (i + 1) lo span cap)

next_base : (i k lo span : ℕ) → lo + (i + suc k) * span ≡ lo + i * span + span + k * span
next_base i k lo span = grind arith

step_base : (i lo span : ℕ) → lo + (i + 1) * span ≡ lo + i * span + span
step_base i lo span = grind arith

pub shards_from-Slices :
    (k i lo span cap : ℕ)
    → 1 ≤ cap
    → cap ≤ span
    → lo + (i + k) * span ≤ nil
    → Slices (lo + i * span) span (shards_from k i lo span cap)
unfolding shards_from Shard.new
shards_from-Slices zero i lo span cap a b c = tt
shards_from-Slices (suc k) i lo span cap a b c =
    let q = next_base i k lo span in
    (
      record {
        names = [];
        holds = new-Holds (lo + i * span) span cap a b (omega (arith, q));
        lo = refl;
        usable = refl;
      },
      subst (λ b. Slices b span (shards_from k (i + 1) lo span cap)) (step_base i lo span)
          (shards_from-Slices k (i + 1) lo span cap a b
            (subst (λ n. lo + n * span ≤ nil) (omega arith) c)),
    )

-- The pool is a row of shards, and its addresses are of 32 bits.
pub record IsValid (p : FakeIpPool) : Type 0 where
  pub slices : Slices p.lo p.span p.shards
  pub all : length p.shards ≡ p.n_shards
  pub one : 1 ≤ p.n_shards
  pub few : p.n_shards ≤ nil
  pub below : p.lo + p.n_shards * p.span ≤ nil

pub number_bounds :
    (requested usable : ℕ)
    → 16 ≤ usable
    → (1 ≤ shard_number requested usable) × (shard_number requested usable * 16 ≤ usable)
unfolding shard_number
number_bounds requested usable h = (ground arith, ground arith)

pub div_bounds :
    (n usable : ℕ) → 1 ≤ n → n * 16 ≤ usable → (16 ≤ usable / n) × (n * (usable / n) ≤ usable)
div_bounds n usable a b = (grind arith, grind arith)

pub cap_bounds :
    (max_entries usable n : ℕ)
    → 1 ≤ usable / n
    → (1 ≤ per_shard_cap max_entries usable n) × (per_shard_cap max_entries usable n ≤ usable / n)
unfolding per_shard_cap
cap_bounds max_entries usable n h = (ground arith, ground arith)
