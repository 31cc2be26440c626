-- ===== src/FakeIp/Pool/Answers.antt =====
-- What the pool answers: `new`, and `lookback` of what `intern` gave.
use pao_pao_gate_way.Common.{
  ℕ, ◌+◌, ◌-◌, ◌*◌, ◌/◌, ◌<◌, ◌≤◌, ◌≡◌, refl, ap, ◌∙◌, some, arith, length, get_elem?, get_elem?_lt,
  set, length-set, ltb, Bool-cases, inl, inr, get_elem?-set,
}
use pao_pao_gate_way.Common.Bytes.{Bytes}
use pao_pao_gate_way.FakeIp.Hash.{u64_mod, fastrange, fmix64, rapidhash, rapidhash_seed}
use pao_pao_gate_way.FakeIp.Hash.Range.{fastrange-lt, fmix64-lt, rapidhash-lt}
use pao_pao_gate_way.FakeIp.Shard.{Shard, ◌>>=◌}
use pao_pao_gate_way.FakeIp.Shard
use pao_pao_gate_way.FakeIp.Shard.Holders.{Holders, Holds, name_of}
use pao_pao_gate_way.FakeIp.Shard.Refinement.{intern_refines, lookback_refines}
use pao_pao_gate_way.FakeIp.Shard.Recency.{Interned-found, Holds-inside}
use pao_pao_gate_way.FakeIp.Pool.{FakeIpPool, lowered, intern_at, intern, lookback_at, lookback}
use pao_pao_gate_way.FakeIp.Pool.Slices.{Slices, Slices-get, Slices-set, slice_index, IsValid}

slice_end : (i n span lo : ℕ) → i < n → lo + i * span + span ≤ lo + n * span
slice_end i n span lo h = grind arith

-- A call of the shard that the hash chooses.
record Given (p : FakeIpPool) (i : ℕ) (d : Bytes) (p' : FakeIpPool) (ip : ℕ) : Type 0 where
  shard : Shard
  at : get_elem? p'.shards i ≡ some shard
  names : Holders
  holds : Holds shard names
  lo : shard.lo ≡ p.lo + i * p.span
  usable : shard.usable ≡ p.span
  held : name_of ip names ≡ some d
  valid : IsValid p'
  same_lo : p'.lo ≡ p.lo
  same_span : p'.span ≡ p.span
  same_number : p'.n_shards ≡ p.n_shards
  same_length : length p'.shards ≡ length p.shards

intern_at_lem :
    (p : FakeIpPool) (i : ℕ) (d : Bytes) (h : ℕ)
    → IsValid p
    → i < p.n_shards
    → h < u64_mod
    → (p' : FakeIpPool) × (ip : ℕ) × (intern_at p i d h ≡ some (p', ip)) × Given p i d p' ip
unfolding intern_at
intern_at_lem p i d h v b hash =
    let (s, at) = get_elem?_lt p.shards i (omega (arith, v.all)) in
    let t = Slices-get p.lo p.span p.shards i v.slices at in
    let (s1, ip, l1, r, step, w, same) = intern_refines s t.names d h t.holds hash in
    let len = length-set p.shards i s1 in
    let lo = same.lo ∙ t.lo in
    let usable = same.usable ∙ t.usable in
    (
      record p { shards = set p.shards i s1 },
      ip,
      ground (arith, at, r),
      record {
        shard = s1;
        at = ground (arith, get_elem?-set p.shards i i s1, v.all);
        names = l1;
        holds = w;
        lo = lo;
        usable = usable;
        held = (Interned-found s.cap s.lo s.usable t.names l1 d ip step).1;
        valid = record {
          slices =
              Slices-set p.lo p.span p.shards i s1 v.slices
                (record { names = l1; holds = w; lo = lo; usable = usable });
          all = len ∙ v.all;
          one = v.one;
          few = v.few;
          below = v.below;
        };
        same_lo = refl;
        same_span = refl;
        same_number = refl;
        same_length = len;
      },
    )

lookback_step :
    (p : FakeIpPool) (ip i : ℕ) (d : Bytes) (s s1 : Shard)
    → p.lo ≤ ip
    → (ip - p.lo) / p.span ≡ i
    → get_elem? p.shards i ≡ some s
    → i < length p.shards
    → Shard.lookback s ip ≡ some (s1, some d)
    → lookback p ip ≡ some (record p { shards = set p.shards i s1 }, some d)
unfolding lookback lookback_at
lookback_step p ip i d s s1 a b c e r = elim (Bool-cases (ltb ip p.lo)) [
  | inl below ↦ absurd (ground arith)
  | inr above ↦ rw (lookback, above, b) (ground (arith, c, r))
]

lookback_lem :
    (p p' : FakeIpPool) (i : ℕ) (d : Bytes) (ip : ℕ)
    → IsValid p
    → i < p.n_shards
    → Given p i d p' ip
    → (p'' : FakeIpPool) × (lookback p' ip ≡ some (p'', some d))
      × (p.lo ≤ ip)
      × (ip < p.lo + p.n_shards * p.span)
lookback_lem p p' i d ip v b g =
    let (s2, r, w, same) = lookback_refines g.shard g.names ip g.holds in
    let inside = Holds-inside g.shard g.names d ip g.holds g.held in
    let index =
      slice_index (ip - p.lo) p.span i (omega (arith, inside, g.lo))
        (omega (arith, inside, g.lo, g.usable)) in
    let i_below : i < length p'.shards = omega (arith, g.same_length, v.all, b) in
    (
      record p' { shards = set p'.shards i s2 },
      lookback_step p' ip i d g.shard s2 (omega (arith, inside, g.lo, g.same_lo))
          (ap (λ x. (ip - x) / p'.span) g.same_lo ∙ ap (λ x. (ip - p.lo) / x) g.same_span ∙ index)
          g.at i_below (r ∙ ap (λ o. some (s2, o)) g.held),
      omega (arith, inside, g.lo),
      omega (arith, inside, g.lo, g.usable, slice_end i p.n_shards p.span p.lo b),
    )

-- In a valid pool `intern` never panics: it gives an address of the pool's slices, the pool stays
-- valid, and `lookback` of the address gives the name in lower case.
pub lookback-intern_pool :
    (p : FakeIpPool) (domain : Bytes)
    → IsValid p
    → (p' : FakeIpPool) × (ip : ℕ) × (p'' : FakeIpPool) × (intern p domain ≡ some (p', ip))
      × IsValid p'
      × (p.lo ≤ ip)
      × (ip < p.lo + p.n_shards * p.span)
      × (lookback p' ip ≡ some (p'', some (lowered domain)))
unfolding intern
lookback-intern_pool p domain v =
    let d = lowered domain in
    let h = rapidhash d rapidhash_seed in
    let i = fastrange h p.n_shards in
    let b =
      fastrange-lt h p.n_shards (rapidhash-lt d rapidhash_seed) v.one (omega (arith, v.few)) in
    let (p', ip, r, g) = intern_at_lem p i d (fmix64 h) v b (fmix64-lt h) in
    let (p'', back, above, below) = lookback_lem p p' i d ip v b g in
    (p', ip, p'', r, g.valid, above, below, back)
