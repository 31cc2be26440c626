-- ===== src/FakeIp/Pool.antt =====
-- `FakeIpPool` of sniffbox/crates/sb-dns/src/pool.rs: the fake addresses in slices, each a shard behind
-- a lock of its own. A call holds the lock of one shard. `Ipv4Net` is of the crate ipnet: a net is
-- what the pool asks of it once `trunc` is done. `none` is a panic.
pub mod Slices
pub mod Answers
use pao_pao_gate_way.Common.{
  ℕ, zero, suc, ◌+◌, ◌-◌, ◌*◌, ◌/◌, min, max, Bool, false, ◌&&◌, List, [], ◌∷◌, Option, none, some,
  any, ltb, leb, ◌==◌, if◌then◌else◌, length, get_elem?, set, map,
}
use pao_pao_gate_way.Common.Bytes.{Bytes}
use pao_pao_gate_way.Common.Net.{IpAddr, v4, v6}
use pao_pao_gate_way.Common.Text.{to_ascii_lowercase}
use pao_pao_gate_way.FakeIp.Hash.{fastrange, fmix64, rapidhash, rapidhash_seed}
use pao_pao_gate_way.FakeIp.Shard.{Shard, nil, ◌>>=◌}
use pao_pao_gate_way.FakeIp.Shard

abbrev pub first_offset : ℕ
first_offset = 4

abbrev pub min_usable : ℕ
min_usable = 16

abbrev pub min_shard_usable : ℕ
min_shard_usable = 16

abbrev pub default_shards : ℕ
default_shards = 16

pub record Ipv4Net : Type 0 where
  pub network : ℕ
  pub broadcast : ℕ
  pub prefix_len : ℕ
  pub has : ℕ → Bool

pub record FakeIpConfig : Type 0 where
  pub cidr : Ipv4Net
  pub max_entries : ℕ
  pub ttl : ℕ
  pub shards : ℕ

pub data FakeIpError : Type 0 where
  cidr_too_small : (prefix usable min : ℕ) → FakeIpError

pub record FakeIpPool : Type 0 where
  pub shards : List Shard
  pub net : Ipv4Net
  pub ttl : ℕ
  pub lo : ℕ
  pub span : ℕ
  pub n_shards : ℕ

pub data Made : Type 0 where
  ok : FakeIpPool → Made
  err : FakeIpError → Made

-- The first address, and how many there are: of u32, with saturating operations.
unfoldable pub cidr_geometry : Ipv4Net → ℕ × ℕ
cidr_geometry net = let lo = min (net.network + first_offset) nil in (lo, net.broadcast - lo)

pub usable_addrs : Ipv4Net → ℕ
unfolding cidr_geometry
usable_addrs cidr = (cidr_geometry cidr).1

abbrev pub clamp : ℕ → ℕ → ℕ → ℕ
clamp x low high = max low (min x high)

abbrev pub div_ceil : ℕ → ℕ → ℕ
div_ceil a b = (a + b - 1) / b

-- The shards from the `i`-th on.
unfoldable pub shards_from : ℕ → ℕ → ℕ → ℕ → ℕ → List Shard
shards_from zero i lo span cap = []
shards_from (suc k) i lo span cap =
    Shard.new (lo + i * span) span cap ∷ shards_from k (i + 1) lo span cap

-- How many shards there are, and how many names each may hold.
unfoldable pub shard_number : ℕ → ℕ → ℕ
shard_number requested usable = min (max requested 1) (max (usable / min_shard_usable) 1)

unfoldable pub per_shard_cap : ℕ → ℕ → ℕ → ℕ
per_shard_cap max_entries usable n = clamp (div_ceil (clamp max_entries 1 usable) n) 1 (usable / n)

unfoldable pub new : FakeIpConfig → Made
unfolding cidr_geometry
new cfg =
    let (lo, usable) = cidr_geometry cfg.cidr in
    if ltb usable min_usable
    then err (cidr_too_small cfg.cidr.prefix_len usable min_usable)
    else (let n = shard_number cfg.shards usable in
        ok (record {
          shards = shards_from n 0 lo (usable / n) (per_shard_cap cfg.max_entries usable n);
          net = cfg.cidr;
          ttl = cfg.ttl;
          lo = lo;
          span = usable / n;
          n_shards = n;
        }))

unfoldable pub is_ascii_uppercase : ℕ → Bool
is_ascii_uppercase b = leb b'A' b && leb b b'Z'

unfoldable pub lowered : Bytes → Bytes
unfolding is_ascii_uppercase
lowered domain = if any is_ascii_uppercase domain then map to_ascii_lowercase domain else domain

-- A call of one shard, and the shard put back.
unfoldable pub intern_at : FakeIpPool → ℕ → Bytes → ℕ → Option (FakeIpPool × ℕ)
intern_at p i d place_hash = do
  s ← get_elem? p.shards i
  (s1, ip) ← Shard.intern s d place_hash
  some (record p { shards = set p.shards i s1 }, ip)

pub intern : FakeIpPool → Bytes → Option (FakeIpPool × ℕ)
intern p domain =
    let d = lowered domain in
    let h = rapidhash d rapidhash_seed in intern_at p (fastrange h p.n_shards) d (fmix64 h)

unfoldable pub lookback_at : FakeIpPool → ℕ → ℕ → Option (FakeIpPool × Option Bytes)
lookback_at p i ip = do
  s ← get_elem? p.shards i
  (s1, d) ← Shard.lookback s ip
  some (record p { shards = set p.shards i s1 }, d)

-- `span` is not zero in a pool that `new` makes.
pub lookback : FakeIpPool → ℕ → Option (FakeIpPool × Option Bytes)
lookback p ip =
    if ltb ip p.lo
    then some (p, none)
    else (let i = (ip - p.lo) / p.span in
        if leb (length p.shards) i then some (p, none) else lookback_at p i ip)

pub contains : FakeIpPool → IpAddr → Bool
contains p (v4 a) = p.net.has a
contains p (v6 a) = false

pub len : FakeIpPool → ℕ
len p = sum p.shards
  where
    sum : List Shard → ℕ
    sum [] = 0
    sum (s ∷ ss) = s.count + sum ss

pub is_empty : FakeIpPool → Bool
unfolding len
is_empty p = len p == 0
