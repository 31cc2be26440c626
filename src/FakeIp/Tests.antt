-- ===== src/FakeIp/Tests.antt =====
-- The fake addresses at concrete inputs.
use pao_pao_gate_way.Common.{
  ℕ, ◌+◌, ◌*◌, ◌<◌, ◌≤◌, ◌≡◌, refl, true, false, List, [], ◌∷◌, Option, none, some, arith, ltb,
  ℕ_discrete,
}
use pao_pao_gate_way.Common.Bytes.{Bytes, Bytes-discrete}
use pao_pao_gate_way.Common.Maps.{get, insert, remove}
use pao_pao_gate_way.FakeIp.Hash.{fmix64, fastrange, probe_step}
use pao_pao_gate_way.FakeIp.Valid.{is_valid_fakeip_domain}
use pao_pao_gate_way.FakeIp.Shard.{Shard, nil, ◌>>=◌}
use pao_pao_gate_way.FakeIp.Shard
use pao_pao_gate_way.FakeIp.Shard.Tables.{SameSlice}
use pao_pao_gate_way.FakeIp.Shard.Holders.{Holders, Holds, Interned, name_of, looked_up}
use pao_pao_gate_way.FakeIp.Shard.Refinement.{new-Holds, intern_refines, lookback_refines}
use pao_pao_gate_way.FakeIp.Shard.Recency.{Call, interned, run, lookback-intern}
use pao_pao_gate_way.FakeIp.Pool
use pao_pao_gate_way.FakeIp.Pool.{FakeIpPool, FakeIpConfig, Ipv4Net, Made, ok, lowered, shards_from}
use pao_pao_gate_way.FakeIp.Pool.Slices
use pao_pao_gate_way.FakeIp.Pool.Answers.{lookback-intern_pool}

program : Unit {0}
unfolding Shard.new Shard.intern Shard.lookback Shard.found Shard.promote Shard.unlink
    Shard.push_front Shard.evict_tail Shard.admit Shard.find_free_ip Shard.alloc_node
    Shard.skip_newer Shard.skip_older Shard.assign Shard.link_head Shard.probe Shard.scan
    Shard.address get insert remove Bytes-discrete ℕ_discrete fastrange fmix64 probe_step run
program = tt

-- "a.com", "b.com" and "c.com"
abbrev a_com : Bytes
a_com = b'a' ∷ b'.' ∷ b'c' ∷ b'o' ∷ b'm' ∷ []

abbrev b_com : Bytes
b_com = b'b' ∷ b'.' ∷ b'c' ∷ b'o' ∷ b'm' ∷ []

abbrev c_com : Bytes
c_com = b'c' ∷ b'.' ∷ b'c' ∷ b'o' ∷ b'm' ∷ []

-- 7.0.0.4 and 16 addresses, for two names.
abbrev base : ℕ
base = 0x07000004

abbrev small : Shard
small = Shard.new base 16 2

small-Holds : Holds small []
small-Holds = new-Holds base 16 2 (omega arith) (omega arith) (omega arith)

abbrev answer : Option (Shard × ℕ) → Option ℕ
answer none = none
answer (some (s, ip)) = some ip

abbrev name : Option (Shard × Option Bytes) → Option Bytes
name none = none
name (some (s, d)) = d

-- The names one after another, all at the hash 0.
abbrev fill : List Bytes → Shard → Option Shard
fill [] s = some s
fill (d ∷ ds) s = do (s1, ip) ← Shard.intern s d 0; fill ds s1

first_place : answer (Shard.intern small a_com 0) ≡ some base
unfolding program
first_place = refl

-- A collision: the second name probes on, and the third takes the place of the first.
oldest_goes :
    (do s ← fill (a_com ∷ b_com ∷ c_com ∷ []) small; name (Shard.lookback s base)) ≡ some c_com
unfolding program
oldest_goes = refl

used_stays :
    (do s ← fill (a_com ∷ b_com ∷ a_com ∷ c_com ∷ []) small; name (Shard.lookback s base))
    ≡ some a_com
unfolding program
used_stays = refl

intern_refines_example :
    (s' : Shard) × (ip : ℕ) × (l' : Holders) × (Shard.intern small a_com 5 ≡ some (s', ip))
    × Interned small.cap small.lo small.usable [] a_com ip l'
    × Holds s' l'
    × SameSlice small s'
intern_refines_example = intern_refines small [] a_com 5 small-Holds (omega arith)

-- The shard with one name.
abbrev one : Shard
one = record small {
  nodes = record { ip = base; domain = a_com; older = nil; newer = nil } ∷ [];
  by_domain = (a_com, 0) ∷ [];
  by_ip = (base, 0) ∷ [];
  head = 0;
  tail = 0;
  count = 1;
}

one_is_it : (do (s, ip) ← Shard.intern small a_com 0; some s) ≡ some one
unfolding program
one_is_it = refl

one-Holds : Holds one ((a_com, base) ∷ [])
unfolding Holds get Shard.new
one-Holds = (
  record { slot = 0; ip = base; domain = a_com } ∷ [],
  record {
    linked = record { chain = (refl, tt); head = refl; tail = refl; slots = (omega arith, tt, tt) };
    ips = λ ip. refl;
    domains = λ d. refl;
    unique_ips = (refl, tt);
    unique_domains = (refl, tt);
    inside = ((omega arith, omega arith), tt);
    counted = refl;
    listed = refl;
    distinct = (refl, tt);
    free = tt;
    places = refl;
    room = omega arith;
    some_room = omega arith;
    fits = omega arith;
    within = omega arith;
  },
  refl,
)

lookback_refines_example :
    (s' : Shard) × (Shard.lookback one base ≡ some (s', name_of base ((a_com, base) ∷ [])))
    × Holds s' (looked_up base ((a_com, base) ∷ []))
    × SameSlice one s'
lookback_refines_example = lookback_refines one ((a_com, base) ∷ []) base one-Holds

abbrev calls : List Call
calls = interned b_com 0 (omega arith) ∷ []

lookback-intern_example :
    (s1 : Shard) × (ip : ℕ) × (s2 : Shard) × (s3 : Shard) × (Shard.intern small a_com 0
      ≡ some (s1, ip))
    × (run s1 calls ≡ some s2)
    × (Shard.lookback s2 ip ≡ some (s3, some a_com))
unfolding Shard.new
lookback-intern_example =
    lookback-intern small [] a_com 0 calls small-Holds (omega arith) (omega arith)

-- 7.0.0.0/24
abbrev net : Ipv4Net
net = record {
  network = 0x07000000;
  broadcast = 0x070000ff;
  prefix_len = 24;
  has = λ ip. ltb ip 0x07000100;
}

abbrev config : FakeIpConfig
config = record { cidr = net; max_entries = 4; ttl = 3; shards = 1 }

abbrev pool : FakeIpPool
pool = record {
  shards = Shard.new base 251 4 ∷ [];
  net = net;
  ttl = 3;
  lo = base;
  span = 251;
  n_shards = 1;
}

pool_is_it : Pool.new config ≡ ok pool
unfolding Pool.new Pool.shards_from Pool.shard_number Pool.per_shard_cap Pool.cidr_geometry
pool_is_it = refl

pool-IsValid : Slices.IsValid pool
unfolding Shard.new
pool-IsValid = record {
  slices = (
    record {
      names = [];
      holds = new-Holds base 251 4 (omega arith) (omega arith) (omega arith);
      lo = refl;
      usable = refl;
    },
    tt,
  );
  all = refl;
  one = omega arith;
  few = omega arith;
  below = omega arith;
}

-- "A.com"
abbrev upper : Bytes
upper = b'A' ∷ b'.' ∷ b'c' ∷ b'o' ∷ b'm' ∷ []

lookback-intern_pool_example :
    (p' : FakeIpPool) × (ip : ℕ) × (p'' : FakeIpPool) × (Pool.intern pool upper ≡ some (p', ip))
    × Slices.IsValid p'
    × (pool.lo ≤ ip)
    × (ip < pool.lo + pool.n_shards * pool.span)
    × (Pool.lookback p' ip ≡ some (p'', some (lowered upper)))
lookback-intern_pool_example = lookback-intern_pool pool upper pool-IsValid

lowered-upper : lowered upper ≡ a_com
unfolding lowered
lowered-upper = refl

-- "a.com" is good, "a.b" and "x.test" are not.
good_name : is_valid_fakeip_domain a_com ≡ true
unfolding is_valid_fakeip_domain
good_name = refl

short_tld : is_valid_fakeip_domain (b'a' ∷ b'.' ∷ b'b' ∷ []) ≡ false
unfolding is_valid_fakeip_domain
short_tld = refl

reserved_tld : is_valid_fakeip_domain (b'x' ∷ b'.' ∷ b't' ∷ b'e' ∷ b's' ∷ b't' ∷ []) ≡ false
unfolding is_valid_fakeip_domain
reserved_tld = refl
