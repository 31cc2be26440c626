-- ===== src/FakeIp/Shard.antt =====
-- `Shard` of sniffbox/crates/sb-dns/src/pool.rs: a slice of the fake addresses, with the names that
-- hold them in a doubly linked list, the last used in front. The list lies in a vector of nodes, its
-- links are indices, and the two tables give the index of a name and of an address. A name is its
-- bytes in lower case. `none` is a panic: an index out of range, an overflow, the `unreachable!`.
mod Links
mod Entries
mod Places
pub mod Tables
mod Evictions
mod Admissions
pub mod Holders
pub mod Refinement
mod Positions
pub mod Recency
mod Moves
use pao_pao_gate_way.Common.{
  ℕ, zero, suc, ◌+◌, ◌-◌, ◌%◌, Bool, List, [], ◌∷◌, ◌++◌, Option, none, some, leb, ◌==◌,
  if◌then◌else◌, length, get_elem?, set, ℕ_discrete,
}
use pao_pao_gate_way.Common.Bytes.{Bytes, Bytes-discrete}
use pao_pao_gate_way.Common.Maps.{get, insert, remove, contains_key}
use pao_pao_gate_way.FakeIp.Hash.{u32_mod, fastrange, probe_step}

abbrev pub probe_limit : ℕ
probe_limit = 32

-- `u32::MAX`
abbrev pub nil : ℕ
nil = 0xffffffff

pub record Node : Type 0 where
  pub ip : ℕ
  pub domain : Bytes
  pub older : ℕ
  pub newer : ℕ

-- The last of `free` is its first element.
pub record Shard : Type 0 where
  pub nodes : List Node
  pub free : List ℕ
  pub by_domain : List (Bytes × ℕ)
  pub by_ip : List (ℕ × ℕ)
  pub head : ℕ
  pub tail : ℕ
  pub count : ℕ
  pub cap : ℕ
  pub lo : ℕ
  pub usable : ℕ

unfoldable pub new : ℕ → ℕ → ℕ → Shard
new lo usable cap = record {
  nodes = [];
  free = [];
  by_domain = [];
  by_ip = [];
  head = nil;
  tail = nil;
  count = 0;
  cap = cap;
  lo = lo;
  usable = usable;
}

infixl 5 ◌>>=◌
abbrev pub ◌>>=◌ {ℓ κ} : {A : Type ℓ} {B : Type κ} → Option A → (A → Option B) → Option B
none >>= f = none
some a >>= f = f a

-- An assignment to fields of `nodes[i]`.
unfoldable pub assign : Shard → ℕ → (Node → Node) → Option Shard
assign s i f = do n ← get_elem? s.nodes i; some (record s { nodes = set s.nodes i (f n) })

-- `if newer != NIL { nodes[newer].older = older } else { head = older }`
unfoldable pub skip_newer : Shard → Node → Option Shard
unfolding assign
skip_newer s n =
    if n.newer == nil
    then some (record s { head = n.older })
    else assign s n.newer (λ m. record m { older = n.older })

unfoldable pub skip_older : Shard → Node → Option Shard
unfolding assign
skip_older s n =
    if n.older == nil
    then some (record s { tail = n.newer })
    else assign s n.older (λ m. record m { newer = n.newer })

unfoldable pub unlink : Shard → ℕ → Option Shard
unfolding skip_newer skip_older assign
unlink s idx = do
  n ← get_elem? s.nodes idx
  s1 ← skip_newer s n
  s2 ← skip_older s1 n
  assign s2 idx (λ m. record m { older = nil; newer = nil })

-- The link of the old head to the new one, if there is an old head.
unfoldable pub link_head : Shard → ℕ → ℕ → Option Shard
unfolding assign
link_head s old idx = if old == nil then some s else assign s old (λ m. record m { newer = idx })

unfoldable pub push_front : Shard → ℕ → Option Shard
unfolding assign link_head
push_front s idx = do
  s1 ← assign s idx (λ m. record m { older = s.head; newer = nil })
  s2 ← link_head s1 s.head idx
  some (record s2 { head = idx; tail = if s2.tail == nil then idx else s2.tail })

unfoldable pub promote : Shard → ℕ → Option Shard
unfolding unlink push_front
promote s idx =
    let moved = (do s1 ← unlink s idx; push_front s1 idx) in if s.head == idx then some s else moved

-- An address of the slice, by its offset.
unfoldable pub address : Shard → ℕ → ℕ
address s i = (s.lo + i) % u32_mod

abbrev pub in_use : Shard → ℕ → Bool
in_use s i = contains_key ℕ_discrete (address s i) s.by_ip

-- The first loop of `find_free_ip`.
unfoldable pub probe : Shard → ℕ → ℕ → ℕ → Option ℕ
unfolding address
probe s zero step i = none
probe s (suc rounds) step i =
    let j = (i + step) % s.usable in
    let rest = probe s rounds step j in if in_use s j then rest else some (address s j)

-- The second loop.
unfoldable pub scan : Shard → ℕ → ℕ → Option ℕ
unfolding address
scan s zero i = none
scan s (suc rounds) i =
    let j = (if i + 1 == s.usable then 0 else i + 1) in
    let rest = scan s rounds j in if in_use s j then rest else some (address s j)

unfoldable pub find_free_ip : Shard → ℕ → Option ℕ
unfolding probe scan address
find_free_ip s h =
    let i = fastrange h s.usable in
    if in_use s i
    then elim (probe s probe_limit (probe_step h s.usable) i) [
      | some ip ↦ some ip
      | none ↦ scan s s.usable i
    ]
    else some (address s i)

-- A node in the place that was freed last, or behind the others.
unfoldable pub alloc_node : Shard → ℕ → Bytes → Option (Shard × ℕ)
unfolding assign
alloc_node s ip domain =
    let n : Node = record { ip = ip; domain = domain; older = nil; newer = nil } in
    elim s.free [
      | idx ∷ free ↦ do
        s1 ← assign (record s { count = s.count + 1; free = free }) idx (λ _. n)
        some (s1, idx)
      | [] ↦
          some
            (record s { count = s.count + 1; nodes = s.nodes ++ n ∷ [] }, length s.nodes % u32_mod)
    ]

unfoldable pub evict_tail : Shard → Option Shard
unfolding assign
evict_tail s = do
  n ← get_elem? s.nodes s.tail
  s1 ← unlink s s.tail
  s2 ← assign s1 s.tail (λ m. record m { domain = [] })
  if s.count == 0
      then none
      else some (record s2 {
        by_ip = remove ℕ_discrete n.ip s2.by_ip;
        by_domain = remove Bytes-discrete n.domain s2.by_domain;
        free = s.tail ∷ s2.free;
        count = s2.count - 1;
      })

-- `intern` for a name that holds no address, when there is room.
unfoldable pub admit : Shard → Bytes → ℕ → Option (Shard × ℕ)
admit s domain place_hash = do
  ip ← find_free_ip s place_hash
  (s1, idx) ← alloc_node s ip domain
  s2 ←
      push_front
        (record s1 {
          by_domain = insert Bytes-discrete domain idx s1.by_domain;
          by_ip = insert ℕ_discrete ip idx s1.by_ip;
        })
        idx
  some (s2, ip)

-- The name in front, and the address of its node.
unfoldable pub found : Shard → ℕ → Option (Shard × Node)
found s idx = do s1 ← promote s idx; n ← get_elem? s1.nodes idx; some (s1, n)

unfoldable pub intern : Shard → Bytes → ℕ → Option (Shard × ℕ)
intern s domain place_hash = elim (get Bytes-discrete domain s.by_domain) [
  | some idx ↦ do (s1, n) ← found s idx; some (s1, n.ip)
  | none ↦ do s1 ← (if leb s.cap s.count then evict_tail s else some s); admit s1 domain place_hash
]

-- The shard afterwards, and the name that holds the address, if one does.
unfoldable pub lookback : Shard → ℕ → Option (Shard × Option Bytes)
lookback s ip = elim (get ℕ_discrete ip s.by_ip) [
  | none ↦ some (s, none)
  | some idx ↦ do (s1, n) ← found s idx; some (s1, some n.domain)
]
