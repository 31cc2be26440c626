-- ===== src/Udp/SpoofCache/Order.antt =====
-- The sockets and the order in which they came.
use pao_pao_gate_way.Common.{
  ℕ, ◌+◌, ◌≤◌, ◌≡◌, refl, subst, ap, ite, max, Bool, true, false, List, [], ◌∷◌, ◌++◌, Option, none,
  some, arith, leb, is_some, length, length-append, Option-cases, Bool-cases, List-cases, inl, inr,
}
use pao_pao_gate_way.Common.Net.{Endpoint, Endpoint-discrete}
use pao_pao_gate_way.Common.Maps.{
  get, insert, remove, Distinct, get-insert, get-remove, Distinct-insert, Distinct-remove,
  length-insert_new, length-remove,
}
use pao_pao_gate_way.Udp.SpoofCache.{SpoofCache, new, bind_spoof, keep, fail, evict}

unfoldable pub mem : Endpoint → List Endpoint → Bool
mem k [] = false
mem k (j ∷ js) = ite (Endpoint-discrete j k) true (mem k js)

abbrev pub Unique : List Endpoint → Type 0
Unique [] = Unit
Unique (k ∷ ks) = (mem k ks ≡ false) × Unique ks

mem-snoc :
    (k j : Endpoint) (ks : List Endpoint)
    → mem j (ks ++ k ∷ []) ≡ ite (Endpoint-discrete k j) true (mem j ks)
unfolding mem
mem-snoc k j [] = refl
mem-snoc k j (i ∷ ks) = ground (arith, mem-snoc k j ks)

Unique-snoc :
    (k : Endpoint) (ks : List Endpoint) → mem k ks ≡ false → Unique ks → Unique (ks ++ k ∷ [])
unfolding Unique mem
Unique-snoc k [] h u = (refl, tt)
Unique-snoc k (i ∷ ks) h u = (ground (arith, mem-snoc k i ks), Unique-snoc k ks (ground arith) u.1)

-- The queue holds the addresses of the table, each of them once, and the table has room.
pub record IsValid (c : SpoofCache) : Type 0 where
  pub distinct : Distinct Endpoint-discrete c.map
  pub unique : Unique c.order
  pub same : (k : Endpoint) → is_some (get Endpoint-discrete k c.map) ≡ mem k c.order
  pub sizes : length c.map ≡ length c.order
  pub bounded : length c.map ≤ max c.cap 1

pub new-IsValid : (cap : ℕ) → IsValid (new cap)
unfolding new get mem
new-IsValid cap = record {
  distinct = tt;
  unique = tt;
  same = λ k. refl;
  sizes = refl;
  bounded = omega arith;
}

length-oldest_out :
    (c : SpoofCache) (o : Endpoint) (os : List Endpoint)
    → IsValid c
    → c.order ≡ o ∷ os
    → length (remove Endpoint-discrete o c.map) + 1 ≡ length c.map
unfolding mem
length-oldest_out c o os v e = elim (Option-cases (get Endpoint-discrete o c.map)) [
  | inl g ↦ absurd (ground (arith, v.same o, ap (mem o) e))
  | inr (w, g) ↦ length-remove Endpoint-discrete o w c.map v.distinct g
]

oldest_out :
    (c : SpoofCache) (o : Endpoint) (os : List Endpoint)
    → IsValid c
    → c.order ≡ o ∷ os
    → IsValid (record c { map = remove Endpoint-discrete o c.map; order = os })
unfolding mem
oldest_out c o os v e = record {
  distinct = Distinct-remove Endpoint-discrete o c.map v.distinct;
  unique = u.1;
  same = λ k. ground (arith, u.0, v.same k, ap (mem k) e, get-remove Endpoint-discrete o k c.map);
  sizes = omega (arith, v.sizes, ap length e, length-oldest_out c o os v e);
  bounded = omega (arith, v.bounded, length-oldest_out c o os v e);
}
  where
    u : Unique (o ∷ os)
    u = subst Unique e v.unique

newest_in :
    (c : SpoofCache) (src : Endpoint) (sock : ℕ) (nx : List (Endpoint × ℕ))
    → IsValid c
    → get Endpoint-discrete src c.map ≡ none
    → length c.map + 1 ≤ max c.cap 1
    → IsValid (record c {
      map = insert Endpoint-discrete src sock c.map;
      order = c.order ++ src ∷ [];
      nx = nx;
    })
newest_in c src sock nx v h r = record {
  distinct = Distinct-insert Endpoint-discrete src sock c.map v.distinct;
  unique = Unique-snoc src c.order (ground (arith, v.same src)) v.unique;
  same = λ k.
      ground
        (arith, v.same k, mem-snoc src k c.order, get-insert Endpoint-discrete src k sock c.map);
  sizes = omega (
    arith,
    v.sizes,
    length-append c.order (src ∷ []),
    length-insert_new Endpoint-discrete src sock c.map h,
  );
  bounded = omega (arith, r, length-insert_new Endpoint-discrete src sock c.map h);
}

evict-IsValid : (c : SpoofCache) → IsValid c → IsValid (evict c)
unfolding evict
evict-IsValid c v = elim (List-cases c.order) [
  | inl e ↦ elim (Bool-cases (leb c.cap (length c.map))) [ inl b ↦ rw (b, e) v | inr b ↦ rw b v ]
  | inr (o, os, e) ↦ elim (Bool-cases (leb c.cap (length c.map))) [
    | inl b ↦ rw (b, e) (oldest_out c o os v e)
    | inr b ↦ rw b v
  ]
]

-- There is room for one more after it, and it brings back no address.
evict-room : (c : SpoofCache) → IsValid c → length (evict c).map + 1 ≤ max (evict c).cap 1
unfolding evict
evict-room c v = elim (List-cases c.order) [
  | inl e ↦ ground (arith, v.sizes, v.bounded)
  | inr (o, os, e) ↦ ground (arith, length-oldest_out c o os v e, v.bounded)
]

pub evict-keeps_none :
    (c : SpoofCache) (k : Endpoint)
    → get Endpoint-discrete k c.map ≡ none
    → get Endpoint-discrete k (evict c).map ≡ none
unfolding evict
evict-keeps_none c k h = elim (List-cases c.order) [
  | inl e ↦ ground arith
  | inr (o, os, e) ↦ ground (arith, get-remove Endpoint-discrete o k c.map)
]

keep-IsValid :
    (c : SpoofCache) (src : Endpoint) (sock : ℕ)
    → IsValid c
    → get Endpoint-discrete src c.map ≡ none
    → IsValid (keep c src sock)
unfolding keep
keep-IsValid c src sock v h =
    newest_in (evict c) src sock (remove Endpoint-discrete src (evict c).nx) (evict-IsValid c v)
      (evict-keeps_none c src h) (evict-room c v)

fail-IsValid : (c : SpoofCache) (now : ℕ) (src : Endpoint) → IsValid c → IsValid (fail c now src)
unfolding fail
fail-IsValid c now src v = record {
  distinct = v.distinct;
  unique = v.unique;
  same = v.same;
  sizes = v.sizes;
  bounded = v.bounded;
}

pub bind_spoof-IsValid :
    (c : SpoofCache) (now : ℕ) (src : Endpoint) (bound : Option ℕ)
    → IsValid c
    → get Endpoint-discrete src c.map ≡ none
    → IsValid (bind_spoof c now src bound).1
unfolding bind_spoof
bind_spoof-IsValid c now src none v h = fail-IsValid c now src v
bind_spoof-IsValid c now src (some sock) v h = keep-IsValid c src sock v h

-- A record of failures does not touch the sockets.
pub forget-IsValid :
    (c : SpoofCache) (nx : List (Endpoint × ℕ)) → IsValid c → IsValid (record c { nx = nx })
forget-IsValid c nx v = record {
  distinct = v.distinct;
  unique = v.unique;
  same = v.same;
  sizes = v.sizes;
  bounded = v.bounded;
}
