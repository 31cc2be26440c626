-- ===== src/FakeIp/Shard/Refinement.antt =====
-- The shard implements the list of names: `intern` and `lookback` never panic, and take the list
-- where it should go.
use pao_pao_gate_way.Common.{
  ℕ, ◌+◌, ◌<◌, ◌≤◌, ◌≡◌, refl, ap, subst, sym, ◌∙◌, List, [], ◌∷◌, ◌++◌, none, some, arith,
  ℕ_discrete, Option-cases, inl, inr,
}
use pao_pao_gate_way.Common.Bytes.{Bytes, Bytes-discrete}
use pao_pao_gate_way.Common.Maps.{get}
use pao_pao_gate_way.FakeIp.Hash.{u64_mod}
use pao_pao_gate_way.FakeIp.Shard.{Shard, new, nil, intern, lookback}
use pao_pao_gate_way.FakeIp.Shard.Links.{Entry}
use pao_pao_gate_way.FakeIp.Shard.Entries.{slot_of-some}
use pao_pao_gate_way.FakeIp.Shard.Tables.{IsValid, SameSlice, by_its_ip, by_its_domain}
use pao_pao_gate_way.FakeIp.Shard.Holders.{
  Holders, Holds, Interned, known, name_of, touch, looked_up, view, found-Holds, intern_known,
  intern_fresh, name_of-none, name_of-middle, ip_of-middle,
}

-- A new shard holds no names, if its slice is not empty and lies within the addresses.
pub new-Holds :
    (lo usable cap : ℕ) → 1 ≤ cap → cap ≤ usable → lo + usable ≤ nil → Holds (new lo usable cap) []
unfolding new Holds get
new-Holds lo usable cap a b c = (
  [],
  record {
    linked = record { chain = tt; head = refl; tail = refl; slots = tt };
    ips = λ ip. refl;
    domains = λ d. refl;
    unique_ips = tt;
    unique_domains = tt;
    inside = tt;
    counted = refl;
    listed = refl;
    distinct = tt;
    free = tt;
    places = omega arith;
    room = omega arith;
    some_room = a;
    fits = b;
    within = c;
  },
  refl,
)

-- What `intern` does to the list: it returns, and the list goes where it should.
abbrev Interns : Shard → Holders → Bytes → ℕ → Type 0
Interns s l d h =
    (s' : Shard) × (ip : ℕ) × (l' : Holders) × (intern s d h ≡ some (s', ip))
    × Interned s.cap s.lo s.usable l d ip l'
    × Holds s' l'
    × SameSlice s s'

intern_entry :
    (s : Shard) (xs : List Entry) (e : Entry) (ys : List Entry) (h i : ℕ)
    → IsValid s (xs ++ e ∷ ys)
    → by_its_domain e.domain (xs ++ e ∷ ys) ≡ some i
    → e.slot ≡ i
    → Interns s (view (xs ++ e ∷ ys)) e.domain h
intern_entry s xs e ys h i v found slot =
    let (s', r, k, same) =
      intern_known s xs e ys h v (v.domains e.domain ∙ found ∙ ap some (sym slot)) in
    (
      s',
      e.ip,
      touch e.domain e.ip (view (xs ++ e ∷ ys)),
      r,
      known (ip_of-middle xs e ys v.unique_domains),
      k,
      same,
    )

intern_at :
    (s : Shard) (es : List Entry) (d : Bytes) (h : ℕ)
    → IsValid s es
    → h < u64_mod
    → Interns s (view es) d h
intern_at s es d h v hash = elim (Option-cases (by_its_domain d es)) [
  | inl e ↦ intern_fresh s es d h v e hash
  | inr (i, e) ↦
      let (xs, f, ys, q, name, slot) = slot_of-some Bytes-discrete (λ e. e.domain) d es e in
      let found = ap (by_its_domain f.domain) (sym q) ∙ ap (λ n. by_its_domain n es) name ∙ e in
      subst (λ n. Interns s (view es) n h) name
        (subst (λ es. Interns s (view es) f.domain h) (sym q)
          (intern_entry s xs f ys h i (subst (IsValid s) q v) found slot))
]

-- In a shard that holds a list of names, `intern` never panics, whatever the hash: it gives an
-- address and the shard holds the next list. A name of the list keeps its address and comes to the
-- front. Another comes in front with an address of the slice that no name holds; if there are as many
-- names as may be, the one used longest ago goes.
pub intern_refines :
    (s : Shard) (l : Holders) (d : Bytes) (h : ℕ)
    → Holds s l
    → h < u64_mod
    → (s' : Shard) × (ip : ℕ) × (l' : Holders) × (intern s d h ≡ some (s', ip))
      × Interned s.cap s.lo s.usable l d ip l'
      × Holds s' l'
      × SameSlice s s'
unfolding Holds
intern_refines s l d h (es, v, q) hash = subst (λ l. Interns s l d h) q (intern_at s es d h v hash)

abbrev Looks : Shard → Holders → ℕ → Type 0
Looks s l ip =
    (s' : Shard) × (lookback s ip ≡ some (s', name_of ip l))
    × Holds s' (looked_up ip l)
    × SameSlice s s'

lookback_entry :
    (s : Shard) (xs : List Entry) (e : Entry) (ys : List Entry)
    → IsValid s (xs ++ e ∷ ys)
    → get ℕ_discrete e.ip s.by_ip ≡ some e.slot
    → Looks s (view (xs ++ e ∷ ys)) e.ip
unfolding lookback
lookback_entry s xs e ys v held =
    let (s', n, r, p, name, k, same) = found-Holds s xs e ys v in
    let m = name_of-middle xs e ys v.unique_ips in
    (
      s',
      ground (arith, held, r, name, m),
      subst
          (λ o.
            Holds s'
              (elim o [ none ↦ view (xs ++ e ∷ ys) | some d ↦ touch d e.ip (view (xs ++ e ∷ ys)) ]))
          (sym m) k,
      same,
    )

lookback_miss :
    (s : Shard) (es : List Entry) (ip : ℕ)
    → IsValid s es
    → by_its_ip ip es ≡ none
    → Looks s (view es) ip
unfolding lookback Holds
lookback_miss s es ip v e =
    let m = name_of-none ip es e in
    (
      s,
      ground (arith, v.ips ip, e, m),
      subst (λ o. Holds s (elim o [ none ↦ view es | some d ↦ touch d ip (view es) ])) (sym m)
          (es, v, refl),
      record { cap = refl; lo = refl; usable = refl },
    )

lookback_at : (s : Shard) (es : List Entry) (ip : ℕ) → IsValid s es → Looks s (view es) ip
lookback_at s es ip v = elim (Option-cases (by_its_ip ip es)) [
  | inl e ↦ lookback_miss s es ip v e
  | inr (i, e) ↦
      let (xs, f, ys, q, same_ip, slot) = slot_of-some ℕ_discrete (λ e. e.ip) ip es e in
      let held = ap (λ n. get ℕ_discrete n s.by_ip) same_ip ∙ v.ips ip ∙ e ∙ ap some (sym slot) in
      subst (Looks s (view es)) same_ip (
        subst (λ es. Looks s (view es) f.ip) (sym q)
          (lookback_entry s xs f ys (subst (IsValid s) q v) held))
]

-- In a shard that holds a list of names, `lookback` never panics: it gives the name that holds the
-- address, which comes to the front, or nothing if none does, and then the list stays.
pub lookback_refines :
    (s : Shard) (l : Holders) (ip : ℕ)
    → Holds s l
    → (s' : Shard) × (lookback s ip ≡ some (s', name_of ip l))
      × Holds s' (looked_up ip l)
      × SameSlice s s'
unfolding Holds
lookback_refines s l ip (es, v, q) = subst (λ l. Looks s l ip) q (lookback_at s es ip v)
