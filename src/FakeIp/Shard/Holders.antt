-- ===== src/FakeIp/Shard/Holders.antt =====
-- What a shard promises, with the nodes, the places and the hashes forgotten: the names that hold an
-- address, the last used in front. `intern` and `lookback` are steps on that list.
use pao_pao_gate_way.Common.{
  ℕ, suc, ◌+◌, ◌<◌, ◌≤◌, ◌≡◌, refl, ap, subst, sym, ◌∙◌, List, [], ◌∷◌, ◌++◌, Option, none, some,
  arith, length, ℕ_discrete, ite, leb, if◌then◌else◌, map, Bool-cases, inl, inr,
}
use mathlib.Core.List.{append-nil}
use pao_pao_gate_way.Common.Bytes.{Bytes, Bytes-discrete}
use pao_pao_gate_way.Common.Maps.{get, remove, remove_absent}
use pao_pao_gate_way.FakeIp.Hash.{u64_mod}
use pao_pao_gate_way.FakeIp.Shard.{Node, Shard, found, evict_tail, intern}
use pao_pao_gate_way.FakeIp.Shard.Links.{Entry}
use pao_pao_gate_way.FakeIp.Shard.Entries.{
  Unique, slot_of-none-append, slot_of-append-none, key-ne, last_entry,
}
use pao_pao_gate_way.FakeIp.Shard.Tables.{by_its_ip, by_its_domain, IsValid, SameSlice, found_lem}
use pao_pao_gate_way.FakeIp.Shard.Evictions.{evict_tail_lem}
use pao_pao_gate_way.FakeIp.Shard.Admissions.{admit_lem}

abbrev pub Holders : Type 0
Holders = List (Bytes × ℕ)

abbrev pub ip_of : Bytes → Holders → Option ℕ
ip_of = get Bytes-discrete

-- The name that holds the address.
abbrev pub name_of : ℕ → Holders → Option Bytes
name_of ip [] = none
name_of ip ((d, i) ∷ l) = ite (ℕ_discrete i ip) (some d) (name_of ip l)

abbrev pub drop_last : Holders → Holders
drop_last [] = []
drop_last (x ∷ []) = []
drop_last (x ∷ y ∷ l) = x ∷ drop_last (y ∷ l)

-- The name in front of the others.
abbrev pub touch : Bytes → ℕ → Holders → Holders
touch d ip l = (d, ip) ∷ remove Bytes-discrete d l

-- A name that holds an address keeps it. Another gets an address of the slice that no name holds,
-- in place of the name used longest ago if there are as many as may be.
pub data Interned (cap lo usable : ℕ) (l : Holders) (d : Bytes) (ip : ℕ) : Holders → Type 0 where
  known : ip_of d l ≡ some ip → Interned cap lo usable l d ip (touch d ip l)
  fresh :
      (kept : Holders)
      → kept ≡ (if leb cap (length l) then drop_last l else l)
      → ip_of d l ≡ none
      → name_of ip kept ≡ none
      → lo ≤ ip
      → ip < lo + usable
      → Interned cap lo usable l d ip ((d, ip) ∷ kept)

-- The list after a lookup.
abbrev pub looked_up : ℕ → Holders → Holders
looked_up ip l = elim (name_of ip l) [ none ↦ l | some d ↦ touch d ip l ]

abbrev pub holder : Entry → Bytes × ℕ
holder e = (e.domain, e.ip)

abbrev pub view : List Entry → Holders
view = map holder

-- The shard holds these names.
unfoldable pub Holds : Shard → Holders → Type 0
Holds s l = (es : List Entry) × IsValid s es × (view es ≡ l)

pub ip_of-none :
    (d : Bytes) (es : List Entry) → by_its_domain d es ≡ none → ip_of d (view es) ≡ none
unfolding get
ip_of-none d [] h = refl
ip_of-none d (e ∷ es) h = ground (arith, ip_of-none d es)

pub name_of-none : (ip : ℕ) (es : List Entry) → by_its_ip ip es ≡ none → name_of ip (view es) ≡ none
name_of-none ip [] h = refl
name_of-none ip (e ∷ es) h = ground (arith, name_of-none ip es)

pub ip_of-middle :
    (xs : List Entry) (e : Entry) (ys : List Entry)
    → Unique Bytes-discrete (λ e. e.domain) (xs ++ e ∷ ys)
    → ip_of e.domain (view (xs ++ e ∷ ys)) ≡ some e.ip
unfolding get
ip_of-middle [] e ys u = ground arith
ip_of-middle (x ∷ xs) e ys u =
    ground
      (arith, ip_of-middle xs e ys u.1, key-ne Bytes-discrete (λ e. e.domain) x.domain xs e ys u.0)

pub remove-view :
    (xs : List Entry) (e : Entry) (ys : List Entry)
    → Unique Bytes-discrete (λ e. e.domain) (xs ++ e ∷ ys)
    → remove Bytes-discrete e.domain (view (xs ++ e ∷ ys)) ≡ view (xs ++ ys)
unfolding remove
remove-view [] e ys u =
    ground (arith, remove_absent Bytes-discrete e.domain (view ys) (ip_of-none e.domain ys u.0))
remove-view (x ∷ xs) e ys u =
    ground
      (arith, remove-view xs e ys u.1, key-ne Bytes-discrete (λ e. e.domain) x.domain xs e ys u.0)

pub name_of-middle :
    (xs : List Entry) (e : Entry) (ys : List Entry)
    → Unique ℕ_discrete (λ e. e.ip) (xs ++ e ∷ ys)
    → name_of e.ip (view (xs ++ e ∷ ys)) ≡ some e.domain
name_of-middle [] e ys u = ground arith
name_of-middle (x ∷ xs) e ys u =
    ground (arith, name_of-middle xs e ys u.1, key-ne ℕ_discrete (λ e. e.ip) x.ip xs e ys u.0)

drop_last-view : (xs : List Entry) (e : Entry) → drop_last (view (xs ++ e ∷ [])) ≡ view xs
drop_last-view [] e = refl
drop_last-view (x ∷ []) e = refl
drop_last-view (x ∷ y ∷ xs) e = ap (λ l. holder x ∷ l) (drop_last-view (y ∷ xs) e)

pub length-view : (es : List Entry) → length (view es) ≡ length es
length-view [] = refl
length-view (e ∷ es) = ap suc (length-view es)

-- A name or an address that the tables find, at its entry.
pub found-Holds :
    (s : Shard) (xs : List Entry) (e : Entry) (ys : List Entry)
    → IsValid s (xs ++ e ∷ ys)
    → (s' : Shard) × (n : Node) × (found s e.slot ≡ some (s', n))
      × (n.ip ≡ e.ip)
      × (n.domain ≡ e.domain)
      × Holds s' (touch e.domain e.ip (view (xs ++ e ∷ ys)))
      × SameSlice s s'
unfolding Holds
found-Holds s xs e ys v =
    let (s', n, r, p, q, w, same) = found_lem s xs e ys v in
    (
      s',
      n,
      r,
      p,
      q,
      (e ∷ (xs ++ ys), w, ap (λ l. holder e ∷ l) (sym (remove-view xs e ys v.unique_domains))),
      same,
    )

pub intern_known :
    (s : Shard) (xs : List Entry) (e : Entry) (ys : List Entry) (h : ℕ)
    → IsValid s (xs ++ e ∷ ys)
    → get Bytes-discrete e.domain s.by_domain ≡ some e.slot
    → (s' : Shard) × (intern s e.domain h ≡ some (s', e.ip))
      × Holds s' (touch e.domain e.ip (view (xs ++ e ∷ ys)))
      × SameSlice s s'
unfolding intern
intern_known s xs e ys h v held =
    let (s', n, r, p, q, w, same) = found-Holds s xs e ys v in
    (s', ground (arith, held, r, p), w, same)

-- Room for one more: the entry used longest ago goes if there are as many as may be.
record Room (s s1 : Shard) (es kept : List Entry) : Type 0 where
  made : (if leb s.cap s.count then evict_tail s else some s) ≡ some s1
  valid : IsValid s1 kept
  shown : view kept ≡ (if leb s.cap (length (view es)) then drop_last (view es) else view es)
  free : s1.count < s1.cap
  same : SameSlice s s1
  fewer : (d : Bytes) → by_its_domain d es ≡ none → by_its_domain d kept ≡ none

evicted-Room :
    (s : Shard) (xs : List Entry) (f : Entry)
    → IsValid s (xs ++ f ∷ [])
    → s.cap ≤ s.count
    → (s1 : Shard) × Room s s1 (xs ++ f ∷ []) (xs ++ [])
evicted-Room s xs f v full =
    let (s1, r, w, same, c) = evict_tail_lem s xs f v in
    let n = length-view (xs ++ f ∷ []) in
    (
      s1,
      record {
        made = ground (arith, r);
        valid = w;
        shown = ap view (append-nil xs) ∙ sym (drop_last-view xs f) ∙ ground (arith, n, v.counted);
        free = omega (arith, same.cap, v.room, v.places);
        same = same;
        fewer = λ d a.
            slot_of-none-append Bytes-discrete (λ e. e.domain) d xs []
              (slot_of-append-none Bytes-discrete (λ e. e.domain) d xs (f ∷ []) a).0 refl;
      },
    )

full-Room :
    (s : Shard) (es : List Entry)
    → IsValid s es
    → s.cap ≤ s.count
    → (s1 : Shard) × (kept : List Entry) × Room s s1 es kept
full-Room s [] v full = absurd (omega (arith, v.some_room, v.counted))
full-Room s (y ∷ ys) v full =
    let (xs, f, q, _) = last_entry y ys in
    let (s1, r) = evicted-Room s xs f (subst (IsValid s) q v) full in
    (s1, xs ++ [], subst (λ es. Room s s1 es (xs ++ [])) (sym q) r)

make-Room :
    (s : Shard) (es : List Entry)
    → IsValid s es
    → (s1 : Shard) × (kept : List Entry) × Room s s1 es kept
make-Room s es v = elim (Bool-cases (leb s.cap s.count)) [
  | inl full ↦ full-Room s es v (ground arith)
  | inr spare ↦ (
    s,
    es,
    record {
      made = ground arith;
      valid = v;
      shown = ground (arith, length-view es, v.counted);
      free = ground arith;
      same = record { cap = refl; lo = refl; usable = refl };
      fewer = λ d a. a;
    },
  )
]

pub intern_fresh :
    (s : Shard) (es : List Entry) (d : Bytes) (h : ℕ)
    → IsValid s es
    → by_its_domain d es ≡ none
    → h < u64_mod
    → (s' : Shard) × (ip : ℕ) × (l' : Holders) × (intern s d h ≡ some (s', ip))
      × Interned s.cap s.lo s.usable (view es) d ip l'
      × Holds s' l'
      × SameSlice s s'
unfolding intern Holds
intern_fresh s es d h v new hash =
    let (s1, kept, r) = make-Room s es v in
    let (s', e, a, name, free, w, same) =
      admit_lem s1 kept d h r.valid r.free (r.fewer d new) hash in
    (
      s',
      e.ip,
      (d, e.ip) ∷ view kept,
      ground (arith, v.domains d, new, r.made, a),
      fresh (view kept) r.shown (ip_of-none d es new) (name_of-none e.ip kept free)
          (omega (arith, w.inside.0, same.lo, r.same.lo))
          (omega (arith, w.inside.0, same.lo, r.same.lo, same.usable, r.same.usable)),
      (e ∷ kept, w, ap (λ n. (n, e.ip) ∷ view kept) name),
      record {
        cap = same.cap ∙ r.same.cap;
        lo = same.lo ∙ r.same.lo;
        usable = same.usable ∙ r.same.usable;
      },
    )
