-- ===== src/FakeIp/Shard/Tables.antt =====
-- The shard and its entries: the list, the two tables, the places that are free, and the bounds.
use pao_pao_gate_way.Common.{
  ℕ, suc, ◌+◌, ◌<◌, ◌≤◌, ◌≡◌, ◌≢◌, refl, ap, subst, sym, ◌∙◌, List, [], ◌∷◌, ◌++◌, Option, some,
  All, arith, length, ℕ_discrete,
}
use pao_pao_gate_way.Common.Bytes.{Bytes, Bytes-discrete}
use pao_pao_gate_way.Common.Maps.{get, Distinct}
use pao_pao_gate_way.FakeIp.Shard.{Node, Shard, nil, found}
use pao_pao_gate_way.FakeIp.Shard.Links.{
  Entry, first, final, Absent, Absent-parts, Absent-append, node, Slots-middle, Linked,
}
use pao_pao_gate_way.FakeIp.Shard.Moves.{with_list, promote_lem}
use pao_pao_gate_way.FakeIp.Shard.Entries.{slot_of, Unique, Unique-middle, slot_of-middle}

-- The keys of the two tables.
abbrev pub by_its_ip : ℕ → List Entry → Option ℕ
by_its_ip = slot_of ℕ_discrete (λ e. e.ip)

abbrev pub by_its_domain : Bytes → List Entry → Option ℕ
by_its_domain = slot_of Bytes-discrete (λ e. e.domain)

-- The places that no entry has: each is there, and none stands twice.
abbrev pub FreeSlots : ℕ → List Entry → List ℕ → Type 0
FreeSlots n es [] = Unit
FreeSlots n es (i ∷ is) = (i < n) × Absent i es × All (λ j. j ≢ i) is × FreeSlots n es is

pub record IsValid (s : Shard) (es : List Entry) : Type 0 where
  pub linked : Linked s es
  pub ips : (ip : ℕ) → get ℕ_discrete ip s.by_ip ≡ by_its_ip ip es
  pub domains : (d : Bytes) → get Bytes-discrete d s.by_domain ≡ by_its_domain d es
  pub unique_ips : Unique ℕ_discrete (λ e. e.ip) es
  pub unique_domains : Unique Bytes-discrete (λ e. e.domain) es
  pub inside : All (λ e. (s.lo ≤ e.ip) × (e.ip < s.lo + s.usable)) es
  pub counted : s.count ≡ length es
  pub listed : length s.by_ip ≡ length es
  pub distinct : Distinct ℕ_discrete s.by_ip
  pub free : FreeSlots (length s.nodes) es s.free
  pub places : length s.nodes ≡ s.count + length s.free
  pub room : length s.nodes ≤ s.cap
  pub some_room : 1 ≤ s.cap
  pub fits : s.cap ≤ s.usable
  pub within : s.lo + s.usable ≤ nil

-- Neither the slice nor the capacity changes.
pub record SameSlice (s s' : Shard) : Type 0 where
  pub cap : s'.cap ≡ s.cap
  pub lo : s'.lo ≡ s.lo
  pub usable : s'.usable ≡ s.usable

pub All-middle {κ} :
    (P : Entry → Type κ) (xs : List Entry) (e : Entry) (ys : List Entry)
    → All P (xs ++ e ∷ ys)
    → P e × All P (xs ++ ys)
All-middle P [] e ys h = h
All-middle P (x ∷ xs) e ys h = let (p, q) = All-middle P xs e ys h.1 in (p, (h.0, q))

pub length-middle :
    (xs : List Entry) (e : Entry) (ys : List Entry)
    → length (xs ++ e ∷ ys) ≡ suc (length (xs ++ ys))
length-middle [] e ys = refl
length-middle (x ∷ xs) e ys = ap suc (length-middle xs e ys)

pub FreeSlots-middle :
    (n : ℕ) (xs : List Entry) (e : Entry) (ys : List Entry) (is : List ℕ)
    → FreeSlots n (xs ++ e ∷ ys) is
    → FreeSlots n (e ∷ (xs ++ ys)) is
FreeSlots-middle n xs e ys [] h = tt
FreeSlots-middle n xs e ys (i ∷ is) h =
    let (a, b) = Absent-parts i xs (e ∷ ys) h.1 in
    (h.0, (b.0, Absent-append i xs ys a b.1), h.2, FreeSlots-middle n xs e ys is h.3)

-- An entry that is found comes to the front; its node gives its address and its name.
pub found_lem :
    (s : Shard) (xs : List Entry) (e : Entry) (ys : List Entry)
    → IsValid s (xs ++ e ∷ ys)
    → (s' : Shard) × (n : Node) × (found s e.slot ≡ some (s', n))
      × (n.ip ≡ e.ip)
      × (n.domain ≡ e.domain)
      × IsValid s' (e ∷ (xs ++ ys))
      × SameSlice s s'
unfolding found
found_lem s xs e ys v =
    let (nodes, r, c, l) = promote_lem s xs e ys v.linked in
    let (q, absent, below) = Slots-middle xs e ys v.linked.slots in
    let es = xs ++ ys in
    let s' = with_list s nodes e.slot (final nil (e ∷ es)) in
    (
      s',
      node e (first nil es) nil,
      ground (arith, r, c.0),
      refl,
      refl,
      record {
        linked = record { chain = c; head = refl; tail = refl; slots = (below, absent, q) };
        ips = λ ip. v.ips ip ∙ slot_of-middle ℕ_discrete (λ e. e.ip) ip xs e ys v.unique_ips;
        domains = λ d.
            v.domains d ∙ slot_of-middle Bytes-discrete (λ e. e.domain) d xs e ys v.unique_domains;
        unique_ips =
            let (u, n) = Unique-middle ℕ_discrete (λ e. e.ip) xs e ys v.unique_ips in (n, u);
        unique_domains =
            let (u, n) = Unique-middle Bytes-discrete (λ e. e.domain) xs e ys v.unique_domains in
            (n, u);
        inside = All-middle (λ e. (s.lo ≤ e.ip) × (e.ip < s.lo + s.usable)) xs e ys v.inside;
        counted = v.counted ∙ length-middle xs e ys;
        listed = v.listed ∙ length-middle xs e ys;
        distinct = v.distinct;
        free =
            subst (λ n. FreeSlots n (e ∷ es) s.free) (sym l)
              (FreeSlots-middle (length s.nodes) xs e ys s.free v.free);
        places = l ∙ v.places;
        room = omega (arith, l, v.room);
        some_room = v.some_room;
        fits = v.fits;
        within = v.within;
      },
      record { cap = refl; lo = refl; usable = refl },
    )
