-- ===== src/FakeIp/Shard/Admissions.antt =====
-- `admit`: a name that holds no address gets one that is free, and a node in a free place.
use pao_pao_gate_way.Common.{
  ℕ, ◌+◌, ◌<◌, ◌≤◌, ◌≡◌, ◌≢◌, refl, ap, subst, sym, ◌∙◌, List, [], ◌∷◌, ◌++◌, Option, none, some,
  All, arith, length, length-append, get_elem?, set, length-set, ℕ_discrete, ite, lt_of_get_elem?,
  get_elem?_lt, get_elem?-append, get_elem?-append_end, List-cases, inl, inr,
}
use pao_pao_gate_way.Common.Bytes.{Bytes, Bytes-discrete}
use pao_pao_gate_way.Common.Maps.{get, insert, get-insert, Distinct-insert, length-insert_new}
use pao_pao_gate_way.FakeIp.Hash.{u32_mod, u64_mod}
use pao_pao_gate_way.FakeIp.Shard.{Node, Shard, nil, alloc_node, admit, assign}
use pao_pao_gate_way.FakeIp.Shard.Links.{Entry, final, Absent, Chain, Chain-set, Linked, set_here}
use pao_pao_gate_way.FakeIp.Shard.Moves.{with_list, push_front_lem}
use pao_pao_gate_way.FakeIp.Shard.Entries.{slot_of}
use pao_pao_gate_way.FakeIp.Shard.Places.{Vacant-facts, find_free_ip-Vacant}
use pao_pao_gate_way.FakeIp.Shard.Tables.{by_its_ip, by_its_domain, IsValid, SameSlice, FreeSlots}

Chain-append :
    (nodes : List Node) (n : Node) (newer older : ℕ) (es : List Entry)
    → Chain nodes newer es older
    → Chain (nodes ++ n ∷ []) newer es older × Absent (length nodes) es
Chain-append nodes n newer older [] h = (tt, tt)
Chain-append nodes n newer older (e ∷ es) h =
    let (p, q) = Chain-append nodes n e.slot older es h.1 in
    let b = lt_of_get_elem? nodes e.slot h.0 in
    ((get_elem?-append nodes (n ∷ []) e.slot b ∙ h.0, p), (λ k. absurd (omega arith), q))

FreeSlots-cons :
    (n : ℕ) (e : Entry) (es : List Entry) (is : List ℕ)
    → FreeSlots n es is
    → All (λ j. j ≢ e.slot) is
    → FreeSlots n (e ∷ es) is
FreeSlots-cons n e es [] h a = tt
FreeSlots-cons n e es (i ∷ is) h a =
    (h.0, (λ k. a.0 (sym k), h.1), h.2, FreeSlots-cons n e es is h.3 a.1)

-- The place that is taken: the nodes afterwards, the places left, and the slot.
pub record Taken (s : Shard) (es : List Entry) (n : Node) (nodes : List Node) (free : List ℕ)
    (slot : ℕ) : Type 0 where
  pub here : get_elem? nodes slot ≡ some n
  pub chain : Chain nodes nil es nil
  pub absent : Absent slot es
  pub below : slot < nil
  pub still : FreeSlots (length nodes) es free
  pub others : All (λ j. j ≢ slot) free
  pub places : length nodes ≡ s.count + 1 + length free
  pub room : length nodes ≤ s.cap

alloc_node_free :
    (s : Shard) (ip idx : ℕ) (d : Bytes) (free : List ℕ) {m : Node}
    → s.free ≡ idx ∷ free
    → get_elem? s.nodes idx ≡ some m
    → alloc_node s ip d
      ≡ some (
        record s {
          count = s.count + 1;
          nodes = set s.nodes idx (record { ip = ip; domain = d; older = nil; newer = nil });
          free = free;
        },
        idx,
      )
unfolding alloc_node assign
alloc_node_free s ip idx d free e at = ground (arith, e, at)

alloc_node_new :
    (s : Shard) (ip : ℕ) (d : Bytes)
    → s.free ≡ []
    → length s.nodes < u32_mod
    → alloc_node s ip d
      ≡ some (
        record s {
          count = s.count + 1;
          nodes = s.nodes ++ record { ip = ip; domain = d; older = nil; newer = nil } ∷ [];
          free = [];
        },
        length s.nodes,
      )
unfolding alloc_node
alloc_node_new s ip d e b = ground (arith, e)

alloc_node_lem :
    (s : Shard) (es : List Entry) (ip : ℕ) (d : Bytes)
    → IsValid s es
    → s.count < s.cap
    → (nodes : List Node) × (free : List ℕ) × (slot : ℕ) × (alloc_node s ip d
        ≡ some (record s { count = s.count + 1; nodes = nodes; free = free }, slot))
      × Taken s es (record { ip = ip; domain = d; older = nil; newer = nil }) nodes free slot
alloc_node_lem s es ip d v room = elim (List-cases s.free) [
  | inl e ↦
      let (c, a) = Chain-append s.nodes n nil nil es v.linked.chain in
      let l = length-append s.nodes (n ∷ []) in
      let places : length s.nodes ≡ s.count = omega (arith, v.places, ap length e) in
      (
        s.nodes ++ n ∷ [],
        [],
        length s.nodes,
        alloc_node_new s ip d e (omega (arith, v.fits, v.within)),
        record {
          here = get_elem?-append_end s.nodes (n ∷ []);
          chain = c;
          absent = a;
          below = omega (arith, v.fits, v.within);
          still = tt;
          others = tt;
          places = omega (arith, l);
          room = omega (arith, l);
        },
      )
  | inr (idx, free, e) ↦
      let f = subst (FreeSlots (length s.nodes) es) e v.free in
      let (m, at) = get_elem?_lt s.nodes idx f.0 in
      let l = length-set s.nodes idx n in
      (
        set s.nodes idx n,
        free,
        idx,
        alloc_node_free s ip idx d free e at,
        record {
          here = set_here s.nodes idx n at;
          chain = Chain-set s.nodes idx n nil nil es f.0 f.1 v.linked.chain;
          absent = f.1;
          below = omega (arith, f.0, v.room, v.fits, v.within);
          still = subst (λ k. FreeSlots k es free) (sym l) f.3;
          others = f.2;
          places = omega (arith, l, v.places, ap length e);
          room = omega (arith, l, v.room);
        },
      )
]
  where
    n : Node
    n = record { ip = ip; domain = d; older = nil; newer = nil }

-- A table with one more key.
get-admitted {ℓ} :
    {K : Type ℓ} (dec : Discrete K) (key : Entry → K) (k : K) (e : Entry) (es : List Entry)
    (o : Option ℕ)
    → o ≡ slot_of dec key k es
    → ite (dec (key e) k) (some e.slot) o ≡ slot_of dec key k (e ∷ es)
get-admitted dec key k e es o h = ground (arith, h)

-- The name holds the address from then on, and is in front.
pub admit_lem :
    (s : Shard) (es : List Entry) (d : Bytes) (h : ℕ)
    → IsValid s es
    → s.count < s.cap
    → by_its_domain d es ≡ none
    → h < u64_mod
    → (s' : Shard) × (e : Entry) × (admit s d h ≡ some (s', e.ip))
      × (e.domain ≡ d)
      × (by_its_ip e.ip es ≡ none)
      × IsValid s' (e ∷ es)
      × SameSlice s s'
unfolding admit
admit_lem s es d h v room new hash =
    let (ip, r, vacant) =
      find_free_ip-Vacant s h v.distinct (omega (arith, v.listed, v.counted, v.fits)) v.within
        hash in
    let (unheld, above, below) = Vacant-facts s ip v.within vacant in
    let (nodes, free, slot, a, t) = alloc_node_lem s es ip d v room in
    let e : Entry = record { slot = slot; ip = ip; domain = d } in
    let s1 : Shard = record s {
      count = s.count + 1;
      nodes = nodes;
      free = free;
      by_domain = insert Bytes-discrete d slot s.by_domain;
      by_ip = insert ℕ_discrete ip slot s.by_ip;
    } in
    let v1 : Linked s1 es = record {
      chain = t.chain;
      head = v.linked.head;
      tail = v.linked.tail;
      slots = v.linked.slots;
    } in
    let (nodes2, p, c, l) = push_front_lem s1 e es nil nil v1 t.here t.absent t.below in
    let fresh = sym (v.ips ip) ∙ unheld in
    (
      with_list s1 nodes2 slot (final nil (e ∷ es)),
      e,
      ground (arith, r, a, p),
      refl,
      fresh,
      record {
        linked = record {
          chain = c;
          head = refl;
          tail = refl;
          slots = (t.below, t.absent, v.linked.slots);
        };
        ips = λ k.
            get-insert ℕ_discrete ip k slot s.by_ip
            ∙ get-admitted ℕ_discrete (λ e. e.ip) k e es (get ℕ_discrete k s.by_ip) (v.ips k);
        domains = λ k.
            get-insert Bytes-discrete d k slot s.by_domain
            ∙ get-admitted Bytes-discrete (λ e. e.domain) k e es (get Bytes-discrete k s.by_domain)
                (v.domains k);
        unique_ips = (fresh, v.unique_ips);
        unique_domains = (new, v.unique_domains);
        inside = ((above, below), v.inside);
        counted = omega (arith, v.counted);
        listed = omega (arith, v.listed, length-insert_new ℕ_discrete ip slot s.by_ip unheld);
        distinct = Distinct-insert ℕ_discrete ip slot s.by_ip v.distinct;
        free =
            subst (λ k. FreeSlots k (e ∷ es) free) (sym l)
              (FreeSlots-cons (length nodes) e es free t.still t.others);
        places = omega (arith, l, t.places);
        room = omega (arith, l, t.room);
        some_room = v.some_room;
        fits = v.fits;
        within = v.within;
      },
      record { cap = refl; lo = refl; usable = refl },
    )
