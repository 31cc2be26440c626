-- ===== src/FakeIp/Shard/Evictions.antt =====
-- `evict_tail` gives up the entry that was used longest ago.
use pao_pao_gate_way.Common.{
  ℕ, ◌+◌, ◌-◌, ◌<◌, ◌≤◌, ◌≡◌, ◌≢◌, refl, subst, sym, ◌∙◌, List, [], ◌∷◌, ◌++◌, Option, none, some,
  All, arith, length, get_elem?, set, length-set, ℕ_discrete, ite, if_pos, lt_of_get_elem?,
}
use pao_pao_gate_way.Common.Bytes.{Bytes, Bytes-discrete}
use pao_pao_gate_way.Common.Maps.{get, remove, get-remove, Distinct-remove, length-remove}
use pao_pao_gate_way.FakeIp.Shard.{Node, Shard, nil, evict_tail, assign, unlink}
use pao_pao_gate_way.FakeIp.Shard.Links.{
  Entry, first, final, node, Chain-set, Chain-split, Slots-middle,
}
use pao_pao_gate_way.FakeIp.Shard.Moves.{with_list, unlink_lem, final-append}
use pao_pao_gate_way.FakeIp.Shard.Entries.{slot_of, Unique-middle, slot_of-middle}
use pao_pao_gate_way.FakeIp.Shard.Tables.{
  by_its_ip, by_its_domain, IsValid, SameSlice, FreeSlots, FreeSlots-middle, All-middle,
  length-middle,
}

-- A table without the key of the entry that goes.
get-evicted {ℓ} :
    {K : Type ℓ} (dec : Discrete K) (key : Entry → K) (k : K) (e : Entry) (es : List Entry)
    (o : Option ℕ)
    → o ≡ slot_of dec key k (e ∷ es)
    → slot_of dec key (key e) es ≡ none
    → ite (dec (key e) k) none o ≡ slot_of dec key k es
get-evicted dec key k e es o h n = ground arith

FreeSlots-evicted :
    (n : ℕ) (e : Entry) (es : List Entry) (is : List ℕ)
    → FreeSlots n (e ∷ es) is
    → FreeSlots n es is × All (λ j. j ≢ e.slot) is
FreeSlots-evicted n e es [] h = (tt, tt)
FreeSlots-evicted n e es (i ∷ is) h =
    let (p, q) = FreeSlots-evicted n e es is h.3 in ((h.0, h.1.1, h.2, p), (λ k. h.1.0 (sym k), q))

-- The steps of the call, in one equation.
evict_steps :
    (s : Shard) (e : Entry) (older newer head tail : ℕ) (nodes : List Node)
    → s.tail ≡ e.slot
    → get_elem? s.nodes e.slot ≡ some (node e older newer)
    → unlink s e.slot ≡ some (with_list s nodes head tail)
    → get_elem? nodes e.slot ≡ some (node e nil nil)
    → 1 ≤ s.count
    → evict_tail s
      ≡ some (record s {
        nodes = set nodes e.slot (record { ip = e.ip; domain = []; older = nil; newer = nil });
        head = head;
        tail = tail;
        by_ip = remove ℕ_discrete e.ip s.by_ip;
        by_domain = remove Bytes-discrete e.domain s.by_domain;
        free = e.slot ∷ s.free;
        count = s.count - 1;
      })
unfolding evict_tail assign
evict_steps s e older newer head tail nodes t at r at' c = ground (arith, t, at, r, at')

pub evict_tail_lem :
    (s : Shard) (xs : List Entry) (e : Entry)
    → IsValid s (xs ++ e ∷ [])
    → (s' : Shard) × (evict_tail s ≡ some s')
      × IsValid s' (xs ++ [])
      × SameSlice s s'
      × (s'.count + 1 ≡ s.count)
evict_tail_lem s xs e v =
    let (nodes, r, c, at, l) = unlink_lem s xs e [] v.linked in
    let (q, absent, below) = Slots-middle xs e [] v.linked.slots in
    let (cx, ce) = Chain-split s.nodes nil nil xs (e ∷ []) v.linked.chain in
    let es = xs ++ [] in
    let pos : 1 ≤ s.count = omega (arith, v.counted, length-middle xs e []) in
    let n : Node = record { ip = e.ip; domain = []; older = nil; newer = nil } in
    let (ui, ni) = Unique-middle ℕ_discrete (λ e. e.ip) xs e [] v.unique_ips in
    let (ud, nd) = Unique-middle Bytes-discrete (λ e. e.domain) xs e [] v.unique_domains in
    let held : (ip : ℕ) → get ℕ_discrete ip s.by_ip ≡ by_its_ip ip (e ∷ es) =
      λ ip. v.ips ip ∙ slot_of-middle ℕ_discrete (λ e. e.ip) ip xs e [] v.unique_ips in
    let named : (d : Bytes) → get Bytes-discrete d s.by_domain ≡ by_its_domain d (e ∷ es) =
      λ d. v.domains d ∙ slot_of-middle Bytes-discrete (λ e. e.domain) d xs e [] v.unique_domains in
    let (fs, apart) =
      FreeSlots-evicted (length s.nodes) e es s.free
        (FreeSlots-middle (length s.nodes) xs e [] s.free v.free) in
    let len = length-set nodes e.slot n ∙ l in
    let here = lt_of_get_elem? nodes e.slot at in
    let gone =
      length-remove ℕ_discrete e.ip e.slot s.by_ip v.distinct
        (held e.ip ∙ if_pos (ℕ_discrete e.ip e.ip) refl _ _) in
    let s' : Shard = record s {
      nodes = set nodes e.slot n;
      head = first nil es;
      tail = final nil es;
      by_ip = remove ℕ_discrete e.ip s.by_ip;
      by_domain = remove Bytes-discrete e.domain s.by_domain;
      free = e.slot ∷ s.free;
      count = s.count - 1;
    } in
    (
      s',
      evict_steps s e nil (final nil xs) (first nil es) (final nil es) nodes
          (v.linked.tail ∙ final-append nil xs (e ∷ [])) ce.0 r at pos,
      record {
        linked = record {
          chain = Chain-set nodes e.slot n nil nil es here absent c;
          head = refl;
          tail = refl;
          slots = q;
        };
        ips = λ ip.
            get-remove ℕ_discrete e.ip ip s.by_ip
            ∙ get-evicted ℕ_discrete (λ e. e.ip) ip e es (get ℕ_discrete ip s.by_ip) (held ip) ni;
        domains = λ d.
            get-remove Bytes-discrete e.domain d s.by_domain
            ∙ get-evicted Bytes-discrete (λ e. e.domain) d e es (get Bytes-discrete d s.by_domain)
                (named d) nd;
        unique_ips = ui;
        unique_domains = ud;
        inside = (All-middle (λ e. (s.lo ≤ e.ip) × (e.ip < s.lo + s.usable)) xs e [] v.inside).1;
        counted = omega (arith, v.counted, length-middle xs e []);
        listed = omega (arith, v.listed, length-middle xs e [], gone);
        distinct = Distinct-remove ℕ_discrete e.ip s.by_ip v.distinct;
        free = (
          omega (arith, len, here, l),
          absent,
          apart,
          subst (λ n. FreeSlots n es s.free) (sym len) fs,
        );
        places = omega (arith, len, v.places);
        room = omega (arith, len, v.room);
        some_room = v.some_room;
        fits = v.fits;
        within = v.within;
      },
      record { cap = refl; lo = refl; usable = refl },
      omega arith,
    )
