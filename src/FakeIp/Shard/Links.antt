-- ===== src/FakeIp/Shard/Links.antt =====
-- The nodes and their links as a list of entries, the newest in front.
use pao_pao_gate_way.Common.{
  ℕ, ◌<◌, ◌≡◌, ◌≢◌, refl, sym, ◌∙◌, List, [], ◌∷◌, ◌++◌, some, arith, length, get_elem?, set,
  get_elem?-set, length-set, lt_of_get_elem?,
}
use pao_pao_gate_way.Common.Bytes.{Bytes}
use pao_pao_gate_way.FakeIp.Shard.{Node, Shard, nil, assign, skip_newer, skip_older}

-- A name that holds an address, and the place of its node.
pub record Entry : Type 0 where
  pub slot : ℕ
  pub ip : ℕ
  pub domain : Bytes

-- The slot of the first entry, and of the last.
abbrev pub first : ℕ → List Entry → ℕ
first d [] = d
first d (e ∷ es) = e.slot

abbrev pub final : ℕ → List Entry → ℕ
final d [] = d
final d (e ∷ es) = final e.slot es

-- No entry has the slot.
abbrev pub Absent : ℕ → List Entry → Type 0
Absent i [] = Unit
Absent i (e ∷ es) = (e.slot ≢ i) × Absent i es

abbrev pub node : Entry → ℕ → ℕ → Node
node e older newer = record { ip = e.ip; domain = e.domain; older = older; newer = newer }

-- The nodes of the entries, linked to one another, with `newer` before and `older` behind them.
abbrev pub Chain : List Node → ℕ → List Entry → ℕ → Type 0
Chain nodes newer [] older = Unit
Chain nodes newer (e ∷ es) older =
    (get_elem? nodes e.slot ≡ some (node e (first older es) newer)) × Chain nodes e.slot es older

abbrev pub Slots : List Entry → Type 0
Slots [] = Unit
Slots (e ∷ es) = (e.slot < nil) × Absent e.slot es × Slots es

pub record Linked (s : Shard) (es : List Entry) : Type 0 where
  pub chain : Chain s.nodes nil es nil
  pub head : s.head ≡ first nil es
  pub tail : s.tail ≡ final nil es
  pub slots : Slots es

pub Absent-append : (i : ℕ) (xs ys : List Entry) → Absent i xs → Absent i ys → Absent i (xs ++ ys)
Absent-append i [] ys h k = k
Absent-append i (x ∷ xs) ys h k = (h.0, Absent-append i xs ys h.1 k)

pub Absent-parts : (i : ℕ) (xs ys : List Entry) → Absent i (xs ++ ys) → Absent i xs × Absent i ys
Absent-parts i [] ys h = (tt, h)
Absent-parts i (x ∷ xs) ys h = ((h.0, (Absent-parts i xs ys h.1).0), (Absent-parts i xs ys h.1).1)

-- An entry taken out of the middle.
pub Slots-middle :
    (xs : List Entry) (e : Entry) (ys : List Entry)
    → Slots (xs ++ e ∷ ys)
    → Slots (xs ++ ys) × Absent e.slot (xs ++ ys) × (e.slot < nil)
Slots-middle [] e ys h = (h.2, h.1, h.0)
Slots-middle (x ∷ xs) e ys h =
    let (a, b, c) = Slots-middle xs e ys h.2 in
    let (p, q) = Absent-parts x.slot xs (e ∷ ys) h.1 in
    ((h.0, Absent-append x.slot xs ys p q.1, a), (λ k. q.0 (sym k), b), c)

pub Chain-split :
    (nodes : List Node) (newer older : ℕ) (xs ys : List Entry)
    → Chain nodes newer (xs ++ ys) older
    → Chain nodes newer xs (first older ys) × Chain nodes (final newer xs) ys older
Chain-split nodes newer older [] ys h = (tt, h)
Chain-split nodes newer older (x ∷ []) ys h = ((h.0, tt), h.1)
Chain-split nodes newer older (x ∷ x' ∷ xs) ys h =
    let (p, q) = Chain-split nodes x.slot older (x' ∷ xs) ys h.1 in ((h.0, p), q)

pub Chain-join :
    (nodes : List Node) (newer older : ℕ) (xs ys : List Entry)
    → Chain nodes newer xs (first older ys)
    → Chain nodes (final newer xs) ys older
    → Chain nodes newer (xs ++ ys) older
Chain-join nodes newer older [] ys h k = k
Chain-join nodes newer older (x ∷ []) ys h k = (h.0, k)
Chain-join nodes newer older (x ∷ x' ∷ xs) ys h k =
    (h.0, Chain-join nodes x.slot older (x' ∷ xs) ys h.1 k)

-- A write to another node.
pub Chain-set :
    (nodes : List Node) (i : ℕ) (v : Node) (newer older : ℕ) (es : List Entry)
    → i < length nodes
    → Absent i es
    → Chain nodes newer es older
    → Chain (set nodes i v) newer es older
Chain-set nodes i v newer older [] b a h = tt
Chain-set nodes i v newer older (e ∷ es) b a h = (
  ground (arith, get_elem?-set nodes i e.slot v, a.0, h.0),
  Chain-set nodes i v e.slot older es b a.1 h.1,
)

-- Nothing is written but the nodes of the entries.
abbrev pub Frame : List Node → List Node → List Entry → Type 0
Frame nodes nodes' es =
    ((i : ℕ) → Absent i es → get_elem? nodes' i ≡ get_elem? nodes i)
    × (length nodes' ≡ length nodes)

abbrev pub Apart : List Entry → List Entry → Type 0
Apart xs [] = Unit
Apart xs (e ∷ es) = Absent e.slot xs × Apart xs es

Apart-cons : (x : Entry) (xs ys : List Entry) → Absent x.slot ys → Apart xs ys → Apart (x ∷ xs) ys
Apart-cons x xs [] h k = tt
Apart-cons x xs (y ∷ ys) h k = ((λ e. h.0 (sym e), k.0), Apart-cons x xs ys h.1 k.1)

Apart-nil : (ys : List Entry) → Apart [] ys
Apart-nil [] = tt
Apart-nil (y ∷ ys) = (tt, Apart-nil ys)

pub Slots-Apart :
    (xs ys : List Entry) → Slots (xs ++ ys) → Apart xs ys × Apart ys xs × Slots xs × Slots ys
Slots-Apart [] ys h = (Apart-nil ys, tt, tt, h)
Slots-Apart (x ∷ xs) ys h =
    let (p, q, a, b) = Slots-Apart xs ys h.2 in
    let (u, v) = Absent-parts x.slot xs ys h.1 in (Apart-cons x xs ys v p, (v, q), (h.0, u, a), b)

pub Chain-Frame :
    (nodes nodes' : List Node) (newer older : ℕ) (xs es : List Entry)
    → Frame nodes nodes' xs
    → Apart xs es
    → Chain nodes newer es older
    → Chain nodes' newer es older
Chain-Frame nodes nodes' newer older xs [] f a h = tt
Chain-Frame nodes nodes' newer older xs (e ∷ es) f a h =
    (f.0 e.slot a.0 ∙ h.0, Chain-Frame nodes nodes' e.slot older xs es f a.1 h.1)

final-ne : (i : ℕ) (e : Entry) (es : List Entry) → Absent i (e ∷ es) → final e.slot es ≢ i
final-ne i e [] h = h.0
final-ne i e (x ∷ xs) h = final-ne i x xs h.1

pub final-lt : (e : Entry) (es : List Entry) → Slots (e ∷ es) → final e.slot es < nil
final-lt e [] h = h.0
final-lt e (x ∷ xs) h = final-lt x xs h.2

pub set_elsewhere :
    (nodes : List Node) (i k : ℕ) {n : Node} (v : Node)
    → get_elem? nodes i ≡ some n
    → i ≢ k
    → get_elem? (set nodes i v) k ≡ get_elem? nodes k
set_elsewhere nodes i k v h ne =
    ground (arith, get_elem?-set nodes i k v (lt_of_get_elem? nodes i h))

pub set_here :
    (nodes : List Node) (i : ℕ) {n : Node} (v : Node)
    → get_elem? nodes i ≡ some n
    → get_elem? (set nodes i v) i ≡ some v
set_here nodes i v h = ground (arith, get_elem?-set nodes i i v (lt_of_get_elem? nodes i h))

-- The last node of a chain with another link behind it.
relink_last :
    (nodes : List Node) (newer older older' : ℕ) (x : Entry) (xs : List Entry)
    → Slots (x ∷ xs)
    → Chain nodes newer (x ∷ xs) older
    → (n : Node) × (get_elem? nodes (final x.slot xs) ≡ some n)
      × Chain (set nodes (final x.slot xs) (record n { older = older' })) newer (x ∷ xs) older'
relink_last nodes newer older older' x [] d h =
    (node x older newer, h.0, (set_here nodes x.slot (node x older' newer) h.0, tt))
relink_last nodes newer older older' x (y ∷ ys) d h =
    let (n, e, c) = relink_last nodes x.slot older older' y ys d.2 h.1 in
    (
      n,
      e,
      (
        set_elsewhere nodes (final y.slot ys) x.slot (record n { older = older' }) e
              (final-ne x.slot y ys d.1)
            ∙ h.0,
        c,
      ),
    )

pub skip_newer_lem :
    (s : Shard) (n : Node) (d older : ℕ) (xs : List Entry)
    → Slots xs
    → Chain s.nodes nil xs older
    → s.head ≡ first d xs
    → n.newer ≡ final nil xs
    → (nodes : List Node) × (skip_newer s n
        ≡ some (record s { nodes = nodes; head = first n.older xs }))
      × Chain nodes nil xs n.older
      × Frame s.nodes nodes xs
unfolding skip_newer assign
skip_newer_lem s n d older [] q c h e = (s.nodes, ground arith, tt, (λ i a. refl, refl))
skip_newer_lem s n d older (x ∷ xs) q c h e =
    let (m, at, c') = relink_last s.nodes nil older n.older x xs q c in
    let j = final x.slot xs in
    (
      set s.nodes j (record m { older = n.older }),
      ground (arith, final-lt x xs q),
      c',
      (
        λ i a. set_elsewhere s.nodes j i (record m { older = n.older }) at (final-ne i x xs a),
        length-set s.nodes j (record m { older = n.older }),
      ),
    )

pub skip_older_lem :
    (s : Shard) (n : Node) (d newer : ℕ) (ys : List Entry)
    → Slots ys
    → Chain s.nodes newer ys nil
    → s.tail ≡ final d ys
    → n.older ≡ first nil ys
    → (nodes : List Node) × (skip_older s n
        ≡ some (record s { nodes = nodes; tail = final n.newer ys }))
      × Chain nodes n.newer ys nil
      × Frame s.nodes nodes ys
unfolding skip_older assign
skip_older_lem s n d newer [] q c h e = (s.nodes, ground arith, tt, (λ i a. refl, refl))
skip_older_lem s n d newer (y ∷ ys) q c h e =
    let m = node y (first nil ys) n.newer in
    (
      set s.nodes y.slot m,
      ground (arith, q.0),
      (
        set_here s.nodes y.slot m c.0,
        Chain-set s.nodes y.slot m y.slot nil ys (lt_of_get_elem? s.nodes y.slot c.0) q.1 c.1,
      ),
      (λ i a. set_elsewhere s.nodes y.slot i m c.0 a.0, length-set s.nodes y.slot m),
    )
