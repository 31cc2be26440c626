-- ===== src/FakeIp/Shard/Moves.antt =====
-- The list of a shard under `unlink`, `push_front` and `promote`.
use pao_pao_gate_way.Common.{
  ℕ, ◌<◌, ◌≡◌, refl, ◌∙◌, List, [], ◌∷◌, ◌++◌, some, arith, length, get_elem?, set, length-set,
  lt_of_get_elem?,
}
use pao_pao_gate_way.FakeIp.Shard.{Node, Shard, nil, assign, unlink, link_head, push_front, promote}
use pao_pao_gate_way.FakeIp.Shard.Links.{
  Entry, first, final, Absent, node, Chain, Linked, Chain-split, Chain-join, Chain-Frame,
  Slots-Apart, Slots-middle, final-lt, skip_newer_lem, skip_older_lem, set_here, set_elsewhere,
  Chain-set, Absent-parts,
}

first-append : (d : ℕ) (xs ys : List Entry) → first d (xs ++ ys) ≡ first (first d ys) xs
first-append d [] ys = refl
first-append d (x ∷ xs) ys = refl

pub final-append : (d : ℕ) (xs ys : List Entry) → final d (xs ++ ys) ≡ final (final d xs) ys
final-append d [] ys = refl
final-append d (x ∷ xs) ys = final-append x.slot xs ys

-- A shard that differs in its nodes and the ends of its list at most.
abbrev pub with_list : Shard → List Node → ℕ → ℕ → Shard
with_list s nodes head tail = record s { nodes = nodes; head = head; tail = tail }

-- `unlink` takes the entry out of the list, and leaves its node alone.
pub unlink_lem :
    (s : Shard) (xs : List Entry) (e : Entry) (ys : List Entry)
    → Linked s (xs ++ e ∷ ys)
    → (nodes : List Node) × (unlink s e.slot
        ≡ some (with_list s nodes (first nil (xs ++ ys)) (final nil (xs ++ ys))))
      × Chain nodes nil (xs ++ ys) nil
      × (get_elem? nodes e.slot ≡ some (node e nil nil))
      × (length nodes ≡ length s.nodes)
unfolding unlink assign
unlink_lem s xs e ys v =
    let (cx, c) = Chain-split s.nodes nil nil xs (e ∷ ys) v.chain in
    let (q, absent, below) = Slots-middle xs e ys v.slots in
    let (ax, ay, qx, qy) = Slots-Apart xs ys q in
    let (bx, by) = Absent-parts e.slot xs ys absent in
    let n = node e (first nil ys) (final nil xs) in
    let (nodes1, r1, cx1, f1) =
      skip_newer_lem s n e.slot e.slot xs qx cx (v.head ∙ first-append nil xs (e ∷ ys)) refl in
    let s1 : Shard = record s { nodes = nodes1; head = first (first nil ys) xs } in
    let cy1 = Chain-Frame s.nodes nodes1 e.slot nil xs ys f1 ax c.1 in
    let (nodes2, r2, cy2, f2) =
      skip_older_lem s1 n e.slot e.slot ys qy cy1 (v.tail ∙ final-append nil xs (e ∷ ys)) refl in
    let at = f2.0 e.slot by ∙ f1.0 e.slot bx ∙ c.0 in
    let cx2 = Chain-Frame nodes1 nodes2 nil (first nil ys) ys xs f2 ay cx1 in
    (
      set nodes2 e.slot (node e nil nil),
      ground (arith, c.0, r1, r2, at, first-append nil xs ys, final-append nil xs ys),
      Chain-set nodes2 e.slot (node e nil nil) nil nil (xs ++ ys) (lt_of_get_elem? nodes2 e.slot at)
          absent (Chain-join nodes2 nil nil xs ys cx2 cy2),
      set_here nodes2 e.slot (node e nil nil) at,
      length-set nodes2 e.slot (node e nil nil) ∙ f2.1 ∙ f1.1,
    )

push_front_steps :
    (s : Shard) (e y : Entry) (old last older newer older' : ℕ)
    → get_elem? s.nodes e.slot ≡ some (node e older newer)
    → get_elem? (set s.nodes e.slot (node e old nil)) old ≡ some (node y older' nil)
    → s.head ≡ old
    → s.tail ≡ last
    → old < nil
    → last < nil
    → push_front s e.slot
      ≡ some (
          with_list s
            (set (set s.nodes e.slot (node e old nil)) old (node y older' e.slot))
            e.slot
            last)
unfolding push_front assign link_head
push_front_steps s e y old last older newer older' at next head tail b c = ground (arith, at, next)

-- `push_front` puts a node that is not in the list in front.
pub push_front_lem :
    (s : Shard) (e : Entry) (es : List Entry) (older newer : ℕ)
    → Linked s es
    → get_elem? s.nodes e.slot ≡ some (node e older newer)
    → Absent e.slot es
    → e.slot < nil
    → (nodes : List Node) × (push_front s e.slot
        ≡ some (with_list s nodes e.slot (final nil (e ∷ es))))
      × Chain nodes nil (e ∷ es) nil
      × (length nodes ≡ length s.nodes)
unfolding push_front assign link_head
push_front_lem s e [] older newer v at a b = (
  set s.nodes e.slot (node e nil nil),
  ground (arith, at, v.head, v.tail),
  (set_here s.nodes e.slot (node e nil nil) at, tt),
  length-set s.nodes e.slot (node e nil nil),
)
push_front_lem s e (y ∷ ys) older newer v at a b =
    let n = node e y.slot nil in
    let m = node y (first nil ys) e.slot in
    let nodes1 = set s.nodes e.slot n in
    let c1 =
      Chain-set s.nodes e.slot n nil nil (y ∷ ys) (lt_of_get_elem? s.nodes e.slot at) a v.chain in
    (
      set nodes1 y.slot m,
      push_front_steps s e y y.slot (final y.slot ys) older newer (first nil ys) at c1.0 v.head
          v.tail v.slots.0 (final-lt y ys v.slots),
      (
        set_elsewhere nodes1 y.slot e.slot m c1.0 a.0 ∙ set_here s.nodes e.slot n at,
        (
          set_here nodes1 y.slot m c1.0,
          Chain-set nodes1 y.slot m y.slot nil ys (lt_of_get_elem? nodes1 y.slot c1.0) v.slots.1
              c1.1,
        ),
      ),
      length-set nodes1 y.slot m ∙ length-set s.nodes e.slot n,
    )

-- `promote` brings the entry to the front.
pub promote_lem :
    (s : Shard) (xs : List Entry) (e : Entry) (ys : List Entry)
    → Linked s (xs ++ e ∷ ys)
    → (nodes : List Node) × (promote s e.slot
        ≡ some (with_list s nodes e.slot (final nil (e ∷ (xs ++ ys)))))
      × Chain nodes nil (e ∷ (xs ++ ys)) nil
      × (length nodes ≡ length s.nodes)
unfolding promote
promote_lem s [] e ys v = (s.nodes, ground (arith, v.head, v.tail), v.chain, refl)
promote_lem s (x ∷ xs) e ys v =
    let (nodes1, r1, c1, at, l1) = unlink_lem s (x ∷ xs) e ys v in
    let (q, absent, below) = Slots-middle (x ∷ xs) e ys v.slots in
    let es = x ∷ (xs ++ ys) in
    let s1 = with_list s nodes1 x.slot (final nil es) in
    let v1 : Linked s1 es = record { chain = c1; head = refl; tail = refl; slots = q } in
    let (nodes2, r2, c2, l2) = push_front_lem s1 e es nil nil v1 at absent below in
    (nodes2, ground (arith, v.head, absent.0, r1, r2), c2, l2 ∙ l1)
