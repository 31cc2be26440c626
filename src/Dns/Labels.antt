-- ===== src/Dns/Labels.antt =====
-- The labels that message.rs writes for a name.
use mathlib.Core.Path.{ap₂}
use mathlib.Core.List.{append_assoc, append-nil}
use pao_pao_gate_way.Common.{
  ◌≢◌, ℕ, ◌≤◌, ◌<◌, ◌≡◌, refl, sym, ap, ◌∙◌, true, List, [], ◌∷◌, ◌++◌, map, some, arith, ltb, ◌==◌,
  if◌then◌else◌, length, length-append, All, Bool-cases, Option-cases, List-cases, inl, inr,
}
use pao_pao_gate_way.Common.Bytes.{Bytes}
use pao_pao_gate_way.Common.Text.{to_ascii_lowercase, char_bytes, split_dot}
use pao_pao_gate_way.Dns.Message.{lower, write_labels, written_name}
use pao_pao_gate_way.Dns.Names.{labels_bytes, AreLabels, joined, length-lower}

-- Labels that each follow a dot.
pub dots : List Bytes → Bytes
dots [] = []
dots (l ∷ ls) = b'.' ∷ (l ++ dots ls)

split_dot-nonempty : (bs : Bytes) → split_dot bs ≢ []
unfolding split_dot
split_dot-nonempty [] e = ground arith
split_dot-nonempty (b ∷ bs) e = elim (List-cases (split_dot bs)) [
  | inl k ↦ split_dot-nonempty bs k
  | inr (p, ps, k) ↦ elim (Bool-cases (b == b'.')) [ inl d ↦ ground arith | inr d ↦ ground arith ]
]

split_dot-dots :
    (bs : Bytes) {l : Bytes} {ls : List Bytes} → split_dot bs ≡ l ∷ ls → bs ≡ l ++ dots ls
unfolding split_dot dots
split_dot-dots [] h = ground arith
split_dot-dots (b ∷ bs) {l} {ls} h = elim (List-cases (split_dot bs)) [
  | inl e ↦ absurd (split_dot-nonempty bs e)
  | inr (p, ps, e) ↦ elim (Bool-cases (b == b'.')) [
    | inl d ↦ ground (arith, split_dot-dots bs e)
    | inr d ↦ ground (arith, split_dot-dots bs e)
  ]
]

lower-append : (xs ys : Bytes) → lower (xs ++ ys) ≡ lower xs ++ lower ys
unfolding lower
lower-append [] ys = refl
lower-append (x ∷ xs) ys =
    rw (lower-append xs ys, append_assoc (char_bytes (to_ascii_lowercase x)) (lower xs) (lower ys))

joined-dots :
    (b : ℕ) (bs : Bytes) (ls : List Bytes) → joined (b ∷ bs) ls ≡ b ∷ (bs ++ lower (dots ls))
unfolding joined dots lower
joined-dots b bs [] = ap (◌∷◌ b) (sym (append-nil bs))
joined-dots b bs (l ∷ ls) =
    joined-dots b ((bs ++ b'.' ∷ []) ++ lower l) ls
    ∙ rw (
      lower-append l (dots ls),
      append_assoc (bs ++ b'.' ∷ []) (lower l) (lower (dots ls)),
      append_assoc bs (b'.' ∷ []) (lower l ++ lower (dots ls)),
    )

joined-text :
    (name : Bytes) (ls : List Bytes) → 0 < length name → joined name ls ≡ name ++ lower (dots ls)
joined-text [] ls h = absurd (omega arith)
joined-text (b ∷ bs) ls h = joined-dots b bs ls

lower_one : (b : ℕ) → b < 128 → char_bytes (to_ascii_lowercase b) ≡ to_ascii_lowercase b ∷ []
lower_one b h =
    let small : ltb (to_ascii_lowercase b) 128 ≡ true = ground arith in rw (small, if◌then◌else◌)

pub lower-map : (bs : Bytes) → All (λ b. b < 128) bs → lower bs ≡ map to_ascii_lowercase bs
unfolding lower
lower-map [] h = refl
lower-map (b ∷ bs) h = ap₂ (◌++◌) (lower_one b h.0) (lower-map bs h.1)

write_labels-labels_bytes :
    (ls : List Bytes) {out : Bytes}
    → write_labels ls ≡ some out
    → (out ≡ labels_bytes ls) × AreLabels ls
unfolding write_labels labels_bytes
write_labels-labels_bytes [] h = (ground arith, tt)
write_labels-labels_bytes (l ∷ ls) h = elim (Option-cases (write_labels ls)) [
  | inl e ↦ absurd (ground arith)
  | inr (w, e) ↦
      let r = write_labels-labels_bytes ls e in
      (ground (arith, r.0), ((ground arith, ground arith), r.1))
]

pub length-labels_bytes :
    (ls : List Bytes)
    → (length ls ≤ length (labels_bytes ls)) × (length (labels_bytes ls) ≡ length (dots ls))
unfolding labels_bytes dots
length-labels_bytes [] = (omega arith, refl)
length-labels_bytes (l ∷ ls) =
    let r = length-labels_bytes ls in
    let e = length-append l (labels_bytes ls) in
    let e' = length-append l (dots ls) in (omega (arith, r.0, e), omega (arith, r.1, e, e'))

pub length-map : (bs : Bytes) → length (map to_ascii_lowercase bs) ≡ length bs
length-map [] = refl
length-map (b ∷ bs) = omega (arith, length-map bs)

-- The labels that `build_query_with` writes for a name.
pub record Written (name out : Bytes) : Type 0 where
  pub labels : List Bytes
  pub bytes : out ≡ labels_bytes labels
  pub proper : AreLabels labels
  pub text : joined [] labels ≡ lower name
  pub short : length name ≤ length out

pub label_list : (name : Bytes) {out : Bytes} → written_name name ≡ some out → Written name out
unfolding labels_bytes joined lower
label_list [] {out} h = record {
  labels = [];
  bytes = ground arith;
  proper = tt;
  text = refl;
  short = omega arith;
}
label_list (b ∷ bs) {out} h = elim (List-cases (split_dot (b ∷ bs))) [
  | inl e ↦ absurd (split_dot-nonempty (b ∷ bs) e)
  | inr (l, ls, e) ↦
      let r = write_labels-labels_bytes (l ∷ ls) (sym (ap write_labels e) ∙ h) in
      let t = split_dot-dots (b ∷ bs) e in
      let n = length-labels_bytes ls in
      record {
        labels = l ∷ ls;
        bytes = r.0;
        proper = r.1;
        text =
            joined-text (lower l) ls (omega (arith, length-lower l, r.1.0.0))
            ∙ sym (ap lower t ∙ lower-append l (dots ls));
        short = omega (
          arith,
          ap length t,
          ap length r.0,
          n.1,
          length-append l (dots ls),
          length-append l (labels_bytes ls),
        );
      }
]
