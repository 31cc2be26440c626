-- ===== src/Dns/Names.antt =====
-- Names in a message: what `parse_name` and `skip_name` accept, as a list of labels.
use Prim.Native.Nat.{bit_and}
use pao_pao_gate_way.Common.{
  subst, ℕ, zero, suc, ◌+◌, ◌≤◌, ◌<◌, ◌≡◌, refl, ap, ◌∙◌, true, false, List, [], ◌∷◌, ◌++◌, some,
  arith, ◌==◌, length, length-append, length-take, length-drop, get_elem?, take, drop, All,
  Bool-cases, Option-cases, inl, inr,
}
use native.Mathlib.Numerals.{add-one}
use mathlib.Core.List.{append_assoc}
use pao_pao_gate_way.Common.Bytes.{Bytes, AreBytes}
use pao_pao_gate_way.Common.Bits.{top_bits_clear, lt_of_top_bits}
use pao_pao_gate_way.Common.Cursor.{
  At, At-get, At-next, At-take, At-of_get, At-prepend, drop_of_get_elem?,
}
use pao_pao_gate_way.Dns.Message.{ok, parse_name, lower, with_dot, slice}
use pao_pao_gate_way.Dns.Response.{skip_name}

-- The bytes of labels, each behind its length.
unfoldable pub labels_bytes : List Bytes → Bytes
labels_bytes [] = []
labels_bytes (l ∷ ls) = length l ∷ (l ++ labels_bytes ls)

abbrev pub AreLabels : List Bytes → Type 0
AreLabels = All (λ l. (0 < length l) × (length l ≤ 63))

-- The text of labels behind a text.
unfoldable pub joined : Bytes → List Bytes → Bytes
joined name [] = name
joined name (l ∷ ls) = joined (with_dot name ++ lower l) ls

pub length-lower : (l : Bytes) → length l ≤ length (lower l)
unfolding lower
length-lower [] = omega arith
length-lower (b ∷ l) = ground (arith, length-lower l)

length-with_dot : (name : Bytes) → length name ≤ length (with_dot name)
length-with_dot [] = omega arith
length-with_dot (b ∷ bs) = omega (arith, length-append bs (b'.' ∷ []))

pub length-joined :
    (name : Bytes) (ls : List Bytes)
    → AreLabels ls
    → length name + length ls ≤ length (joined name ls)
unfolding joined
length-joined name [] h = omega arith
length-joined name (l ∷ ls) h = omega (
  arith,
  length-joined (with_dot name ++ lower l) ls h.1,
  length-append (with_dot name) (lower l),
  length-with_dot name,
  length-lower l,
)

module _ {buf : Bytes} {pos : ℕ} (l : Bytes) (ls : List Bytes) (tail : Bytes)
    (at : At buf pos (labels_bytes (l ∷ ls) ++ 0 ∷ tail)) where
  At-first : At buf pos ((length l ∷ l) ++ (labels_bytes ls ++ 0 ∷ tail))
  unfolding labels_bytes
  At-first = rw (← append_assoc l (labels_bytes ls) (0 ∷ tail)) at

  At-rest : At buf (pos + (1 + length l)) (labels_bytes ls ++ 0 ∷ tail)
  At-rest =
      At-next (1 + length l) (length l ∷ l) (labels_bytes ls ++ 0 ∷ tail) (omega arith) At-first

  At-label : At buf (pos + 1) (l ++ (labels_bytes ls ++ 0 ∷ tail))
  At-label = At-next 1 (length l ∷ []) (l ++ (labels_bytes ls ++ 0 ∷ tail)) refl At-first

  first_length : get_elem? buf pos ≡ some (length l)
  first_length = At-get At-first

  first_label : take (length l) (drop (pos + 1) buf) ≡ l
  first_label = At-take (length l) l (labels_bytes ls ++ 0 ∷ tail) refl At-label

-- `skip_name` goes over labels that end with a zero byte.
pub skip_name-labels :
    (rounds : ℕ) (buf : Bytes) (pos : ℕ) (ls : List Bytes) (tail : Bytes)
    → length ls < rounds
    → AreLabels ls
    → At buf pos (labels_bytes ls ++ 0 ∷ tail)
    → skip_name rounds buf pos ≡ ok (pos + length (labels_bytes ls) + 1)
unfolding skip_name labels_bytes
skip_name-labels zero buf pos ls tail r h at = absurd (omega arith)
skip_name-labels (suc rounds) buf pos [] tail r h at = ground (arith, At-get at)
skip_name-labels (suc rounds) buf pos (l ∷ ls) tail r h at =
    let x = At-rest l ls tail at in
    ground (
      arith,
      first_length l ls tail at,
      top_bits_clear (length l),
      x.ends,
      length-append l (labels_bytes ls),
      skip_name-labels rounds buf (pos + (1 + length l)) ls tail (omega arith) h.1 x,
    )

-- `parse_name` reads them as the text of the labels in lower case, if that is at most 255 bytes.
pub parse_name-labels :
    (fuel : ℕ) (buf : Bytes) (pos : ℕ) (name : Bytes) (ls : List Bytes) (tail : Bytes)
    → length ls < fuel
    → AreLabels ls
    → length (joined name ls) ≤ 255
    → At buf pos (labels_bytes ls ++ 0 ∷ tail)
    → parse_name fuel buf pos name ≡ some (ok (joined name ls, pos + length (labels_bytes ls) + 1))
unfolding parse_name labels_bytes joined
parse_name-labels zero buf pos name ls tail r h k at = absurd (omega arith)
parse_name-labels (suc fuel) buf pos name [] tail r h k at = ground (arith, At-get at)
parse_name-labels (suc fuel) buf pos name (l ∷ ls) tail r h k at =
    let x = At-rest l ls tail at in
    let e : pos + (1 + length l) ≡ pos + 1 + length l = omega arith in
    ground (
      arith,
      e,
      first_length l ls tail at,
      first_label l ls tail at,
      top_bits_clear (length l),
      x.ends,
      length-append l (labels_bytes ls),
      length-joined (with_dot name ++ lower l) ls h.1,
      parse_name-labels fuel buf (pos + 1 + length l) (with_dot name ++ lower l) ls tail
          (omega arith) h.1 k (subst (λ p. At buf p (labels_bytes ls ++ 0 ∷ tail)) e x),
    )

-- What `parse_name` has read when it succeeds.
pub record Reads (buf : Bytes) (pos : ℕ) (name name' : Bytes) (end : ℕ) : Type 0 where
  pub labels : List Bytes
  pub tail : Bytes
  pub proper : AreLabels labels
  pub stands : At buf pos (labels_bytes labels ++ 0 ∷ tail)
  pub text : name' ≡ joined name labels
  pub stops : end ≡ pos + length (labels_bytes labels) + 1
  pub bounded : length name ≤ 255 → length name' ≤ 255

AreBytes-drop : (n : ℕ) (xs : Bytes) → AreBytes xs → AreBytes (drop n xs)
AreBytes-drop zero xs h = h
AreBytes-drop (suc n) [] h = tt
AreBytes-drop (suc n) (x ∷ xs) h = AreBytes-drop n xs h.1

byte_at : (buf : Bytes) (pos : ℕ) {b : ℕ} → AreBytes buf → get_elem? buf pos ≡ some b → b < 256
byte_at [] pos h e = ground arith
byte_at (x ∷ buf) zero h e = ground arith
byte_at (x ∷ buf) (suc pos) h e = byte_at buf pos h.1 e

slice-some :
    (buf : Bytes) (pos len : ℕ) {label : Bytes}
    → slice buf pos len ≡ some label
    → (label ≡ take len (drop pos buf)) × (pos + len ≤ length buf)
slice-some buf pos len e = (ground arith, ground arith)

-- One round of the loop, where it goes on.
round :
    (fuel : ℕ) (buf : Bytes) (pos : ℕ) (name : Bytes) {name' : Bytes} {end : ℕ} {len : ℕ}
    → get_elem? buf pos ≡ some len
    → (len == 0) ≡ false
    → parse_name (suc fuel) buf pos name ≡ some (ok (name', end))
    → ((bit_and len 0xc0 == 0) ≡ true)
      × (pos + 1 + len ≤ length buf)
      × (length (with_dot name ++ lower (take len (drop (pos + 1) buf))) ≤ 255)
      × (parse_name fuel buf
            (pos + 1 + len)
            (with_dot name ++ lower (take len (drop (pos + 1) buf)))
          ≡ some (ok (name', end)))
unfolding parse_name
round fuel buf pos name g z e = (ground arith, ground arith, ground arith, ground arith)

stop :
    (fuel : ℕ) (buf : Bytes) (pos : ℕ) (name : Bytes) {name' : Bytes} {end : ℕ} {len : ℕ}
    → get_elem? buf pos ≡ some len
    → (len == 0) ≡ true
    → parse_name (suc fuel) buf pos name ≡ some (ok (name', end))
    → Reads buf pos name name' end
unfolding parse_name labels_bytes joined
stop fuel buf pos name {name'} {end} {len} g z e =
    let zero_len : len ≡ 0 = ground arith in
    let q : (name' ≡ name) × (end ≡ pos + 1) = (ground arith, ground arith) in
    record {
      labels = [];
      tail = drop (suc pos) buf;
      proper = tt;
      stands = At-of_get buf pos (g ∙ ap some zero_len);
      text = q.0;
      stops = omega (arith, q.1);
      bounded = λ k. ground (arith, q.0);
    }

step :
    (fuel : ℕ) (buf : Bytes) (pos : ℕ) (name : Bytes) {name' : Bytes} {end : ℕ} {len : ℕ}
    → AreBytes buf
    → get_elem? buf pos ≡ some len
    → (len == 0) ≡ false
    → ((bit_and len 0xc0 == 0) ≡ true)
    → (pos + 1 + len ≤ length buf)
    → Reads buf (pos + 1 + len) (with_dot name ++ lower (take len (drop (pos + 1) buf))) name' end
    → length name' ≤ 255
    → Reads buf pos name name' end
unfolding labels_bytes joined
step fuel buf pos name {name'} {end} {len} h g z clear fits r small = record {
  labels = label ∷ r.labels;
  tail = r.tail;
  proper = (
    (ground (arith, size), ground (arith, size, lt_of_top_bits len (byte_at buf pos h g))),
    r.proper,
  );
  stands = ground_stands;
  text = r.text;
  stops = omega (arith, size, r.stops, length-append label (labels_bytes r.labels));
  bounded = λ k. small;
}
  where
    label : Bytes
    label = take len (drop (pos + 1) buf)

    size : length label ≡ len
    size = omega (arith, length-take len (drop (pos + 1) buf), length-drop (pos + 1) buf)

    behind : At buf (pos + 1) (label ++ (labels_bytes r.labels ++ 0 ∷ r.tail))
    behind = At-prepend len r.stands

    ground_stands : At buf pos (labels_bytes (label ∷ r.labels) ++ 0 ∷ r.tail)
    ground_stands = record {
      from = ground (
        arith,
        drop_of_get_elem? buf pos g,
        behind.from,
        size,
        append_assoc label (labels_bytes r.labels) (0 ∷ r.tail),
        add-one pos,
      );
      ends =
          omega (
            arith,
            behind.ends,
            ap length (append_assoc label (labels_bytes r.labels) (0 ∷ r.tail)),
          );
    }

-- Whatever `parse_name` reads in a buffer of bytes is such a list of labels.
pub parse_name-Reads :
    (fuel : ℕ) (buf : Bytes) (pos : ℕ) (name : Bytes) {name' : Bytes} {end : ℕ}
    → AreBytes buf
    → parse_name fuel buf pos name ≡ some (ok (name', end))
    → Reads buf pos name name' end
unfolding parse_name
parse_name-Reads zero buf pos name h e = ground arith
parse_name-Reads (suc fuel) buf pos name {name'} {end} h e =
    elim (Option-cases (get_elem? buf pos)) [
      | inl g ↦ absurd (ground arith)
      | inr (len, g) ↦ elim (Bool-cases (len == 0)) [
        | inl z ↦ stop fuel buf pos name g z e
        | inr z ↦
            let (clear, fits, small, more) = round fuel buf pos name g z e in
            let r =
              parse_name-Reads fuel buf (pos + 1 + len)
                (with_dot name ++ lower (take len (drop (pos + 1) buf))) h more in
            step fuel buf pos name h g z clear fits r (r.bounded small)
      ]
    ]
