-- ===== src/Common/Cursor.antt =====
-- Positions in a buffer: what comes from a position on.
use Prim.Native.Nat.{ℕ, zero, suc, ◌+◌, ◌≤◌, ◌<◌}
use mathlib.Core.Path.{◌≡◌, refl, sym, ap, ◌∙◌}
use mathlib.Core.List.{List, [], ◌∷◌, ◌++◌}
use mathlib.Core.Option.{some}
use native.Mathlib.Omega.{arith}
use native.Mathlib.Nat.{zero-add, suc-add}
use pao_pao_gate_way.Common.Lists.{
  length, get_elem?, get_or, take, drop, length-append, length-drop, length-take, take-append-drop,
  take_eq, drop_eq,
}

-- From `pos` on the buffer holds `rest`.
pub record At {ℓ} {A : Type ℓ} (buf : List A) (pos : ℕ) (rest : List A) : Type ℓ where
  pub from : drop pos buf ≡ rest
  pub ends : pos + length rest ≡ length buf

module _ {ℓ} {A : Type ℓ} where
  pub drop_nil : (n : ℕ) → drop {A = A} n [] ≡ []
  drop_nil zero = refl
  drop_nil (suc n) = refl

  pub drop-add : (m n : ℕ) (xs : List A) → drop (m + n) xs ≡ drop n (drop m xs)
  drop-add zero n xs = rw zero-add
  drop-add (suc m) n [] = rw (drop_nil (suc m + n), drop_nil n)
  drop-add (suc m) n (x ∷ xs) = rw suc-add (drop-add m n xs)

  pub get_elem?-some_lt :
      (buf : List A) (pos : ℕ) {x : A} → get_elem? buf pos ≡ some x → pos < length buf
  get_elem?-some_lt [] pos h = ground arith
  get_elem?-some_lt (y ∷ buf) zero h = omega arith
  get_elem?-some_lt (y ∷ buf) (suc pos) h = omega (arith, get_elem?-some_lt buf pos h)

  pub drop_of_get_elem? :
      (buf : List A) (pos : ℕ) {x : A}
      → get_elem? buf pos ≡ some x
      → drop pos buf ≡ x ∷ drop (suc pos) buf
  drop_of_get_elem? [] pos h = ground arith
  drop_of_get_elem? (y ∷ buf) zero h = ground arith
  drop_of_get_elem? (y ∷ buf) (suc pos) h = drop_of_get_elem? buf pos h

  get_elem?-head :
      (buf : List A) (pos : ℕ) {x : A} {xs : List A}
      → drop pos buf ≡ x ∷ xs
      → get_elem? buf pos ≡ some x
  get_elem?-head [] pos h = ground (arith, drop_nil pos)
  get_elem?-head (y ∷ buf) zero h = ground arith
  get_elem?-head (y ∷ buf) (suc pos) h = get_elem?-head buf pos h

  get_or-head :
      (buf : List A) (pos : ℕ) (d : A) {x : A} {xs : List A}
      → drop pos buf ≡ x ∷ xs
      → get_or buf pos d ≡ x
  get_or-head [] pos d h = ground (arith, drop_nil pos)
  get_or-head (y ∷ buf) zero d h = ground arith
  get_or-head (y ∷ buf) (suc pos) d h = get_or-head buf pos d h

  pub get_or-At :
      {buf : List A} {pos : ℕ} (d : A) {x : A} {xs : List A}
      → At buf pos (x ∷ xs)
      → get_or buf pos d ≡ x
  get_or-At {buf} {pos} d h = get_or-head buf pos d h.from

  pub At-get :
      {buf : List A} {pos : ℕ} {x : A} {xs : List A}
      → At buf pos (x ∷ xs)
      → get_elem? buf pos ≡ some x
  At-get {buf} {pos} h = get_elem?-head buf pos h.from

  pub At-next :
      {buf : List A} {pos : ℕ} (n : ℕ) (xs ys : List A)
      → length xs ≡ n
      → At buf pos (xs ++ ys)
      → At buf (pos + n) ys
  At-next {buf} {pos} n xs ys e h = record {
    from = rw (drop-add pos n buf, h.from) (drop_eq xs ys e);
    ends = omega (arith, length-append xs ys, h.ends);
  }

  pub At-take :
      {buf : List A} {pos : ℕ} (n : ℕ) (xs ys : List A)
      → length xs ≡ n
      → At buf pos (xs ++ ys)
      → take n (drop pos buf) ≡ xs
  At-take n xs ys e h = rw h.from (take_eq xs ys e)

  pub At-here : (buf : List A) (pos : ℕ) → pos ≤ length buf → At buf pos (drop pos buf)
  At-here buf pos h = record { from = refl; ends = omega (arith, length-drop pos buf) }

  pub At-of_get :
      (buf : List A) (pos : ℕ) {x : A}
      → get_elem? buf pos ≡ some x
      → At buf pos (x ∷ drop (suc pos) buf)
  At-of_get buf pos {x} e = record {
    from = drop_of_get_elem? buf pos e;
    ends = omega (arith, length-drop (suc pos) buf, get_elem?-some_lt buf pos e);
  }

  -- What precedes a known place is read in front of it.
  pub At-prepend :
      {buf : List A} {pos : ℕ} (n : ℕ) {rest : List A}
      → At buf (pos + n) rest
      → At buf pos (take n (drop pos buf) ++ rest)
  At-prepend {buf} {pos} n {rest} h = record {
    from = sym (
        ap (◌++◌ (take n (drop pos buf))) (sym h.from ∙ drop-add pos n buf)
        ∙ take-append-drop n (drop pos buf));
    ends = omega (
      arith,
      length-append (take n (drop pos buf)) rest,
      length-take n (drop pos buf),
      length-drop pos buf,
      h.ends,
    );
  }
