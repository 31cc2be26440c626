-- ===== src/Web/Tokens.antt =====
-- sniffbox/crates/sb-web/src/auth.rs: the token of a request. The derivation of the token is of the
-- package sha2. `trim`, `is_utf8` and the like are those of the standard library.
use Prim.Native.Nat.{bit_or, bit_xor}
use pao_pao_gate_way.Common.{
  ℕ, ◌≡◌, ◌⊎◌, ◌↔◌, refl, sym, ap, subst, Bool, true, false, not, [], ◌∷◌, ◌++◌, Option, none, some,
  arith, length, drop, ◌==◌, if◌then◌else◌, Bool-cases, Option-cases, inl, inr,
}
use pao_pao_gate_way.Common.Bits.{bit_xor_zero, bit_or_zero}
use pao_pao_gate_way.Common.Bytes.{Bytes, starts_with, is_utf8}
use pao_pao_gate_way.Sniff.Http.{trim}

-- The loop of `constant_time_eq`.
abbrev pub differences : ℕ → Bytes → Bytes → ℕ
differences diff (x ∷ xs) (y ∷ ys) = differences (bit_or diff (bit_xor x y)) xs ys
differences diff [] ys = diff
differences diff (x ∷ xs) [] = diff

unfoldable pub constant_time_eq : Bytes → Bytes → Bool
constant_time_eq a b = if not (length a == length b) then false else differences 0 a b == 0

abbrev pub strip_prefix : Bytes → Bytes → Option Bytes
strip_prefix s p = if starts_with s p then some (drop (length p) s) else none

-- "Bearer " and "bearer "
abbrev pub capital_bearer : Bytes
capital_bearer = b'B' ∷ b'e' ∷ b'a' ∷ b'r' ∷ b'e' ∷ b'r' ∷ b' ' ∷ []

abbrev pub small_bearer : Bytes
small_bearer = b'b' ∷ b'e' ∷ b'a' ∷ b'r' ∷ b'e' ∷ b'r' ∷ b' ' ∷ []

abbrev pub stripped : Bytes → Option Bytes
stripped s = elim (strip_prefix s capital_bearer) [
  | some tok ↦ some tok
  | none ↦ strip_prefix s small_bearer
]

unfoldable pub check_bearer : Option Bytes → Bytes → Bool
check_bearer none expected_token = false
check_bearer (some v) expected_token =
    if not (is_utf8 v)
    then false
    else elim (stripped v) [ none ↦ false | some tok ↦ constant_time_eq (trim tok) expected_token ]

differences_zero :
    (diff : ℕ) (a b : Bytes)
    → length a ≡ length b
    → (differences diff a b ≡ 0) ↔ ((diff ≡ 0) × (a ≡ b))
differences_zero diff [] [] h = (λ e. (e, refl), λ (e, p). e)
differences_zero diff [] (y ∷ ys) h = absurd (omega arith)
differences_zero diff (x ∷ xs) [] h = absurd (omega arith)
differences_zero diff (x ∷ xs) (y ∷ ys) h =
    let ih = differences_zero (bit_or diff (bit_xor x y)) xs ys (omega (arith, h)) in
    let o = bit_or_zero diff (bit_xor x y) in
    let e = bit_xor_zero x y in
    (
      λ z. let (both, rest) = ih.0 z in let (d, same) = o.0 both in (d, rw (e.0 same, rest) refl),
      λ (d, q). ih.1 (o.1 (d, e.1 (ground (arith, q))), ground (arith, q)),
    )

-- The comparison finds a difference exactly if there is one.
pub constant_time_eq_iff : (a b : Bytes) → (constant_time_eq a b ≡ true) ↔ (a ≡ b)
unfolding constant_time_eq
constant_time_eq_iff a b = elim (Bool-cases (length a == length b)) [
  | inl l ↦
      let d = differences_zero 0 a b (ground (arith, l)) in
      (λ e. (d.0 (ground (arith, e, l))).1, λ q. rw l (ground (arith, d.1 (refl, q))))
  | inr l ↦ (λ e. absurd (ground (arith, e, l)), λ q. absurd (ground (arith, ap length q, l)))
]

pub prefix_iff : (p s tok : Bytes) → (strip_prefix s p ≡ some tok) ↔ (s ≡ p ++ tok)
unfolding starts_with
prefix_iff [] s tok = (λ e. ground arith, λ e. ground arith)
prefix_iff (c ∷ p) [] tok = (λ e. absurd (ground arith), λ e. absurd (ground arith))
prefix_iff (c ∷ p) (x ∷ s) tok =
    (λ e. ground (arith, (prefix_iff p s tok).0, e), λ e. ground (arith, (prefix_iff p s tok).1, e))

-- What follows one of the two words.
pub Bears : Bytes → Bytes → Type 0
Bears v token =
    (tok : Bytes) × ((v ≡ capital_bearer ++ tok) ⊎ (v ≡ small_bearer ++ tok)) × (trim tok ≡ token)

stripped_sound :
    (v tok : Bytes)
    → stripped v ≡ some tok
    → (v ≡ capital_bearer ++ tok) ⊎ (v ≡ small_bearer ++ tok)
stripped_sound v tok h = elim (Option-cases (strip_prefix v capital_bearer)) [
  | inl e ↦ inr ((prefix_iff small_bearer v tok).0 (ground (arith, h, e)))
  | inr (t, e) ↦ inl ((prefix_iff capital_bearer v tok).0 (ground (arith, h, e)))
]

stripped_complete :
    (v tok : Bytes)
    → (v ≡ capital_bearer ++ tok) ⊎ (v ≡ small_bearer ++ tok)
    → stripped v ≡ some tok
unfolding starts_with
stripped_complete v tok (inl e) = subst (λ w. stripped w ≡ some tok) (sym e) refl
stripped_complete v tok (inr e) = subst (λ w. stripped w ≡ some tok) (sym e) refl

check_bearer_sound :
    (v token : Bytes) → check_bearer (some v) token ≡ true → (is_utf8 v ≡ true) × Bears v token
unfolding check_bearer Bears
check_bearer_sound v token h = elim (Bool-cases (is_utf8 v)) [
  | inr u ↦ absurd (ground (arith, h, u))
  | inl u ↦ elim (Option-cases (stripped v)) [
    | inl e ↦ absurd (ground (arith, h, u, e))
    | inr (tok, e) ↦ (
      u,
      (
        tok,
        stripped_sound v tok e,
        (constant_time_eq_iff (trim tok) token).0 (ground (arith, h, u, e)),
      ),
    )
  ]
]

check_bearer_complete :
    (v token : Bytes) → is_utf8 v ≡ true → Bears v token → check_bearer (some v) token ≡ true
unfolding check_bearer Bears
check_bearer_complete v token u (tok, words, t) =
    rw (u, stripped_complete v tok words) ((constant_time_eq_iff (trim tok) token).1 t)

-- A request bears the token exactly if its header is a text that is one of the words `Bearer ` and
-- `bearer ` and then the token, with white space around it or not.
pub check_bearer_iff :
    (header : Option Bytes) (token : Bytes)
    → (check_bearer header token ≡ true)
      ↔ ((v : Bytes) × (header ≡ some v) × (is_utf8 v ≡ true) × Bears v token)
unfolding check_bearer
check_bearer_iff none token =
    (λ e. absurd (ground arith), λ (v, e, u, b). absurd (ground (arith, e)))
check_bearer_iff (some v) token = (
  λ e. let (u, b) = check_bearer_sound v token e in (v, refl, u, b),
  λ (w, q, u, b).
      let p : w ≡ v = ground (arith, q) in
      subst (λ x. check_bearer (some x) token ≡ true) p (check_bearer_complete w token u b),
)
