-- ===== src/Rules/Suffixes.antt =====
-- Which names a suffix matches.
use pao_pao_gate_way.Common.{
  ℕ, zero, suc, ◌+◌, ◌-◌, ◌<◌, ◌≤◌, ◌≡◌, ◌↔◌, inl, inr, refl, sym, ap, subst, ◌∙◌, true, false, [],
  ◌∷◌, ◌++◌, map, arith, ◌==◌, length, length-append, length-take, get_or, take, drop, drop_eq,
  Bool-cases,
}
use pao_pao_gate_way.Common.Bytes.{Bytes, bytes_eq_iff}
use pao_pao_gate_way.Common.Text.{to_ascii_lowercase}
use pao_pao_gate_way.Common.Cursor.{drop-add}
use pao_pao_gate_way.Sniff.Http.{eq_ignore_ascii_case}
use pao_pao_gate_way.Rules.{is_suffix_match}

-- Two texts are the same without regard to ASCII case.
abbrev pub Same : Bytes → Bytes → Type 0
Same xs ys = map to_ascii_lowercase xs ≡ map to_ascii_lowercase ys

-- A name is another one, or stands below it: some text and a dot come in front of it.
pub data Below (d suffix : Bytes) : Type 0 where
  itself : Same d suffix → Below d suffix
  under :
      (front rest : Bytes)
      → 1 ≤ length front
      → d ≡ front ++ b'.' ∷ rest
      → Same rest suffix
      → Below d suffix

equal : (m n : ℕ) → m ≡ n → (m == n) ≡ true
equal m n h = ground arith

not_equal : (m n : ℕ) → n < m → (m == n) ≡ false
not_equal m n h = ground arith

eq_ignore_ascii_case_iff : (xs ys : Bytes) → (eq_ignore_ascii_case xs ys ≡ true) ↔ Same xs ys
unfolding eq_ignore_ascii_case
eq_ignore_ascii_case_iff xs ys =
    bytes_eq_iff (map to_ascii_lowercase xs) (map to_ascii_lowercase ys)

length-map_lower : (xs : Bytes) → length (map to_ascii_lowercase xs) ≡ length xs
length-map_lower [] = refl
length-map_lower (x ∷ xs) = omega (arith, length-map_lower xs)

length-Same : (xs ys : Bytes) → Same xs ys → length xs ≡ length ys
length-Same xs ys h = omega (arith, ap length h, length-map_lower xs, length-map_lower ys)

-- The text around a place that holds a dot.
split_there :
    (d : Bytes) (p : ℕ)
    → p < length d
    → (get_or d p 0 == b'.') ≡ true
    → d ≡ take p d ++ b'.' ∷ drop (suc p) d
split_there [] p h e = absurd (omega arith)
split_there (x ∷ d) zero h e = ap (λ y. y ∷ d) (ground arith)
split_there (x ∷ d) (suc p) h e = ap (λ xs. x ∷ xs) (split_there d p (omega arith) e)

-- The tests of a name that is longer than the suffix.
module _ (d suffix : Bytes) (ne : (length d == length suffix) ≡ false) where
  abbrev cut : ℕ
  cut = length d - length suffix

  long_parts :
      is_suffix_match d suffix ≡ true
      → (length suffix + 2 ≤ length d)
        × ((get_or d (cut - 1) 0 == b'.') ≡ true)
        × (eq_ignore_ascii_case (drop cut d) suffix ≡ true)
  unfolding is_suffix_match
  long_parts h = (ground arith, ground arith, ground arith)

  long_match :
      length suffix + 2 ≤ length d
      → (get_or d (cut - 1) 0 == b'.') ≡ true
      → eq_ignore_ascii_case (drop cut d) suffix ≡ true
      → is_suffix_match d suffix ≡ true
  unfolding is_suffix_match
  long_match l g q = ground arith

  below : is_suffix_match d suffix ≡ true → Below d suffix
  below h =
      let (l, g, q) = long_parts h in
      let n : suc (cut - 1) ≡ cut = omega (arith, l) in
      under (take (cut - 1) d) (drop cut d) (omega (arith, l, length-take (cut - 1) d))
        (split_there d (cut - 1) (omega (arith, l)) g
          ∙ ap (λ k. take (cut - 1) d ++ b'.' ∷ drop k d) n)
        ((eq_ignore_ascii_case_iff (drop cut d) suffix).0 q)

is_suffix_match_sound : (d suffix : Bytes) → is_suffix_match d suffix ≡ true → Below d suffix
unfolding is_suffix_match
is_suffix_match_sound d suffix h = elim (Bool-cases (length d == length suffix)) [
  | inl e ↦ itself ((eq_ignore_ascii_case_iff d suffix).0 (ground arith))
  | inr e ↦ below d suffix e h
]

dot_at : (front rest : Bytes) → (get_or (front ++ b'.' ∷ rest) (length front) 0 == b'.') ≡ true
dot_at [] rest = refl
dot_at (x ∷ front) rest = dot_at front rest

is_suffix_match-under :
    (front rest suffix : Bytes)
    → 1 ≤ length front
    → Same rest suffix
    → is_suffix_match (front ++ b'.' ∷ rest) suffix ≡ true
is_suffix_match-under front rest suffix f s =
    let d = front ++ b'.' ∷ rest in
    let n : length d ≡ length front + 1 + length suffix =
      omega (arith, length-append front (b'.' ∷ rest), length-Same rest suffix s) in
    let c : length d - length suffix ≡ length front + 1 = omega (arith, n) in
    let ne : (length d == length suffix) ≡ false =
      not_equal (length d) (length suffix) (omega (arith, n, f)) in
    let gone : drop (length front + 1) d ≡ rest =
      drop-add (length front) 1 d ∙ ap (drop 1) (drop_eq front (b'.' ∷ rest) refl) in
    long_match d suffix ne (omega (arith, n, f))
      (ap (λ k. get_or d k 0 == b'.') {x = length d - length suffix - 1} {y = length front}
          (omega (arith, c))
        ∙ dot_at front rest)
      (ap (λ xs. eq_ignore_ascii_case xs suffix) (ap (λ k. drop k d) c ∙ gone)
        ∙ (eq_ignore_ascii_case_iff rest suffix).1 s)

is_suffix_match_complete : (d suffix : Bytes) → Below d suffix → is_suffix_match d suffix ≡ true
unfolding is_suffix_match
is_suffix_match_complete d suffix (itself s) =
    let n : (length d == length suffix) ≡ true =
      equal (length d) (length suffix) (length-Same d suffix s) in
    rw (is_suffix_match, n) ((eq_ignore_ascii_case_iff d suffix).1 s)
is_suffix_match_complete d suffix (under front rest f e s) =
    subst (λ x. is_suffix_match x suffix ≡ true) (sym e)
      (is_suffix_match-under front rest suffix f s)

-- A suffix matches exactly itself and the names below it, without regard to ASCII case.
pub is_suffix_match_iff : (d suffix : Bytes) → (is_suffix_match d suffix ≡ true) ↔ Below d suffix
is_suffix_match_iff d suffix = (is_suffix_match_sound d suffix, is_suffix_match_complete d suffix)
