-- ===== src/FakeIp/Shard/Positions.antt =====
-- How far the list of a shard's names has the entry of a name from its front.
use pao_pao_gate_way.Common.{
  ℕ, ◌+◌, ◌<◌, ◌≤◌, ◌≡◌, ◌≢◌, ◌↔◌, refl, ap, subst, sym, ◌∙◌, [], ◌∷◌, ◌++◌, Option, none, some,
  arith, length, length-append, leb, if◌then◌else◌, Option-cases, List-cases, Bool-cases, inl, inr,
}
use pao_pao_gate_way.Common.Bytes.{Bytes, Bytes-discrete}
use pao_pao_gate_way.Common.Maps.{get, remove, get-remove_ne}
use pao_pao_gate_way.FakeIp.Shard.Holders.{
  Holders, Interned, fresh, known, ip_of, name_of, touch, looked_up, drop_last,
}

-- The entry of the name and the address, with at most `n` in front of it.
abbrev pub Ahead : Bytes → ℕ → ℕ → Holders → Type 0
Ahead d ip n l =
    (xs : Holders) × (ys : Holders) × (l ≡ xs ++ (d, ip) ∷ ys)
    × (ip_of d xs ≡ none)
    × (name_of ip xs ≡ none)
    × (length xs ≤ n)

ip_of-ahead :
    (d : Bytes) (ip : ℕ) (xs ys : Holders)
    → ip_of d xs ≡ none
    → ip_of d (xs ++ (d, ip) ∷ ys) ≡ some ip
unfolding get
ip_of-ahead d ip [] ys h = ground arith
ip_of-ahead d ip ((e, i) ∷ xs) ys h = ground (arith, ip_of-ahead d ip xs ys)

name_of-ahead :
    (d : Bytes) (ip : ℕ) (xs ys : Holders)
    → name_of ip xs ≡ none
    → name_of ip (xs ++ (d, ip) ∷ ys) ≡ some d
name_of-ahead d ip [] ys h = ground arith
name_of-ahead d ip ((e, i) ∷ xs) ys h = ground (arith, name_of-ahead d ip xs ys)

remove-ahead :
    (k d : Bytes) (ip : ℕ) (xs ys : Holders)
    → d ≢ k
    → remove Bytes-discrete k (xs ++ (d, ip) ∷ ys)
      ≡ remove Bytes-discrete k xs ++ (d, ip) ∷ remove Bytes-discrete k ys
unfolding remove
remove-ahead k d ip [] ys h = ground arith
remove-ahead k d ip ((e, i) ∷ xs) ys h = ground (arith, remove-ahead k d ip xs ys)

length-remove-le : (k : Bytes) (xs : Holders) → length (remove Bytes-discrete k xs) ≤ length xs
unfolding remove
length-remove-le k [] = omega arith
length-remove-le k ((e, i) ∷ xs) = ground (arith, length-remove-le k xs)

name_of-remove :
    (k : Bytes) (ip : ℕ) (xs : Holders)
    → name_of ip xs ≡ none
    → name_of ip (remove Bytes-discrete k xs) ≡ none
unfolding remove
name_of-remove k ip [] h = refl
name_of-remove k ip ((e, i) ∷ xs) h = ground (arith, name_of-remove k ip xs)

-- The name and the address of one entry find each other.
abbrev pub IsOneToOne : Holders → Type 0
IsOneToOne l = (d : Bytes) (ip : ℕ) → (ip_of d l ≡ some ip) ↔ (name_of ip l ≡ some d)

-- The names and the addresses of a list, through its entry.
pub ip_of-Ahead : (d : Bytes) (ip n : ℕ) (l : Holders) → Ahead d ip n l → ip_of d l ≡ some ip
ip_of-Ahead d ip n l (xs, ys, q, a, b, c) = ap (ip_of d) q ∙ ip_of-ahead d ip xs ys a

pub name_of-Ahead : (d : Bytes) (ip n : ℕ) (l : Holders) → Ahead d ip n l → name_of ip l ≡ some d
name_of-Ahead d ip n l (xs, ys, q, a, b, c) = ap (name_of ip) q ∙ name_of-ahead d ip xs ys b

same_name :
    (k d : Bytes) (i ip : ℕ) (l : Holders)
    → name_of i l ≡ some k
    → name_of ip l ≡ some d
    → i ≡ ip
    → d ≡ k
same_name k d i ip l p q e = ground (arith, p, q, e)

-- Another name in front.
behind :
    (k d : Bytes) (i ip n : ℕ) (xs ys : Holders)
    → k ≢ d
    → i ≢ ip
    → ip_of d xs ≡ none
    → name_of ip xs ≡ none
    → length xs ≤ n
    → Ahead d ip (n + 1) ((k, i) ∷ (xs ++ (d, ip) ∷ ys))
unfolding get
behind k d i ip n xs ys p q a b c =
    ((k, i) ∷ xs, ys, refl, ground (arith, a), ground (arith, b), omega arith)

-- A name of the list is used.
touch-Ahead :
    (k d : Bytes) (i ip n : ℕ) (l : Holders)
    → IsOneToOne l
    → ip_of k l ≡ some i
    → Ahead d ip n l
    → Ahead d ip (n + 1) (touch k i l)
unfolding get
touch-Ahead k d i ip n l one held h = elim (Bytes-discrete d k) [
  | yes e ↦ (
    [],
    remove Bytes-discrete k l,
    ground (arith, ip_of-Ahead d ip n l h, ap (λ n. ip_of n l) e),
    refl,
    refl,
    omega arith,
  )
  | no ne ↦
      let (xs, ys, q, a, b, c) = h in
      subst (λ r. Ahead d ip (n + 1) ((k, i) ∷ r))
        (sym (remove-ahead k d ip xs ys ne) ∙ ap (remove Bytes-discrete k) (sym q))
        (behind k d i ip n (remove Bytes-discrete k xs) (remove Bytes-discrete k ys)
          (λ e. ne (sym e))
          (λ e. ne (same_name k d i ip l ((one k i).0 held) (name_of-Ahead d ip n l h) e))
          (get-remove_ne Bytes-discrete k d xs (λ e. ne (sym e)) ∙ a) (name_of-remove k ip xs b)
          (omega (arith, c, length-remove-le k xs)))
]

drop_last-ahead :
    (x y : Bytes × ℕ) (xs ys : Holders)
    → drop_last (xs ++ x ∷ y ∷ ys) ≡ xs ++ x ∷ drop_last (y ∷ ys)
drop_last-ahead x y [] ys = refl
drop_last-ahead x y (z ∷ []) ys = refl
drop_last-ahead x y (z ∷ w ∷ xs) ys = ap (λ l. z ∷ l) (drop_last-ahead x y (w ∷ xs) ys)

-- What is not the last entry stays.
kept-Ahead :
    (cap : ℕ) (d : Bytes) (ip n : ℕ) (l : Holders)
    → length l ≤ cap
    → n + 1 < cap
    → Ahead d ip n l
    → Ahead d ip n (if leb cap (length l) then drop_last l else l)
kept-Ahead cap d ip n l size room h = elim (Bool-cases (leb cap (length l))) [
  | inr spare ↦ rw spare h
  | inl full ↦
      let (xs, ys, q, a, b, c) = h in
      elim (List-cases ys) [
        | inl e ↦ absurd (ground (arith, ap length q, length-append xs ((d, ip) ∷ ys), ap length e))
        | inr (y, zs, e) ↦ rw full (
          xs,
          drop_last (y ∷ zs),
          ap drop_last (q ∙ ap (λ t. xs ++ (d, ip) ∷ t) e) ∙ drop_last-ahead (d, ip) y xs zs,
          a,
          b,
          c,
        )
      ]
]

fresh-Ahead :
    (k d : Bytes) (i ip n : ℕ) (l : Holders)
    → k ≢ d
    → name_of i l ≡ none
    → Ahead d ip n l
    → Ahead d ip (n + 1) ((k, i) ∷ l)
fresh-Ahead k d i ip n l ne free h =
    let (xs, ys, q, a, b, c) = h in
    subst (λ r. Ahead d ip (n + 1) ((k, i) ∷ r)) (sym q)
      (behind k d i ip n xs ys ne
        (λ e. ground (arith, ap (λ t. name_of t l) e, name_of-Ahead d ip n l h, free)) a b c)

pub Interned-Ahead :
    (cap lo usable : ℕ) (l l' : Holders) (k d : Bytes) (i ip n : ℕ)
    → IsOneToOne l
    → length l ≤ cap
    → n + 1 < cap
    → Ahead d ip n l
    → Interned cap lo usable l k i l'
    → Ahead d ip (n + 1) l'
Interned-Ahead cap lo usable l l' k d i ip n one size room h (known held) =
    touch-Ahead k d i ip n l one held h
Interned-Ahead cap lo usable l l' k d i ip n one size room h (fresh kept q new free above below) =
    fresh-Ahead k d i ip n kept
      (λ e. ground (arith, ip_of-Ahead d ip n l h, new, ap (λ t. ip_of t l) e)) free
      (subst (Ahead d ip n) (sym q) (kept-Ahead cap d ip n l size room h))

pub looked_up-Ahead :
    (d : Bytes) (i ip n : ℕ) (l : Holders)
    → IsOneToOne l
    → Ahead d ip n l
    → Ahead d ip (n + 1) (looked_up i l)
looked_up-Ahead d i ip n l one h = elim (Option-cases (name_of i l)) [
  | inl e ↦ let (xs, ys, q, a, b, c) = h in to e (xs, ys, q, a, b, omega (arith, c))
  | inr (k, e) ↦ to e (touch-Ahead k d i ip n l one ((one k i).1 e) h)
]
  where
    after : Option Bytes → Holders
    after o = elim o [ none ↦ l | some k ↦ touch k i l ]

    to :
        {o : Option Bytes}
        → name_of i l ≡ o
        → Ahead d ip (n + 1) (after o)
        → Ahead d ip (n + 1) (looked_up i l)
    to e a = subst (λ o. Ahead d ip (n + 1) (after o)) (sym e) a
