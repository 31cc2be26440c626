-- ===== src/Common/Bytes.antt =====
-- Byte strings: lists of numbers below 256, integers in network order, and `std::str::from_utf8`.
use Prim.Native.Nat.{ℕ, zero, suc, ◌+◌, ◌*◌, ◌/◌, ◌%◌, ◌^◌, ◌<◌}
use mathlib.Core.Path.{◌≡◌, refl}
use mathlib.Core.Logic.{◌↔◌, inl, inr}
use mathlib.Core.Bool.{Bool, true, false, ◌&&◌}
use mathlib.Core.List.{List, [], ◌∷◌, ◌++◌}
use mathlib.Core.Option.{Option, none, some}
use native.Mathlib.Nat.{pow-suc}
use native.Mathlib.Omega.{arith}
use native.Mathlib.Decide.{ℕ_discrete}
use pao_pao_gate_way.Common.Tests.{Option-cases, ltb, leb, ◌==◌, if◌then◌else◌}
use pao_pao_gate_way.Common.Lists.{length, length-append, all, All}

abbrev pub Bytes : Type 0
Bytes = List ℕ

unfoldable pub Bytes-discrete : Discrete Bytes
unfolding ℕ_discrete
Bytes-discrete = hlevel ℕ_discrete

abbrev pub AreBytes : Bytes → Type 0
AreBytes = All (λ b. b < 256)

-- A bound of every number, from the test.
pub All-of_all : (n : ℕ) (xs : List ℕ) → all (λ x. ltb x n) xs ≡ true → All (λ x. x < n) xs
All-of_all n [] h = tt
All-of_all n (x ∷ xs) h = (ground arith, All-of_all n xs (ground arith))

pub AreBytes-append : (xs ys : Bytes) → AreBytes xs → AreBytes ys → AreBytes (xs ++ ys)
AreBytes-append [] ys h k = k
AreBytes-append (x ∷ xs) ys h k = (h.0, AreBytes-append xs ys h.1 k)

-- `to_be_bytes`, at `k` bytes.
unfoldable pub be_bytes : ℕ → ℕ → Bytes
be_bytes zero n = []
be_bytes (suc k) n = be_bytes k (n / 256) ++ (n % 256) ∷ []

-- `from_be_bytes`.
unfoldable pub from_be_at : ℕ → Bytes → ℕ
from_be_at acc [] = acc
from_be_at acc (b ∷ bs) = from_be_at (acc * 256 + b) bs

abbrev pub from_be : Bytes → ℕ
from_be = from_be_at 0

pub length-be_bytes : (k n : ℕ) → length (be_bytes k n) ≡ k
unfolding be_bytes
length-be_bytes zero n = refl
length-be_bytes (suc k) n =
    omega (arith, length-append (be_bytes k (n / 256)) (n % 256 ∷ []), length-be_bytes k (n / 256))

pub be_bytes-AreBytes : (k n : ℕ) → AreBytes (be_bytes k n)
unfolding be_bytes
be_bytes-AreBytes zero n = tt
be_bytes-AreBytes (suc k) n =
    AreBytes-append (be_bytes k (n / 256)) (n % 256 ∷ []) (be_bytes-AreBytes k (n / 256))
      (omega arith, tt)

from_be_at-snoc :
    (acc : ℕ) (bs : Bytes) (b : ℕ) → from_be_at acc (bs ++ b ∷ []) ≡ from_be_at acc bs * 256 + b
unfolding from_be_at
from_be_at-snoc acc [] b = refl
from_be_at-snoc acc (x ∷ bs) b = from_be_at-snoc (acc * 256 + x) bs b

-- A number that fits is read back.
pub from_be-be_bytes : (k n : ℕ) → n < 256 ^ k → from_be (be_bytes k n) ≡ n
unfolding be_bytes from_be_at
from_be-be_bytes zero n h = omega arith
from_be-be_bytes (suc k) n h =
    let p : 256 ^ suc k ≡ 256 ^ k * 256 = pow-suc 256 k in
    omega (
      arith,
      from_be_at-snoc 0 (be_bytes k (n / 256)) (n % 256),
      from_be-be_bytes k (n / 256) (omega arith),
    )

-- The first `n` items and the rest, if there are so many.
unfoldable pub split_at {ℓ} : {A : Type ℓ} → ℕ → List A → Option (List A × List A)
split_at zero xs = some ([], xs)
split_at (suc n) [] = none
split_at (suc n) (x ∷ xs) = elim (split_at n xs) [ none ↦ none | some (ys, zs) ↦ some (x ∷ ys, zs) ]

pub split_at-append {ℓ} :
    {A : Type ℓ} (xs ys : List A) → split_at (length xs) (xs ++ ys) ≡ some (xs, ys)
unfolding split_at
split_at-append [] ys = refl
split_at-append (x ∷ xs) ys = rw (split_at-append xs ys)

-- With the count given by an equation.
pub split_at_eq {ℓ} :
    {A : Type ℓ} {n : ℕ} (xs ys : List A) → length xs ≡ n → split_at n (xs ++ ys) ≡ some (xs, ys)
split_at_eq xs ys h = rw (← h) (split_at-append xs ys)

pub split_at_sound {ℓ} :
    {A : Type ℓ} (n : ℕ) (xs : List A) {ys zs : List A}
    → split_at n xs ≡ some (ys, zs)
    → (ys ++ zs ≡ xs) × (length ys ≡ n)
unfolding split_at
split_at_sound zero xs h = ground arith
split_at_sound (suc n) [] h = ground arith
split_at_sound (suc n) (x ∷ xs) {ys} {zs} h = elim (Option-cases (split_at n xs)) [
  | inl e ↦ ground arith
  | inr ((a, b), e) ↦ ground (arith, split_at_sound n xs e)
]

unfoldable pub bytes_eq : Bytes → Bytes → Bool
bytes_eq [] [] = true
bytes_eq (x ∷ xs) (y ∷ ys) = x == y && bytes_eq xs ys
bytes_eq _ _ = false

pub bytes_eq_iff : (xs ys : Bytes) → (bytes_eq xs ys ≡ true) ↔ (xs ≡ ys)
unfolding bytes_eq
bytes_eq_iff [] [] = ground arith
bytes_eq_iff [] (y ∷ ys) = ground arith
bytes_eq_iff (x ∷ xs) [] = ground arith
bytes_eq_iff (x ∷ xs) (y ∷ ys) = ground (arith, bytes_eq_iff xs ys)

-- `starts_with` on byte slices.
unfoldable pub starts_with : Bytes → Bytes → Bool
starts_with xs [] = true
starts_with [] (p ∷ ps) = false
starts_with (x ∷ xs) (p ∷ ps) = x == p && starts_with xs ps

unfoldable pub in_range : ℕ → ℕ → ℕ → Bool
in_range lo hi b = leb lo b && leb b hi

-- What follows a first byte: how many continuation bytes, and the range of the first of them.
unfoldable pub lead : ℕ → Option (ℕ × ℕ × ℕ)
unfolding in_range
lead b =
    if ltb b 0x80
    then some (0, 0, 0)
    else if in_range 0xc2 0xdf b
    then some (1, 0x80, 0xbf)
    else if b == 0xe0
    then some (2, 0xa0, 0xbf)
    else if b == 0xed
    then some (2, 0x80, 0x9f)
    else if in_range 0xe1 0xef b
    then some (2, 0x80, 0xbf)
    else if b == 0xf0
    then some (3, 0x90, 0xbf)
    else if in_range 0xf1 0xf3 b
    then some (3, 0x80, 0xbf)
    else if b == 0xf4
    then some (3, 0x80, 0x8f)
    else none

-- Whether `n` continuation bytes come first, the first of them between `lo` and `hi`, and then
-- whole characters.
utf8_rest : ℕ → ℕ → ℕ → Bytes → Bool
utf8_rest zero lo hi [] = true
utf8_rest (suc n) lo hi [] = false
utf8_rest zero lo hi (b ∷ bs) = elim (lead b) [
  | none ↦ false
  | some (n, lo', hi') ↦ utf8_rest n lo' hi' bs
]
utf8_rest (suc n) lo hi (b ∷ bs) = in_range lo hi b && utf8_rest n 0x80 0xbf bs

-- `std::str::from_utf8(bs).is_ok()`.
unfoldable pub is_utf8 : Bytes → Bool
unfolding utf8_rest lead
is_utf8 bs = utf8_rest 0 0 0 bs

utf8_rest_ascii : (bs : Bytes) → All (λ b. b < 128) bs → utf8_rest 0 0 0 bs ≡ true
unfolding utf8_rest lead
utf8_rest_ascii [] h = refl
utf8_rest_ascii (b ∷ bs) h = ground (arith, utf8_rest_ascii bs h.1)

pub is_utf8_ascii : (bs : Bytes) → All (λ b. b < 128) bs → is_utf8 bs ≡ true
unfolding is_utf8
is_utf8_ascii bs h = utf8_rest_ascii bs h
