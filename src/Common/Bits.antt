-- ===== src/Common/Bits.antt =====
-- Facts on bits, by evaluation over a byte.
use Prim.Native.Nat.{
  ℕ, zero, suc, ◌<◌, ◌≤◌, ◌/◌, ◌%◌, max, differ, digits, bit_and, bit_or, bit_xor, bit_or-bitwise,
  bit_xor-bitwise,
}
use mathlib.Core.Path.{◌≡◌, refl, ap, sym, subst, ◌∙◌}
use mathlib.Core.Logic.{inl, inr, ◌↔◌}
use mathlib.Core.Bool.{Bool, true, false, not}
use native.Mathlib.Omega.{arith}
use pao_pao_gate_way.Common.Tests.{ltb, ◌==◌, if◌then◌else◌, Bool-cases}

-- A test of the numbers under a bound, from the largest on.
passes : (ℕ → Bool) → ℕ → Bool
passes test zero = true
passes test (suc bound) = let smaller = passes test bound in if test bound then smaller else false

passes_all :
    (test : ℕ → Bool) {bound : ℕ} (number : ℕ)
    → number < bound
    → passes test bound ≡ true
    → test number ≡ true
unfolding passes
passes_all test {bound = zero} number under ok = absurd (omega arith)
passes_all test {bound = suc bound} number under ok = elim (Bool-cases (ltb number bound)) [
  | inl below ↦ ground (arith, passes_all test {bound = bound} number)
  | inr above ↦ ground arith
]

-- Whether the two top bits tell if a byte is below 64.
top_bits_tell : ℕ → Bool
top_bits_tell x = let clear = bit_and x 0xc0 == 0 in if ltb x 64 then clear else not clear

bytes_tell : passes top_bits_tell 256 ≡ true
unfolding passes top_bits_tell
bytes_tell = refl

pub top_bits_clear : (x : ℕ) → x < 64 → bit_and x 0xc0 ≡ 0
unfolding top_bits_tell
top_bits_clear x h =
    ground (arith, passes_all top_bits_tell {bound = 256} x (omega arith) bytes_tell)

pub lt_of_top_bits : (x : ℕ) → x < 256 → (bit_and x 0xc0 == 0) ≡ true → x < 64
unfolding top_bits_tell
lt_of_top_bits x h e = ground (arith, passes_all top_bits_tell {bound = 256} x h bytes_tell)

differ_zero : (x y : ℕ) → differ x y ≡ 0 → x ≡ y
differ_zero zero y h = sym h
differ_zero (suc x) zero h = h
differ_zero (suc x) (suc y) h = ap suc (differ_zero x y h)

differ_same : (x : ℕ) → differ x x ≡ 0
differ_same zero = refl
differ_same (suc x) = differ_same x

abbrev xor_digits : ℕ → ℕ → ℕ → ℕ
xor_digits = digits (λ b. b) differ

xor_digits_zero : (n a b : ℕ) → a ≤ n → xor_digits n a b ≡ 0 → a ≡ b
xor_digits_zero zero a b h e = omega arith
xor_digits_zero (suc n) zero b h e = sym e
xor_digits_zero (suc n) (suc a) b h e = omega (
  arith,
  xor_digits_zero n (suc a / 2) (b / 2) (omega arith) (omega (arith, e)),
  differ_zero (suc a % 2) (b % 2) (omega (arith, e)),
)

xor_digits_same : (n a : ℕ) → a ≤ n → xor_digits n a a ≡ 0
xor_digits_same zero a h = omega arith
xor_digits_same (suc n) zero h = refl
xor_digits_same (suc n) (suc a) h =
    omega (arith, xor_digits_same n (suc a / 2) (omega arith), differ_same (suc a % 2))

pub bit_xor_zero : (a b : ℕ) → (bit_xor a b ≡ 0) ↔ (a ≡ b)
bit_xor_zero a b =
    let p : bit_xor a b ≡ xor_digits a a b = bit_xor-bitwise a b in
    (
      λ e. xor_digits_zero a a b (omega arith) (sym p ∙ e),
      λ e. p ∙ subst (λ c. xor_digits a a c ≡ 0) e (xor_digits_same a a (omega arith)),
    )

or_digits_zero : (n a b : ℕ) → a ≤ n → digits (λ b. b) max n a b ≡ 0 → (a ≡ 0) × (b ≡ 0)
or_digits_zero zero a b h e = (omega arith, e)
or_digits_zero (suc n) zero b h e = (refl, e)
or_digits_zero (suc n) (suc a) b h e =
    let r = or_digits_zero n (suc a / 2) (b / 2) (omega arith) (omega (arith, e)) in
    (omega (arith, r, e), omega (arith, r, e))

pub bit_or_zero : (a b : ℕ) → (bit_or a b ≡ 0) ↔ ((a ≡ 0) × (b ≡ 0))
bit_or_zero a b =
    let p : bit_or a b ≡ digits (λ b. b) max a a b = bit_or-bitwise a b in
    (λ e. or_digits_zero a a b (omega arith) (sym p ∙ e), λ (q, r). rw (q, r) refl)
