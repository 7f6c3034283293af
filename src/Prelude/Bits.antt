-- ===== src/Prelude/Bits.antt =====
-- Bits of a word: the laws of `|` and `&` at variables that the bitmaps and the wire codecs need.
mod Step
use Step.{bit_or_step, bit_and_step, bit_xor_step}
use native.Mathlib.Nat.{pow-suc, pow-succ', one-le-pow, div-div-eq-div-mul}
use Prim.Native.Nat.{
  ℕ, zero, suc, ◌+◌, ◌-◌, ◌*◌, ◌/◌, ◌%◌, ◌^◌, ◌≤◌, ◌<◌, max, min, bit_and, bit_or, bit_xor, differ,
}
use mathlib.Core.Path.{◌≡◌, refl, ap, ◌∙◌, sym}
use mathlib.Core.Bool.{Bool, true, false, ◌||◌}
use native.Mathlib.Omega.{arith}
use mathlib.Core.Logic.{◌⊎◌, inl, inr}
use microtun.Prelude.Tests.{◌==◌}

-- Bit `i` of `w` is set.
abbrev pub bit_test : ℕ → ℕ → Bool
bit_test w i = w / 2 ^ i % 2 == 1

-- Dropping the lowest bit of a word moves every other bit down by one.
bit_test-suc : (w i : ℕ) → bit_test w (suc i) ≡ bit_test (w / 2) i
bit_test-suc w i = rw (pow-succ', ← div-div-eq-div-mul)

low_bit_or : (a b : ℕ) → bit_test (bit_or a b) 0 ≡ bit_test a 0 || bit_test b 0
low_bit_or a b = ground (arith, bit_or_step a b)

half_or : (a b : ℕ) → bit_or a b / 2 ≡ bit_or (a / 2) (b / 2)
half_or a b = omega (arith, bit_or_step a b)

-- `|` is the disjunction of the bits, at every position.
pub bit_test-or : (i a b : ℕ) → bit_test (bit_or a b) i ≡ bit_test a i || bit_test b i
bit_test-or zero a b = low_bit_or a b
bit_test-or (suc i) a b =
    rw (bit_test-suc (bit_or a b) i, bit_test-suc a i, bit_test-suc b i, half_or a b)
      (bit_test-or i (a / 2) (b / 2))

bit_test-zero : (i : ℕ) → bit_test 0 i ≡ false
bit_test-zero zero = refl
bit_test-zero (suc i) = rw bit_test-suc (bit_test-zero i)

half_pow : (i : ℕ) → 2 ^ suc i / 2 ≡ 2 ^ i
half_pow i = omega (arith, pow-suc 2 i)

-- `1 << b` has the one bit `b`.
pub bit_test-pow : (i b : ℕ) → bit_test (2 ^ b) i ≡ (i == b)
bit_test-pow zero zero = refl
bit_test-pow zero (suc b) = ground (arith, pow-suc 2 b)
bit_test-pow (suc i) zero = rw bit_test-suc (ground (arith, bit_test-zero i))
bit_test-pow (suc i) (suc b) = rw (bit_test-suc, half_pow b) (ground (arith, bit_test-pow i b))

-- Setting bit `b` of a word changes that bit only.
pub bit_test-set : (w b i : ℕ) → bit_test (bit_or w (2 ^ b)) i ≡ bit_test w i || (i == b)
bit_test-set w b i = rw (bit_test-or i w (2 ^ b), bit_test-pow i b)

bit_and-zero : (n a : ℕ) → a ≤ n → bit_and a 0 ≡ 0
bit_and-zero n zero h = refl
bit_and-zero zero (suc a) h = absurd (omega arith)
bit_and-zero (suc n) (suc a) h =
    omega (arith, bit_and_step (suc a) 0, bit_and-zero n (suc a / 2) (omega arith))

-- `w & 1` is the lowest bit.
pub bit_and-one : (a : ℕ) → bit_and a 1 ≡ a % 2
bit_and-one a = omega (arith, bit_and_step a 1, bit_and-zero (a / 2) (a / 2) (omega arith))

bit_cases : (n : ℕ) → (n % 2 ≡ 0) ⊎ (n % 2 ≡ 1)
bit_cases n = ground arith

differ_twice : (a b : ℕ) → differ (differ (a % 2) (b % 2)) (b % 2) ≡ a % 2
differ_twice a b = elim (bit_cases a) [
  | inl p ↦ elim (bit_cases b) [ inl q ↦ rw (p, q) refl | inr q ↦ rw (p, q) refl ]
  | inr p ↦ elim (bit_cases b) [ inl q ↦ rw (p, q) refl | inr q ↦ rw (p, q) refl ]
]

differ_bit : (a b : ℕ) → differ (a % 2) (b % 2) ≤ 1
differ_bit a b = elim (bit_cases a) [
  | inl p ↦ elim (bit_cases b) [ inl q ↦ rw (p, q) (omega arith) | inr q ↦ rw (p, q) (omega arith) ]
  | inr p ↦ elim (bit_cases b) [ inl q ↦ rw (p, q) (omega arith) | inr q ↦ rw (p, q) (omega arith) ]
]

xor_twice_below : (n a b : ℕ) → a ≤ n → b ≤ n → bit_xor (bit_xor a b) b ≡ a
xor_twice_below zero zero zero h k = refl
xor_twice_below zero zero (suc b) h k = absurd (omega arith)
xor_twice_below zero (suc a) b h k = absurd (omega arith)
xor_twice_below (suc n) a b h k =
    let x = bit_xor a b in
    let low : x % 2 ≡ differ (a % 2) (b % 2) = omega (arith, bit_xor_step a b, differ_bit a b) in
    let high : x / 2 ≡ bit_xor (a / 2) (b / 2) = omega (arith, bit_xor_step a b, differ_bit a b) in
    let rest = xor_twice_below n (a / 2) (b / 2) (omega arith) (omega arith) in
    let outer : bit_xor x b
        ≡ differ (differ (a % 2) (b % 2)) (b % 2) + 2 * bit_xor (bit_xor (a / 2) (b / 2)) (b / 2) =
      rw (← low, ← high) (bit_xor_step x b) in
    omega (arith, outer, differ_twice a b, rest)

-- `x ^ k ^ k` is `x`.
pub bit_xor_twice : (a b : ℕ) → bit_xor (bit_xor a b) b ≡ a
bit_xor_twice a b = xor_twice_below (a + b) a b (omega arith) (omega arith)
