-- ===== src/Prelude/Bits/Step.antt =====
-- The lowest binary digit of `|` and `&`, split off from the rest of the word.
use Prim.Native.Nat.{
  ℕ, zero, suc, ◌+◌, ◌*◌, ◌/◌, ◌%◌, ◌≤◌, min, max, digits, bitwise, bit_and, bit_or, bit_xor,
  differ, bit_and-bitwise, bit_or-bitwise, bit_xor-bitwise,
}
use mathlib.Core.Path.{◌≡◌, refl, sym, subst, ◌∙◌}
use mathlib.Core.Logic.{◌⊎◌, inl, inr}
use native.Mathlib.Omega.{arith}

le_cases : (a b : ℕ) → a ≤ suc b → (a ≤ b) ⊎ (a ≡ suc b)
le_cases a b h = ground arith

module _ (rest : ℕ → ℕ) (combine : ℕ → ℕ → ℕ) where
  -- A round more than the word has digits gives the same result.
  spare_round :
      (word other rounds : ℕ)
      → word ≤ rounds
      → digits rest combine (suc rounds) word other ≡ digits rest combine rounds word other
  spare_round zero other zero h = refl
  spare_round zero other (suc rounds) h = refl
  spare_round (suc word) other zero h = absurd (omega arith)
  spare_round (suc word) other (suc rounds) h =
      let halved = spare_round (suc word / 2) (other / 2) rounds (omega arith) in
      omega (arith, halved)

  any_rounds :
      (word other rounds : ℕ)
      → word ≤ rounds
      → digits rest combine rounds word other ≡ bitwise rest combine word other
  any_rounds zero other zero h = refl
  any_rounds (suc word) other zero h = absurd (omega arith)
  any_rounds word other (suc rounds) h = elim (le_cases word rounds h) [
    | inl below ↦ spare_round word other rounds below ∙ any_rounds word other rounds below
    | inr same ↦
        subst (λ w. digits rest combine (suc rounds) w other ≡ bitwise rest combine w other)
          (sym same) refl
  ]

  lowest_digit :
      (w v : ℕ)
      → bitwise rest combine (suc w) v
        ≡ combine (suc w % 2) (v % 2) + 2 * bitwise rest combine (suc w / 2) (v / 2)
  lowest_digit w v =
      let enough = any_rounds (suc w / 2) (v / 2) w (omega arith) in omega (arith, enough)

pub bit_or_step : (w v : ℕ) → bit_or w v ≡ max (w % 2) (v % 2) + 2 * bit_or (w / 2) (v / 2)
bit_or_step zero v = simp bit_or-bitwise (omega arith)
bit_or_step (suc w) v = omega (
  arith,
  bit_or-bitwise (suc w) v,
  bit_or-bitwise (suc w / 2) (v / 2),
  lowest_digit (λ d. d) max w v,
)

pub bit_and_step : (w v : ℕ) → bit_and w v ≡ min (w % 2) (v % 2) + 2 * bit_and (w / 2) (v / 2)
bit_and_step zero v = simp bit_and-bitwise (omega arith)
bit_and_step (suc w) v = omega (
  arith,
  bit_and-bitwise (suc w) v,
  bit_and-bitwise (suc w / 2) (v / 2),
  lowest_digit (λ d. 0) min w v,
)

pub bit_xor_step : (w v : ℕ) → bit_xor w v ≡ differ (w % 2) (v % 2) + 2 * bit_xor (w / 2) (v / 2)
bit_xor_step zero v = simp bit_xor-bitwise (omega arith)
bit_xor_step (suc w) v = omega (
  arith,
  bit_xor-bitwise (suc w) v,
  bit_xor-bitwise (suc w / 2) (v / 2),
  lowest_digit (λ d. d) differ w v,
)
