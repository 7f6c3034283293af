-- ===== src/Prelude/Partial.antt =====
-- Code that returns an `Option`: Rust's `?`, early returns of `None`, and reads of a byte slice.
use Prim.Native.Nat.{ℕ, zero, suc, ◌+◌, ◌-◌, ◌*◌, ◌≤◌, ◌<◌}
use mathlib.Core.Path.{◌≡◌, refl, ap}
use mathlib.Core.Bool.{Bool, true, false}
use mathlib.Core.Option.{Option, none, some}
use mathlib.Core.List.{List, [], ◌∷◌, ◌++◌}
use native.Mathlib.Omega.{arith}
use mathlib.Core.Logic.{◌⊎◌, inl, inr}
use microtun.Prelude.Tests.{leb, if◌then◌else◌, Option-cases}
use microtun.Prelude.Lists.{
  length, get_elem?, take, drop, length-take, length-drop, length-append, take-append, drop-append,
  take_all,
}

infixl 5 ◌>>=◌ ◌>>◌
abbrev pub ◌>>=◌ {ℓ κ} : {A : Type ℓ} {B : Type κ} → Option A → (A → Option B) → Option B
none >>= f = none
some a >>= f = f a

abbrev pub ◌>>◌ {ℓ} : {B : Type ℓ} → Option (Unit {0}) → Option B → Option B
m >> k = m >>= λ _. k

-- `if !b { return None }`
abbrev pub guard : Bool → Option (Unit {0})
guard true = some tt
guard false = none

pub some-inj {ℓ} : {A : Type ℓ} {a b : A} → some a ≡ some b → a ≡ b
some-inj h = cc

-- The parts of a chain that came to a result.
pub >>=-eq-some {ℓ κ} :
    {A : Type ℓ} {B : Type κ} (m : Option A) (f : A → Option B) {b : B}
    → (m >>= f) ≡ some b
    → (a : A) × (m ≡ some a) × (f a ≡ some b)
>>=-eq-some none f h = cc
>>=-eq-some (some a) f h = (a, refl, h)

pub guard-eq-some : (b : Bool) {u : Unit {0}} → guard b ≡ some u → b ≡ true
guard-eq-some true h = refl
guard-eq-some false h = cc

-- `slice.get(from..to)`
unfoldable pub get_range {ℓ} : {A : Type ℓ} → List A → ℕ → ℕ → Option (List A)
get_range xs from to =
    if leb from to
    then if leb to (length xs) then some (take (to - from) (drop from xs)) else none
    else none

-- `u16::from_be_bytes`
abbrev pub be16 : ℕ → ℕ → ℕ
be16 hi lo = hi * 256 + lo

module _ {ℓ} {A : Type ℓ} where
  pub length-get_range :
      (xs : List A) (from to : ℕ) {ys : List A}
      → get_range xs from to ≡ some ys
      → (length ys ≡ to - from) × (from ≤ to) × (to ≤ length xs)
  unfolding get_range
  length-get_range xs from to h =
      ground (arith, length-take (to - from) (drop from xs), length-drop from xs)

  -- Reads below `n` do not see what stands at or after `n`.
  pub get_elem?-take : (n i : ℕ) (xs : List A) → i < n → get_elem? (take n xs) i ≡ get_elem? xs i
  get_elem?-take zero i xs h = absurd (omega arith)
  get_elem?-take (suc n) i [] h = refl
  get_elem?-take (suc n) zero (x ∷ xs) h = refl
  get_elem?-take (suc n) (suc i) (x ∷ xs) h = get_elem?-take n i xs (omega arith)

  pub take-drop-take :
      (n from k : ℕ) (xs : List A)
      → from + k ≤ n
      → take k (drop from (take n xs)) ≡ take k (drop from xs)
  take-drop-take n zero zero xs h = refl
  take-drop-take zero zero (suc k) xs h = absurd (omega arith)
  take-drop-take (suc n) zero (suc k) [] h = refl
  take-drop-take (suc n) zero (suc k) (x ∷ xs) h =
      ap (λ ys. x ∷ ys) (take-drop-take n zero k xs (omega arith))
  take-drop-take zero (suc from) k xs h = absurd (omega arith)
  take-drop-take (suc n) (suc from) k [] h = refl
  take-drop-take (suc n) (suc from) k (x ∷ xs) h = take-drop-take n from k xs (omega arith)

-- A slice below `n` does not see what stands at or after `n`.
pub get_range-take :
    {A : Type 0} (n from to : ℕ) (xs : List A)
    → to ≤ n
    → get_range (take n xs) from to ≡ get_range xs from to
unfolding get_range
get_range-take n from to xs h =
    ground (arith, length-take n xs, take-drop-take n from (to - from) xs)

pub get_range-prefix :
    {A : Type 0} (xs ys : List A) (n : ℕ) → length xs ≡ n → get_range (xs ++ ys) 0 n ≡ some xs
unfolding get_range
get_range-prefix xs ys n h = ground (arith, take-append xs ys n h, length-append xs ys)

pub get_range-suffix :
    {A : Type 0} (xs ys : List A) (n : ℕ)
    → length xs ≡ n
    → get_range (xs ++ ys) n (length (xs ++ ys)) ≡ some ys
unfolding get_range
get_range-suffix xs ys n h = ground (
  arith,
  drop-append xs ys n h,
  length-append xs ys,
  take_all ys (length (xs ++ ys) - n) (omega (arith, length-append {0} xs ys)),
)

-- A slice that is there has the length asked for.
pub get_range-cases {ℓ} :
    {A : Type ℓ} (xs : List A) (from to : ℕ)
    → (get_range xs from to ≡ none)
      ⊎ ((ys : List A) × (get_range xs from to ≡ some ys) × (length ys ≡ to - from))
get_range-cases xs from to = elim (Option-cases (get_range xs from to)) [
  | inl e ↦ inl e
  | inr (ys, e) ↦ inr (ys, e, (length-get_range xs from to e).0)
]
