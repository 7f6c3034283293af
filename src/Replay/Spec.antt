-- ===== src/Replay/Spec.antt =====
-- What an anti-replay filter promises, with no ring: it remembers every counter that it accepted,
-- and refuses one that it has accepted before or that lies too far behind the highest.
use microtun.Prelude.{
  ℕ, ◌+◌, ◌≤◌, ◌<◌, ◌≡◌, refl, Bool, true, false, not, ◌&&◌, ◌||◌, List, [], ◌∷◌, Option, none,
  some, max, arith, ◌==◌, leb, if◌then◌else◌, Option-cases, inl, inr,
}

unfoldable pub contains : ℕ → List ℕ → Bool
contains c [] = false
contains c (x ∷ xs) = (c == x) || contains c xs

-- The highest counter accepted, newest first.
unfoldable pub highest : List ℕ → Option ℕ
highest [] = none
highest (x ∷ xs) = elim (highest xs) [ none ↦ some x | some t ↦ some (max x t) ]

unfoldable pub in_window : ℕ → Option ℕ → ℕ → Bool
in_window window none c = true
in_window window (some t) c = leb t (c + window)

module _ (window : ℕ) where
  unfoldable pub accepts : List ℕ → ℕ → Bool
  unfolding in_window
  accepts seen c = not (contains c seen) && in_window window (highest seen) c

  unfoldable pub step : List ℕ → ℕ → List ℕ × Bool
  step seen c = if accepts seen c then (c ∷ seen, true) else (seen, false)

  -- The verdicts on a sequence of counters.
  unfoldable pub verdicts : List ℕ → List ℕ → List Bool
  verdicts seen [] = []
  verdicts seen (c ∷ cs) = let (seen', ok) = step seen c in ok ∷ verdicts seen' cs

-- No accepted counter is above the highest.
abbrev pub AllLe : List ℕ → ℕ → Type 0
AllLe [] t = Unit {0}
AllLe (x ∷ xs) t = (x ≤ t) × AllLe xs t

pub AllLe-mono : (xs : List ℕ) (s t : ℕ) → s ≤ t → AllLe xs s → AllLe xs t
AllLe-mono [] s t h a = tt
AllLe-mono (x ∷ xs) s t h a = (omega arith, AllLe-mono xs s t h a.1)

pub contains-above : (xs : List ℕ) (t c : ℕ) → AllLe xs t → t < c → contains c xs ≡ false
unfolding contains
contains-above [] t c a h = refl
contains-above (x ∷ xs) t c a h = ground (arith, contains-above xs t c a.1 h)

none-AllLe : (xs : List ℕ) (t : ℕ) → highest xs ≡ none → AllLe xs t
unfolding highest
none-AllLe [] t e = tt
none-AllLe (x ∷ xs) t e = absurd (ground arith)

pub highest-AllLe : (xs : List ℕ) {t : ℕ} → highest xs ≡ some t → AllLe xs t
unfolding highest
highest-AllLe [] e = tt
highest-AllLe (x ∷ xs) {t} e = elim (Option-cases (highest xs)) [
  | inl n ↦ (ground arith, none-AllLe xs t n)
  | inr (s, h) ↦ (ground arith, AllLe-mono xs s t (ground arith) (highest-AllLe xs h))
]

module _ (window : ℕ) (seen : List ℕ) where
  -- A counter above every accepted one is accepted, and becomes the highest.
  pub accepts-above :
      (t c : ℕ)
      → highest seen ≡ some t
      → t < c
      → (accepts window seen c ≡ true) × (highest (c ∷ seen) ≡ some c)
  unfolding accepts highest
  accepts-above t c h above =
      (ground (arith, contains-above seen t c (highest-AllLe seen h) above), ground arith)

  pub step-accepted : (c : ℕ) → accepts window seen c ≡ true → (step window seen c).0 ≡ c ∷ seen
  unfolding step
  step-accepted c h = ground arith

  pub step-refused : (c : ℕ) → accepts window seen c ≡ false → (step window seen c).0 ≡ seen
  unfolding step
  step-refused c h = ground arith

  -- A counter too far behind the highest is refused, and so is one accepted before.
  pub accepts-old :
      (t c : ℕ) → highest seen ≡ some t → c + window < t → accepts window seen c ≡ false
  unfolding accepts
  accepts-old t c h old = ground arith

  pub accepts-seen : (c : ℕ) → contains c seen ≡ true → accepts window seen c ≡ false
  unfolding accepts
  accepts-seen c h = ground arith

  -- One at or below the highest, in the window and new, is accepted; the highest stays.
  pub accepts-recent :
      (t c : ℕ)
      → highest seen ≡ some t
      → c ≤ t
      → t ≤ c + window
      → contains c seen ≡ false
      → (accepts window seen c ≡ true) × (highest (c ∷ seen) ≡ some t)
  unfolding accepts highest
  accepts-recent t c h below near unseen = (ground arith, ground arith)

  pub step-verdict : (c : ℕ) → (step window seen c).1 ≡ accepts window seen c
  unfolding step
  step-verdict c = ground arith

  -- An accepted counter is remembered, and nothing is forgotten.
  pub step-accepts-contains :
      (c : ℕ) → accepts window seen c ≡ true → contains c (step window seen c).0 ≡ true
  unfolding step contains
  step-accepts-contains c h = ground arith

  pub step-contains : (d c : ℕ) → contains c seen ≡ true → contains c (step window seen d).0 ≡ true
  unfolding step contains
  step-contains d c h = ground arith

pub highest-none : (seen : List ℕ) → highest seen ≡ none → seen ≡ []
unfolding highest
highest-none [] e = refl
highest-none (x ∷ xs) e = absurd (ground arith)
