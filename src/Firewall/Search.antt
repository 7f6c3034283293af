-- ===== src/Firewall/Search.antt =====
-- The searches of microtun-core/src/firewall.rs over the entries: what they find, and what they keep.
use microtun.Prelude.All.{Every}
use microtun.Prelude.{
  ℕ, zero, suc, ◌≡◌, refl, Bool, true, false, some, List, [], ◌∷◌, ◌++◌, arith, get_elem?, set,
  Bool-cases, Option-cases, inl, inr,
}
use microtun.Firewall.Entries.{Entry, position, retain}

-- What `position` returns is the place of an entry that matches.
pub position_sound :
    (matches : Entry → Bool) (es : List Entry) (i : ℕ)
    → position matches es ≡ some i
    → (e : Entry) × (get_elem? es i ≡ some e) × (matches e ≡ true)
unfolding position
position_sound matches [] i h = absurd (cc)
position_sound matches (e ∷ es) i h = elim (Bool-cases (matches e)) [
  | inl m ↦ let at : 0 ≡ i = ground arith in (e, rw (← at) refl, m)
  | inr m ↦ elim (Option-cases (position matches es)) [
    | inl n ↦ absurd (ground arith)
    | inr (k, p) ↦
        let at : suc k ≡ i = ground arith in
        let (v, here, holds) = position_sound matches es k p in (v, rw (← at) here, holds)
  ]
]

pub Every-retain_map :
    (P Q : Entry → Type 0) (keep : Entry → Bool) (es : List Entry)
    → ((e : Entry) → keep e ≡ true → P e → Q e)
    → Every P es
    → Every Q (retain keep es)
unfolding retain
Every-retain_map P Q keep [] f a = tt
Every-retain_map P Q keep (e ∷ es) f a = elim (Bool-cases (keep e)) [
  | inl k ↦ rw k (f e k a.0, Every-retain_map P Q keep es f a.1)
  | inr k ↦ rw k (Every-retain_map P Q keep es f a.1)
]

pub Every-retain :
    (P : Entry → Type 0) (keep : Entry → Bool) (es : List Entry)
    → Every P es
    → Every P (retain keep es)
Every-retain P keep es a = Every-retain_map P P keep es (λ e k p. p) a

-- An entry that matches is found, or one before it.
pub position_complete :
    (matches : Entry → Bool) (es : List Entry) (at : ℕ) (e : Entry)
    → get_elem? es at ≡ some e
    → matches e ≡ true
    → (i : ℕ) × (position matches es ≡ some i)
unfolding position
position_complete matches [] at e h m = absurd (cc)
position_complete matches (x ∷ es) zero e h m = (0, ground arith)
position_complete matches (x ∷ es) (suc at) e h m =
    let (i, p) = position_complete matches es at e h m in
    elim (Bool-cases (matches x)) [ inl b ↦ (0, ground arith) | inr b ↦ (suc i, ground arith) ]

-- What a selection of the entries sees of a change to the others.
pub retain-set :
    (f : Entry → Bool) (es : List Entry) (at : ℕ) (e old : Entry)
    → get_elem? es at ≡ some old
    → f old ≡ false
    → f e ≡ false
    → retain f (set es at e) ≡ retain f es
unfolding retain
retain-set f [] at e old h o n = refl
retain-set f (x ∷ es) zero e old h o n = ground arith
retain-set f (x ∷ es) (suc at) e old h o n = ground (arith, retain-set f es at e old h o n)

pub retain-append :
    (f : Entry → Bool) (es : List Entry) (e : Entry)
    → f e ≡ false
    → retain f (es ++ e ∷ []) ≡ retain f es
unfolding retain
retain-append f [] e n = ground arith
retain-append f (x ∷ es) e n = ground (arith, retain-append f es e n)

pub retain-retain :
    (f keep : Entry → Bool) (es : List Entry)
    → ((e : Entry) → f e ≡ true → keep e ≡ true)
    → retain f (retain keep es) ≡ retain f es
unfolding retain
retain-retain f keep [] h = refl
retain-retain f keep (e ∷ es) h = ground (arith, h e, retain-retain f keep es h)
