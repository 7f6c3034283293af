-- ===== src/Editor/Erasing.antt =====
-- The loop of backspaces of microtun-cli/src/editor.rs that erases a run of bytes.
use microtun.Prelude.{
  ℕ, zero, suc, ◌+◌, ◌-◌, ◌≤◌, ◌<◌, ◌≡◌, refl, sym, ap, ap₂, ◌∙◌, Bool, true, false, ◌||◌, List, [],
  ◌∷◌, ◌++◌, arith, ltb, ◌==◌, length, get_or, take, drop, ◌⊎◌, inl, inr, length-append,
  append_assoc, take-append, Bool-cases, subst,
}
use microtun.Editor.{Editor, prev_boundary, backspace}
use microtun.Editor.Keys.{erase_while}
use microtun.Editor.Text.{backspace_lem}
use microtun.Editor.Typing.{get_or-typed, prev_boundary-typed, drop-typed}
use microtun.Prelude.All.{Every}

-- ASCII bytes that pass the test
abbrev pub Passing : (ℕ → Bool) → ℕ → Type 0
Passing test byte = (test byte ≡ true) × (byte < 128)

-- There is no byte, or the last one fails the test.
abbrev pub StopsAt : (ℕ → Bool) → List ℕ → Type 0
StopsAt test before = (length before ≡ 0) ⊎ (test (get_or before (length before - 1) 0) ≡ false)

pub last_view : (xs : List ℕ) → (xs ≡ []) ⊎ ((init : List ℕ) × (b : ℕ) × (xs ≡ init ++ b ∷ []))
last_view [] = inl refl
last_view (x ∷ xs) = elim (last_view xs) [
  | inl e ↦ inr ([], x, ap (λ ys. x ∷ ys) e)
  | inr (init, b, e) ↦ inr (x ∷ init, b, ap (λ ys. x ∷ ys) e)
]

pub Every-init : (P : ℕ → Type 0) (xs : List ℕ) (b : ℕ) → Every P (xs ++ b ∷ []) → Every P xs × P b
Every-init P [] b (p, q) = (tt, p)
Every-init P (x ∷ xs) b (p, q) = let (r, s) = Every-init P xs b q in ((p, r), s)

get_or-front : (xs ys : List ℕ) (i : ℕ) → i < length xs → get_or (xs ++ ys) i 0 ≡ get_or xs i 0
get_or-front [] ys i h = absurd (omega arith)
get_or-front (x ∷ xs) ys zero h = refl
get_or-front (x ∷ xs) ys (suc i) h = get_or-front xs ys i (omega arith)

-- One backspace takes the ASCII byte before the cursor.
backspace-ascii :
    (self : Editor) (xs after : List ℕ) (b : ℕ)
    → self.line ≡ xs ++ b ∷ after
    → self.cursor ≡ suc (length xs)
    → b < 128
    → backspace self ≡ (record self { line = xs ++ after; cursor = length xs }, true)
backspace-ascii self xs after b l c low =
    let size : length self.line ≡ length xs + suc (length after) =
      ap length l ∙ length-append {0} xs (b ∷ after) in
    let place : prev_boundary self.line self.cursor ≡ length xs =
      ap (λ line. prev_boundary line self.cursor) l
      ∙ prev_boundary-typed xs after b (length xs) self.cursor refl c (ground arith) in
    let kept : take (length xs) self.line ++ drop self.cursor self.line ≡ xs ++ after =
      ap₂ (λ ys zs. ys ++ zs)
        (ap (take (length xs)) l ∙ take-append xs (b ∷ after) (length xs) refl)
        (ap (drop self.cursor) l ∙ drop-typed xs after b self.cursor c) in
    backspace_lem self (omega (arith, c)) (omega (arith, c, size))
    ∙ ap {B = Editor × Bool}
        (λ n.
          (record self { line = take n self.line ++ drop self.cursor self.line; cursor = n }, true))
        place
    ∙ ap {B = Editor × Bool} (λ ys. (record self { line = ys; cursor = length xs }, true)) kept

abbrev pub erased : List ℕ → Bool → Bool
erased [] changed = changed
erased (b ∷ bs) changed = true

erased-true : (bs : List ℕ) (changed : Bool) → erased bs (changed || true) ≡ true
erased-true [] true = refl
erased-true [] false = refl
erased-true (b ∷ bs) changed = refl

erased-snoc : (bs : List ℕ) (b : ℕ) (changed : Bool) → erased (bs ++ b ∷ []) changed ≡ true
erased-snoc [] b changed = refl
erased-snoc (x ∷ bs) b changed = refl

pub erased-word : (bs : List ℕ) (changed : Bool) → 0 < length bs → erased bs changed ≡ true
erased-word [] changed h = absurd (omega arith)
erased-word (b ∷ bs) changed h = refl

stop_here :
    (test : ℕ → Bool) (fuel : ℕ) (self : Editor) (changed : Bool) (before after : List ℕ)
    → self.line ≡ before ++ after
    → self.cursor ≡ length before
    → StopsAt test before
    → erase_while test fuel (self, changed) ≡ (self, changed)
unfolding erase_while
stop_here test zero self changed before after l c stops = refl
stop_here test (suc fuel) self changed before after l c (inl e) =
    let at_start : ltb 0 self.cursor ≡ false = ground arith in rw at_start refl
stop_here test (suc fuel) self changed before after l c (inr e) =
    elim (Bool-cases (self.cursor == 0)) [
      | inl z ↦ let at_start : ltb 0 self.cursor ≡ false = ground arith in rw at_start refl
      | inr z ↦
          let some_left : ltb 0 self.cursor ≡ true = ground arith in
          let here : get_or self.line (self.cursor - 1) 0 ≡ get_or before (length before - 1) 0 =
            ap₂ (λ line n. get_or line (n - 1) 0) l c
            ∙ get_or-front before after (length before - 1) (ground arith) in
          let fails : test (get_or self.line (self.cursor - 1) 0) ≡ false = ap test here ∙ e in
          rw some_left (rw fails refl)
    ]

-- A round of the loop that erases a byte
one_round :
    (test : ℕ → Bool) (fuel : ℕ) (self : Editor) (changed : Bool) (xs after : List ℕ) (b : ℕ)
    → self.line ≡ xs ++ b ∷ after
    → self.cursor ≡ suc (length xs)
    → Passing test b
    → erase_while test (suc fuel) (self, changed)
      ≡ erase_while test fuel
          (record self { line = xs ++ after; cursor = length xs }, changed || true)
unfolding erase_while
one_round test fuel self changed xs after b l c (ok, low) =
    let some_left : ltb 0 self.cursor ≡ true = ground arith in
    let here : get_or self.line (self.cursor - 1) 0 ≡ b =
      ap (λ line. get_or line (self.cursor - 1) 0) l
      ∙ get_or-typed xs after b (self.cursor - 1) (omega (arith, c)) in
    let passes : test (get_or self.line (self.cursor - 1) 0) ≡ true = ap test here ∙ ok in
    rw some_left (
      rw passes (
        ap (λ r. erase_while test fuel (r.0, changed || r.1))
          (backspace-ascii self xs after b l c low)))

no_run :
    (test : ℕ → Bool) (fuel : ℕ) (self : Editor) (changed : Bool) (before run after : List ℕ)
    → self.line ≡ before ++ (run ++ after)
    → self.cursor ≡ length before + length run
    → StopsAt test before
    → run ≡ []
    → erase_while test fuel (self, changed)
      ≡ (record self { line = before ++ after; cursor = length before }, erased run changed)
no_run test fuel self changed before run after l c stops e =
    let none_left : self.line ≡ before ++ after = l ∙ ap (λ r. before ++ (r ++ after)) e in
    let c' : self.cursor ≡ length before = omega (arith, c, ap length e) in
    stop_here test fuel self changed before after none_left c' stops
    ∙ ap₂ {C = Editor × Bool} (λ line n. (record self { line = line; cursor = n }, changed))
        none_left c'
    ∙ ap {B = Editor × Bool}
        (λ r. (record self { line = before ++ after; cursor = length before }, erased r changed))
        (sym e)

-- The loop erases the run of bytes that pass, up to the cursor, and nothing else.
pub erase_while-run :
    (test : ℕ → Bool) (fuel : ℕ) (self : Editor) (changed : Bool) (before run after : List ℕ)
    → self.line ≡ before ++ (run ++ after)
    → self.cursor ≡ length before + length run
    → Every (Passing test) run
    → StopsAt test before
    → length run ≤ fuel
    → erase_while test fuel (self, changed)
      ≡ (record self { line = before ++ after; cursor = length before }, erased run changed)
erase_while-run test zero self changed before [] after l c all stops f =
    no_run test zero self changed before [] after l c stops refl
erase_while-run test zero self changed before (b ∷ run) after l c all stops f = absurd (omega arith)
erase_while-run test (suc fuel) self changed before run after l c all stops f =
    elim (last_view run) [
      | inl e ↦ no_run test (suc fuel) self changed before run after l c stops e
      | inr (init, b, e) ↦
          let (passed, good) =
            Every-init (Passing test) init b (subst (Every (Passing test)) e all) in
          let size : length run ≡ suc (length init) =
            ap length e ∙ length-append {0} init (b ∷ []) ∙ omega arith in
          let xs = before ++ init in
          let l' : self.line ≡ xs ++ b ∷ after =
            l
            ∙ ap (λ r. before ++ (r ++ after)) e
            ∙ ap (λ ys. before ++ ys) (append_assoc init (b ∷ []) after)
            ∙ sym (append_assoc before init (b ∷ after)) in
          let lengths = length-append {0} before init in
          let next : Editor = record self { line = xs ++ after; cursor = length xs } in
          one_round test fuel self changed xs after b l' (omega (arith, c, size, lengths)) good
          ∙ erase_while-run test fuel next (changed || true) before init after
              (append_assoc before init after) lengths passed stops (omega (arith, f, size))
          ∙ ap {B = Editor × Bool}
              (λ w. (record self { line = before ++ after; cursor = length before }, w))
              (erased-true init changed
                ∙ sym (ap (λ r. erased r changed) e ∙ erased-snoc init b changed))
    ]
