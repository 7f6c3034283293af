-- ===== src/Editor/Text.antt =====
-- The line of microtun-cli/src/editor.rs as the text before the cursor and the text after it.
use microtun.Prelude.{
  ℕ, zero, suc, ◌+◌, ◌-◌, ◌≤◌, ◌<◌, ◌≡◌, refl, sym, ap, ap₂, ◌∙◌, Bool, true, false, List, [], ◌∷◌,
  ◌++◌, arith, leb, ltb, ◌==◌, length, set, take, drop, Bool-cases, take-append, take_all,
  length-append, length-take, length-drop, append-nil, append_assoc, inl, inr,
}
use microtun.Editor.{
  Editor, back_from, prev_boundary, forward_from, next_boundary, copy_within, pops, insert,
  backspace, delete,
}

-- Taking away what stands between two places
pub pops-copy_within :
    (xs : List ℕ) (s c : ℕ)
    → s ≤ c
    → c ≤ length xs
    → pops (c - s) (copy_within xs c (length xs) s) ≡ take s xs ++ drop c xs
pops-copy_within xs s c h k =
    let rest = drop (s + (length xs - c)) xs in
    let moved : take (length xs - c) (drop c xs) ≡ drop c xs =
      take_all (drop c xs) (length xs - c) (omega (arith, length-drop {0} c xs)) in
    let parts : copy_within xs c (length xs) s ≡ (take s xs ++ drop c xs) ++ rest =
      ap (λ ys. take s xs ++ (ys ++ rest)) moved
      ∙ sym (append_assoc (take s xs) (drop c xs) rest) in
    let size = length-append {0} (take s xs) (drop c xs) in
    let all = length-append {0} (take s xs ++ drop c xs) rest in
    let kept : length (take s xs ++ drop c xs)
        ≡ length ((take s xs ++ drop c xs) ++ rest) - (c - s) =
      omega (
        arith,
        size,
        all,
        length-take {0} s xs,
        length-drop {0} c xs,
        length-drop {0} (s + (length xs - c)) xs,
      ) in
    ap (pops (c - s)) parts
    ∙ take-append (take s xs ++ drop c xs) rest
        (length ((take s xs ++ drop c xs) ++ rest) - (c - s)) kept

pub drop_out : (xs : List ℕ) (n : ℕ) → length xs ≤ n → drop n xs ≡ []
drop_out [] zero h = refl
drop_out [] (suc n) h = refl
drop_out (x ∷ xs) zero h = absurd (omega arith)
drop_out (x ∷ xs) (suc n) h = drop_out xs n (omega arith)

-- Making room for a byte
set-take :
    (xs rest : List ℕ) (c n b : ℕ)
    → n ≡ suc c
    → c ≤ length xs
    → set (take n (xs ++ 0 ∷ []) ++ rest) c b ≡ take c xs ++ b ∷ rest
set-take xs rest c zero b e h = absurd (omega arith)
set-take [] rest zero (suc n) b e h = let e' : n ≡ 0 = omega arith in rw e' refl
set-take [] rest (suc c) (suc n) b e h = absurd (omega arith)
set-take (x ∷ xs) rest zero (suc n) b e h = let e' : n ≡ 0 = omega arith in rw e' refl
set-take (x ∷ xs) rest (suc c) (suc n) b e h =
    ap (λ ys. x ∷ ys) (set-take xs rest c n b (omega arith) (omega arith))

take-drop :
    (xs : List ℕ) (c n : ℕ)
    → n ≡ length xs - c
    → c ≤ length xs
    → take n (drop c (xs ++ 0 ∷ [])) ≡ drop c xs
take-drop xs zero n e h = take-append xs (0 ∷ []) n (omega arith)
take-drop [] (suc c) n e h = absurd (omega arith)
take-drop (x ∷ xs) (suc c) n e h = take-drop xs c n (omega arith) (omega arith)

set-copy_within :
    (xs : List ℕ) (c b : ℕ)
    → c ≤ length xs
    → set (copy_within (xs ++ 0 ∷ []) c (length xs) (c + 1)) c b ≡ take c xs ++ b ∷ drop c xs
set-copy_within xs c b h =
    let moved = take-drop xs c (length xs - c) refl h in
    let none_left : drop (c + 1 + (length xs - c)) (xs ++ 0 ∷ []) ≡ [] =
      drop_out (xs ++ 0 ∷ []) (c + 1 + (length xs - c))
        (omega (arith, length-append {0} xs (0 ∷ []))) in
    ap₂ (λ ys zs. set (take (c + 1) (xs ++ 0 ∷ []) ++ (ys ++ zs)) c b) moved none_left
    ∙ ap (λ ys. set (take (c + 1) (xs ++ 0 ∷ []) ++ ys) c b) (append-nil (drop c xs))
    ∙ set-take xs (drop c xs) c (c + 1) b (omega arith) h

abbrev inserted : Editor → List ℕ → Editor × Bool
inserted self line = (record self { line = line; cursor = self.cursor + 1 }, true)

pub insert_lem :
    (self : Editor) (byte : ℕ)
    → self.cursor ≤ length self.line
    → length self.line < self.capacity
    → insert self byte ≡ (
      record self {
        line = take self.cursor self.line ++ byte ∷ drop self.cursor self.line;
        cursor = self.cursor + 1;
      },
      true,
    )
unfolding insert
insert_lem self byte h room =
    let fits : ltb (length self.line) self.capacity ≡ true = ground arith in
    elim (Bool-cases (self.cursor == length self.line)) [
      | inl e ↦
          let all : take self.cursor self.line ≡ self.line =
            take_all self.line self.cursor (ground arith) in
          let none_left : drop self.cursor self.line ≡ [] =
            drop_out self.line self.cursor (ground arith) in
          rw fits (rw e (rw all (rw none_left refl)))
      | inr e ↦
          let last : length (self.line ++ 0 ∷ []) - 1 ≡ length self.line =
            omega (arith, length-append {0} self.line (0 ∷ [])) in
          rw fits (
            rw e (
              ap
                (λ n. inserted self (
                  set (copy_within (self.line ++ 0 ∷ []) self.cursor n (self.cursor + 1))
                    self.cursor byte))
                last
              ∙ ap (inserted self) (set-copy_within self.line self.cursor byte h)))
    ]

back_from-bound : (line : List ℕ) (index : ℕ) → back_from line index ≤ index
back_from-bound line zero = omega arith
back_from-bound line (suc index) = ground (arith, back_from-bound line index)

pub prev_boundary-bound : (line : List ℕ) (index : ℕ) → 0 < index → prev_boundary line index < index
unfolding prev_boundary
prev_boundary-bound line zero h = absurd (omega arith)
prev_boundary-bound line (suc index) h = omega (arith, back_from-bound line index)

forward_from-bound :
    (left : ℕ) (line : List ℕ) (index : ℕ)
    → (index ≤ forward_from left line index) × (forward_from left line index ≤ index + left)
forward_from-bound zero line index = (omega arith, omega arith)
forward_from-bound (suc left) line index =
    let (low, high) = forward_from-bound left line (suc index) in (ground arith, ground arith)

pub next_boundary-bound :
    (line : List ℕ) (index : ℕ)
    → index < length line
    → (index < next_boundary line index) × (next_boundary line index ≤ length line)
unfolding next_boundary
next_boundary-bound line index h =
    let (low, high) = forward_from-bound (length line - suc index) line (suc index) in
    (ground arith, ground arith)

pub backspace_lem :
    (self : Editor)
    → 0 < self.cursor
    → self.cursor ≤ length self.line
    → (let start = prev_boundary self.line self.cursor in
        backspace self ≡ (
          record self { line = take start self.line ++ drop self.cursor self.line; cursor = start },
          true,
        ))
unfolding backspace
backspace_lem self h k =
    let some_left : (self.cursor == 0) ≡ false = ground arith in
    let start = prev_boundary self.line self.cursor in
    let less = prev_boundary-bound self.line self.cursor h in
    rw some_left (
      ap {B = Editor × Bool} (λ line. (record self { line = line; cursor = start }, true))
        (pops-copy_within self.line start self.cursor (omega (arith, less)) k))

pub delete_lem :
    (self : Editor)
    → self.cursor < length self.line
    → delete self ≡ (
      record self {
        line = take self.cursor self.line ++ drop (next_boundary self.line self.cursor) self.line;
      },
      true,
    )
unfolding delete
delete_lem self h =
    let some_left : leb (length self.line) self.cursor ≡ false = ground arith in
    let (low, high) = next_boundary-bound self.line self.cursor h in
    rw some_left (
      ap {B = Editor × Bool} (λ line. (record self { line = line }, true))
        (pops-copy_within self.line self.cursor (next_boundary self.line self.cursor)
          (omega (arith, low)) high))
