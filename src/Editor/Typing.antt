-- ===== src/Editor/Typing.antt =====
-- What is typed into the editor of microtun-cli/src/editor.rs, and what is taken back.
use microtun.Prelude.{
  ℕ, zero, suc, ◌+◌, ◌≤◌, ◌<◌, ◌≡◌, ◌≢◌, refl, sym, ap, ap₂, ◌∙◌, Bool, true, false, ◌&&◌, ◌||◌,
  List, [], ◌∷◌, ◌++◌, arith, leb, ◌==◌, length, get_or, take, drop, length-append, length-take,
  length-drop, append_assoc, take-append, take-append-drop,
}
use microtun.Editor.{normal, Editor, is_continuation, prev_boundary, insert, backspace}
use microtun.Editor.Keys.{type_byte, edit_key, feed_key, feed_plain, feed_in, feed}
use microtun.Editor.Text.{insert_lem, backspace_lem}
use microtun.Editor.Feeding.{feed_all}
use microtun.Prelude.All.{Every}

-- A byte that is shown
abbrev pub IsPrinted : ℕ → Type 0
IsPrinted byte = (32 ≤ byte) × (byte ≢ 127)

feed_typed :
    (self : Editor) (byte : ℕ)
    → self.escape ≡ normal
    → IsPrinted byte
    → (feed self byte).0 ≡ (insert (record self { escape = normal; last_was_cr = false }) byte).0
unfolding feed feed_in feed_plain feed_key edit_key type_byte
feed_typed self byte e (low, high) =
    let n10 : (byte == 10) ≡ false = ground arith in
    let n0 : (byte == 0) ≡ false = ground arith in
    let n13 : (byte == 13) ≡ false = ground arith in
    let n9 : (byte == 9) ≡ false = ground arith in
    let n27 : (byte == 27) ≡ false = ground arith in
    let n3 : (byte == 3) ≡ false = ground arith in
    let n12 : (byte == 12) ≡ false = ground arith in
    let n1 : (byte == 1) ≡ false = ground arith in
    let n5 : (byte == 5) ≡ false = ground arith in
    let n21 : (byte == 21) ≡ false = ground arith in
    let n11 : (byte == 11) ≡ false = ground arith in
    let n23 : (byte == 23) ≡ false = ground arith in
    let n8 : (byte == 8) ≡ false = ground arith in
    let n127 : (byte == 127) ≡ false = ground (arith, high) in
    let shown : leb 32 byte ≡ true = ground arith in
    let plain : (self.last_was_cr && ((byte == 10) || (byte == 0))) ≡ false =
      ground (arith, n10, n0) in
    rw e (
      rw plain (
        rw n13 (
          rw n10 (
            rw n9 (
              rw n27 (
                rw n3 (
                  rw n12 (
                    rw n1
                      (rw n5 (rw n21 (rw n11 (rw n23 (rw n8 (rw n127 (rw shown refl)))))))))))))))

pub get_or-typed : (xs ys : List ℕ) (b c : ℕ) → length xs ≡ c → get_or (xs ++ b ∷ ys) c 0 ≡ b
get_or-typed [] ys b zero h = refl
get_or-typed [] ys b (suc c) h = absurd (omega arith)
get_or-typed (x ∷ xs) ys b zero h = absurd (omega arith)
get_or-typed (x ∷ xs) ys b (suc c) h = get_or-typed xs ys b c (omega arith)

pub prev_boundary-typed :
    (xs ys : List ℕ) (b c n : ℕ)
    → length xs ≡ c
    → n ≡ suc c
    → is_continuation b ≡ false
    → prev_boundary (xs ++ b ∷ ys) n ≡ c
unfolding prev_boundary
prev_boundary-typed xs ys b c zero h e start = absurd (omega arith)
prev_boundary-typed xs ys b c (suc zero) h e start = omega arith
prev_boundary-typed xs ys b c (suc (suc n)) h e start =
    let here : get_or (xs ++ b ∷ ys) (suc n) 0 ≡ b = get_or-typed xs ys b (suc n) (omega arith) in
    let stops : is_continuation (get_or (xs ++ b ∷ ys) (suc n) 0) ≡ false =
      ap (λ x. is_continuation x) here ∙ start in
    let last : suc n ≡ c = omega arith in rw stops last

pub drop-typed : (xs ys : List ℕ) (b n : ℕ) → n ≡ suc (length xs) → drop n (xs ++ b ∷ ys) ≡ ys
drop-typed [] ys b zero h = absurd (omega arith)
drop-typed [] ys b (suc n) h = let e : n ≡ 0 = omega arith in rw e refl
drop-typed (x ∷ xs) ys b zero h = absurd (omega arith)
drop-typed (x ∷ xs) ys b (suc n) h = drop-typed xs ys b n (omega arith)

-- Backspace takes back a byte that was typed: the line and the cursor are as before, wherever the
-- cursor stands. There is room for the byte, and it is not the continuation of a character.
pub backspace-insert :
    (self : Editor) (byte : ℕ)
    → self.cursor ≤ length self.line
    → length self.line < self.capacity
    → is_continuation byte ≡ false
    → backspace (insert self byte).0 ≡ (self, true)
backspace-insert self byte h room start =
    let before = take self.cursor self.line in
    let after = drop self.cursor self.line in
    let line' = before ++ byte ∷ after in
    let next : Editor = record self { line = line'; cursor = self.cursor + 1 } in
    let size : length before ≡ self.cursor = omega (arith, length-take {0} self.cursor self.line) in
    let all = length-append {0} before (byte ∷ after) in
    let place : prev_boundary line' (self.cursor + 1) ≡ self.cursor =
      prev_boundary-typed before after byte self.cursor (self.cursor + 1) size (omega arith)
        start in
    let kept : take self.cursor line' ++ drop (self.cursor + 1) line' ≡ self.line =
      ap₂ (λ xs ys. xs ++ ys) (take-append before (byte ∷ after) self.cursor size)
        (drop-typed before after byte (self.cursor + 1) (omega (arith, size)))
      ∙ take-append-drop self.cursor self.line in
    ap (λ r. backspace r.0) (insert_lem self byte h room)
    ∙ backspace_lem next (omega arith) (omega (arith, size, all))
    ∙ ap {B = Editor × Bool}
        (λ c.
          (record self { line = take c line' ++ drop (self.cursor + 1) line'; cursor = c }, true))
        place
    ∙ ap {B = Editor × Bool} (λ xs. (record self { line = xs }, true)) kept

take-typed : (xs ys : List ℕ) (b n : ℕ) → n ≡ suc (length xs) → take n (xs ++ b ∷ ys) ≡ xs ++ b ∷ []
take-typed [] ys b zero h = absurd (omega arith)
take-typed [] ys b (suc n) h = let e : n ≡ 0 = omega arith in rw e refl
take-typed (x ∷ xs) ys b zero h = absurd (omega arith)
take-typed (x ∷ xs) ys b (suc n) h = ap (λ zs. x ∷ zs) (take-typed xs ys b n (omega arith))

-- Text that is typed goes into the line at the cursor, in order, and the cursor ends behind it: bytes
-- that are shown, outside an escape sequence, where the line has room for all of them.
pub feed_all-typed :
    (bytes : List ℕ) (self : Editor)
    → self.escape ≡ normal
    → Every IsPrinted bytes
    → self.cursor ≤ length self.line
    → length self.line + length bytes ≤ self.capacity
    → ((feed_all self bytes).line
        ≡ take self.cursor self.line ++ (bytes ++ drop self.cursor self.line))
      × ((feed_all self bytes).cursor ≡ self.cursor + length bytes)
feed_all-typed [] self e shown h room = (sym (take-append-drop self.cursor self.line), omega arith)
feed_all-typed (byte ∷ bytes) self e (here, later) h room =
    let plain : Editor = record self { escape = normal; last_was_cr = false } in
    let before = take self.cursor self.line in
    let after = drop self.cursor self.line in
    let line' = before ++ byte ∷ after in
    let next : Editor = record plain { line = line'; cursor = self.cursor + 1 } in
    let step : (feed self byte).0 ≡ next =
      feed_typed self byte e here ∙ ap (λ r. r.0) (insert_lem plain byte h (omega arith)) in
    let size : length before ≡ self.cursor = omega (arith, length-take {0} self.cursor self.line) in
    let all = length-append {0} before (byte ∷ after) in
    let left = length-drop {0} self.cursor self.line in
    let (line_is, cursor_is) =
      feed_all-typed bytes next refl later (omega (arith, all, size))
        (omega (arith, all, size, left)) in
    let whole : take (self.cursor + 1) line' ++ (bytes ++ drop (self.cursor + 1) line')
        ≡ before ++ (byte ∷ bytes ++ after) =
      ap₂ (λ xs ys. xs ++ (bytes ++ ys))
        (take-typed before after byte (self.cursor + 1) (omega (arith, size)))
        (drop-typed before after byte (self.cursor + 1) (omega (arith, size)))
      ∙ append_assoc before (byte ∷ []) (bytes ++ after) in
    (
      ap (λ r. (feed_all r bytes).line) step ∙ line_is ∙ whole,
      ap (λ r. (feed_all r bytes).cursor) step ∙ cursor_is ∙ omega arith,
    )
