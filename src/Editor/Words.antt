-- ===== src/Editor/Words.antt =====
-- CTRL-W of microtun-cli/src/editor.rs: the word before the cursor is erased.
use microtun.Prelude.{
  ℕ, suc, ◌+◌, ◌-◌, ◌<◌, ◌≡◌, refl, sym, ap, ap₂, ◌∙◌, Bool, true, false, ◌&&◌, not, List, [], ◌∷◌,
  ◌++◌, arith, length, get_or, inl, inr, length-append, append_assoc, Bool-cases, subst,
}
use microtun.Editor.{Editor, normal, redraw}
use microtun.Editor.Keys.{
  is_space, erase_while, erase_word, redrawn, edit_key, feed_key, feed_plain, feed_in, feed,
}
use microtun.Editor.Erasing.{
  Passing, StopsAt, last_view, Every-init, erase_while-run, erased, erased-word,
}
use microtun.Editor.Typing.{get_or-typed}
use microtun.Prelude.All.{Every}

StopsAt-word :
    (before word : List ℕ)
    → Every (Passing (λ b. not (is_space b))) word
    → 0 < length word
    → StopsAt is_space (before ++ word)
StopsAt-word before word all some = elim (last_view word) [
  | inl e ↦ absurd (omega (arith, some, ap length e))
  | inr (init, b, e) ↦
      let (passed, (ok, low)) =
        Every-init (Passing (λ b. not (is_space b))) init b
          (subst (Every (Passing (λ b. not (is_space b)))) e all) in
      let dark : is_space b ≡ false = ground (arith, ok) in
      let whole : before ++ word ≡ (before ++ init) ++ b ∷ [] =
        ap (λ w. before ++ w) e ∙ sym (append_assoc before init (b ∷ [])) in
      let size : length (before ++ word) ≡ suc (length (before ++ init)) =
        ap length whole ∙ length-append {0} (before ++ init) (b ∷ []) ∙ omega arith in
      inr (
        ap₂ (λ xs n. is_space (get_or xs (n - 1) 0)) whole size
        ∙ ap is_space
            (get_or-typed (before ++ init) [] b (suc (length (before ++ init)) - 1) (omega arith))
        ∙ dark)
]

erase_word_lem :
    (self : Editor) (before word spaces after : List ℕ)
    → self.line ≡ before ++ (word ++ (spaces ++ after))
    → self.cursor ≡ length before + length word + length spaces
    → Every (Passing (λ b. not (is_space b))) word
    → 0 < length word
    → Every (Passing is_space) spaces
    → StopsAt (λ b. not (is_space b)) before
    → erase_word self ≡ (record self { line = before ++ after; cursor = length before }, true)
unfolding erase_word
erase_word_lem self before word spaces after l c dark some light stops =
    let lengths = length-append {0} before word in
    let next : Editor = record self {
      line = (before ++ word) ++ after;
      cursor = length (before ++ word);
    } in
    let first : erase_while is_space self.cursor (self, false) ≡ (next, erased spaces false) =
      erase_while-run is_space self.cursor self false (before ++ word) spaces after
        (l ∙ sym (append_assoc before word (spaces ++ after))) (omega (arith, c, lengths)) light
        (StopsAt-word before word dark some) (omega (arith, c)) in
    ap (λ r. erase_while (λ b. not (is_space b)) r.0.cursor r) first
    ∙ erase_while-run (λ b. not (is_space b)) (length (before ++ word)) next (erased spaces false)
        before word after (append_assoc before word after) lengths dark stops
        (omega (arith, lengths))
    ∙ ap {B = Editor × Bool}
        (λ w. (record self { line = before ++ after; cursor = length before }, w))
        (erased-word word (erased spaces false) some)

-- CTRL-W, outside an escape sequence, erases the word before the cursor and the white space behind
-- it, and nothing else, wherever the cursor stands in the line: where ASCII bytes that are no white
-- space, one at least, and then ASCII white space, possibly none, stand before the cursor, and
-- before them the line begins or white space does, they are taken out, the cursor is where they
-- began, and the line is to be drawn again.
pub feed-erase_word :
    (self : Editor) (before word spaces after : List ℕ)
    → self.escape ≡ normal
    → self.line ≡ before ++ (word ++ (spaces ++ after))
    → self.cursor ≡ length before + length word + length spaces
    → Every (Passing (λ b. not (is_space b))) word
    → 0 < length word
    → Every (Passing is_space) spaces
    → StopsAt (λ b. not (is_space b)) before
    → feed self 23 ≡ (
      record self {
        line = before ++ after;
        cursor = length before;
        escape = normal;
        last_was_cr = false;
      },
      redraw,
    )
unfolding feed feed_in feed_plain feed_key edit_key
feed-erase_word self before word spaces after e l c dark some light stops =
    let plain : Editor = record self { escape = normal; last_was_cr = false } in
    let kept : (self.last_was_cr && false) ≡ false = elim (Bool-cases self.last_was_cr) [
      | inl t ↦ rw t refl
      | inr t ↦ rw t refl
    ] in
    rw e (
      rw kept
        (ap redrawn (erase_word_lem plain before word spaces after l c dark some light stops)))
