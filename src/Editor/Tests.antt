-- ===== src/Editor/Tests.antt =====
-- Runs of microtun-cli/src/editor.rs.
use microtun.Prelude.{◌≡◌, refl, true, false, [], ◌∷◌, arith, inr}
use microtun.Editor.{Editor, new, redraw, echo, insert, backspace, prev_boundary, replace_range}
use microtun.Editor.Keys.{
  erase_while, erase_word, type_byte, edit_key, feed, feed_in, feed_plain, feed_key, feed_key,
}
use microtun.Editor.Sound.{IsSound}
use microtun.Editor.Feeding.{feed_all, feed_all-IsSound}
use microtun.Editor.Typing.{feed_all-typed, backspace-insert}
use microtun.Editor.Words.{feed-erase_word}

-- `ab c`, with the cursor behind the space
abbrev editor : Editor
editor = record (new 8) { line = b'a' ∷ b'b' ∷ 32 ∷ b'c' ∷ []; cursor = 3 }

editor-IsSound : IsSound editor
editor-IsSound = record { within = omega arith; fits = omega arith }

-- CTRL-W takes the word and the space behind it.
word_erased : feed editor 23 ≡ (record editor { line = b'c' ∷ []; cursor = 0 }, redraw)
unfolding feed feed_in feed_plain feed_key edit_key erase_word erase_while backspace prev_boundary
word_erased = refl

at_end : (feed (new 8) b'a').1 ≡ echo b'a'
unfolding feed feed_in feed_plain feed_key edit_key type_byte insert
at_end = refl

-- A token is replaced by a quoted value.
replaced :
    replace_range (new 8) 0 [] (b'x' ∷ []) true false
    ≡ (record (new 8) { line = b'"' ∷ b'x' ∷ b'"' ∷ []; cursor = 3 }, true)
unfolding replace_range insert
replaced = refl

feed_all-IsSound_example : IsSound (feed_all editor (27 ∷ b'[' ∷ b'D' ∷ 8 ∷ b'x' ∷ []))
feed_all-IsSound_example = feed_all-IsSound editor (27 ∷ b'[' ∷ b'D' ∷ 8 ∷ b'x' ∷ []) editor-IsSound

feed_all-typed_example :
    ((feed_all editor (b'x' ∷ b'y' ∷ [])).line ≡ b'a' ∷ b'b' ∷ 32 ∷ b'x' ∷ b'y' ∷ b'c' ∷ [])
    × ((feed_all editor (b'x' ∷ b'y' ∷ [])).cursor ≡ 5)
feed_all-typed_example =
    feed_all-typed (b'x' ∷ b'y' ∷ []) editor refl
      ((omega arith, omega arith), ((omega arith, omega arith), tt)) (omega arith) (omega arith)

backspace-insert_example : backspace (insert editor b'x').0 ≡ (editor, true)
backspace-insert_example = backspace-insert editor b'x' (omega arith) (omega arith) refl

-- The `b` is erased in `ab b c`.
abbrev words : Editor
words = record (new 8) { line = b'a' ∷ b'b' ∷ 32 ∷ b'b' ∷ 32 ∷ b'c' ∷ []; cursor = 5 }

feed-erase_word_example :
    feed words 23 ≡ (record words { line = b'a' ∷ b'b' ∷ 32 ∷ b'c' ∷ []; cursor = 3 }, redraw)
feed-erase_word_example =
    feed-erase_word words (b'a' ∷ b'b' ∷ 32 ∷ []) (b'b' ∷ []) (32 ∷ []) (b'c' ∷ []) refl refl refl
      ((refl, omega arith), tt) (omega arith) ((refl, omega arith), tt) (inr refl)
