-- ===== src/Editor/Keys.antt =====
-- microtun-cli/src/editor.rs: the keys and escape sequences of `feed`.
use microtun.Prelude.{
  ℕ, zero, suc, ◌-◌, Bool, true, false, ◌&&◌, ◌||◌, not, List, [], ◌∷◌, ◌++◌, leb, ltb, ◌==◌,
  if◌then◌else◌, length, get_or, take,
}
use microtun.Editor.{
  Editor, EditorEvent, EscapeState, backspace, copy_within, csi_cap, delete, history_down,
  history_up, insert, next_boundary, pops, prev_boundary, nothing, echo, erase, redraw, submit,
  complete, interrupt, clear_screen, normal, esc, csi,
}

-- `if changed { Redraw } else { None }`
abbrev pub redrawn : Editor × Bool → Editor × EditorEvent
redrawn (self, changed) = (self, if changed then redraw else nothing)

-- `finish_csi`, by the bytes of the sequence
unfoldable pub finish_csi : Editor → List ℕ → Editor × EditorEvent
unfolding history_up history_down next_boundary prev_boundary delete
finish_csi self (b ∷ []) =
    if b == b'A'
    then redrawn (history_up self)
    else if b == b'B'
    then redrawn (history_down self)
    else if b == b'C'
    then (record self { cursor = next_boundary self.line self.cursor }, redraw)
    else if b == b'D'
    then (record self { cursor = prev_boundary self.line self.cursor }, redraw)
    else if b == b'H'
    then (record self { cursor = 0 }, redraw)
    else if b == b'F'
    then (record self { cursor = length self.line }, redraw)
    else (self, nothing)
finish_csi self (b ∷ c ∷ []) =
    if not (c == b'~')
    then (self, nothing)
    else if b == b'1'
    then (record self { cursor = 0 }, redraw)
    else if b == b'4'
    then (record self { cursor = length self.line }, redraw)
    else if b == b'3'
    then redrawn (delete self)
    else (self, nothing)
finish_csi self _ = (self, nothing)

-- `u8::is_ascii_whitespace` and `u8::is_ascii_alphabetic`
abbrev pub is_space : ℕ → Bool
is_space byte = (byte == 32) || (byte == 9) || (byte == 10) || (byte == 12) || (byte == 13)

abbrev pub is_alphabetic : ℕ → Bool
is_alphabetic byte = (leb 65 byte && leb byte 90) || (leb 97 byte && leb byte 122)

-- A loop of backspaces while the byte before the cursor passes the test
unfoldable pub erase_while : (ℕ → Bool) → ℕ → Editor × Bool → Editor × Bool
unfolding backspace
erase_while test zero s = s
erase_while test (suc fuel) (self, changed) =
    let (self', erased) = backspace self in
    let rest = erase_while test fuel (self', changed || erased) in
    if ltb 0 self.cursor && test (get_or self.line (self.cursor - 1) 0)
    then rest
    else (self, changed)

-- The word before the cursor is erased, with the space after it.
unfoldable pub erase_word : Editor → Editor × Bool
unfolding erase_while
erase_word self =
    let (self', changed) = erase_while is_space self.cursor (self, false) in
    erase_while (λ b. not (is_space b)) self'.cursor (self', changed)

-- The part of the line before the cursor is erased.
unfoldable pub erase_before : Editor → Editor × EditorEvent
erase_before self = if self.cursor == 0 then (self, nothing) else (
  record self {
    line = pops self.cursor (copy_within self.line self.cursor (length self.line) 0);
    cursor = 0;
  },
  redraw,
)

-- Backspace, with the event of an ASCII byte at the end of the line
unfoldable pub erase_byte : Editor → Editor × EditorEvent
unfolding backspace
erase_byte self =
    let fast =
      (self.cursor == length self.line)
      && ltb 0 self.cursor
      && ltb (get_or self.line (self.cursor - 1) 0) 128 in
    let (self', erased) = backspace self in
    (self', if erased then (if fast then erase else redraw) else nothing)

unfoldable pub type_byte : Editor → ℕ → Editor × EditorEvent
unfolding insert
type_byte self byte =
    let append = self.cursor == length self.line in
    let (self', typed) = insert self byte in
    (self', if typed then (if append then echo byte else redraw) else nothing)

-- The last match of `feed`, from the keys that change the line on
unfoldable pub edit_key : Editor → ℕ → Editor × EditorEvent
unfolding erase_before erase_word erase_byte type_byte
edit_key self byte =
    if byte == 21
    then erase_before self
    else if byte == 11
    then (record self { line = take self.cursor self.line }, redraw)
    else if byte == 23
    then redrawn (erase_word self)
    else if (byte == 8) || (byte == 127)
    then erase_byte self
    else if leb 32 byte
    then type_byte self byte
    else (self, nothing)

-- The last match of `feed`
unfoldable pub feed_key : Editor → ℕ → Editor × EditorEvent
unfolding edit_key
feed_key self byte =
    if byte == 13
    then (record self { last_was_cr = true }, submit)
    else if byte == 10
    then (self, submit)
    else if byte == 9
    then (self, complete)
    else if byte == 27
    then (record self { escape = esc }, nothing)
    else if byte == 3
    then (self, interrupt)
    else if byte == 12
    then (self, clear_screen)
    else if byte == 1
    then (record self { cursor = 0 }, redraw)
    else if byte == 5
    then (record self { cursor = length self.line }, redraw)
    else edit_key self byte

-- `feed`, for a byte that is no part of a sequence
unfoldable pub feed_plain : Editor → ℕ → Editor × EditorEvent
unfolding feed_key
feed_plain self byte =
    let next = record self { last_was_cr = false } in
    if self.last_was_cr && ((byte == 10) || (byte == 0))
    then (next, nothing)
    else feed_key next byte

-- `feed`, by the state that it finds
unfoldable pub feed_in : EscapeState → Editor → ℕ → Editor × EditorEvent
unfolding feed_plain finish_csi
feed_in normal self byte = feed_plain self byte
feed_in esc self byte =
    if (byte == b'[') || (byte == b'O')
    then (record self { escape = csi [] }, nothing)
    else feed_plain self byte
feed_in (csi sequence) self byte =
    let sequence' = if ltb (length sequence) csi_cap then sequence ++ byte ∷ [] else sequence in
    if is_alphabetic byte || (byte == b'~')
    then finish_csi self sequence'
    else (record self { escape = csi sequence' }, nothing)

unfoldable pub feed : Editor → ℕ → Editor × EditorEvent
unfolding feed_in
feed self byte = feed_in self.escape (record self { escape = normal }) byte
