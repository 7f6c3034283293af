-- ===== src/Editor.antt =====
-- microtun-cli/src/editor.rs: the line editor, with the `history` feature.
mod Tests
pub mod Keys
pub mod Text
pub mod Sound
pub mod Feeding
pub mod Typing
pub mod Erasing
pub mod Words
use microtun.Prelude.{
  ℕ, zero, suc, ◌+◌, ◌-◌, ◌/◌, ◌≤◌, Bool, true, false, ◌&&◌, ◌||◌, not, Option, none, some, List,
  [], ◌∷◌, ◌++◌, leb, ltb, ◌==◌, if◌then◌else◌, length, get_or, get_elem?, set, take, drop, min,
}

pub data EditorEvent : Type 0 where
  nothing : EditorEvent
  echo : ℕ → EditorEvent
  erase redraw submit complete interrupt clear_screen : EditorEvent

pub data EscapeState : Type 0 where
  normal esc : EscapeState
  csi : List ℕ → EscapeState

-- `Editor`, with the capacity of its line
pub record Editor : Type 0 where
  pub capacity : ℕ
  pub line : List ℕ
  pub cursor : ℕ
  pub escape : EscapeState
  pub history : List (List ℕ)
  pub history_index : Option ℕ
  pub last_was_cr : Bool

-- `Editor::new`
abbrev pub new : ℕ → Editor
new capacity = record {
  capacity = capacity;
  line = [];
  cursor = 0;
  escape = normal;
  history = [];
  history_index = none;
  last_was_cr = false;
}

abbrev pub csi_cap : ℕ
csi_cap = 8

-- `byte & 0b1100_0000 == 0b1000_0000`
abbrev pub is_continuation : ℕ → Bool
is_continuation byte = byte / 64 == 2

-- The loop of `prev_boundary`
abbrev pub back_from : List ℕ → ℕ → ℕ
back_from line zero = 0
back_from line (suc index) =
    if is_continuation (get_or line (suc index) 0) then back_from line index else suc index

unfoldable pub prev_boundary : List ℕ → ℕ → ℕ
prev_boundary line zero = 0
prev_boundary line (suc index) = back_from line index

-- The loop of `next_boundary`, for the bytes that are left
abbrev pub forward_from : ℕ → List ℕ → ℕ → ℕ
forward_from zero line index = index
forward_from (suc left) line index =
    if is_continuation (get_or line index 0) then forward_from left line (suc index) else index

unfoldable pub next_boundary : List ℕ → ℕ → ℕ
next_boundary line index =
    if leb (length line) index
    then length line
    else forward_from (length line - suc index) line (suc index)

-- `copy_within(start..end, to)`
abbrev pub copy_within : List ℕ → ℕ → ℕ → ℕ → List ℕ
copy_within xs start end to =
    take to xs ++ (take (end - start) (drop start xs) ++ drop (to + (end - start)) xs)

-- `count` calls of `pop`
abbrev pub pops : ℕ → List ℕ → List ℕ
pops count xs = take (length xs - count) xs

unfoldable pub insert : Editor → ℕ → Editor × Bool
insert self byte =
    let pushed = self.line ++ 0 ∷ [] in
    if not (ltb (length self.line) self.capacity)
    then (self, false)
    else if self.cursor == length self.line
    then (record self { line = self.line ++ byte ∷ []; cursor = self.cursor + 1 }, true)
    else (
      record self {
        line =
            set (copy_within pushed self.cursor (length pushed - 1) (self.cursor + 1)) self.cursor
              byte;
        cursor = self.cursor + 1;
      },
      true,
    )

unfoldable pub backspace : Editor → Editor × Bool
backspace self =
    let start = prev_boundary self.line self.cursor in
    if self.cursor == 0 then (self, false) else (
      record self {
        line =
            pops (self.cursor - start) (copy_within self.line self.cursor (length self.line) start);
        cursor = start;
      },
      true,
    )

unfoldable pub delete : Editor → Editor × Bool
delete self =
    let end = next_boundary self.line self.cursor in
    if leb (length self.line) self.cursor then (self, false) else (
      record self {
        line = pops (end - self.cursor) (copy_within self.line end (length self.line) self.cursor);
      },
      true,
    )

-- `load_history`, by the entry that it finds; one that does not fit leaves the line empty.
abbrev pub with_entry : Editor → Option (List ℕ) → Editor
with_entry self none = self
with_entry self (some entry) =
    let line = if leb (length entry) self.capacity then entry else [] in
    record self { line = line; cursor = length line }

unfoldable pub load_history : Editor → ℕ → Editor
load_history self index = with_entry self (get_elem? self.history index)

unfoldable pub history_up : Editor → Editor × Bool
unfolding load_history
history_up self =
    let index : ℕ = elim self.history_index [
      | none ↦ length self.history - 1
      | some index ↦ index - 1
    ] in
    if length self.history == 0
    then (self, false)
    else (load_history (record self { history_index = some index }) index, true)

-- `history_down`, from where the history is
abbrev pub down_from : Editor → Option ℕ → Editor × Bool
down_from self none = (self, false)
down_from self (some index) =
    if leb (length self.history) (index + 1)
    then (record self { history_index = none; line = []; cursor = 0 }, true)
    else (load_history (record self { history_index = some (index + 1) }) (index + 1), true)

unfoldable pub history_down : Editor → Editor × Bool
unfolding load_history
history_down self = down_from self self.history_index

-- The loop of `replace_range`
abbrev pub insert_each : Editor → List ℕ → Editor × Bool
insert_each self [] = (self, true)
insert_each self (byte ∷ bytes) =
    let (self', inserted) = insert self byte in
    let rest = insert_each self' bytes in if inserted then rest else (self', false)

unfoldable pub replace_range : Editor → ℕ → List ℕ → List ℕ → Bool → Bool → Editor × Bool
unfolding insert
replace_range self start prefix value quote trailing_space =
    let start' = min start self.cursor in
    let cut = record self {
      line =
          pops (self.cursor - start') (copy_within self.line self.cursor (length self.line) start');
      cursor = start';
    } in
    let quote_byte = if quote then b'"' ∷ [] else [] in
    let space = if trailing_space then 32 ∷ [] else [] in
    insert_each cut (prefix ++ (quote_byte ++ (value ++ (quote_byte ++ space))))
