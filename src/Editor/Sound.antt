-- ===== src/Editor/Sound.antt =====
-- The cursor of microtun-cli/src/editor.rs stays in the line, and the line in its capacity.
use microtun.Prelude.{
  ℕ, zero, suc, ◌+◌, ◌-◌, ◌≤◌, ◌<◌, ◌≡◌, sym, ap, subst, ◌∙◌, Bool, true, false, not, Option, none,
  some, List, [], ◌∷◌, arith, leb, ltb, ◌==◌, if◌then◌else◌, length, get_elem?, take, drop,
  Bool-cases, inl, inr, length-append, length-take, length-drop,
}
use microtun.Editor.{
  EditorEvent, nothing, redraw, Editor, prev_boundary, next_boundary, pops, copy_within, insert,
  backspace, delete, with_entry, down_from, load_history, history_up, history_down,
}
use microtun.Editor.Keys.{redrawn, finish_csi, erase_before}
use microtun.Editor.Text.{
  pops-copy_within, insert_lem, prev_boundary-bound, next_boundary-bound, backspace_lem, delete_lem,
}

pub record IsSound (self : Editor) : Type 0 where
  pub within : self.cursor ≤ length self.line
  pub fits : length self.line ≤ self.capacity

abbrev Keeps : {A : Type 0} → Editor × A → Type 0
Keeps r = IsSound r.0

pub either :
    {A : Type 0} (b : Bool) (x y : Editor × A) → Keeps x → Keeps y → Keeps (if b then x else y)
either true x y p q = p
either false x y p q = q

module _ (self : Editor) (p : IsSound self) where
  pub insert-IsSound : (byte : ℕ) → IsSound (insert self byte).0
  unfolding insert
  insert-IsSound byte = elim (Bool-cases (ltb (length self.line) self.capacity)) [
    | inl e ↦
        let room : length self.line < self.capacity = ground arith in
        subst (Keeps {A = Bool}) (sym (insert_lem self byte p.within room)) (record {
          within = omega (
            arith,
            p.within,
            length-append {0} (take self.cursor self.line) (byte ∷ drop self.cursor self.line),
            length-take {0} self.cursor self.line,
            length-drop {0} self.cursor self.line,
          );
          fits = omega (
            arith,
            p.within,
            length-append {0} (take self.cursor self.line) (byte ∷ drop self.cursor self.line),
            length-take {0} self.cursor self.line,
            length-drop {0} self.cursor self.line,
          );
        })
    | inr e ↦ rw e p
  ]

  pub backspace-IsSound : IsSound (backspace self).0
  unfolding backspace
  backspace-IsSound = elim (Bool-cases (self.cursor == 0)) [
    | inl e ↦ rw e p
    | inr e ↦
        let start = prev_boundary self.line self.cursor in
        let less = prev_boundary-bound self.line self.cursor (ground arith) in
        let size = length-append {0} (take start self.line) (drop self.cursor self.line) in
        let before = length-take {0} start self.line in
        let after = length-drop {0} self.cursor self.line in
        subst (Keeps {A = Bool}) (sym (backspace_lem self (ground arith) p.within)) (record {
          within = omega (arith, p.within, less, size, before, after);
          fits = omega (arith, p.within, p.fits, less, size, before, after);
        })
  ]

  pub delete-IsSound : IsSound (delete self).0
  unfolding delete
  delete-IsSound = elim (Bool-cases (leb (length self.line) self.cursor)) [
    | inl e ↦ rw e p
    | inr e ↦
        let less : self.cursor < length self.line = ground arith in
        let end = next_boundary self.line self.cursor in
        let (low, high) = next_boundary-bound self.line self.cursor less in
        let size = length-append {0} (take self.cursor self.line) (drop end self.line) in
        let before = length-take {0} self.cursor self.line in
        let after = length-drop {0} end self.line in
        subst (Keeps {A = Bool}) (sym (delete_lem self less)) (record {
          within = omega (arith, size, before);
          fits = omega (arith, p.fits, low, size, before, after);
        })
  ]

  with_entry-IsSound : (o : Option (List ℕ)) → IsSound (with_entry self o)
  with_entry-IsSound none = p
  with_entry-IsSound (some entry) = elim (Bool-cases (leb (length entry) self.capacity)) [
    | inl e ↦ rw e (record { within = omega arith; fits = ground arith })
    | inr e ↦ rw e (record { within = omega arith; fits = omega arith })
  ]

  load_history-IsSound : (index : ℕ) → IsSound (load_history self index)
  unfolding load_history
  load_history-IsSound index = with_entry-IsSound (get_elem? self.history index)

  pub at_start-IsSound : IsSound (record self { cursor = 0 })
  at_start-IsSound = record { within = omega arith; fits = p.fits }

  pub at_end-IsSound : IsSound (record self { cursor = length self.line })
  at_end-IsSound = record { within = omega arith; fits = p.fits }

  pub erase_before-IsSound : IsSound (erase_before self).0
  unfolding erase_before
  erase_before-IsSound = elim (Bool-cases (self.cursor == 0)) [
    | inl e ↦ rw e p
    | inr e ↦
        let kept : pops (self.cursor - 0) (copy_within self.line self.cursor (length self.line) 0)
            ≡ drop self.cursor self.line =
          pops-copy_within self.line 0 self.cursor (omega arith) p.within in
        let same : self.cursor - 0 ≡ self.cursor = omega arith in
        let left =
          ap (λ n. pops n (copy_within self.line self.cursor (length self.line) 0)) (sym same)
          ∙ kept in
        rw e (
          rw left (record {
            within = omega arith;
            fits = omega (arith, p.fits, length-drop {0} self.cursor self.line);
          }))
  ]

moved-IsSound :
    (self : Editor) (index : Option ℕ)
    → IsSound self
    → IsSound (record self { history_index = index })
moved-IsSound self index p = record { within = p.within; fits = p.fits }

history_up-IsSound : (self : Editor) → IsSound self → IsSound (history_up self).0
unfolding history_up
history_up-IsSound self p =
    let index : ℕ = elim self.history_index [
      | none ↦ length self.history - 1
      | some index ↦ index - 1
    ] in
    let next = record self { history_index = some index } in
    either (length self.history == 0) (self, false) (load_history next index, true) p
      (load_history-IsSound next (moved-IsSound self (some index) p) index)

down_from-IsSound : (self : Editor) (o : Option ℕ) → IsSound self → IsSound (down_from self o).0
down_from-IsSound self none p = p
down_from-IsSound self (some index) p =
    let next = record self { history_index = some (index + 1) } in
    either (leb (length self.history) (index + 1))
      (record self { history_index = none; line = []; cursor = 0 }, true)
      (load_history next (index + 1), true) (record { within = omega arith; fits = omega arith })
      (load_history-IsSound next (moved-IsSound self (some (index + 1)) p) (index + 1))

history_down-IsSound : (self : Editor) → IsSound self → IsSound (history_down self).0
unfolding history_down
history_down-IsSound self p = down_from-IsSound self self.history_index p

pub redrawn-IsSound : (r : Editor × Bool) → IsSound r.0 → IsSound (redrawn r).0
redrawn-IsSound (self, changed) p = p

next_boundary-within : (line : List ℕ) (index : ℕ) → next_boundary line index ≤ length line
unfolding next_boundary
next_boundary-within line index = elim (Bool-cases (leb (length line) index)) [
  | inl e ↦ rw e (omega arith)
  | inr e ↦ (next_boundary-bound line index (ground arith)).1
]

prev_boundary-within : (line : List ℕ) (index : ℕ) → prev_boundary line index ≤ index
unfolding prev_boundary
prev_boundary-within line zero = omega arith
prev_boundary-within line (suc index) =
    omega (arith, prev_boundary-bound line (suc index) (omega arith))

at-IsSound :
    (self : Editor) (cursor : ℕ)
    → IsSound self
    → cursor ≤ length self.line
    → IsSound (record self { cursor = cursor })
at-IsSound self cursor p h = record { within = h; fits = p.fits }

pub finish_csi-IsSound :
    (self : Editor) (sequence : List ℕ) → IsSound self → IsSound (finish_csi self sequence).0
unfolding finish_csi
finish_csi-IsSound self [] p = p
finish_csi-IsSound self (b ∷ []) p =
    let home : Editor × EditorEvent = (record self { cursor = 0 }, redraw) in
    let last : Editor × EditorEvent = (record self { cursor = length self.line }, redraw) in
    let still : Editor × EditorEvent = (self, nothing) in
    let left : Editor × EditorEvent =
      (record self { cursor = prev_boundary self.line self.cursor }, redraw) in
    let right : Editor × EditorEvent =
      (record self { cursor = next_boundary self.line self.cursor }, redraw) in
    let after_f : Editor × EditorEvent = if b == b'F' then last else still in
    let after_h : Editor × EditorEvent = if b == b'H' then home else after_f in
    let after_d : Editor × EditorEvent = if b == b'D' then left else after_h in
    let after_c : Editor × EditorEvent = if b == b'C' then right else after_d in
    let after_b : Editor × EditorEvent =
      if b == b'B' then redrawn (history_down self) else after_c in
    either (b == b'A') (redrawn (history_up self)) after_b
      (redrawn-IsSound (history_up self) (history_up-IsSound self p))
      (either (b == b'B') (redrawn (history_down self)) after_c
        (redrawn-IsSound (history_down self) (history_down-IsSound self p))
        (either (b == b'C') right after_d
          (at-IsSound self (next_boundary self.line self.cursor) p
            (next_boundary-within self.line self.cursor))
          (either (b == b'D') left after_h
            (at-IsSound self (prev_boundary self.line self.cursor) p
              (omega (arith, p.within, prev_boundary-within self.line self.cursor)))
            (either (b == b'H') home after_f (at_start-IsSound self p)
              (either (b == b'F') last still (at_end-IsSound self p) p)))))
finish_csi-IsSound self (b ∷ c ∷ []) p =
    let home : Editor × EditorEvent = (record self { cursor = 0 }, redraw) in
    let last : Editor × EditorEvent = (record self { cursor = length self.line }, redraw) in
    let still : Editor × EditorEvent = (self, nothing) in
    let after_3 : Editor × EditorEvent = if b == b'3' then redrawn (delete self) else still in
    let after_4 : Editor × EditorEvent = if b == b'4' then last else after_3 in
    let after_1 : Editor × EditorEvent = if b == b'1' then home else after_4 in
    either (not (c == b'~')) still after_1 p (
      either (b == b'1') home after_4 (at_start-IsSound self p) (
        either (b == b'4') last after_3 (at_end-IsSound self p) (
          either (b == b'3') (redrawn (delete self)) still
            (redrawn-IsSound (delete self) (delete-IsSound self p)) p)))
finish_csi-IsSound self (b ∷ c ∷ d ∷ sequence) p = p
