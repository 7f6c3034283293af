-- ===== src/Editor/Feeding.antt =====
-- `feed` of microtun-cli/src/editor.rs, byte after byte.
use microtun.Prelude.{
  ℕ, zero, suc, ◌-◌, ◌≡◌, refl, Bool, true, false, not, ◌&&◌, ◌||◌, List, [], ◌∷◌, ◌++◌, arith, leb,
  ltb, ◌==◌, if◌then◌else◌, length, get_or, take, length-take,
}
use microtun.Editor.{
  EditorEvent, nothing, redraw, submit, interrupt, complete, clear_screen, EscapeState, normal, esc,
  csi, csi_cap, Editor, backspace,
}
use microtun.Editor.Keys.{
  redrawn, finish_csi, is_space, is_alphabetic, erase_while, erase_word, erase_before, erase_byte,
  type_byte, edit_key, feed_key, feed_plain, feed_in, feed,
}
use microtun.Editor.Sound.{
  IsSound, either, backspace-IsSound, insert-IsSound, at_start-IsSound, at_end-IsSound,
  erase_before-IsSound, redrawn-IsSound, finish_csi-IsSound,
}

erase_while-IsSound :
    (test : ℕ → Bool) (fuel : ℕ) (r : Editor × Bool)
    → IsSound r.0
    → IsSound (erase_while test fuel r).0
unfolding erase_while
erase_while-IsSound test zero r p = p
erase_while-IsSound test (suc fuel) (self, changed) p =
    let next : Editor × Bool = ((backspace self).0, changed || (backspace self).1) in
    either (ltb 0 self.cursor && test (get_or self.line (self.cursor - 1) 0))
      (erase_while test fuel next) (self, changed)
      (erase_while-IsSound test fuel next (backspace-IsSound self p)) p

erase_word-IsSound : (self : Editor) → IsSound self → IsSound (erase_word self).0
unfolding erase_word
erase_word-IsSound self p =
    let r = erase_while is_space self.cursor (self, false) in
    erase_while-IsSound (λ b. not (is_space b)) r.0.cursor (r.0, r.1)
      (erase_while-IsSound is_space self.cursor (self, false) p)

erase_byte-IsSound : (self : Editor) → IsSound self → IsSound (erase_byte self).0
unfolding erase_byte
erase_byte-IsSound self p = backspace-IsSound self p

type_byte-IsSound : (self : Editor) (byte : ℕ) → IsSound self → IsSound (type_byte self byte).0
unfolding type_byte
type_byte-IsSound self byte p = insert-IsSound self p byte

truncated-IsSound :
    (self : Editor) → IsSound self → IsSound (record self { line = take self.cursor self.line })
truncated-IsSound self p = record {
  within = omega (arith, p.within, length-take {0} self.cursor self.line);
  fits = omega (arith, p.fits, length-take {0} self.cursor self.line);
}

-- The keys that change the line
edit_key-IsSound : (self : Editor) (byte : ℕ) → IsSound self → IsSound (edit_key self byte).0
unfolding edit_key
edit_key-IsSound self byte p =
    let still : Editor × EditorEvent = (self, nothing) in
    let typed : Editor × EditorEvent = if leb 32 byte then type_byte self byte else still in
    let erased : Editor × EditorEvent =
      if (byte == 8) || (byte == 127) then erase_byte self else typed in
    let word : Editor × EditorEvent = if byte == 23 then redrawn (erase_word self) else erased in
    let cut : Editor × EditorEvent = (record self { line = take self.cursor self.line }, redraw) in
    let tail : Editor × EditorEvent = if byte == 11 then cut else word in
    either (byte == 21) (erase_before self) tail (erase_before-IsSound self p) (
      either (byte == 11) cut word (truncated-IsSound self p) (
        either (byte == 23) (redrawn (erase_word self)) erased
          (redrawn-IsSound (erase_word self) (erase_word-IsSound self p))
          (either ((byte == 8) || (byte == 127)) (erase_byte self) typed (erase_byte-IsSound self p)
            (either (leb 32 byte) (type_byte self byte) still (type_byte-IsSound self byte p) p))))

feed_key-IsSound : (self : Editor) (byte : ℕ) → IsSound self → IsSound (feed_key self byte).0
unfolding feed_key
feed_key-IsSound self byte p =
    let e8 : Editor × EditorEvent = edit_key self byte in
    let end : Editor × EditorEvent = (record self { cursor = length self.line }, redraw) in
    let e7 : Editor × EditorEvent = if byte == 5 then end else e8 in
    let home : Editor × EditorEvent = (record self { cursor = 0 }, redraw) in
    let e6 : Editor × EditorEvent = if byte == 1 then home else e7 in
    let e5 : Editor × EditorEvent = if byte == 12 then (self, clear_screen) else e6 in
    let e4 : Editor × EditorEvent = if byte == 3 then (self, interrupt) else e5 in
    let escaped : Editor × EditorEvent = (record self { escape = esc }, nothing) in
    let e3 : Editor × EditorEvent = if byte == 27 then escaped else e4 in
    let e2 : Editor × EditorEvent = if byte == 9 then (self, complete) else e3 in
    let e1 : Editor × EditorEvent = if byte == 10 then (self, submit) else e2 in
    let same : (e : Editor)
        → e.line ≡ self.line
        → e.cursor ≡ self.cursor
        → e.capacity ≡ self.capacity
        → IsSound e =
      λ e a b c. record {
        within = ground (arith, p.within, a, b);
        fits = ground (arith, p.fits, a, c);
      } in
    either (byte == 13) (record self { last_was_cr = true }, submit) e1
      (same (record self { last_was_cr = true }) refl refl refl)
      (either (byte == 10) (self, submit) e2 p
        (either (byte == 9) (self, complete) e3 p
          (either (byte == 27) escaped e4 (same (record self { escape = esc }) refl refl refl) (
            either (byte == 3) (self, interrupt) e5 p
              (either (byte == 12) (self, clear_screen) e6 p
                (either (byte == 1) home e7 (at_start-IsSound self p) (
                  either (byte == 5) end e8 (at_end-IsSound self p)
                    (edit_key-IsSound self byte p))))))))

feed_plain-IsSound : (self : Editor) (byte : ℕ) → IsSound self → IsSound (feed_plain self byte).0
unfolding feed_plain
feed_plain-IsSound self byte p =
    let next : Editor = record self { last_was_cr = false } in
    let kept : IsSound next = record { within = p.within; fits = p.fits } in
    either (self.last_was_cr && ((byte == 10) || (byte == 0))) (next, nothing) (feed_key next byte)
      kept (feed_key-IsSound next byte kept)

escape-IsSound :
    (self : Editor) (escape : EscapeState)
    → IsSound self
    → IsSound (record self { escape = escape })
escape-IsSound self escape p = record { within = p.within; fits = p.fits }

feed_in-IsSound :
    (state : EscapeState) (self : Editor) (byte : ℕ)
    → IsSound self
    → IsSound (feed_in state self byte).0
unfolding feed_in
feed_in-IsSound normal self byte p = feed_plain-IsSound self byte p
feed_in-IsSound esc self byte p =
    either ((byte == b'[') || (byte == b'O')) (record self { escape = csi [] }, nothing)
      (feed_plain self byte) (escape-IsSound self (csi []) p) (feed_plain-IsSound self byte p)
feed_in-IsSound (csi sequence) self byte p =
    let sequence' = if ltb (length sequence) csi_cap then sequence ++ byte ∷ [] else sequence in
    either (is_alphabetic byte || (byte == b'~')) (finish_csi self sequence')
      (record self { escape = csi sequence' }, nothing) (finish_csi-IsSound self sequence' p)
      (escape-IsSound self (csi sequence') p)

-- The editor after a run of bytes
abbrev pub feed_all : Editor → List ℕ → Editor
feed_all self [] = self
feed_all self (byte ∷ bytes) = feed_all (feed self byte).0 bytes

-- Whatever bytes a terminal sends, the cursor stays in the line, or at its end, and the line within its
-- capacity, when they were so at the start.
pub feed_all-IsSound :
    (self : Editor) (bytes : List ℕ) → IsSound self → IsSound (feed_all self bytes)
unfolding feed
feed_all-IsSound self [] p = p
feed_all-IsSound self (byte ∷ bytes) p = feed_all-IsSound (feed self byte).0 bytes (
    feed_in-IsSound self.escape (record self { escape = normal }) byte
      (escape-IsSound self normal p))
