-- ===== src/Replay.antt =====
-- microtun-core/src/replay.rs: the anti-replay window over transport counters, a ring of
-- 64-bit words.
pub mod Bitmap
pub mod Spec
pub mod Represents
pub mod Refine
pub mod Guarantees
mod Tests
use microtun.Prelude.{
  ℕ, zero, suc, ◌+◌, ◌-◌, ◌*◌, ◌/◌, ◌%◌, ◌^◌, min, Bool, true, false, Option, none, some, List,
  arith, get_elem?, set, replicate, ltb, ◌==◌, if◌then◌else◌, bit_and, bit_or,
}

-- `bitmap` holds `REPLAY_WORDS` words; `top` is the highest counter accepted so far.
pub record ReplayWindow : Type 0 where
  pub bitmap : List ℕ
  pub top : Option ℕ

abbrev pub word_bits : ℕ
word_bits = 64

-- The word of counter `c`, `(word >> bit) & 1 == 1`, and the word with that bit set.
pub bit_of : ℕ → ℕ → Bool
bit_of word bit = bit_and (word / 2 ^ bit) 1 == 1

pub with_bit : ℕ → ℕ → ℕ
with_bit word bit = bit_or word (2 ^ bit)

module _ (replay_words : ℕ) where
  abbrev pub window : ℕ
  window = word_bits * (replay_words - 1)

  pub new : ReplayWindow
  new = record { bitmap = replicate replay_words 0; top = none }

  abbrev pub block : ℕ → ℕ
  block counter = counter / word_bits % replay_words

  pub get_bit : List ℕ → ℕ → Bool
  unfolding bit_of
  get_bit bitmap counter = elim (get_elem? bitmap (block counter)) [
    | none ↦ false
    | some word ↦ bit_of word (counter % word_bits)
  ]

  -- `none` is the `false` of `set_bit`, a block outside the ring.
  pub set_bit : List ℕ → ℕ → Option (List ℕ)
  set_bit bitmap counter = elim (get_elem? bitmap (block counter)) [
    | none ↦ none
    | some word ↦ some (set bitmap (block counter) (with_bit word (counter % word_bits)))
  ]

  -- `for i in 1..=diff`, with `left` rounds to go. The flag is the early return of `false`.
  pub clear_blocks : ℕ → ℕ → ℕ → List ℕ → List ℕ × Bool
  clear_blocks zero i top_index bitmap = (bitmap, true)
  clear_blocks (suc left) i top_index bitmap =
      let blk = (top_index + i) % replay_words in
      elim (get_elem? bitmap blk) [
        | none ↦ (bitmap, false)
        | some word ↦ clear_blocks left (i + 1) top_index (set bitmap blk 0)
      ]

  -- Record `counter` in `bitmap`, and make it the top where the bit could be set.
  raise : ReplayWindow → List ℕ → ℕ → ReplayWindow × Bool
  raise self bitmap counter = elim (set_bit bitmap counter) [
    | none ↦ (record self { bitmap = bitmap }, false)
    | some marked ↦ (record { bitmap = marked; top = some counter }, true)
  ]

  pub first : ReplayWindow → ℕ → ReplayWindow × Bool
  unfolding raise
  first self counter = raise self (replicate replay_words 0) counter

  pub advance : ReplayWindow → ℕ → ℕ → ReplayWindow × Bool
  unfolding raise
  advance self top counter =
      let top_index = top / word_bits in
      let diff = min (counter / word_bits - top_index) replay_words in
      let (bitmap, cleared) = clear_blocks diff 1 top_index self.bitmap in
      if cleared then raise self bitmap counter else (record self { bitmap = bitmap }, false)

  pub behind : ReplayWindow → ℕ → ℕ → ReplayWindow × Bool
  behind self top counter =
      if ltb window (top - counter)
      then (self, false)
      else if get_bit self.bitmap counter
      then (self, false)
      else elim (set_bit self.bitmap counter) [
        | none ↦ (self, false)
        | some marked ↦ (record self { bitmap = marked }, true)
      ]

  pub check_and_update : ReplayWindow → ℕ → ReplayWindow × Bool
  unfolding first advance behind
  check_and_update self counter = elim self.top [
    | none ↦ first self counter
    | some top ↦ if ltb top counter then advance self top counter else behind self top counter
  ]
