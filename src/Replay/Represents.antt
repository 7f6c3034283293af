-- ===== src/Replay/Represents.antt =====
-- When a ring of words stands for a set of accepted counters, and what marking a counter and
-- clearing the blocks on the way to it do to that (microtun-core/src/replay.rs).
use microtun.Prelude.{
  ℕ, zero, suc, ◌+◌, ◌-◌, ◌*◌, ◌/◌, ◌%◌, ◌≤◌, ◌<◌, min, ◌≡◌, ◌≢◌, refl, ap, ◌∙◌, sym, Bool, false,
  none, some, List, ◌∷◌, arith, length, get_elem?, replicate, ◌==◌, inl, inr, ◌⊎◌,
}
use microtun.Replay.{ReplayWindow, word_bits, block, get_bit, set_bit, clear_blocks, bit_of}
use microtun.Replay.Bitmap.{
  same_slot, length-set_bit, get_bit-set_bit, get_bit-congr, get_bit-clear, clear_untouched,
  clear_clears,
}
use microtun.Replay.Spec
use native.Mathlib.Nat.{div-add-mod, add-mod-mod}
use native.Mathlib.Decide.{dec_lt}

-- `w` stands for the filter that has accepted `seen`: the bits of the blocks in the ring say which
-- of their counters were accepted.
pub record Represents (replay_words : ℕ) (w : ReplayWindow) (seen : List ℕ) : Type 0 where
  pub sized : length w.bitmap ≡ replay_words
  pub top : w.top ≡ Spec.highest seen
  pub marks :
      (t c : ℕ)
      → w.top ≡ some t
      → c / word_bits ≤ t / word_bits
      → t / word_bits < c / word_bits + replay_words
      → get_bit replay_words w.bitmap c ≡ Spec.contains c seen

-- Blocks less than a ring apart lie in different words.
mod_apart : (a b n : ℕ) → b < a → a < b + n → a % n ≢ b % n
mod_apart a b n lo hi e = elim (dec_lt (b / n) (a / n)) [
  | yes p ↦
      let above : n * suc (b / n) ≤ n * (a / n) = grind arith in
      omega (arith, div-add-mod a n, div-add-mod b n)
  | no p ↦
      let below : n * (a / n) ≤ n * (b / n) = grind arith in
      omega (arith, div-add-mod a n, div-add-mod b n)
]

abbrev pub blank : ℕ → List ℕ
blank n = replicate n 0

fresh_word : (n b : ℕ) → (get_elem? (blank n) b ≡ none) ⊎ (get_elem? (blank n) b ≡ some 0)
fresh_word zero b = inl refl
fresh_word (suc n) zero = inr refl
fresh_word (suc n) (suc b) = fresh_word n b

-- The loop over the blocks above `ti` meets the one of `x`, after whole turns of the ring.
met : (x ti n : ℕ) → ti < x → (ti + suc ((x - suc ti) % n)) % n ≡ x % n
met x ti n h =
    ap (λ k. k % n) (omega arith)
    ∙ add-mod-mod (suc ti) (x - suc ti) n
    ∙ ap (λ k. k % n) (omega arith)

module _ (replay_words : ℕ) where
  abbrev pub InRing : ℕ → ℕ → Type 0
  InRing t c = (c / word_bits ≤ t / word_bits) × (t / word_bits < c / word_bits + replay_words)

  -- Within one turn of the ring a slot belongs to one counter.
  same_slot_eq : (t c d : ℕ) → InRing t c → InRing t d → same_slot replay_words c d ≡ (d == c)
  same_slot_eq t c d hc hd = ground (
    arith,
    mod_apart (c / word_bits) (d / word_bits) replay_words,
    mod_apart (d / word_bits) (c / word_bits) replay_words,
  )

  -- A fresh ring has no bit set.
  pub get_bit-fresh : (c : ℕ) → get_bit replay_words (replicate replay_words 0) c ≡ false
  unfolding get_bit bit_of
  get_bit-fresh c = elim (fresh_word replay_words (block replay_words c)) [
    | inl e ↦ rw (e, get_bit)
    | inr e ↦ get_bit-clear replay_words (replicate replay_words 0) c e
  ]

  abbrev pub steps : ℕ → ℕ → ℕ
  steps t c = min (c / word_bits - t / word_bits) replay_words

  abbrev pub cleared : List ℕ → ℕ → ℕ → List ℕ × Bool
  cleared bm t c = clear_blocks replay_words (steps t c) 1 (t / word_bits) bm

module _ (replay_words : ℕ) (some_words : 0 < replay_words) where
  -- Marking `c` in a ring whose bits stand for `seen`, with `c` the new top or below the old.
  pub marked-Represents :
      (bm m : List ℕ) (seen : List ℕ) (t c : ℕ)
      → length bm ≡ replay_words
      → set_bit replay_words bm c ≡ some m
      → InRing replay_words t c
      → Spec.highest (c ∷ seen) ≡ some t
      → ((d : ℕ) → InRing replay_words t d → get_bit replay_words bm d ≡ Spec.contains d seen)
      → Represents replay_words (record { bitmap = m; top = some t }) (c ∷ seen)
  marked-Represents bm m seen t c sized e hc h bits = record {
    sized = length-set_bit replay_words bm c e ∙ sized;
    top = sym h;
    marks = λ t' d et lo hi.
        unfold Spec.contains in
        ground
          (arith, get_bit-set_bit replay_words bm c e d, same_slot_eq replay_words t c d, bits d);
  }

  reached :
      (index x ti : ℕ)
      → (x ≤ index) × (index < x + replay_words)
      → ti < x
      → suc ((x - suc ti) % replay_words) < 1 + min (index - ti) replay_words
  reached index x ti h p = omega arith

  -- Above the top every block on the way is cleared, so the bits stand for the same set as before.
  pub cleared-bits :
      (bm : List ℕ) (seen : List ℕ) (t c : ℕ)
      → length bm ≡ replay_words
      → t < c
      → Spec.AllLe seen t
      → ((d : ℕ) → InRing replay_words t d → get_bit replay_words bm d ≡ Spec.contains d seen)
      → (d : ℕ) → InRing replay_words c d
      → get_bit replay_words (cleared replay_words bm t c).0 d ≡ Spec.contains d seen
  cleared-bits bm seen t c sized above all_le bits d hd =
      elim (dec_lt (t / word_bits) (d / word_bits)) [
        | yes p ↦
            let j = suc ((d / word_bits - suc (t / word_bits)) % replay_words) in
            let hit =
              clear_clears replay_words some_words (t / word_bits) (steps replay_words t c) 1 j bm
                sized (omega arith)
                (reached (c / word_bits) (d / word_bits) (t / word_bits) hd p) in
            get_bit-clear replay_words (cleared replay_words bm t c).0 d
              (rw (← met (d / word_bits) (t / word_bits) replay_words p) hit)
            ∙ sym (Spec.contains-above seen t d all_le (omega arith))
        | no p ↦
            get_bit-congr replay_words (cleared replay_words bm t c).0 bm d (
              clear_untouched replay_words some_words (t / word_bits) (steps replay_words t c) 1 bm
                (block replay_words d) sized
                (λ j lo hi.
                  mod_apart (t / word_bits + j) (d / word_bits) replay_words (omega arith)
                    (omega arith)))
            ∙ bits d (omega arith)
      ]
