-- ===== src/Replay/Bitmap.antt =====
-- The ring of words of microtun-core/src/replay.rs: what marking a counter and clearing blocks do
-- to every other bit.
use microtun.Prelude.{
  ℕ, zero, suc, ◌+◌, ◌%◌, ◌≤◌, ◌<◌, ◌≡◌, ◌≢◌, refl, ap, ◌∙◌, sym, subst, Bool, true, false, ◌&&◌,
  ◌||◌, some, List, ◌∷◌, [], arith, length, get_elem?, set, length-set, get_elem?-set_self,
  get_elem?-set_ne, ◌==◌, Option-cases, inl, inr,
}
use native.Mathlib.Decide.{ℕ_discrete}
use microtun.Prelude.Bits.{bit_test, bit_test-set, bit_and-one}
use microtun.Replay.{bit_of, with_bit, block, get_bit, set_bit, clear_blocks, word_bits}

bit_of-eq-bit_test : (w i : ℕ) → bit_of w i ≡ bit_test w i
unfolding bit_of
bit_of-eq-bit_test w i = rw bit_and-one

bit_of-with_bit : (w b i : ℕ) → bit_of (with_bit w b) i ≡ bit_of w i || (i == b)
unfolding with_bit
bit_of-with_bit w b i = rw (bit_of-eq-bit_test _ i, bit_of-eq-bit_test w i) (bit_test-set w b i)

bit_of-zero : (i : ℕ) → bit_of 0 i ≡ false
unfolding bit_of
bit_of-zero i = rw bit_and-one (ground arith)

module _ {ℓ} {A : Type ℓ} where
  get_elem?-lt : (xs : List A) (i : ℕ) → i < length xs → (a : A) × (get_elem? xs i ≡ some a)
  get_elem?-lt [] i h = absurd (omega arith)
  get_elem?-lt (x ∷ xs) zero h = (x, refl)
  get_elem?-lt (x ∷ xs) (suc i) h = get_elem?-lt xs i (omega arith)

  lt_of_get_elem? : (xs : List A) (i : ℕ) {a : A} → get_elem? xs i ≡ some a → i < length xs
  lt_of_get_elem? [] i e = absurd (cc)
  lt_of_get_elem? (x ∷ xs) zero e = omega arith
  lt_of_get_elem? (x ∷ xs) (suc i) e = omega (arith, lt_of_get_elem? xs i e)

module _ (replay_words : ℕ) where
  -- The two counters share one bit of the ring.
  abbrev pub same_slot : ℕ → ℕ → Bool
  same_slot c d = (block replay_words d == block replay_words c) && (d % word_bits == c % word_bits)

  get_bit-some :
      (bm : List ℕ) (c w : ℕ)
      → get_elem? bm (block replay_words c) ≡ some w
      → get_bit replay_words bm c ≡ bit_of w (c % word_bits)
  unfolding get_bit
  get_bit-some bm c w e = rw (e, get_bit)

  pub get_bit-congr :
      (bm bm' : List ℕ) (c : ℕ)
      → get_elem? bm (block replay_words c) ≡ get_elem? bm' (block replay_words c)
      → get_bit replay_words bm c ≡ get_bit replay_words bm' c
  unfolding get_bit
  get_bit-congr bm bm' c e = rw (e, get_bit)

  pub get_bit-clear :
      (bm : List ℕ) (c : ℕ)
      → get_elem? bm (block replay_words c) ≡ some 0
      → get_bit replay_words bm c ≡ false
  get_bit-clear bm c e = get_bit-some bm c 0 e ∙ bit_of-zero (c % word_bits)

set-zero : (bm : List ℕ) (i b : ℕ) → get_elem? bm b ≡ some 0 → get_elem? (set bm i 0) b ≡ some 0
set-zero bm i b e = elim (ℕ_discrete i b) [
  | yes same ↦ rw same (get_elem?-set_self bm b 0 (lt_of_get_elem? bm b e))
  | no ne ↦ get_elem?-set_ne bm 0 ne ∙ e
]

module _ (replay_words : ℕ) (some_words : 0 < replay_words) (bm : List ℕ)
    (sized : length bm ≡ replay_words) where
  pub set_bit-some : (c : ℕ) → (m : List ℕ) × (set_bit replay_words bm c ≡ some m)
  unfolding set_bit
  set_bit-some c =
      let (w, e) = get_elem?-lt bm (block replay_words c) (omega arith) in
      (set bm (block replay_words c) (with_bit w (c % word_bits)), rw (e, set_bit))

module _ (replay_words : ℕ) (bm : List ℕ) (c : ℕ) {m : List ℕ}
    (marked : set_bit replay_words bm c ≡ some m) where
  set_bit_parts :
      (w : ℕ) × (get_elem? bm (block replay_words c) ≡ some w)
      × (set bm (block replay_words c) (with_bit w (c % word_bits)) ≡ m)
  unfolding set_bit
  set_bit_parts = elim (Option-cases (get_elem? bm (block replay_words c))) [
    | inl e ↦ absurd (ground arith)
    | inr (w, e) ↦ (w, e, ground arith)
  ]

  pub length-set_bit : length m ≡ length bm
  length-set_bit =
      let (w, e, eq) = set_bit_parts in
      sym (ap length eq) ∙ length-set bm (block replay_words c) (with_bit w (c % word_bits))

  same_block :
      (d : ℕ)
      → block replay_words d ≡ block replay_words c
      → get_bit replay_words m d ≡ get_bit replay_words bm d || (d % word_bits == c % word_bits)
  same_block d same =
      let (w, e, eq) = set_bit_parts in
      let b = block replay_words c in
      let v = with_bit w (c % word_bits) in
      let there : get_elem? m b ≡ some v =
        subst (λ x. get_elem? x b ≡ some v) eq
          (get_elem?-set_self bm b v (lt_of_get_elem? bm b e)) in
      ground (
        arith,
        get_bit-some replay_words m d v (rw same there),
        get_bit-some replay_words bm d w (rw same e),
        bit_of-with_bit w (c % word_bits) (d % word_bits),
      )

  other_block :
      (d : ℕ)
      → block replay_words d ≢ block replay_words c
      → get_bit replay_words m d ≡ get_bit replay_words bm d
  other_block d other =
      let (w, e, eq) = set_bit_parts in
      get_bit-congr replay_words m bm d (
        subst (λ x. get_elem? x (block replay_words d) ≡ get_elem? bm (block replay_words d)) eq
          (get_elem?-set_ne bm (with_bit w (c % word_bits)) (λ h. other (sym h))))

  -- Marking `c` sets the bit that `c` has in the ring, and no other.
  pub get_bit-set_bit :
      (d : ℕ) → get_bit replay_words m d ≡ get_bit replay_words bm d || same_slot replay_words c d
  get_bit-set_bit d = elim (ℕ_discrete (block replay_words d) (block replay_words c)) [
    | yes same ↦ ground (arith, same_block d same)
    | no other ↦ ground (arith, other_block d other)
  ]

module _ (replay_words : ℕ) (some_words : 0 < replay_words) (top_index : ℕ) where
  abbrev clear : ℕ → ℕ → List ℕ → List ℕ × Bool
  clear left i bm = clear_blocks replay_words left i top_index bm

  clear_step :
      (left i : ℕ) (bm : List ℕ)
      → length bm ≡ replay_words
      → clear (suc left) i bm ≡ clear left (i + 1) (set bm ((top_index + i) % replay_words) 0)
  unfolding clear_blocks
  clear_step left i bm sized =
      let (w, e) = get_elem?-lt bm ((top_index + i) % replay_words) (omega arith) in
      rw (e, clear_blocks)

  pub clear_sized :
      (left i : ℕ) (bm : List ℕ)
      → length bm ≡ replay_words
      → (length (clear left i bm).0 ≡ replay_words) × ((clear left i bm).1 ≡ true)
  clear_sized zero i bm sized = unfold clear_blocks in (sized, refl)
  clear_sized (suc left) i bm sized = rw (clear_step left i bm sized) (
      clear_sized left (i + 1) (set bm ((top_index + i) % replay_words) 0)
        (length-set bm _ 0 ∙ sized))

  -- A block that the loop does not meet keeps its word.
  pub clear_untouched :
      (left i : ℕ) (bm : List ℕ) (b : ℕ)
      → length bm ≡ replay_words
      → ((j : ℕ) → i ≤ j → j < i + left → (top_index + j) % replay_words ≢ b)
      → get_elem? (clear left i bm).0 b ≡ get_elem? bm b
  clear_untouched zero i bm b sized apart = unfold clear_blocks in refl
  clear_untouched (suc left) i bm b sized apart =
      let blk = (top_index + i) % replay_words in
      rw (clear_step left i bm sized) (
        clear_untouched left (i + 1) (set bm blk 0) b (length-set bm blk 0 ∙ sized)
          (λ j lo hi. apart j (omega arith) (omega arith))
        ∙ get_elem?-set_ne bm 0 (apart i (omega arith) (omega arith)))

  -- A cleared block stays clear.
  clear_keeps_zero :
      (left i : ℕ) (bm : List ℕ) (b : ℕ)
      → length bm ≡ replay_words
      → get_elem? bm b ≡ some 0
      → get_elem? (clear left i bm).0 b ≡ some 0
  clear_keeps_zero zero i bm b sized e = unfold clear_blocks in e
  clear_keeps_zero (suc left) i bm b sized e =
      let blk = (top_index + i) % replay_words in
      rw (clear_step left i bm sized) (
        clear_keeps_zero left (i + 1) (set bm blk 0) b (length-set bm blk 0 ∙ sized)
          (set-zero bm blk b e))

  -- Every block that the loop meets ends up clear.
  pub clear_clears :
      (left i j : ℕ) (bm : List ℕ)
      → length bm ≡ replay_words
      → i ≤ j
      → j < i + left
      → get_elem? (clear left i bm).0 ((top_index + j) % replay_words) ≡ some 0
  clear_clears zero i j bm sized lo hi = absurd (omega arith)
  clear_clears (suc left) i j bm sized lo hi =
      let blk = (top_index + i) % replay_words in
      let sized' = length-set bm blk 0 ∙ sized in
      rw (clear_step left i bm sized) (elim (ℕ_discrete i j) [
        | yes e ↦
            clear_keeps_zero left (i + 1) (set bm blk 0) _ sized'
              (rw (← e) (get_elem?-set_self bm blk 0 (omega arith)))
        | no ne ↦ clear_clears left (i + 1) j (set bm blk 0) sized' (omega arith) (omega arith)
      ])
