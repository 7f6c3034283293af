-- ===== src/Ymodem/Transcript.antt =====
-- What goes over the line in a transfer of microtun-ymodem/src, block by block.
use microtun.Prelude.{
  ℕ, zero, suc, ◌+◌, ◌-◌, ◌%◌, ◌≤◌, ◌<◌, ◌≡◌, refl, sym, ap, ◌∙◌, true, false, List, [], ◌∷◌, ◌++◌,
  map, arith, leb, if◌then◌else◌, length, min, take, drop, replicate, take-append, length-append,
  length-drop, length-take, length-replicate,
}
use microtun.Ymodem.{Arrival, arrived, stx, ack, pad, block_len}
use microtun.Ymodem.Wire.{frame_of}

abbrev pub wanted : ℕ → ℕ → ℕ
wanted size done = min (size - done) block_len

-- The block of a file from `done` on, padded
abbrev pub block_at : ℕ → ℕ → List ℕ → List ℕ
block_at size done file =
    take (wanted size done) (drop done file) ++ replicate (block_len - wanted size done) pad

module _ (crc16 : List ℕ → ℕ) where
  -- The packets of a file from `done` on, in at most `fuel` blocks
  unfoldable pub wire_blocks : ℕ → ℕ → ℕ → ℕ → List ℕ → List ℕ
  wire_blocks zero size number done file = []
  wire_blocks (suc fuel) size number done file =
      let rest = wire_blocks fuel size ((number + 1) % 256) (done + wanted size done) file in
      if leb size done then [] else stx ∷ (frame_of crc16 number (block_at size done file) ++ rest)

-- What the receiver answers to them
unfoldable pub acks : ℕ → ℕ → ℕ → List ℕ
acks zero size done = []
acks (suc fuel) size done =
    let rest = acks fuel size (done + wanted size done) in if leb size done then [] else ack ∷ rest

module _ (fuel size done : ℕ) where
  -- Another block is to come, or none.
  pub acks_more :
      done < size → acks (suc fuel) size done ≡ ack ∷ acks fuel size (done + wanted size done)
  unfolding acks
  acks_more less = let more : leb size done ≡ false = ground arith in rw more refl

  module _ (crc16 : List ℕ → ℕ) (number : ℕ) (file : List ℕ) where
    pub blocks_more :
        done < size
        → wire_blocks crc16 (suc fuel) size number done file
          ≡ stx
            ∷ (frame_of crc16 number (block_at size done file)
                ++ wire_blocks crc16 fuel size ((number + 1) % 256) (done + wanted size done) file)
    unfolding wire_blocks
    blocks_more less = let more : leb size done ≡ false = ground arith in rw more refl

module _ (size done : ℕ) where
  pub acks_done : (fuel : ℕ) → size ≤ done → acks fuel size done ≡ []
  unfolding acks
  acks_done zero e = refl
  acks_done (suc fuel) e = let last : leb size done ≡ true = ground arith in rw last refl

  pub blocks_done :
      (crc16 : List ℕ → ℕ) (fuel number : ℕ) (file : List ℕ)
      → size ≤ done
      → wire_blocks crc16 fuel size number done file ≡ []
  unfolding wire_blocks
  blocks_done crc16 zero number file e = refl
  blocks_done crc16 (suc fuel) number file e =
      let last : leb size done ≡ true = ground arith in rw last refl

module _ (size done : ℕ) (file : List ℕ) (h : length file ≡ size) (less : done < size) where
  length-taken : length (take (wanted size done) (drop done file)) ≡ wanted size done
  length-taken =
      omega
        (arith, length-take {0} (wanted size done) (drop done file), length-drop {0} done file, h)

  pub length-block_at : length (block_at size done file) ≡ block_len
  length-block_at = omega (
    arith,
    length-append {0} (take (wanted size done) (drop done file))
        (replicate (block_len - wanted size done) pad),
    length-taken,
    length-replicate {0} {A = ℕ} (block_len - wanted size done) pad,
  )

  pub taken :
      take (wanted size done) (block_at size done file) ≡ take (wanted size done) (drop done file)
  taken =
      take-append (take (wanted size done) (drop done file))
        (replicate (block_len - wanted size done) pad) (wanted size done) length-taken

pub drop_nil : (k : ℕ) → drop {A = ℕ} k [] ≡ []
drop_nil zero = refl
drop_nil (suc k) = refl

pub drop-drop : (n m : ℕ) (xs : List ℕ) → drop (n + m) xs ≡ drop m (drop n xs)
drop-drop zero m xs = let e : 0 + m ≡ m = omega arith in ap (λ k. drop k xs) e
drop-drop (suc n) m [] = drop_nil (suc n + m) ∙ sym (drop_nil m)
drop-drop (suc n) m (x ∷ xs) =
    let e : suc n + m ≡ suc (n + m) = omega arith in ap (λ k. drop k (x ∷ xs)) e ∙ drop-drop n m xs

pub map-append :
    (xs ys : List ℕ) (rest : List Arrival)
    → map arrived (xs ++ ys) ++ rest ≡ map arrived xs ++ (map arrived ys ++ rest)
map-append [] ys rest = refl
map-append (x ∷ xs) ys rest = ap (λ zs. arrived x ∷ zs) (map-append xs ys rest)
