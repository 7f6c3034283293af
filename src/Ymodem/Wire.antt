-- ===== src/Ymodem/Wire.antt =====
-- One packet of microtun-ymodem/src/send.rs, as `receive_with` of receive.rs takes it from the line.
use microtun.Prelude.{
  ℕ, zero, suc, ◌+◌, ◌-◌, ◌/◌, ◌%◌, ◌≤◌, ◌≡◌, refl, ap, ◌∙◌, true, some, List, [], ◌∷◌, ◌++◌, map,
  arith, length, inl, inr, min, take, drop, take-append, take_all, length-append, append-nil,
  get_or,
}
use microtun.Ymodem.{Arrival, arrived, BufferSink, write, write_all, valid_frame, remaining}
use microtun.Ymodem.Receive.{Receiver, next_byte, read_block, read_frame, payload, M, ◌>>=◌}

-- The frame of a packet: all but its control byte
abbrev pub frame_of : (List ℕ → ℕ) → ℕ → List ℕ → List ℕ
frame_of crc16 number bytes =
    number ∷ (255 - number) ∷ bytes ++ (crc16 bytes / 256 ∷ crc16 bytes % 256 ∷ [])

-- The receiver, with `bytes` and then `rest` to arrive
abbrev pub hears : Receiver → List ℕ → List Arrival → Receiver
hears s bytes rest = record s { incoming = map arrived bytes ++ rest }

abbrev pub heard : Receiver → List Arrival → Receiver
heard s rest = record s { incoming = rest }

-- A step that succeeds, and the rest
pub bind_ok :
    {A B : Type 0} (m : M A) (f : A → M B) (s : Receiver) {s' : Receiver} {a : A}
    → m s ≡ (s', inr a)
    → (m >>= f) s ≡ f a s'
bind_ok m f s h = ap (λ r. elim r.1 [ inl e ↦ (r.0, inl e) | inr a ↦ f a r.0 ]) h

pub next_byte-hears :
    (s : Receiver) (b : ℕ) (bytes : List ℕ) (rest : List Arrival)
    → next_byte (hears s (b ∷ bytes) rest) ≡ (hears s bytes rest, inr b)
unfolding next_byte
next_byte-hears s b bytes rest = refl

pub read_block-hears :
    (s : Receiver) (bytes : List ℕ) (rest : List Arrival) (n : ℕ)
    → length bytes ≡ n
    → read_block n (hears s bytes rest) ≡ (heard s rest, inr bytes)
unfolding read_block
read_block-hears s [] rest zero h = refl
read_block-hears s [] rest (suc n) h = absurd (omega arith)
read_block-hears s (b ∷ bytes) rest zero h = absurd (omega arith)
read_block-hears s (b ∷ bytes) rest (suc n) h =
    bind_ok (read_block n) (λ bs s. (s, inr (b ∷ bs))) (hears s bytes rest)
      (read_block-hears s bytes rest n (omega arith))

get_or-append :
    (xs ys : List ℕ) (n i : ℕ) → length xs ≡ n → get_or (xs ++ ys) (n + i) 0 ≡ get_or ys i 0
get_or-append [] ys n i h = let e : n + i ≡ i = omega arith in ap (λ j. get_or ys j 0) e
get_or-append (x ∷ xs) ys zero i h = absurd (omega arith)
get_or-append (x ∷ xs) ys (suc n) i h =
    let e : suc n + i ≡ suc (n + i) = omega arith in
    ap (λ j. get_or (x ∷ xs ++ ys) j 0) e ∙ get_or-append xs ys n i (omega arith)

module _ (crc16 : List ℕ → ℕ) (number : ℕ) (bytes : List ℕ) (size : ℕ)
    (h : length bytes ≡ size) where
  abbrev ends : List ℕ
  ends = crc16 bytes / 256 ∷ crc16 bytes % 256 ∷ []

  pub length-frame_of : length (frame_of crc16 number bytes) ≡ size + 4
  length-frame_of = omega (arith, length-append {0} bytes ends, h)

  pub payload-frame_of : payload (frame_of crc16 number bytes) size ≡ bytes
  payload-frame_of = take-append bytes ends size h

  pub valid_frame-frame_of : valid_frame crc16 (frame_of crc16 number bytes) size ≡ true
  unfolding valid_frame
  valid_frame-frame_of =
      let frame = frame_of crc16 number bytes in
      let hi_at : 2 + size ≡ suc (suc (size + 0)) = omega arith in
      let lo_at : 3 + size ≡ suc (suc (size + 1)) = omega arith in
      let hi : get_or frame (2 + size) 0 ≡ crc16 bytes / 256 =
        ap (λ i. get_or frame i 0) hi_at ∙ get_or-append bytes ends size 0 h in
      let lo : get_or frame (3 + size) 0 ≡ crc16 bytes % 256 =
        ap (λ i. get_or frame i 0) lo_at ∙ get_or-append bytes ends size 1 h in
      ground (arith, hi, lo, payload-frame_of)

  pub read_frame-hears :
      (s : Receiver) (rest : List Arrival)
      → read_frame size (hears s (frame_of crc16 number bytes) rest)
        ≡ (heard s rest, inr (frame_of crc16 number bytes))
  read_frame-hears s rest =
      read_block-hears s (frame_of crc16 number bytes) rest (size + 4) length-frame_of

write-fits :
    (self : BufferSink) (b : ℕ) (bs : List ℕ)
    → length self.output + length (b ∷ bs) ≤ self.capacity
    → write self (b ∷ bs) ≡ some (record self { output = self.output ++ b ∷ bs }, suc (length bs))
unfolding write
write-fits self b bs h =
    let count : min (suc (length bs)) (remaining self) ≡ suc (length bs) = omega arith in
    rw count (ground (arith, take_all bs (length bs)))

drop_all : (xs : List ℕ) → drop (length xs) xs ≡ []
drop_all [] = refl
drop_all (x ∷ xs) = drop_all xs

-- A write that fits
pub write_all-fits :
    (self : BufferSink) (bytes : List ℕ)
    → length self.output + length bytes ≤ self.capacity
    → write_all (suc (length bytes)) self bytes
      ≡ (record self { output = self.output ++ bytes }, true)
unfolding write_all
write_all-fits self [] h = rw (append-nil self.output)
write_all-fits self (b ∷ bs) h = ground (arith, write-fits self b bs h, drop_all bs)

pub take_within : (xs ys : List ℕ) (n : ℕ) → n ≤ length xs → take n (xs ++ ys) ≡ take n xs
take_within xs ys zero h = refl
take_within [] ys (suc n) h = absurd (omega arith)
take_within (x ∷ xs) ys (suc n) h = ap (λ zs. x ∷ zs) (take_within xs ys n (omega arith))
