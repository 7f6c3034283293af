-- ===== src/Ws/Mask.antt =====
-- Masking of payloads, microtun-ws/src/mask.rs.
use microtun.Prelude.Bits.{bit_xor_twice}
use microtun.Prelude.{
  ℕ, suc, ◌+◌, ◌%◌, ◌≡◌, refl, ap, ap₂, ◌∙◌, List, [], ◌∷◌, ◌++◌, arith, length, get_or, bit_xor,
  length-append,
}

-- The loop of `apply`, `at` bytes into the cycle of the four bytes of the key.
pub apply_from : List ℕ → ℕ → List ℕ → List ℕ
apply_from key at [] = []
apply_from key at (byte ∷ payload) =
    bit_xor byte (get_or key (at % 4) 0) ∷ apply_from key (at + 1) payload

pub apply : List ℕ → ℕ → List ℕ → List ℕ × ℕ
apply key offset payload =
    let start = offset % 4 in (apply_from key start payload, (start + length payload) % 4)

apply_from_cycle :
    (key : List ℕ) (i j : ℕ) (payload : List ℕ)
    → i % 4 ≡ j % 4
    → apply_from key i payload ≡ apply_from key j payload
unfolding apply_from
apply_from_cycle key i j [] h = refl
apply_from_cycle key i j (byte ∷ payload) h =
    ap₂ (λ k ds. bit_xor byte (get_or key k 0) ∷ ds) h
      (apply_from_cycle key (i + 1) (j + 1) payload (omega arith))

apply_from-append :
    (key : List ℕ) (at : ℕ) (xs ys : List ℕ)
    → apply_from key at (xs ++ ys) ≡ apply_from key at xs ++ apply_from key (at + length xs) ys
unfolding apply_from
apply_from-append key at [] ys =
    let same : at ≡ at + 0 = omega arith in ap (λ k. apply_from key k ys) same
apply_from-append key at (x ∷ xs) ys =
    let same : at + 1 + length xs ≡ at + suc (length xs) = omega arith in
    ap (λ ds. bit_xor x (get_or key (at % 4) 0) ∷ ds)
      (apply_from-append key (at + 1) xs ys
        ∙ ap (λ k. apply_from key (at + 1) xs ++ apply_from key k ys) same)

-- A payload may be masked piece by piece: masking the first part, and the second from the offset
-- that the first returned, gives the bytes and the offset of masking the whole.
pub apply-append :
    (key : List ℕ) (offset : ℕ) (xs ys : List ℕ)
    → let first = apply key offset xs in
      let second = apply key first.1 ys in
      apply key offset (xs ++ ys) ≡ (first.0 ++ second.0, second.1)
unfolding apply
apply-append key offset xs ys =
    let start = offset % 4 in
    let resumed =
      apply_from_cycle key (start + length xs) ((start + length xs) % 4 % 4) ys (omega arith) in
    ap₂ (λ ds k. (ds, k))
      (apply_from-append key start xs ys ∙ ap (λ ds. apply_from key start xs ++ ds) resumed)
      (omega (arith, length-append {0} xs ys))

apply_from_twice :
    (key : List ℕ) (at : ℕ) (payload : List ℕ)
    → apply_from key at (apply_from key at payload) ≡ payload
unfolding apply_from
apply_from_twice key at [] = refl
apply_from_twice key at (byte ∷ payload) =
    ap₂ (λ b ds. b ∷ ds) (bit_xor_twice byte (get_or key (at % 4) 0))
      (apply_from_twice key (at + 1) payload)

-- Masking twice with the same key and offset restores the payload.
pub apply_twice :
    (key : List ℕ) (offset : ℕ) (payload : List ℕ)
    → (apply key offset (apply key offset payload).0).0 ≡ payload
unfolding apply
apply_twice key offset payload = apply_from_twice key (offset % 4) payload
