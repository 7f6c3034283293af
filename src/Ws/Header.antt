-- ===== src/Ws/Header.antt =====
-- What a receiver reads of the frame headers that microtun-ws/src/frame.rs writes.
use microtun.Prelude.{
  ℕ, ◌+◌, ◌/◌, ◌%◌, ◌^◌, ◌≤◌, ◌<◌, ◌≡◌, refl, ◌∙◌, Bool, true, false, Option, none, some, List, [],
  ◌∷◌, ◌++◌, arith, ltb, leb, ◌==◌, if◌then◌else◌, u16_max, take, drop, get_or, length, take-append,
  drop-append, ap₂, Bool-cases, inl, inr,
}
use microtun.Ws.{
  Prefix, known, decode_prefix, extended_len_bytes, decode_len, key_bytes, mask_bit, encode_header,
  be64, from_be64,
}

-- How a receiver reads a header: the prefix, the length, and what is left for the key.
pub record Reads (bytes : List ℕ) (fin : Bool) (opcode len : ℕ) (mask : Option (List ℕ))
    : Type 0 where
  pub prefix : Prefix
  pub decoded : decode_prefix (get_or bytes 0 0) (get_or bytes 1 0) ≡ some prefix
  pub final : prefix.fin ≡ fin
  pub kind : prefix.opcode ≡ opcode
  pub masked : prefix.masked ≡ (mask_bit mask == 0x80)
  pub length_read :
      decode_len prefix.len7 (take (extended_len_bytes prefix.len7) (drop 2 bytes)) ≡ some len
  pub rest : drop (2 + extended_len_bytes prefix.len7) bytes ≡ key_bytes mask

be64_back :
    (n : ℕ)
    → n < 2 ^ 63
    → from_be64
        (n / 2 ^ 56 % 256)
        (n / 2 ^ 48 % 256)
        (n / 2 ^ 40 % 256)
        (n / 2 ^ 32 % 256)
        (n / 2 ^ 24 % 256)
        (n / 2 ^ 16 % 256)
        (n / 2 ^ 8 % 256)
        (n % 256)
      ≡ n
be64_back n h = omega arith

prefix_back :
    (fin : Bool) (opcode b1 : ℕ)
    → known opcode ≡ true
    → decode_prefix (if fin then 0x80 + opcode else opcode) b1
      ≡ some (record { fin = fin; opcode = opcode; masked = b1 / 128 % 2 == 1; len7 = b1 % 128 })
unfolding decode_prefix
prefix_back fin opcode b1 k = ground arith

-- The mask bit and the low seven bits of the second byte come apart.
second_byte :
    (mask : Option (List ℕ)) (n : ℕ)
    → n < 128
    → ((mask_bit mask + n) / 128 % 2 == 1) ≡ (mask_bit mask == 0x80)
second_byte none n h = ground arith
second_byte (some key) n h = ground arith

second_len : (mask : Option (List ℕ)) (n : ℕ) → n < 128 → (mask_bit mask + n) % 128 ≡ n
second_len none n h = omega arith
second_len (some key) n h = omega arith

module _ (fin : Bool) (opcode len : ℕ) (mask : Option (List ℕ)) (k : known opcode ≡ true) where
  abbrev first_byte : ℕ
  first_byte = if fin then 0x80 + opcode else opcode

  assemble :
      (n : ℕ) (extended : List ℕ)
      → n < 128
      → length extended ≡ extended_len_bytes n
      → decode_len n extended ≡ some len
      → Reads (first_byte ∷ (mask_bit mask + n) ∷ (extended ++ key_bytes mask)) fin opcode len mask
  assemble n extended small l d =
      let m = second_byte mask n small in
      let low = second_len mask n small in
      record {
        prefix = record { fin = fin; opcode = opcode; masked = mask_bit mask == 0x80; len7 = n };
        decoded =
            prefix_back fin opcode (mask_bit mask + n) k
            ∙ ap₂ (λ b c. some (record { fin = fin; opcode = opcode; masked = b; len7 = c })) m low;
        final = refl;
        kind = refl;
        masked = refl;
        length_read = rw (take-append extended (key_bytes mask) (extended_len_bytes n) l) d;
        rest =
            drop-append (first_byte ∷ (mask_bit mask + n) ∷ extended) (key_bytes mask)
              (2 + extended_len_bytes n) (omega (arith, l));
      }

  short_Reads : len < 126 → Reads (encode_header fin opcode len mask) fin opcode len mask
  unfolding encode_header
  short_Reads h =
      let e : ltb len 126 ≡ true = ground arith in
      rw (encode_header, e)
        (assemble len [] (omega arith) (unfold extended_len_bytes in ground arith)
          (unfold decode_len in ground arith))

  medium_Reads :
      126 ≤ len → len ≤ u16_max → Reads (encode_header fin opcode len mask) fin opcode len mask
  unfolding encode_header
  medium_Reads h g =
      let e : ltb len 126 ≡ false = ground arith in
      let f : leb len u16_max ≡ true = ground arith in
      rw (encode_header, e, f)
        (assemble 126 (len / 256 ∷ len % 256 ∷ []) (omega arith) (unfold extended_len_bytes in refl)
          (unfold decode_len in ground arith))

  long_Reads :
      u16_max < len → len < 2 ^ 63 → Reads (encode_header fin opcode len mask) fin opcode len mask
  unfolding encode_header
  long_Reads h g =
      let e : ltb len 126 ≡ false = ground arith in
      let f : leb len u16_max ≡ false = ground arith in
      rw (encode_header, e, f)
        (assemble 127 (be64 len) (omega arith) (unfold extended_len_bytes in refl)
          (unfold decode_len in ground (arith, be64_back len g)))

-- A header that is written for an opcode of the protocol, and a length below 2^63, reads back as
-- it was meant: the final bit, the opcode, whether there is a key, the length from as many bytes as
-- the prefix announces, and behind them exactly the bytes of the key.
pub encode_header-Reads :
    (fin : Bool) (opcode len : ℕ) (mask : Option (List ℕ))
    → known opcode ≡ true
    → len < 2 ^ 63
    → Reads (encode_header fin opcode len mask) fin opcode len mask
encode_header-Reads fin opcode len mask k h = elim (Bool-cases (ltb len 126)) [
  | inl b ↦ short_Reads fin opcode len mask k (ground arith)
  | inr b ↦ elim (Bool-cases (leb len u16_max)) [
    | inl c ↦ medium_Reads fin opcode len mask k (ground arith) (ground arith)
    | inr c ↦ long_Reads fin opcode len mask k (ground arith) h
  ]
]
