-- ===== src/Ymodem/Names.antt =====
-- Block 0 of microtun-ymodem/src: what send.rs writes, receive.rs reads back.
use microtun.Prelude.{
  ℕ, zero, suc, ◌+◌, ◌-◌, ◌*◌, ◌/◌, ◌%◌, ◌≤◌, ◌<◌, ◌≡◌, refl, sym, ap, ap₂, ◌∙◌, true, false, ◌&&◌,
  ◌||◌, some, List, [], ◌∷◌, ◌++◌, arith, leb, length, Bool-cases, inl, inr, take, drop, replicate,
  take-append, length-append, length-replicate, ◌==◌, u64_max, append_assoc,
}
use microtun.Ymodem.{Metadata, decimal_from, decimal_usize, span, parse_metadata, header_block_len}
use microtun.Ymodem.Send.{decimal_before, decimal_bytes, overwrite, has_nul, metadata_block}

-- A number of at most `fuel` digits
abbrev Fits : ℕ → ℕ → Type 0
Fits zero value = value ≡ 0
Fits (suc fuel) value = Fits fuel (value / 10)

decimal_from_digit :
    (value : ℕ) (rest : List ℕ)
    → value ≤ u64_max
    → decimal_from ((b'0' + value % 10) ∷ rest) (value / 10) ≡ decimal_from rest value
decimal_from_digit value rest small =
    let digit : (leb b'0' (b'0' + value % 10) && leb (b'0' + value % 10) b'9') ≡ true =
      ground arith in
    let tens : leb (value / 10 * 10) u64_max ≡ true = ground arith in
    let whole : value / 10 * 10 + (b'0' + value % 10 - b'0') ≡ value = omega arith in
    let all : leb (value / 10 * 10 + (b'0' + value % 10 - b'0')) u64_max ≡ true = ground arith in
    rw digit (rw tens (rw all (ap (decimal_from rest) whole)))

-- The digits that `decimal_before` puts ahead of `rest`
decimal_from-decimal_before :
    (fuel value : ℕ) (rest : List ℕ)
    → Fits fuel value
    → value ≤ u64_max
    → decimal_from (decimal_before fuel value rest) 0 ≡ decimal_from rest value
unfolding decimal_before
decimal_from-decimal_before zero value rest h small = ap (decimal_from rest) (sym h)
decimal_from-decimal_before (suc fuel) value rest h small =
    let digit = decimal_from_digit value rest small in
    elim (Bool-cases (value / 10 == 0)) [
      | inl e ↦
          let none_left : value / 10 ≡ 0 = ground arith in
          rw e (ap (decimal_from ((b'0' + value % 10) ∷ rest)) (sym none_left) ∙ digit)
      | inr e ↦
          let more =
            decimal_from-decimal_before fuel (value / 10) ((b'0' + value % 10) ∷ rest) h
              (omega arith) in
          rw e (more ∙ digit)
    ]

u64-Fits : (value : ℕ) → value ≤ u64_max → Fits 20 value
u64-Fits value h = omega arith

-- Digits are neither NUL nor space.
abbrev IsDigits : List ℕ → Type 0
IsDigits [] = Unit {0}
IsDigits (b ∷ bs) = (b'0' ≤ b) × IsDigits bs

decimal_before-IsDigits :
    (fuel value : ℕ) (rest : List ℕ) → IsDigits rest → IsDigits (decimal_before fuel value rest)
unfolding decimal_before
decimal_before-IsDigits zero value rest h = h
decimal_before-IsDigits (suc fuel) value rest h = elim (Bool-cases (value / 10 == 0)) [
  | inl e ↦ rw e (omega arith, h)
  | inr e ↦
      rw e (decimal_before-IsDigits fuel (value / 10) ((b'0' + value % 10) ∷ rest) (omega arith, h))
]

decimal_before_some :
    (fuel value : ℕ) (rest : List ℕ)
    → (b : ℕ) × (bs : List ℕ) × (decimal_before (suc fuel) value rest ≡ b ∷ bs)
unfolding decimal_before
decimal_before_some zero value rest = (b'0' + value % 10, rest, ground arith)
decimal_before_some (suc fuel) value rest = elim (Bool-cases (value / 10 == 0)) [
  | inl e ↦ (b'0' + value % 10, rest, rw e refl)
  | inr e ↦ rw e (decimal_before_some fuel (value / 10) ((b'0' + value % 10) ∷ rest))
]

decimal_usize_lem :
    (bytes : List ℕ) {b : ℕ} {bs : List ℕ}
    → bytes ≡ b ∷ bs
    → decimal_usize bytes ≡ decimal_from bytes 0
unfolding decimal_usize
decimal_usize_lem [] e = absurd (cc)
decimal_usize_lem (c ∷ cs) e = refl

pub decimal_usize-decimal_bytes :
    (value : ℕ) → value ≤ u64_max → decimal_usize (decimal_bytes value) ≡ some value
unfolding decimal_bytes
decimal_usize-decimal_bytes value h =
    let (b, bs, e) = decimal_before_some 19 value [] in
    decimal_usize_lem (decimal_before 20 value []) e
    ∙ decimal_from-decimal_before 20 value [] (u64-Fits value h) h

span_size :
    (digits rest : List ℕ)
    → IsDigits digits
    → (span (λ b. (b == 0) || (b == b' ')) (digits ++ 0 ∷ rest)).0 ≡ digits
span_size [] rest h = refl
span_size (b ∷ digits) rest h = ground (arith, span_size digits rest h.1)

span_name :
    (name rest : List ℕ)
    → has_nul name ≡ false
    → span (λ b. b == 0) (name ++ 0 ∷ rest) ≡ (name, 0 ∷ rest)
span_name [] rest h = refl
span_name (b ∷ name) rest h = ground (arith, span_name name rest)

abbrev zeros : ℕ → List ℕ
zeros n = replicate n 0

drop-replicate : (n m : ℕ) → drop m (zeros n) ≡ zeros (n - m)
drop-replicate n zero = let e : n ≡ n - 0 = omega arith in ap zeros e
drop-replicate zero (suc m) = let e : 0 ≡ 0 - suc m = omega arith in ap zeros e
drop-replicate (suc n) (suc m) =
    let e : n - m ≡ suc n - suc m = omega arith in drop-replicate n m ∙ ap zeros e

drop_past : (xs ys : List ℕ) (n k m : ℕ) → length xs ≡ n → m ≡ n + k → drop m (xs ++ ys) ≡ drop k ys
drop_past [] ys n k m h e = let same : m ≡ k = omega arith in ap (λ i. drop i ys) same
drop_past (x ∷ xs) ys zero k m h e = absurd (omega arith)
drop_past (x ∷ xs) ys (suc n) k zero h e = absurd (omega arith)
drop_past (x ∷ xs) ys (suc n) k (suc m) h e = drop_past xs ys n k m (omega arith) (omega arith)

-- The two copies into a block of NULs
overwrite_both :
    (name size : List ℕ) (n : ℕ)
    → length name + 1 + length size ≤ n
    → overwrite (overwrite (zeros n) 0 name) (length name + 1) size
      ≡ name ++ (0 ∷ (size ++ zeros (n - (length name + 1 + length size))))
overwrite_both name size n h =
    let rest = zeros (n - (length name + 1)) in
    let P = name ++ 0 ∷ [] in
    let size_P : length P ≡ length name + 1 = length-append name (0 ∷ []) in
    let k : ℕ = n - (length name + 1) in
    let more : n - length name ≡ suc k = omega arith in
    let left : k - length size ≡ n - (length name + 1 + length size) = omega arith in
    let first : 0 + length name ≡ length name = omega arith in
    let named : overwrite (zeros n) 0 name ≡ P ++ rest =
      ap (λ m. name ++ drop m (zeros n)) first
      ∙ ap (λ xs. name ++ xs) (drop-replicate n (length name))
      ∙ ap (λ m. name ++ zeros m) more
      ∙ sym (append_assoc name (0 ∷ []) rest) in
    let front : take (length name + 1) (P ++ rest) ≡ P =
      take-append P rest (length name + 1) size_P in
    let back : drop (length name + 1 + length size) (P ++ rest)
        ≡ zeros (n - (length name + 1 + length size)) =
      drop_past P rest (length name + 1) (length size) (length name + 1 + length size) size_P refl
      ∙ drop-replicate k (length size)
      ∙ ap zeros left in
    ap (λ b. overwrite b (length name + 1) size) named
    ∙ ap₂ (λ xs ys. xs ++ (size ++ ys)) front back
    ∙ append_assoc name (0 ∷ []) (size ++ zeros (n - (length name + 1 + length size)))

metadata_block_inv :
    (metadata : Metadata) (block : List ℕ)
    → metadata_block metadata ≡ inr block
    → let name = metadata.filename in
      let size = decimal_bytes metadata.file_size in
      (0 < length name)
      × (has_nul name ≡ false)
      × (length name + 1 + length size < header_block_len)
      × (overwrite (overwrite (zeros header_block_len) 0 name) (length name + 1) size ≡ block)
unfolding metadata_block
metadata_block_inv metadata block h = ground arith

parse_metadata_lem :
    (name size tail : List ℕ) (value : ℕ)
    → 0 < length name
    → has_nul name ≡ false
    → IsDigits size
    → decimal_usize size ≡ some value
    → parse_metadata (name ++ (0 ∷ (size ++ 0 ∷ tail)))
      ≡ some (record { filename = name; file_size = value })
unfolding parse_metadata
parse_metadata_lem [] size tail value n h d e = absurd (omega arith)
parse_metadata_lem (c ∷ name) size tail value n h d e =
    rw (span_name (c ∷ name) (size ++ 0 ∷ tail) h) (rw (span_size size tail d) (rw e))

-- A block 0 that `metadata_block` makes has 128 bytes, and `parse_metadata` finds in it the name and
-- the size that it was made for, up to the largest `usize`.
pub parse_metadata-metadata_block :
    (metadata : Metadata) (block : List ℕ)
    → metadata.file_size ≤ u64_max
    → metadata_block metadata ≡ inr block
    → (parse_metadata block ≡ some metadata) × (length block ≡ header_block_len)
parse_metadata-metadata_block metadata block small h =
    let name = metadata.filename in
    let size = decimal_bytes metadata.file_size in
    let (some_name, clean, fits, made) = metadata_block_inv metadata block h in
    let n : ℕ = header_block_len - (length name + 1 + length size) in
    let n_suc : n ≡ suc (n - 1) = omega arith in
    let parts : block ≡ name ++ (0 ∷ (size ++ 0 ∷ zeros (n - 1))) =
      sym made
      ∙ overwrite_both name size header_block_len (omega arith)
      ∙ ap (λ m. name ++ (0 ∷ (size ++ zeros m))) n_suc in
    let digits : IsDigits size =
      unfold decimal_bytes in decimal_before-IsDigits 20 metadata.file_size [] tt in
    (
      ap parse_metadata parts
          ∙ parse_metadata_lem name size (zeros (n - 1)) metadata.file_size some_name clean digits
              (decimal_usize-decimal_bytes metadata.file_size small),
      omega (
        arith,
        ap length parts,
        length-append {0} name (0 ∷ (size ++ 0 ∷ zeros (n - 1))),
        length-append {0} size (0 ∷ zeros (n - 1)),
        length-replicate {0} {A = ℕ} (n - 1) 0,
        fits,
      ),
    )
