-- ===== src/Relay/RoundTrip.antt =====
-- Round trip of the relay envelope of microtun-core/src/relay.rs.
use microtun.Prelude.Partial.{get_range, get_range-prefix, get_range-cases, get_range-suffix}
use mathlib.Core.List.{append_assoc}
use microtun.Prelude.{
  ℕ, zero, suc, ◌+◌, ◌/◌, ◌%◌, ◌^◌, ◌<◌, ◌-◌, ◌≡◌, ◌≢◌, refl, ap, sym, ◌∙◌, true, false, none, some,
  List, ◌++◌, arith, length, get_elem?, get_or, drop, replicate, length-append, drop-append,
  lengths, get_elem?-append,
}
use microtun.Messages.{classify, relay_data}
use microtun.Relay.{
  envelope_header_len, align_down, le32, from_le32, write_header, Envelope, inner_plausible,
  any_nonzero, parse,
}

-- The zero padding of a transport plaintext up to a multiple of 16.
abbrev pub padding : ℕ → List ℕ
padding len = replicate (align_down (len + 15) - len) 0

-- An envelope as the sender lays it out.
pub encode : List ℕ → List ℕ → List ℕ
encode destination inner =
    destination ++ (le32 (length inner) ++ (inner ++ padding (envelope_header_len + length inner)))

replicate_zero : (n : ℕ) → any_nonzero (replicate n 0) ≡ false
unfolding any_nonzero
replicate_zero zero = refl
replicate_zero (suc n) = ground (arith, replicate_zero n)

padding-zero : (len : ℕ) → any_nonzero (padding len) ≡ false
unfolding padding
padding-zero len = replicate_zero (align_down (len + 15) - len)

module _ (destination inner : List ℕ) (key : length destination ≡ 32)
    (fits : length inner < 2 ^ 32) where
  abbrev tail : List ℕ
  tail = inner ++ padding (envelope_header_len + length inner)

  key_bytes : get_range (encode destination inner) 0 32 ≡ some destination
  unfolding encode
  key_bytes = get_range-prefix destination (le32 (length inner) ++ tail) 32 key

  length_byte :
      (i b : ℕ)
      → get_elem? (le32 (length inner) ++ tail) i ≡ some b
      → get_elem? (encode destination inner) (32 + i) ≡ some b
  unfolding encode
  length_byte i b h =
      get_elem?-append destination (le32 (length inner) ++ tail) 32 i (32 + i) key refl ∙ h

  after_header : drop envelope_header_len (encode destination inner) ≡ tail
  unfolding encode
  after_header =
      ap (drop envelope_header_len) (sym (append_assoc destination (le32 (length inner)) tail))
      ∙ drop-append (destination ++ le32 (length inner)) tail envelope_header_len
          (omega (arith, length-append {0} destination (le32 (length inner))))

  length-encode :
      length (encode destination inner) ≡ align_down (envelope_header_len + length inner + 15)
  unfolding encode padding
  length-encode = simp lengths (omega arith)

  -- A sender's envelope parses to its parts, whatever zero padding the transport adds.
  pub parse-encode :
      inner_plausible inner ≡ true
      → parse (encode destination inner)
        ≡ some (record { destination = destination; inner = inner })
  unfolding parse
  parse-encode p =
      let n = length inner in
      let bytes : from_le32 (n % 256) (n / 256 % 256) (n / 65536 % 256) (n / 16777216 % 256) ≡ n =
        omega arith in
      rw
        (
          key_bytes,
          length_byte 0 (n % 256) refl,
          length_byte 1 (n / 256 % 256) refl,
          length_byte 2 (n / 65536 % 256) refl,
          length_byte 3 (n / 16777216 % 256) refl,
          after_header,
          length-encode,
          bytes,
        )
        (ground (
          arith,
          get_range-prefix inner (padding (envelope_header_len + n)) n refl,
          get_range-suffix inner (padding (envelope_header_len + n)) n refl,
          padding-zero (envelope_header_len + n),
        ))

  -- For a destination of 32 bytes and an inner datagram shorter than 2^32 bytes that the parser
  -- takes for a plain tunnel datagram (it is classified, as another class than the relay's, and a
  -- transport message's length is a multiple of 16): where the buffer holds the inner datagram
  -- and its zero padding behind the place of a header, what `write_header` makes of it, if it
  -- does not refuse, parses to the destination and the inner datagram.
  pub parse-write_header :
      (space out : List ℕ)
      → length space ≡ envelope_header_len
      → inner_plausible inner ≡ true
      → write_header
          (space ++ (inner ++ padding (envelope_header_len + length inner)))
          destination
          (length inner)
        ≡ some out
      → parse out ≡ some (record { destination = destination; inner = inner })
  unfolding write_header
  parse-write_header space out room p e =
      let written : encode destination inner ≡ out =
        unfold encode in ground (arith, drop-append space tail envelope_header_len room) in
      rw (← written) (parse-encode p)

-- The length field of a plaintext, 0 where it is cut short.
abbrev inner_length : List ℕ → ℕ
inner_length p = from_le32 (get_or p 32 0) (get_or p 33 0) (get_or p 34 0) (get_or p 35 0)

-- What parses is an envelope of the protocol: its plaintext is the shortest multiple of 16 that
-- holds the header and the inner datagram, and the inner datagram is a plain tunnel datagram,
-- never another relay envelope.
pub parse_sound :
    (plaintext : List ℕ) (e : Envelope)
    → parse plaintext ≡ some e
    → (length e.destination ≡ 32)
      × (length plaintext ≡ align_down (envelope_header_len + length e.inner + 15))
      × (classify e.inner ≢ none)
      × (classify e.inner ≢ some relay_data)
unfolding parse
parse_sound plaintext e h = ground (
  arith,
  get_range-cases plaintext 0 32,
  get_range-cases (drop envelope_header_len plaintext) 0 (inner_length plaintext),
)
