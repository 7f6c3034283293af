-- ===== src/Relay.antt =====
-- microtun-core/src/relay.rs: the relay envelope inside a message of type 0xF0.
pub mod RoundTrip
use microtun.Prelude.Partial.{◌>>=◌, ◌>>◌, guard, get_range}
use microtun.Prelude.{
  ℕ, ◌+◌, ◌*◌, ◌/◌, ◌%◌, ◌^◌, ◌≤◌, Bool, true, false, not, ◌&&◌, ◌||◌, Option, none, some, List, [],
  ◌∷◌, ◌++◌, arith, leb, ltb, ◌==◌, if◌then◌else◌, length, get_elem?, take, drop, ◌-◌,
}
use microtun.Messages.{
  Message, initiation, response, cookie_reply, data_message, relay_data, classify, data_overhead,
}

-- destination[32] ‖ inner_len_le[4]
abbrev pub envelope_header_len : ℕ
envelope_header_len = 32 + 4

-- `MAX_UDP_SIZE` of lib.rs.
abbrev pub max_udp_size : ℕ
max_udp_size = 1500

-- `x & !15`
abbrev pub align_down : ℕ → ℕ
align_down x = x / 16 * 16

abbrev pub max_relay_inner_size : ℕ
max_relay_inner_size = align_down (align_down (max_udp_size - data_overhead) - envelope_header_len)

abbrev pub max_relay_inner_ip_size : ℕ
max_relay_inner_ip_size = align_down (max_relay_inner_size - data_overhead)

-- `U32<LittleEndian>`
abbrev pub le32 : ℕ → List ℕ
le32 n = n % 256 ∷ n / 256 % 256 ∷ n / 65536 % 256 ∷ n / 16777216 % 256 ∷ []

abbrev pub from_le32 : ℕ → ℕ → ℕ → ℕ → ℕ
from_le32 b0 b1 b2 b3 = b0 + 256 * b1 + 65536 * b2 + 16777216 * b3

-- `none` where the length does not fit a `u32` or the buffer is too small.
unfoldable pub write_header : List ℕ → List ℕ → ℕ → Option (List ℕ)
write_header buf destination inner_len =
    if ltb inner_len (2 ^ 32) && leb envelope_header_len (length buf)
    then some (destination ++ (le32 inner_len ++ drop envelope_header_len buf))
    else none

pub record Envelope : Type 0 where
  pub destination : List ℕ
  pub inner : List ℕ

unfoldable pub inner_plausible : List ℕ → Bool
inner_plausible inner = elim (classify inner) [
  | none ↦ false
  | some m ↦ elim m [ data_message ↦ length inner % 16 == 0 | relay_data ↦ false | _ ↦ true ]
]

unfoldable pub any_nonzero : List ℕ → Bool
any_nonzero [] = false
any_nonzero (b ∷ bs) = not (b == 0) || any_nonzero bs

-- The two `checked_add` on a 64-bit `usize` cannot fail, since `inner_len` is a `u32`.
unfoldable pub parse : List ℕ → Option Envelope
unfolding inner_plausible
parse plaintext = do
  destination ← get_range plaintext 0 32
  b0 ← get_elem? plaintext 32
  b1 ← get_elem? plaintext 33
  b2 ← get_elem? plaintext 34
  b3 ← get_elem? plaintext 35
  let rest = drop envelope_header_len plaintext
  let inner_len = from_le32 b0 b1 b2 b3
  let unpadded_len = envelope_header_len + inner_len
  guard (length plaintext == align_down (unpadded_len + 15))
  inner ← get_range rest 0 inner_len
  padding ← get_range rest inner_len (length rest)
  guard (not (any_nonzero padding) && inner_plausible inner)
  some (record { destination = destination; inner = inner })
