-- ===== src/Ymodem.antt =====
-- microtun-ymodem/src: the blocks of YMODEM, and what the receiver reads and writes. The checksum of
-- the `crc` crate is a parameter.
mod Tests
pub mod Receive
pub mod Rounds
pub mod Triples
pub mod Arrivals
pub mod Looping
pub mod Taken
pub mod Send
pub mod Names
pub mod Wire
pub mod Steps
pub mod Transcript
pub mod Delivery
pub mod EndToEnd
pub mod Answered
pub mod SendBlocks
pub mod Sending
pub mod Headers
pub mod Sinks
pub mod Blocks
pub mod Integrity
pub mod Noise
use microtun.Prelude.{
  ℕ, zero, suc, ◌+◌, ◌-◌, ◌*◌, ◌/◌, ◌%◌, ◌≤◌, Bool, true, false, ◌&&◌, ◌||◌, not, Option, none,
  some, List, [], ◌∷◌, ◌++◌, leb, ltb, ◌==◌, if◌then◌else◌, length, get_or, take, drop, replicate,
  min, u64_max, ◌⊎◌, inl, inr,
}
use microtun.Prelude.Partial.{◌>>=◌, ◌>>◌, guard, be16}

abbrev pub block_len : ℕ
block_len = 1024

abbrev pub header_block_len : ℕ
header_block_len = 128

abbrev pub soh : ℕ
soh = 1

abbrev pub stx : ℕ
stx = 2

abbrev pub eot : ℕ
eot = 4

abbrev pub ack : ℕ
ack = 6

abbrev pub nak : ℕ
nak = 21

abbrev pub can : ℕ
can = 24

abbrev pub crc_request : ℕ
crc_request = b'C'

abbrev pub pad : ℕ
pad = 26

pub record Config : Type 0 where
  pub start_retries : ℕ
  pub max_retries : ℕ

pub record Metadata : Type 0 where
  pub filename : List ℕ
  pub file_size : ℕ

unfoldable pub block_size : ℕ → Option ℕ
block_size control =
    if control == soh
    then some header_block_len
    else if control == stx
    then some block_len
    else none

-- What a read of one byte gives; the end of the list is the end of the stream.
pub data Arrival : Type 0 where
  arrived : ℕ → Arrival
  interrupted timed_out failed : Arrival

pub data ReadByteError : Type 0 where
  io timeout eof : ReadByteError

unfoldable pub read_byte : List Arrival → List Arrival × (ReadByteError ⊎ ℕ)
read_byte [] = ([], inl eof)
read_byte (arrived b ∷ rest) = (rest, inr b)
read_byte (interrupted ∷ rest) = read_byte rest
read_byte (timed_out ∷ rest) = (rest, inl timeout)
read_byte (failed ∷ rest) = (rest, inl io)

-- `BufferSink`: the length of the caller's buffer and the bytes written to it.
pub record BufferSink : Type 0 where
  pub capacity : ℕ
  pub output : List ℕ

abbrev pub remaining : BufferSink → ℕ
remaining self = self.capacity - length self.output

-- `BufferSink::write`: `none` is `Overflow`.
unfoldable pub write : BufferSink → List ℕ → Option (BufferSink × ℕ)
write self [] = some (self, 0)
write self (b ∷ bs) =
    let count = min (length (b ∷ bs)) (remaining self) in
    if count == 0
    then none
    else some (record self { output = self.output ++ take count (b ∷ bs) }, count)

-- `output.write_all(..)`, which the trait documents as calls of `write` until nothing is left. Each
-- takes a byte at least.
unfoldable pub write_all : ℕ → BufferSink → List ℕ → BufferSink × Bool
write_all zero self bytes = (self, true)
write_all (suc fuel) self [] = (self, true)
write_all (suc fuel) self (b ∷ bs) = elim (write self (b ∷ bs)) [
  | none ↦ (self, false)
  | some (self', count) ↦ write_all fuel self' (drop count (b ∷ bs))
]

-- `valid_frame`, of a frame of the block's number, its complement, the bytes and the checksum
unfoldable pub valid_frame : (List ℕ → ℕ) → List ℕ → ℕ → Bool
valid_frame crc16 frame size =
    (get_or frame 1 0 == 255 - get_or frame 0 0)
    && (be16 (get_or frame (2 + size) 0) (get_or frame (3 + size) 0)
        == crc16 (take size (drop 2 frame)))

-- The loop of `decimal_usize`, with the checked operations of `usize`
abbrev pub decimal_from : List ℕ → ℕ → Option ℕ
decimal_from [] value = some value
decimal_from (byte ∷ bytes) value = do
  guard (leb b'0' byte && leb byte b'9')
  guard (leb (value * 10) u64_max)
  guard (leb (value * 10 + (byte - b'0')) u64_max)
  decimal_from bytes (value * 10 + (byte - b'0'))

unfoldable pub decimal_usize : List ℕ → Option ℕ
decimal_usize [] = none
decimal_usize (byte ∷ bytes) = decimal_from (byte ∷ bytes) 0

-- The bytes before the first that passes the test, and those from it on
abbrev pub span : (ℕ → Bool) → List ℕ → List ℕ × List ℕ
span test [] = ([], [])
span test (b ∷ bs) = if test b then ([], b ∷ bs) else (b ∷ (span test bs).0, (span test bs).1)

-- `parse_metadata`, by the name and what follows it
abbrev pub parse_size : List ℕ → List ℕ → Option Metadata
parse_size filename [] = none
parse_size [] (b ∷ rest) = none
parse_size (c ∷ filename) (b ∷ rest) = do
  file_size ← decimal_usize (span (λ b. (b == 0) || (b == b' ')) rest).0
  some (record { filename = c ∷ filename; file_size = file_size })

unfoldable pub parse_metadata : List ℕ → Option Metadata
unfolding decimal_usize
parse_metadata bytes = let (filename, rest) = span (λ b. b == 0) bytes in parse_size filename rest

unfoldable pub is_empty_header : List ℕ → Bool
is_empty_header [] = false
is_empty_header (b ∷ bs) = b == 0
