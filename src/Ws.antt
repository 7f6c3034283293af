-- ===== src/Ws.antt =====
-- microtun-ws/src/frame.rs: the headers of WebSocket frames. An error, always `Error::Protocol`, is
-- `none`; a mask of a byte is written with division and remainder.
pub mod Header
pub mod Mask
mod Tests
use microtun.Prelude.Partial.{◌>>=◌, ◌>>◌, guard, be16}
use microtun.Prelude.{
  ℕ, suc, ◌+◌, ◌*◌, ◌/◌, ◌%◌, ◌^◌, ◌≤◌, Bool, true, false, ◌||◌, Option, none, some, List, [], ◌∷◌,
  ◌++◌, arith, ltb, leb, ◌==◌, if◌then◌else◌, u16_max,
}

abbrev pub max_control_payload_len : ℕ
max_control_payload_len = 125

abbrev pub continuation : ℕ
continuation = 0x0

abbrev pub text : ℕ
text = 0x1

abbrev pub binary : ℕ
binary = 0x2

abbrev pub close : ℕ
close = 0x8

abbrev pub ping : ℕ
ping = 0x9

abbrev pub pong : ℕ
pong = 0xa

-- `opcode & 0x8 != 0`
abbrev pub is_control : ℕ → Bool
is_control opcode = opcode / 8 % 2 == 1

pub record Prefix : Type 0 where
  pub fin : Bool
  pub opcode : ℕ
  pub masked : Bool
  pub len7 : ℕ

abbrev pub known : ℕ → Bool
known opcode =
    (opcode == continuation)
    || (opcode == text)
    || (opcode == binary)
    || (opcode == close)
    || (opcode == ping)
    || (opcode == pong)

pub decode_prefix : ℕ → ℕ → Option Prefix
decode_prefix b0 b1 = do
  guard (b0 / 16 % 8 == 0)
  let opcode = b0 % 16
  guard (known opcode)
  some (record {
    fin = b0 / 128 % 2 == 1;
    opcode = opcode;
    masked = b1 / 128 % 2 == 1;
    len7 = b1 % 128;
  })

pub extended_len_bytes : ℕ → ℕ
extended_len_bytes len7 = if len7 == 126 then 2 else if len7 == 127 then 8 else 0

-- `u64::to_be_bytes` and `u64::from_be_bytes`
abbrev pub be64 : ℕ → List ℕ
be64 n =
    n / 2 ^ 56 % 256
    ∷ n / 2 ^ 48 % 256
    ∷ n / 2 ^ 40 % 256
    ∷ n / 2 ^ 32 % 256
    ∷ n / 2 ^ 24 % 256
    ∷ n / 2 ^ 16 % 256
    ∷ n / 2 ^ 8 % 256
    ∷ n % 256
    ∷ []

abbrev pub from_be64 : ℕ → ℕ → ℕ → ℕ → ℕ → ℕ → ℕ → ℕ → ℕ
from_be64 b0 b1 b2 b3 b4 b5 b6 b7 =
    b0 * 2 ^ 56
    + b1 * 2 ^ 48
    + b2 * 2 ^ 40
    + b3 * 2 ^ 32
    + b4 * 2 ^ 24
    + b5 * 2 ^ 16
    + b6 * 2 ^ 8
    + b7

pub decode_len16 : List ℕ → Option ℕ
decode_len16 (hi ∷ lo ∷ []) = some (be16 hi lo)
decode_len16 other = none

-- The high bit must be clear.
pub decode_len64 : List ℕ → Option ℕ
decode_len64 (b0 ∷ b1 ∷ b2 ∷ b3 ∷ b4 ∷ b5 ∷ b6 ∷ b7 ∷ []) =
    let len = from_be64 b0 b1 b2 b3 b4 b5 b6 b7 in if ltb len (2 ^ 63) then some len else none
decode_len64 other = none

-- A `usize` of 64 bits holds every length.
pub decode_len : ℕ → List ℕ → Option ℕ
unfolding decode_len16 decode_len64
decode_len len7 extended =
    if len7 == 126
    then decode_len16 extended
    else if len7 == 127
    then decode_len64 extended
    else some len7

-- The masking key, or nothing.
abbrev pub key_bytes : Option (List ℕ) → List ℕ
key_bytes none = []
key_bytes (some key) = key

abbrev pub mask_bit : Option (List ℕ) → ℕ
mask_bit none = 0
mask_bit (some key) = 0x80

-- The second byte and the extended length. Neither `|` meets a bit that is set.
abbrev pub encode_len : ℕ → ℕ → List ℕ
encode_len bit len =
    if ltb len 126
    then (bit + len) ∷ []
    else if leb len u16_max
    then (bit + 126) ∷ (len / 256) ∷ (len % 256) ∷ []
    else (bit + 127) ∷ be64 len

-- The bytes written, as many as the length returned.
pub encode_header : Bool → ℕ → ℕ → Option (List ℕ) → List ℕ
encode_header fin opcode len mask =
    (if fin then 0x80 + opcode else opcode) ∷ (encode_len (mask_bit mask) len ++ key_bytes mask)
