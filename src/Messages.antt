-- ===== src/Messages.antt =====
-- microtun-core/src/messages.rs: the wire layouts, and the classification of a datagram.
pub mod Layout
use microtun.Prelude.Partial.{◌>>=◌, ◌>>◌, guard}
use microtun.Prelude.{
  ℕ, ◌+◌, ◌≤◌, Bool, true, false, ◌&&◌, Option, none, some, List, [], ◌∷◌, ◌++◌, arith, leb, ◌==◌,
  if◌then◌else◌, length, get_elem?, drop, replicate,
}
use microtun.Constants.{tag_len, timestamp_len, xnonce_len}

abbrev pub msg_initiation : ℕ
msg_initiation = 1

abbrev pub msg_response : ℕ
msg_response = 2

abbrev pub msg_cookie_reply : ℕ
msg_cookie_reply = 3

abbrev pub msg_data : ℕ
msg_data = 4

abbrev pub msg_relay : ℕ
msg_relay = 0xf0

-- The sizes of the wire structs, in bytes, field by field (no padding).
abbrev pub prefix_len : ℕ
prefix_len = 1 + 3

-- prefix, sender, ephemeral, encrypted_static, encrypted_timestamp, mac1, mac2
abbrev pub initiation_len : ℕ
initiation_len = prefix_len + 4 + 32 + (32 + tag_len) + (timestamp_len + tag_len) + 16 + 16

-- prefix, sender, receiver, ephemeral, encrypted_empty, mac1, mac2
abbrev pub response_len : ℕ
response_len = prefix_len + 4 + 4 + 32 + tag_len + 16 + 16

-- prefix, receiver, nonce, encrypted_cookie
abbrev pub cookie_reply_len : ℕ
cookie_reply_len = prefix_len + 4 + xnonce_len + (16 + tag_len)

-- prefix, receiver, counter
abbrev pub data_header_len : ℕ
data_header_len = prefix_len + 4 + 8

abbrev pub data_overhead : ℕ
data_overhead = data_header_len + tag_len

abbrev pub data_min_len : ℕ
data_min_len = data_overhead

-- `type ‖ reserved` over the first bytes of a buffer; `none` is `BufferTooSmall`.
unfoldable pub write_type : List ℕ → ℕ → Option (List ℕ)
write_type buf message_type =
    if leb prefix_len (length buf)
    then some (message_type ∷ 0 ∷ 0 ∷ 0 ∷ drop prefix_len buf)
    else none

pub data Message : Type 0 where
  initiation response cookie_reply data_message relay_data : Message

-- The class of a datagram of the given type byte and length.
pub by_type : ℕ → ℕ → Option Message
by_type message_type len =
    if (message_type == msg_initiation) && (len == initiation_len)
    then some initiation
    else if (message_type == msg_response) && (len == response_len)
    then some response
    else if (message_type == msg_cookie_reply) && (len == cookie_reply_len)
    then some cookie_reply
    else if (message_type == msg_data) && leb data_min_len len
    then some data_message
    else if (message_type == msg_relay) && leb data_min_len len
    then some relay_data
    else none

unfoldable pub classify : List ℕ → Option Message
unfolding by_type
classify buf = do
  message_type ← get_elem? buf 0
  r0 ← get_elem? buf 1
  r1 ← get_elem? buf 2
  r2 ← get_elem? buf 3
  guard ((r0 == 0) && (r1 == 0) && (r2 == 0))
  by_type message_type (length buf)
