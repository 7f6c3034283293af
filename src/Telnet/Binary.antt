-- ===== src/Telnet/Binary.antt =====
-- microtun-telnet/src/binary.rs: `write_data` and `BinaryMode`, a stream of bytes in binary mode.
use microtun.Prelude.{
  ℕ, suc, ◌-◌, Option, none, some, List, [], ◌∷◌, ◌++◌, ltb, ◌==◌, if◌then◌else◌, length, take,
  drop, ◌⊎◌, inl, inr,
}
use microtun.Telnet.{iac, plain, Telnet}
use microtun.Telnet.Options.{
  binary_mode_enabled, binary_mode_refused, request_binary_mode, disable_binary_mode,
}
use microtun.Telnet.Codec.{feed}

-- `write_data_unflushed`: the bytes written after `written`, at `index` of `bytes` with `rest` ahead.
unfoldable pub write_from : List ℕ → ℕ → ℕ → List ℕ → List ℕ → List ℕ
write_from bytes start index [] written =
    if ltb start (length bytes) then written ++ drop start bytes else written
write_from bytes start index (byte ∷ rest) written =
    let flushed =
      if ltb start index then written ++ take (index - start) (drop start bytes) else written in
    write_from bytes (if byte == iac then suc index else start) (suc index) rest
      (if byte == iac then flushed ++ iac ∷ iac ∷ [] else written)

unfoldable pub write_data_unflushed : List ℕ → List ℕ → List ℕ
unfolding write_from
write_data_unflushed written bytes = write_from bytes 0 0 bytes written

-- What a read of one byte gives; the end of the list is the end of the stream.
pub data Arrival : Type 0 where
  arrived : ℕ → Arrival
  failed : Arrival

pub data BinaryModeError : Type 0 where
  io_error disconnected refused unexpected_data : BinaryModeError

-- The adapter with its transport: what is to arrive and what it has written.
pub record BinaryMode : Type 0 where
  pub incoming : List Arrival
  pub written : List ℕ
  pub telnet : Telnet
  pub pending : List ℕ

abbrev pub pending_cap : ℕ
pending_cap = 64

-- `feed_binary`
unfoldable pub feed_binary : ℕ → Telnet → ℕ → List ℕ → Telnet × List ℕ × Option ℕ
unfolding feed
feed_binary n self byte reply =
    let (self', reply', event) = feed n self byte reply in
    elim event [ some (plain b) ↦ (self', reply', some b) | _ ↦ (self', reply', none) ]

-- `feed_wire_byte`, whose reply holds 16 bytes; a write to the transport succeeds.
unfoldable pub feed_wire_byte : BinaryMode → ℕ → BinaryMode × Option ℕ
unfolding feed_binary
feed_wire_byte self b =
    let (telnet', reply, payload) = feed_binary 16 self.telnet b [] in
    (record self { telnet = telnet'; written = self.written ++ reply }, payload)

-- One push to the queue of 64 bytes
abbrev pub keep : BinaryMode → Option ℕ → Option BinaryMode
keep self none = some self
keep self (some b) =
    if ltb (length self.pending) pending_cap
    then some (record self { pending = self.pending ++ b ∷ [] })
    else none

abbrev pub Outcome : Type 0
Outcome = BinaryMode × (BinaryModeError ⊎ Unit {0})

-- The tests at the head of the loop of `negotiate`
abbrev pub settled : BinaryMode → Outcome → Outcome
settled self otherwise =
    if binary_mode_enabled self.telnet
    then (self, inr tt)
    else if binary_mode_refused self.telnet
    then (self, inl refused)
    else otherwise

-- The loop of `negotiate`, by what is to arrive
unfoldable pub await_binary : List Arrival → BinaryMode → Outcome
await_binary [] self =
    let self = record self { incoming = [] } in settled self (self, inl disconnected)
await_binary (failed ∷ rest) self =
    settled (record self { incoming = failed ∷ rest })
      (record self { incoming = rest }, inl io_error)
await_binary (arrived b ∷ rest) self =
    settled (record self { incoming = arrived b ∷ rest })
      (let (self', payload) = feed_wire_byte (record self { incoming = rest }) b in
        elim (keep self' payload) [
          | none ↦ (self', inl unexpected_data)
          | some self'' ↦ await_binary rest self''
        ])

-- `negotiate`
unfoldable pub negotiate_binary : BinaryMode → Outcome
unfolding request_binary_mode await_binary
negotiate_binary self =
    let (telnet', request) = request_binary_mode 6 self.telnet [] in
    await_binary self.incoming (record self { telnet = telnet'; written = self.written ++ request })

-- The loop of `read_byte`
unfoldable pub read_wire : List Arrival → BinaryMode → BinaryMode × (BinaryModeError ⊎ ℕ)
read_wire [] self = (record self { incoming = [] }, inl disconnected)
read_wire (failed ∷ rest) self = (record self { incoming = rest }, inl io_error)
read_wire (arrived b ∷ rest) self =
    let (self', payload) = feed_wire_byte (record self { incoming = rest }) b in
    elim payload [ none ↦ read_wire rest self' | some x ↦ (self', inr x) ]

-- `read_byte`, by the queue
unfoldable pub read_pending : List ℕ → BinaryMode → BinaryMode × (BinaryModeError ⊎ ℕ)
unfolding read_wire
read_pending (b ∷ bs) self = (record self { pending = bs }, inr b)
read_pending [] self = read_wire self.incoming self

unfoldable pub read_byte : BinaryMode → BinaryMode × (BinaryModeError ⊎ ℕ)
unfolding read_pending
read_byte self = read_pending self.pending self

-- `write_all`
unfoldable pub write_all : BinaryMode → List ℕ → BinaryMode
unfolding write_data_unflushed
write_all self bytes = record self { written = write_data_unflushed self.written bytes }

-- `request_nvt_mode`, which `finish` and `abort` are
unfoldable pub request_nvt_mode : BinaryMode → BinaryMode
unfolding disable_binary_mode
request_nvt_mode self =
    let (telnet', request) = disable_binary_mode 6 self.telnet [] in
    record self { telnet = telnet'; written = self.written ++ request }
