-- ===== src/Ymodem/Send.antt =====
-- microtun-ymodem/src/send.rs: `send`, over what the receiver answers and what the source gives.
use microtun.Prelude.{
  ℕ, zero, suc, ◌+◌, ◌-◌, ◌/◌, ◌%◌, Bool, false, ◌||◌, List, [], ◌∷◌, ◌++◌, leb, ltb, ◌==◌,
  if◌then◌else◌, length, take, drop, replicate, min, sat_add8, ◌⊎◌, inl, inr,
}
use microtun.Ymodem.{
  header_block_len, block_len, soh, stx, eot, ack, nak, can, crc_request, pad, Config, Metadata,
  Arrival, arrived, interrupted, timed_out, failed,
}

pub data SendEvent : Type 0 where
  output : ℕ → SendEvent
  progress : ℕ → ℕ → SendEvent

pub data SendError : Type 0 where
  io timeout end_of_stream cancelled protocol invalid_filename header_too_long unexpected_eof
        invalid_source_read source_error :
      SendError

-- What a read of the source gives; an empty read and the end of the list are the end of the source.
pub data Supply : Type 0 where
  gave : List ℕ → Supply
  broken : Supply

pub record Sender : Type 0 where
  pub incoming : List Arrival
  pub sent : List ℕ
  pub source : List Supply
  pub events : List SendEvent

abbrev pub M : Type 0 → Type 0
M A = Sender → Sender × (SendError ⊎ A)

module _ {A : Type 0} where
  abbrev pub pure : A → M A
  pure a s = (s, inr a)

  abbrev pub throw : SendError → M A
  throw e s = (s, inl e)

infixl 5 ◌>>=◌ ◌>>◌
abbrev pub ◌>>=◌ : {A B : Type 0} → M A → (A → M B) → M B
◌>>=◌ m f s = let (s', r) = m s in elim r [ inl e ↦ (s', inl e) | inr a ↦ f a s' ]

abbrev pub ◌>>◌ : {A B : Type 0} → M A → M B → M B
m >> k = m >>= λ _. k

-- `notify`, which `send` never lets fail
unfoldable pub notify : SendEvent → M (Unit {0})
notify event s = (record s { events = s.events ++ event ∷ [] }, inr tt)

-- The loop of `decimal_bytes`, before the digits that are there; a `usize` has at most 20.
unfoldable pub decimal_before : ℕ → ℕ → List ℕ → List ℕ
decimal_before zero value digits = digits
decimal_before (suc fuel) value digits =
    let digits' = (b'0' + value % 10) ∷ digits in
    let more = decimal_before fuel (value / 10) digits' in if value / 10 == 0 then digits' else more

unfoldable pub decimal_bytes : ℕ → List ℕ
unfolding decimal_before
decimal_bytes value = decimal_before 20 value []

-- `block[at..at + bytes.len()].copy_from_slice(bytes)`
abbrev pub overwrite : List ℕ → ℕ → List ℕ → List ℕ
overwrite block at bytes = take at block ++ (bytes ++ drop (at + length bytes) block)

abbrev pub has_nul : List ℕ → Bool
has_nul [] = false
has_nul (b ∷ bs) = (b == 0) || has_nul bs

unfoldable pub metadata_block : Metadata → SendError ⊎ List ℕ
metadata_block metadata =
    let name = metadata.filename in
    let size = decimal_bytes metadata.file_size in
    if (length name == 0) || has_nul name
    then inl invalid_filename
    else if ltb header_block_len (length name + 1 + length size + 1)
    then inl header_too_long
    else inr (overwrite (overwrite (replicate header_block_len 0) 0 name) (length name + 1) size)

-- The loop of `wait_for_crc_request`, by what is to arrive
unfoldable pub wait_from : Config → ℕ → List Arrival → M (Unit {0})
unfolding notify
wait_from config timeouts [] s = (record s { incoming = [] }, inl end_of_stream)
wait_from config timeouts (arrived b ∷ rest) s =
    let s' = record s { incoming = rest } in
    let noted = (notify (output b) s').0 in
    let more = wait_from config timeouts rest noted in
    if b == crc_request then (s', inr tt) else if b == can then (s', inl cancelled) else more
wait_from config timeouts (interrupted ∷ rest) s = wait_from config timeouts rest s
wait_from config timeouts (timed_out ∷ rest) s =
    let timeouts' = sat_add8 timeouts 1 in
    let more = wait_from config timeouts' rest s in
    if leb config.start_retries timeouts' then (record s { incoming = rest }, inl timeout) else more
wait_from config timeouts (failed ∷ rest) s = (record s { incoming = rest }, inl io)

unfoldable pub wait_for_crc_request : Config → M (Unit {0})
unfolding wait_from
wait_for_crc_request config s =
    if config.start_retries == 0 then (s, inl timeout) else wait_from config 0 s.incoming s

-- A write to the line, which succeeds
unfoldable pub write_line : List ℕ → M (Unit {0})
write_line bytes s = (record s { sent = s.sent ++ bytes }, inr tt)

-- The loop of `send_packet` after a write of the packet, by what is to arrive
unfoldable pub await_ack : Config → List ℕ → ℕ → List Arrival → M (Unit {0})
unfolding write_line
await_ack config packet retries [] s = (record s { incoming = [] }, inl end_of_stream)
await_ack config packet retries (arrived b ∷ rest) s =
    let s' = record s { incoming = rest } in
    let again = await_ack config packet (sat_add8 retries 1) rest (write_line packet s').0 in
    if b == ack
    then (s', inr tt)
    else if b == nak
    then if leb config.max_retries retries then (s', inl protocol) else again
    else if b == can
    then (s', inl cancelled)
    else (s', inl protocol)
await_ack config packet retries (interrupted ∷ rest) s = await_ack config packet retries rest s
await_ack config packet retries (timed_out ∷ rest) s =
    let s' = record s { incoming = rest } in
    let again = await_ack config packet (sat_add8 retries 1) rest (write_line packet s').0 in
    if leb config.max_retries retries then (s', inl timeout) else again
await_ack config packet retries (failed ∷ rest) s = (record s { incoming = rest }, inl io)

-- `expect_control`, by what is to arrive
unfoldable pub expect_from : ℕ → List Arrival → M (Unit {0})
expect_from expected [] s = (record s { incoming = [] }, inl end_of_stream)
expect_from expected (arrived b ∷ rest) s =
    let s' = record s { incoming = rest } in
    if b == expected
    then (s', inr tt)
    else if b == can
    then (s', inl cancelled)
    else (s', inl protocol)
expect_from expected (interrupted ∷ rest) s = expect_from expected rest s
expect_from expected (timed_out ∷ rest) s = (record s { incoming = rest }, inl timeout)
expect_from expected (failed ∷ rest) s = (record s { incoming = rest }, inl io)

unfoldable pub expect_control : ℕ → M (Unit {0})
unfolding expect_from
expect_control expected s = expect_from expected s.incoming s

-- The loop that fills a block, with room for `wanted` bytes more
unfoldable pub fill : ℕ → List ℕ → List Supply → M (List ℕ)
fill zero block supplies s = (record s { source = supplies }, inr block)
fill (suc wanted) block [] s = (record s { source = [] }, inl unexpected_eof)
fill (suc wanted) block (broken ∷ rest) s = (record s { source = rest }, inl source_error)
fill (suc wanted) block (gave bytes ∷ rest) s =
    let more = fill (suc wanted - length bytes) (block ++ bytes) rest s in
    if length bytes == 0
    then (record s { source = rest }, inl unexpected_eof)
    else if ltb (suc wanted) (length bytes)
    then (record s { source = rest }, inl invalid_source_read)
    else more

module _ (crc16 : List ℕ → ℕ) (config : Config) where
  -- The bytes of a packet: the control byte, the number and its complement, the bytes, the checksum
  unfoldable pub packet_bytes : ℕ → ℕ → List ℕ → List ℕ
  packet_bytes control number bytes =
      control ∷ number ∷ (255 - number) ∷ bytes ++ (crc16 bytes / 256 ∷ crc16 bytes % 256 ∷ [])

  unfoldable pub send_packet : ℕ → ℕ → List ℕ → M (Unit {0})
  unfolding packet_bytes write_line await_ack
  send_packet control number bytes s =
      let s' = (write_line (packet_bytes control number bytes) s).0 in
      await_ack config (packet_bytes control number bytes) 0 s'.incoming s'

  -- The loop over the file, of at most `fuel` blocks
  unfoldable pub send_blocks : ℕ → ℕ → ℕ → ℕ → M (Unit {0})
  unfolding fill send_packet notify
  send_blocks zero total number done s = (s, inr tt)
  send_blocks (suc fuel) total number done s =
      let wanted = min (total - done) block_len in
      if leb total done
      then (s, inr tt)
      else (do
        bytes ← (λ s. fill wanted [] s.source s)
        send_packet stx number (bytes ++ replicate (block_len - wanted) pad)
        notify (progress (done + wanted) total)
        send_blocks fuel total ((number + 1) % 256) (done + wanted))
          s

  unfoldable pub end_file : ℕ → M (Unit {0})
  unfolding write_line expect_control wait_for_crc_request send_packet notify
  end_file total = do
    write_line (eot ∷ [])
    expect_control nak
    write_line (eot ∷ [])
    expect_control ack
    wait_for_crc_request config
    send_packet soh 0 (replicate header_block_len 0)
    notify (progress total total)

  -- `send`, of a file of `file_size` bytes: that many blocks are enough.
  unfoldable pub send : Metadata → M ℕ
  unfolding metadata_block notify wait_for_crc_request send_packet send_blocks end_file
  send metadata = elim (metadata_block metadata) [
    | inl e ↦ throw e
    | inr header ↦ (do
      notify (progress 0 metadata.file_size)
      wait_for_crc_request config
      send_packet soh 0 header
      wait_for_crc_request config
      send_blocks metadata.file_size metadata.file_size 1 0
      end_file metadata.file_size
      pure metadata.file_size)
  ]
