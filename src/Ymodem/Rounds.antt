-- ===== src/Ymodem/Rounds.antt =====
-- microtun-ymodem/src/receive.rs: the three loops of `receive_with`, a round each.
use microtun.Prelude.{
  ℕ, suc, ◌+◌, ◌-◌, ◌%◌, Bool, ◌&&◌, not, none, some, List, [], ◌∷◌, leb, ◌==◌, if◌then◌else◌,
  length, get_or, take, drop, min, ◌⊎◌, inl, inr,
}
use microtun.Ymodem.{
  eot, ack, nak, can, crc_request, Config, Metadata, block_size, write_all, valid_frame,
  parse_metadata, is_empty_header,
}
use microtun.Ymodem.Receive.{
  cancelled, protocol, output_full, rejected, M, pure, throw, ◌>>=◌, ◌>>◌, send, abort, next_byte,
  read_block, read_frame, payload, refuse, Control, control_of, Progress, progress, loop,
  first_control,
}

module _ (crc16 : List ℕ → ℕ) (config : Config) where
  -- The loop for block 0, by a test of the metadata
  unfoldable pub accept_metadata : (Metadata → Bool) → Metadata → M (Control ⊎ ℕ)
  unfolding send abort
  accept_metadata accepts metadata =
      if accepts metadata
      then (do send (ack ∷ []); send (crc_request ∷ []); pure (inr metadata.file_size))
      else abort rejected

  unfoldable pub refuse_control : {A : Type 0} → ℕ → M (Control ⊎ A)
  unfolding refuse
  refuse_control retries =
      refuse config retries (λ retries control. inl (control_of retries control))

  unfoldable pub header_block : (Metadata → Bool) → ℕ → ℕ → List ℕ → M (Control ⊎ ℕ)
  unfolding accept_metadata refuse_control abort
  header_block accepts retries size frame =
      if valid_frame crc16 frame size && (get_or frame 0 0 == 0)
      then elim (parse_metadata (payload frame size)) [
        | none ↦ abort protocol
        | some metadata ↦ accept_metadata accepts metadata
      ]
      else refuse_control retries

  unfoldable pub header_round : (Metadata → Bool) → Control → M (Control ⊎ ℕ)
  unfolding header_block refuse_control read_block
  header_round accepts self =
      if self.control == can then throw cancelled else elim (block_size self.control) [
        | none ↦ refuse_control self.retries
        | some size ↦ (do frame ← read_frame size; header_block accepts self.retries size frame)
      ]

  -- The loop for the file's blocks, of `file_size` bytes
  unfoldable pub write_block : ℕ → Progress → ℕ → List ℕ → M (Progress ⊎ Unit {0})
  unfolding send abort write_all next_byte
  write_block file_size self size frame s =
      if leb file_size self.written
      then abort protocol s
      else let count = min (file_size - self.written) size in
        let bytes = take count (drop 2 frame) in
        let (sink', fits) = write_all (suc (length bytes)) s.sink bytes in
        let s' = record s { sink = sink' } in
        if fits
        then (do
          send (ack ∷ [])
          control ← next_byte
          pure (inl (progress ((self.expected_block + 1) % 256) (self.written + count) 0 control)))
            s'
        else abort output_full s'

  unfoldable pub refuse_block : Progress → M (Progress ⊎ Unit {0})
  unfolding refuse
  refuse_block self =
      refuse config self.retries
        (λ retries control. inl (progress self.expected_block self.written retries control))

  unfoldable pub data_block : ℕ → Progress → ℕ → List ℕ → M (Progress ⊎ Unit {0})
  unfolding write_block refuse_block send next_byte
  data_block file_size self size frame =
      let block = get_or frame 0 0 in
      if not (valid_frame crc16 frame size)
      then refuse_block self
      else if block == self.expected_block
      then write_block file_size self size frame
      else if block == (self.expected_block + 255) % 256
      then (do send (ack ∷ []); control ← next_byte; pure (inl (record self { control = control })))
      else refuse_block self

  unfoldable pub second_eot : ℕ → M (Progress ⊎ Unit {0})
  unfolding send abort
  second_eot second =
      if second == eot
      then (do send (ack ∷ []); send (crc_request ∷ []); pure (inr tt))
      else abort protocol

  -- EOT: it is refused once, and the second ends the file. The sink has nothing to flush.
  unfoldable pub end_of_file : ℕ → Progress → M (Progress ⊎ Unit {0})
  unfolding second_eot send abort next_byte
  end_of_file file_size self =
      if self.written == file_size
      then (do send (nak ∷ []); second ← next_byte; second_eot second)
      else abort protocol

  unfoldable pub data_round : ℕ → Progress → M (Progress ⊎ Unit {0})
  unfolding data_block end_of_file refuse_block read_block
  data_round file_size self =
      if self.control == can
      then throw cancelled
      else if self.control == eot
      then end_of_file file_size self
      else elim (block_size self.control) [
        | none ↦ refuse_block self
        | some size ↦ (do frame ← read_frame size; data_block file_size self size frame)
      ]

  -- The loop for the empty block 0 that ends the batch
  unfoldable pub final_block : ℕ → ℕ → List ℕ → M (Control ⊎ Unit {0})
  unfolding send refuse_control
  final_block retries size frame =
      if valid_frame crc16 frame size
        && (get_or frame 0 0 == 0)
        && is_empty_header (payload frame size)
      then (do send (ack ∷ []); pure (inr tt))
      else refuse_control retries

  unfoldable pub final_round : Control → M (Control ⊎ Unit {0})
  unfolding final_block refuse_control read_block
  final_round self =
      if self.control == can then throw cancelled else elim (block_size self.control) [
        | none ↦ refuse_control self.retries
        | some size ↦ (do frame ← read_frame size; final_block self.retries size frame)
      ]

  -- `receive_with`, with fuel for each of its loops
  unfoldable pub receive_with : ℕ → (Metadata → Bool) → M ℕ
  unfolding first_control next_byte loop header_round data_round final_round
  receive_with fuel accepts = do
    first ← first_control config.start_retries
    file_size ← loop fuel (header_round accepts) (control_of 0 first)
    control ← next_byte
    loop fuel (data_round file_size) (progress 1 0 0 control)
    last ← next_byte
    loop fuel final_round (control_of 0 last)
    pure file_size
