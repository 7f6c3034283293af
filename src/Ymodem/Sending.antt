-- ===== src/Ymodem/Sending.antt =====
-- `send` of microtun-ymodem/src/send.rs, on the answers of a receiver that takes every block.
use microtun.Prelude.{
  ℕ, ◌<◌, ◌≡◌, refl, ap, ap₂, ◌∙◌, List, [], ◌∷◌, ◌++◌, arith, length, ◌⊎◌, inl, inr, append_assoc,
}
use microtun.Ymodem.{Config, Metadata, Arrival, soh, eot, ack, nak, crc_request}
use microtun.Ymodem.Send.{
  SendEvent, progress, SendError, Supply, Sender, M, pure, throw, ◌>>=◌, notify, metadata_block,
  wait_for_crc_request, write_line, expect_control, send_packet, send_blocks, end_file, send,
}
use microtun.Ymodem.Wire.{frame_of}
use microtun.Ymodem.Transcript.{wire_blocks, acks}
use microtun.Ymodem.EndToEnd.{zeros, transcript, answers}
use microtun.Ymodem.Answered.{
  bind_ok, notify_lem, reads, reports, send_packet-hears, state, wait_for_crc_request-hears,
}
use microtun.Ymodem.SendBlocks.{send_blocks_lem}

-- The reports of a whole transfer
abbrev pub told : ℕ → List SendEvent
told size = progress 0 size ∷ (reports size size 0 ++ progress size size ∷ [])

all_sent :
    (sent head blocks last : List ℕ)
    → (((((sent ++ head) ++ blocks) ++ eot ∷ []) ++ eot ∷ []) ++ last)
      ≡ sent ++ (head ++ ((blocks ++ eot ∷ eot ∷ []) ++ last))
all_sent sent head blocks last = simp append_assoc

all_told :
    (events : List SendEvent) (first : SendEvent) (middle : List SendEvent) (last : SendEvent)
    → ((events ++ first ∷ []) ++ middle) ++ last ∷ [] ≡ events ++ first ∷ (middle ++ last ∷ [])
all_told events first middle last = simp append_assoc

module _ (crc16 : List ℕ → ℕ) (config : Config) where
  -- Through the end of the batch
  end_file-hears :
      (total : ℕ) (rest : List Arrival) (sent : List ℕ) (source : List Supply)
      (events : List SendEvent)
      → 0 < config.start_retries
      → end_file crc16 config total
          (state (nak ∷ ack ∷ crc_request ∷ ack ∷ []) rest sent source events)
        ≡ (
          state [] rest
              (((sent ++ eot ∷ []) ++ eot ∷ []) ++ (soh ∷ frame_of crc16 0 zeros))
              source
              (events ++ progress total total ∷ []),
          inr tt,
        )
  unfolding end_file write_line expect_control
  end_file-hears total rest sent source events h =
      let sent' = (sent ++ eot ∷ []) ++ eot ∷ [] in
      let block = send_packet crc16 config soh 0 zeros in
      let tell = notify (progress total total) in
      bind_ok (wait_for_crc_request config) (λ u. block >>= λ u. tell)
        (state (crc_request ∷ ack ∷ []) rest sent' source events)
        (wait_for_crc_request-hears config (ack ∷ []) rest sent' source events h)
      ∙ bind_ok block (λ u. tell) (state (ack ∷ []) rest sent' source events)
          (send_packet-hears crc16 config soh 0 zeros [] rest sent' source events)
      ∙ notify_lem (progress total total)
          (state [] rest (sent' ++ (soh ∷ frame_of crc16 0 zeros)) source events)

  -- `send`, after block 0 is made
  abbrev sends : Metadata → SendError ⊎ List ℕ → M ℕ
  sends metadata made = elim made [
    | inl e ↦ throw e
    | inr header ↦ notify (progress 0 metadata.file_size) >>= λ u.
        wait_for_crc_request config >>= λ u. send_packet crc16 config soh 0 header >>= λ u.
        wait_for_crc_request config >>= λ u.
        send_blocks crc16 config metadata.file_size metadata.file_size 1 0 >>= λ u.
        end_file crc16 config metadata.file_size >>= λ u. pure metadata.file_size
  ]

  -- `send` to a receiver that takes every block writes exactly the transcript of the file: block 0, the
  -- blocks of the file, padded and numbered from 1, the two EOT, and the empty block 0. It reports the
  -- progress of each block, has read the source to its end, and ends with the size of the file. The
  -- metadata fits block 0, the source gives each block in one read, and a timeout is allowed at least.
  pub send_writes :
      (name header file sent : List ℕ) (rest : List Arrival) (events : List SendEvent)
      → (let metadata : Metadata = record { filename = name; file_size = length file } in
          metadata_block metadata ≡ inr header
          → 0 < config.start_retries
          → send crc16 config metadata (
              state
                (answers (length file))
                rest
                sent
                (reads (length file) (length file) 0 file)
                events)
            ≡ (
              state [] rest
                  (sent ++ transcript crc16 header file)
                  []
                  (events ++ told (length file)),
              inr (length file),
            ))
  unfolding send
  send_writes name header file sent rest events made h =
      let size = length file in
      let metadata : Metadata = record { filename = name; file_size = length file } in
      let ends = nak ∷ ack ∷ crc_request ∷ ack ∷ [] in
      let bytes = acks size size 0 ++ ends in
      let source = reads size size 0 file in
      let ready = wait_for_crc_request config in
      let last : M ℕ = end_file crc16 config size >>= λ u. pure size in
      let blocks : M ℕ = send_blocks crc16 config size size 1 0 >>= λ u. last in
      let second : M ℕ = ready >>= λ u. blocks in
      let packet : M ℕ = send_packet crc16 config soh 0 header >>= λ u. second in
      let head = soh ∷ frame_of crc16 0 header in
      let wire = wire_blocks crc16 size size 1 0 file in
      let events' = events ++ progress 0 size ∷ [] in
      let sent1 = sent ++ head in
      let sent2 = sent1 ++ wire in
      let events2 = events' ++ reports size size 0 in
      ap (λ r. sends metadata r (state (answers size) rest sent source events)) made
      ∙ bind_ok (notify (progress 0 size)) (λ u. ready >>= λ u. packet)
          (state (answers size) rest sent source events)
          (notify_lem (progress 0 size) (state (answers size) rest sent source events))
      ∙ ap
          (λ xs.
            (ready >>= λ u. packet)
              (state (crc_request ∷ ack ∷ crc_request ∷ xs) rest sent source events'))
          (append_assoc (acks size size 0) (nak ∷ ack ∷ crc_request ∷ []) (ack ∷ []))
      ∙ bind_ok ready (λ u. packet)
          (state (crc_request ∷ ack ∷ crc_request ∷ bytes) rest sent source events')
          (wait_for_crc_request-hears config (ack ∷ crc_request ∷ bytes) rest sent source events' h)
      ∙ bind_ok (send_packet crc16 config soh 0 header) (λ u. second)
          (state (ack ∷ crc_request ∷ bytes) rest sent source events')
          (send_packet-hears crc16 config soh 0 header (crc_request ∷ bytes) rest sent source
            events')
      ∙ bind_ok ready (λ u. blocks) (state (crc_request ∷ bytes) rest sent1 source events')
          (wait_for_crc_request-hears config bytes rest sent1 source events' h)
      ∙ bind_ok (send_blocks crc16 config size size 1 0) (λ u. last)
          (state bytes rest sent1 source events')
          (send_blocks_lem crc16 config size file refl size 1 0 ends rest sent1 events'
            (omega arith) (omega arith))
      ∙ bind_ok (end_file crc16 config size) (λ u. pure size) (state ends rest sent2 [] events2)
          (end_file-hears size rest sent2 [] events2 h)
      ∙ ap₂ {C = Sender × (SendError ⊎ ℕ)} (λ xs ys. (state [] rest xs [] ys, inr size))
          (all_sent sent head wire (soh ∷ frame_of crc16 0 zeros))
          (all_told events (progress 0 size) (reports size size 0) (progress size size))
