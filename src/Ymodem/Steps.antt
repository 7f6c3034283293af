-- ===== src/Ymodem/Steps.antt =====
-- What each round of `receive_with` of microtun-ymodem/src/receive.rs makes of what `send` of send.rs
-- writes for it.
use microtun.Prelude.{
  ℕ, ◌+◌, ◌-◌, ◌/◌, ◌%◌, ◌≤◌, ◌<◌, ◌≡◌, refl, ap, ◌∙◌, Bool, true, false, some, List, [], ◌∷◌, ◌++◌,
  arith, leb, length, inl, inr, min, take, drop, ◌==◌,
}
use microtun.Ymodem.{
  Config, Metadata, Arrival, arrived, block_size, soh, stx, eot, ack, nak, crc_request,
  parse_metadata, header_block_len, block_len, is_empty_header,
}
use microtun.Ymodem.Receive.{Receiver, next_byte, read_frame, send, control_of, progress}
use microtun.Ymodem.Rounds.{
  accept_metadata, header_block, header_round, write_block, data_block, second_eot, end_of_file,
  data_round, final_block, final_round,
}
use microtun.Ymodem.Wire.{
  frame_of, hears, heard, bind_ok, payload-frame_of, valid_frame-frame_of, read_frame-hears,
  write_all-fits, take_within,
}

-- The receiver when it has sent more
abbrev pub says : Receiver → List ℕ → Receiver
says s bytes = record s { sent = s.sent ++ bytes }

-- The receiver when its sink has more
abbrev pub gains : Receiver → List ℕ → Receiver
gains s bytes = record s { sink = record s.sink { output = s.sink.output ++ bytes } }

module _ (crc16 : List ℕ → ℕ) (config : Config) where
  header_block_lem :
      (accepts : Metadata → Bool) (retries : ℕ) (header : List ℕ) (metadata : Metadata)
      (s : Receiver)
      → length header ≡ header_block_len
      → parse_metadata header ≡ some metadata
      → accepts metadata ≡ true
      → header_block crc16 config accepts retries header_block_len (frame_of crc16 0 header) s
        ≡ (says (says s (ack ∷ [])) (crc_request ∷ []), inr (inr metadata.file_size))
  unfolding header_block accept_metadata
  header_block_lem accepts retries header metadata s h parsed ok =
      let parsed' =
        ap parse_metadata (payload-frame_of crc16 0 header header_block_len h) ∙ parsed in
      rw (valid_frame-frame_of crc16 0 header header_block_len h) (rw parsed' (rw ok refl))

  pub header_round-hears :
      (accepts : Metadata → Bool) (header : List ℕ) (metadata : Metadata) (s : Receiver)
      (rest : List Arrival)
      → length header ≡ header_block_len
      → parse_metadata header ≡ some metadata
      → accepts metadata ≡ true
      → header_round crc16 config accepts
          (control_of 0 soh)
          (hears s (frame_of crc16 0 header) rest)
        ≡ (says (says (heard s rest) (ack ∷ [])) (crc_request ∷ []), inr (inr metadata.file_size))
  unfolding header_round block_size
  header_round-hears accepts header metadata s rest h parsed ok =
      bind_ok (read_frame header_block_len) (header_block crc16 config accepts 0 header_block_len)
        (hears s (frame_of crc16 0 header) rest)
        (read_frame-hears crc16 0 header header_block_len h s rest)
      ∙ header_block_lem accepts 0 header metadata (heard s rest) h parsed ok

  pub final_round-hears :
      (zeros : List ℕ) (s : Receiver) (rest : List Arrival)
      → length zeros ≡ header_block_len
      → is_empty_header zeros ≡ true
      → final_round crc16 config (control_of 0 soh) (hears s (frame_of crc16 0 zeros) rest)
        ≡ (says (heard s rest) (ack ∷ []), inr (inr tt))
  unfolding final_round block_size final_block send
  final_round-hears zeros s rest h e =
      let e' = ap is_empty_header (payload-frame_of crc16 0 zeros header_block_len h) ∙ e in
      bind_ok (read_frame header_block_len) (final_block crc16 config 0 header_block_len)
        (hears s (frame_of crc16 0 zeros) rest)
        (read_frame-hears crc16 0 zeros header_block_len h s rest)
      ∙ rw (valid_frame-frame_of crc16 0 zeros header_block_len h) (rw e' refl)

  pub end_of_file-hears :
      (size number retries : ℕ) (s : Receiver) (rest : List Arrival)
      → data_round crc16 config size
          (progress number size retries eot)
          (heard s (arrived eot ∷ rest))
        ≡ (says (says (says (heard s rest) (nak ∷ [])) (ack ∷ [])) (crc_request ∷ []), inr (inr tt))
  unfolding data_round end_of_file second_eot send next_byte
  end_of_file-hears size number retries s rest =
      let same : (size == size) ≡ true = ground arith in rw same refl

  module _ (size number done : ℕ) (block : List ℕ) (s : Receiver)
      (h : length block ≡ block_len) where
    abbrev pub count : ℕ
    count = min (size - done) block_len

    -- The bytes of a block that are the file's
    abbrev pub part : List ℕ
    part = take count block

    write_block_lem :
        (control : ℕ) (rest : List Arrival)
        → done < size
        → length s.sink.output + length part ≤ s.sink.capacity
        → write_block crc16 config size
            (progress number done 0 stx)
            block_len
            (frame_of crc16 number block)
            (heard s (arrived control ∷ rest))
          ≡ (
            says (gains (heard s rest) part) (ack ∷ []),
            inr (inl (progress ((number + 1) % 256) (done + count) 0 control)),
          )
    unfolding write_block send next_byte
    write_block_lem control rest less fits =
        let bytes : take count (drop 2 (frame_of crc16 number block)) ≡ part =
          take_within block (crc16 block / 256 ∷ crc16 block % 256 ∷ []) count (omega (arith, h)) in
        let more : leb size done ≡ false = ground arith in
        rw more (rw bytes (rw (write_all-fits s.sink part fits) refl))

    pub data_round-hears :
        (control : ℕ) (rest : List Arrival)
        → done < size
        → length s.sink.output + length part ≤ s.sink.capacity
        → data_round crc16 config size
            (progress number done 0 stx)
            (hears s (frame_of crc16 number block) (arrived control ∷ rest))
          ≡ (
            says (gains (heard s rest) part) (ack ∷ []),
            inr (inl (progress ((number + 1) % 256) (done + count) 0 control)),
          )
    unfolding data_round data_block block_size
    data_round-hears control rest less fits =
        let same : (number == number) ≡ true = ground arith in
        bind_ok (read_frame block_len)
          (data_block crc16 config size (progress number done 0 stx) block_len)
          (hears s (frame_of crc16 number block) (arrived control ∷ rest))
          (read_frame-hears crc16 number block block_len h s (arrived control ∷ rest))
        ∙ rw (valid_frame-frame_of crc16 number block block_len h)
            (rw same (write_block_lem control rest less fits))
