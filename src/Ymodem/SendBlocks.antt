-- ===== src/Ymodem/SendBlocks.antt =====
-- The loop of `send` of microtun-ymodem/src/send.rs over the blocks of a file, when each is taken.
use microtun.Prelude.{
  ℕ, zero, suc, ◌+◌, ◌-◌, ◌%◌, ◌≤◌, ◌<◌, ◌≡◌, refl, sym, ap₂, ◌∙◌, true, false, List, [], ◌∷◌, ◌++◌,
  arith, leb, if◌then◌else◌, length, Bool-cases, ◌⊎◌, inl, inr, take, drop, replicate, length-drop,
  length-take, append-nil, append_assoc,
}
use microtun.Ymodem.{Config, Arrival, stx, ack, pad, block_len}
use microtun.Ymodem.Send.{
  SendEvent, progress, SendError, Supply, gave, Sender, M, ◌>>=◌, notify, fill, send_packet,
  send_blocks,
}
use microtun.Ymodem.Wire.{frame_of}
use microtun.Ymodem.Transcript.{acks_more, blocks_more, wanted, block_at, wire_blocks, acks}
use microtun.Ymodem.Answered.{
  bind_ok, fill_lem, notify_lem, reads, reports, send_packet-hears, state,
}

module _ (crc16 : List ℕ → ℕ) (config : Config) where
  module _ (size : ℕ) (file : List ℕ) (h : length file ≡ size) where
    blocks_end :
        (number done : ℕ) (rest : List Arrival) (bytes sent : List ℕ) (source : List Supply)
        (events : List SendEvent)
        → ◌≡◌ {A = Sender × (SendError ⊎ Unit {0})}
            (state bytes rest sent source events, inr tt)
            (state bytes rest (sent ++ []) source (events ++ []), inr tt)
    blocks_end number done rest bytes sent source events =
        ap₂ {C = Sender × (SendError ⊎ Unit {0})} (λ xs ys. (state bytes rest xs source ys, inr tt))
          (sym (append-nil sent)) (sym (append-nil events))

    blocks_step :
        (sent wire : List ℕ) (events : List SendEvent) (block bytes : List ℕ) (rest : List Arrival)
        (event : SendEvent) (later : List SendEvent)
        → ◌≡◌ {A = Sender × (SendError ⊎ Unit {0})}
            (
              state bytes rest ((sent ++ block) ++ wire) [] ((events ++ event ∷ []) ++ later),
              inr tt,
            )
            (state bytes rest (sent ++ (block ++ wire)) [] (events ++ event ∷ later), inr tt)
    blocks_step sent wire events block bytes rest event later =
        ap₂ {C = Sender × (SendError ⊎ Unit {0})} (λ xs ys. (state bytes rest xs [] ys, inr tt))
          (append_assoc sent block wire) (append_assoc events (event ∷ []) later)

    abbrev round : ℕ → ℕ → ℕ → M (Unit {0})
    round fuel number done = (λ s. fill (wanted size done) [] s.source s) >>= λ bytes.
        send_packet crc16 config stx number (bytes ++ replicate (block_len - wanted size done) pad)
        >>= λ u. notify (progress (done + wanted size done) size) >>= λ u.
            send_blocks crc16 config fuel size ((number + 1) % 256) (done + wanted size done)

    send_blocks_unrolled :
        (fuel number done : ℕ) (s : Sender)
        → send_blocks crc16 config (suc fuel) size number done s
          ≡ (if leb size done then (s, inr tt) else round fuel number done s)
    unfolding send_blocks
    send_blocks_unrolled fuel number done s = refl

    module _ (fuel number done : ℕ) (bytes : List ℕ) (rest : List Arrival) (sent : List ℕ)
        (events : List SendEvent) (less : done < size) where
      abbrev block : List ℕ
      block = take (wanted size done) (drop done file)

      abbrev now : ℕ
      now = done + wanted size done

      abbrev later : List Supply
      later = reads fuel size now file

      -- The source before a block
      reads_step : reads (suc fuel) size done file ≡ gave block ∷ later
      unfolding reads
      reads_step = let more : leb size done ≡ false = ground arith in rw more refl

      reports_step : reports (suc fuel) size done ≡ progress now size ∷ reports fuel size now
      unfolding reports
      reports_step = let more : leb size done ≡ false = ground arith in rw more refl

      block_sent :
          send_blocks crc16 config
            (suc fuel)
            size
            number
            done
            (state (ack ∷ bytes) rest sent (gave block ∷ later) events)
          ≡ send_blocks crc16 config fuel size ((number + 1) % 256) now (
              state bytes rest
                (sent ++ (stx ∷ frame_of crc16 number (block_at size done file)))
                later
                (events ++ progress now size ∷ []))
      block_sent =
          let more : leb size done ≡ false = ground arith in
          let s0 = state (ack ∷ bytes) rest sent (gave block ∷ later) events in
          let wire = stx ∷ frame_of crc16 number (block_at size done file) in
          let whole : length block ≡ wanted size done = omega (
            arith,
            length-take {0} (wanted size done) (drop done file),
            length-drop {0} done file,
            h,
          ) in
          let packet = λ (bytes : List ℕ).
            send_packet crc16 config stx number
              (bytes ++ replicate (block_len - wanted size done) pad) in
          let on = send_blocks crc16 config fuel size ((number + 1) % 256) now in
          let tell : M (Unit {0}) = notify (progress now size) >>= λ u. on in
          send_blocks_unrolled fuel number done s0
          ∙ rw more refl
          ∙ bind_ok (λ s. fill (wanted size done) [] s.source s)
              (λ bytes. packet bytes >>= λ u. tell) s0
              (fill_lem (wanted size done) block later s0 whole (omega arith))
          ∙ bind_ok (packet block) (λ u. tell) (state (ack ∷ bytes) rest sent later events)
              (send_packet-hears crc16 config stx number (block_at size done file) bytes rest sent
                later events)
          ∙ bind_ok (notify (progress now size)) (λ u. on)
              (state bytes rest (sent ++ wire) later events)
              (notify_lem (progress now size) (state bytes rest (sent ++ wire) later events))

    send_blocks_end :
        (fuel number done : ℕ) (bytes : List ℕ) (rest : List Arrival) (sent : List ℕ)
        (events : List SendEvent)
        → size ≤ done
        → send_blocks crc16 config fuel size number done
            (state (acks fuel size done ++ bytes) rest sent (reads fuel size done file) events)
          ≡ (
            state bytes rest
                (sent ++ wire_blocks crc16 fuel size number done file)
                []
                (events ++ reports fuel size done),
            inr tt,
          )
    unfolding send_blocks acks reads reports wire_blocks
    send_blocks_end zero number done bytes rest sent events e =
        blocks_end number done rest bytes sent [] events
    send_blocks_end (suc fuel) number done bytes rest sent events e =
        let last : leb size done ≡ true = ground arith in
        rw last (blocks_end number done rest bytes sent [] events)

    pub send_blocks_lem :
        (fuel number done : ℕ) (bytes : List ℕ) (rest : List Arrival) (sent : List ℕ)
        (events : List SendEvent)
        → done ≤ size
        → size ≤ done + fuel
        → send_blocks crc16 config fuel size number done
            (state (acks fuel size done ++ bytes) rest sent (reads fuel size done file) events)
          ≡ (
            state bytes rest
                (sent ++ wire_blocks crc16 fuel size number done file)
                []
                (events ++ reports fuel size done),
            inr tt,
          )
    send_blocks_lem zero number done bytes rest sent events d e =
        send_blocks_end 0 number done bytes rest sent events (omega arith)
    send_blocks_lem (suc fuel) number done bytes rest sent events d e =
        elim (Bool-cases (leb size done)) [
          | inl last ↦ send_blocks_end (suc fuel) number done bytes rest sent events (ground arith)
          | inr more ↦
              let less : done < size = ground arith in
              let now = done + wanted size done in
              let number' = (number + 1) % 256 in
              let block = frame_of crc16 number (block_at size done file) in
              ap₂
                (λ xs ys.
                  send_blocks crc16 config (suc fuel) size number done
                    (state (xs ++ bytes) rest sent ys events))
                (acks_more fuel size done less)
                (reads_step fuel number done bytes rest sent events less)
              ∙ block_sent fuel number done (acks fuel size now ++ bytes) rest sent events less
              ∙ send_blocks_lem fuel number' now bytes rest (sent ++ (stx ∷ block))
                  (events ++ progress now size ∷ []) (omega arith) (omega arith)
              ∙ blocks_step sent (wire_blocks crc16 fuel size number' now file) events (stx ∷ block)
                  bytes rest (progress now size) (reports fuel size now)
              ∙ ap₂ {C = Sender × (SendError ⊎ Unit {0})}
                  (λ xs ys. (state bytes rest (sent ++ xs) [] (events ++ ys), inr tt))
                  (sym (blocks_more fuel size done crc16 number file less))
                  (sym (reports_step fuel number done bytes rest sent events less))
        ]
