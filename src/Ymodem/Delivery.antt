-- ===== src/Ymodem/Delivery.antt =====
-- A file that `send` of microtun-ymodem/src/send.rs writes, received by the loop of receive.rs.
use microtun.Prelude.{
  ℕ, zero, suc, ◌+◌, ◌%◌, ◌≤◌, ◌<◌, ◌≡◌, refl, sym, ap, ap₂, ◌∙◌, List, [], ◌∷◌, ◌++◌, map, arith,
  leb, length, Bool-cases, ◌⊎◌, inl, inr, take, drop, take-append-drop, length-append, length-drop,
  length-take, append-nil, append_assoc,
}
use microtun.Ymodem.{Config, Arrival, arrived, stx, eot, ack, nak, crc_request}
use microtun.Ymodem.Receive.{Receiver, next_byte, Error, M, ◌>>=◌, loop, progress}
use microtun.Ymodem.Rounds.{data_round}
use microtun.Ymodem.Wire.{frame_of, hears, heard}
use microtun.Ymodem.Steps.{says, gains, part, data_round-hears, end_of_file-hears}
use microtun.Ymodem.Transcript.{
  acks_more, acks_done, blocks_more, blocks_done, wanted, block_at, wire_blocks, acks,
  length-block_at, taken, drop_nil, drop-drop, map-append,
}

drop_past_end : (xs : List ℕ) (n : ℕ) → length xs ≤ n → drop n xs ≡ []
drop_past_end [] n h = drop_nil n
drop_past_end (x ∷ xs) zero h = absurd (omega arith)
drop_past_end (x ∷ xs) (suc n) h = drop_past_end xs n (omega arith)

pub loop_again :
    {T A : Type 0} (fuel : ℕ) (body : T → M (T ⊎ A)) (t : T) (s : Receiver) {t' : T} {s' : Receiver}
    → body t s ≡ (s', inr (inl t'))
    → loop (suc fuel) body t s ≡ loop fuel body t' s'
unfolding loop
loop_again {T} {A} fuel body t s h =
    ap {B = Receiver × (Error ⊎ A)}
      (λ r. elim r.1 [
        | inl e ↦ (r.0, inl e)
        | inr (inl t') ↦ loop fuel body t' r.0
        | inr (inr a) ↦ (r.0, inr a)
      ])
      h

pub loop_ends :
    {T A : Type 0} (fuel : ℕ) (body : T → M (T ⊎ A)) (t : T) (s : Receiver) {a : A} {s' : Receiver}
    → body t s ≡ (s', inr (inr a))
    → loop (suc fuel) body t s ≡ (s', inr a)
unfolding loop
loop_ends {T} {A} fuel body t s h =
    ap {B = Receiver × (Error ⊎ A)}
      (λ r. elim r.1 [
        | inl e ↦ (r.0, inl e)
        | inr (inl t') ↦ loop fuel body t' r.0
        | inr (inr a) ↦ (r.0, inr a)
      ])
      h

-- The receiver with a file's bytes in the sink and its answers sent
abbrev pub took : Receiver → List ℕ → List ℕ → List Arrival → Receiver
took s bytes answers rest = record {
  incoming = rest;
  sent = s.sent ++ answers;
  sink = record s.sink { output = s.sink.output ++ bytes };
}

took_end :
    (s : Receiver) (rest : List Arrival)
    → ◌≡◌ {A = Receiver × (Error ⊎ Unit {0})}
        (says (says (says (heard s rest) (nak ∷ [])) (ack ∷ [])) (crc_request ∷ []), inr tt)
        (took s [] (nak ∷ ack ∷ crc_request ∷ []) rest, inr tt)
took_end s rest =
    let sent =
      append_assoc (s.sent ++ nak ∷ []) (ack ∷ []) (crc_request ∷ [])
      ∙ append_assoc s.sent (nak ∷ []) (ack ∷ crc_request ∷ []) in
    ground (arith, sent, append-nil s.sink.output)

module _ (crc16 : List ℕ → ℕ) (config : Config) (size : ℕ) (file : List ℕ)
    (h : length file ≡ size) where
  -- The loop for the file's blocks, from its first control byte on
  abbrev pub file_loop : ℕ → ℕ → ℕ → M (Unit {0})
  file_loop rounds number done = next_byte >>= λ control.
      loop rounds (data_round crc16 config size) (progress number done 0 control)

  abbrev pub wire_from : ℕ → ℕ → ℕ → List ℕ
  wire_from fuel number done = wire_blocks crc16 fuel size number done file ++ eot ∷ eot ∷ []

  abbrev pub answers_from : ℕ → ℕ → List ℕ
  answers_from fuel done = acks fuel size done ++ nak ∷ ack ∷ crc_request ∷ []

  wire_from_head :
      (fuel number done : ℕ) → (c : ℕ) × (bytes : List ℕ) × (wire_from fuel number done ≡ c ∷ bytes)
  unfolding wire_blocks
  wire_from_head zero number done = (eot, eot ∷ [], refl)
  wire_from_head (suc fuel) number done = elim (Bool-cases (leb size done)) [
    | inl e ↦ (eot, eot ∷ [], rw e refl)
    | inr e ↦ (
      stx,
      (frame_of crc16 number (block_at size done file)
            ++ wire_blocks crc16 fuel size ((number + 1) % 256) (done + wanted size done) file)
          ++ eot ∷ eot ∷ [],
      rw e refl,
    )
  ]

  -- No block is left.
  file_loop_end :
      (rounds number : ℕ) (s : Receiver) (rest : List Arrival)
      → file_loop (suc rounds) number size (hears s (eot ∷ eot ∷ []) rest)
        ≡ (took s [] (nak ∷ ack ∷ crc_request ∷ []) rest, inr tt)
  unfolding next_byte
  file_loop_end rounds number s rest =
      loop_ends rounds (data_round crc16 config size) (progress number size 0 eot)
        (heard s (arrived eot ∷ rest)) (end_of_file-hears crc16 config size number 0 s rest)
      ∙ took_end s rest

  file_loop_done :
      (rounds number done : ℕ) (s : Receiver) (rest : List Arrival) (wire answers : List ℕ)
      → done ≡ size
      → wire ≡ eot ∷ eot ∷ []
      → answers ≡ nak ∷ ack ∷ crc_request ∷ []
      → file_loop (suc rounds) number done (hears s wire rest)
        ≡ (took s (drop done file) answers rest, inr tt)
  file_loop_done rounds number done s rest wire answers d w a =
      let none_left : drop done file ≡ [] = drop_past_end file done (omega (arith, h)) in
      ap₂ (λ m xs. file_loop (suc rounds) number m (hears s xs rest)) d w
      ∙ file_loop_end rounds number s rest
      ∙ ap₂ {C = Receiver × (Error ⊎ Unit {0})} (λ xs ys. (took s xs ys rest, inr tt))
          (sym none_left) (sym a)

  module _ (fuel rounds number done : ℕ) (s : Receiver) (rest : List Arrival)
      (less : done < size) where
    abbrev next_done : ℕ
    next_done = done + wanted size done

    abbrev next_number : ℕ
    next_number = (number + 1) % 256

    -- After a block
    abbrev after_block : Receiver
    after_block = says (gains s (take (wanted size done) (drop done file))) (ack ∷ [])

    -- One block of the wire
    file_loop_step :
        length s.sink.output + length (drop done file) ≤ s.sink.capacity
        → file_loop (suc rounds) number done (hears s (wire_from (suc fuel) number done) rest)
          ≡ file_loop rounds next_number next_done
              (hears after_block (wire_from fuel next_number next_done) rest)
    unfolding next_byte
    file_loop_step room =
        let block = block_at size done file in
        let frame = frame_of crc16 number block in
        let (c, bytes, head) = wire_from_head fuel next_number next_done in
        let blocks = wire_blocks crc16 fuel size next_number next_done file in
        let ahead : map arrived ((frame ++ blocks) ++ eot ∷ eot ∷ []) ++ rest
            ≡ map arrived frame ++ (arrived c ∷ (map arrived bytes ++ rest)) =
          ap (λ xs. map arrived xs ++ rest) (append_assoc frame blocks (eot ∷ eot ∷ []))
          ∙ map-append frame (blocks ++ eot ∷ eot ∷ []) rest
          ∙ ap (λ xs. map arrived frame ++ (map arrived xs ++ rest)) head in
        let full = length-block_at size done file h less in
        let same : part crc16 config size number done block s full
            ≡ take (wanted size done) (drop done file) =
          taken size done file h less in
        let taken_part = part crc16 config size number done block s full in
        let fits : length s.sink.output + length taken_part ≤ s.sink.capacity =
          omega
            (arith, room, ap length same, length-take {0} (wanted size done) (drop done file)) in
        let body = data_round crc16 config size in
        let later = map arrived bytes ++ rest in
        ap (λ xs. file_loop (suc rounds) number done (hears s (xs ++ eot ∷ eot ∷ []) rest))
          (blocks_more fuel size done crc16 number file less)
        ∙ ap
            (λ xs. loop (suc rounds) body (progress number done 0 stx) (record s { incoming = xs }))
            ahead
        ∙ loop_again rounds body (progress number done 0 stx) (hears s frame (arrived c ∷ later))
            (data_round-hears crc16 config size number done block s full c later less fits)
        ∙ ap
            (λ xs.
              loop rounds body (progress next_number next_done 0 c)
                (says (gains (heard s later) xs) (ack ∷ [])))
            same
        ∙ sym (ap (λ xs. file_loop rounds next_number next_done (hears after_block xs rest)) head)

    took_step :
        (answers : List ℕ)
        → ◌≡◌ {A = Receiver × (Error ⊎ Unit {0})}
            (took after_block (drop next_done file) answers rest, inr tt)
            (took s (drop done file) (ack ∷ answers) rest, inr tt)
    took_step answers =
        let bytes = take (wanted size done) (drop done file) in
        let whole : (s.sink.output ++ bytes) ++ drop next_done file
            ≡ s.sink.output ++ drop done file =
          append_assoc s.sink.output bytes (drop next_done file)
          ∙ ap (λ xs. s.sink.output ++ (bytes ++ xs)) (drop-drop done (wanted size done) file)
          ∙ ap (λ xs. s.sink.output ++ xs) (take-append-drop (wanted size done) (drop done file)) in
        ap₂ {C = Receiver × (Error ⊎ Unit {0})}
          (λ xs ys.
            (record { incoming = rest; sent = xs; sink = record s.sink { output = ys } }, inr tt))
          (append_assoc s.sent (ack ∷ []) answers) whole

  -- The loop over the blocks of a file
  pub file_loop_lem :
      (fuel rounds number done : ℕ) (s : Receiver) (rest : List Arrival)
      → done ≤ size
      → size ≤ done + fuel
      → fuel < rounds
      → length s.sink.output + length (drop done file) ≤ s.sink.capacity
      → file_loop rounds number done (hears s (wire_from fuel number done) rest)
        ≡ (took s (drop done file) (answers_from fuel done) rest, inr tt)
  file_loop_lem fuel zero number done s rest d e f room = absurd (omega arith)
  file_loop_lem zero (suc rounds) number done s rest d e f room =
      file_loop_done rounds number done s rest (wire_from 0 number done) (answers_from 0 done)
        (omega arith)
        (ap (λ xs. xs ++ eot ∷ eot ∷ []) (blocks_done size done crc16 0 number file (omega arith)))
        (ap (λ xs. xs ++ nak ∷ ack ∷ crc_request ∷ []) (acks_done size done 0 (omega arith)))
  file_loop_lem (suc fuel) (suc rounds) number done s rest d e f room =
      elim (Bool-cases (leb size done)) [
        | inl last ↦
            file_loop_done rounds number done s rest (wire_from (suc fuel) number done)
              (answers_from (suc fuel) done) (ground arith)
              (ap (λ xs. xs ++ eot ∷ eot ∷ [])
                (blocks_done size done crc16 (suc fuel) number file (ground arith)))
              (ap (λ xs. xs ++ nak ∷ ack ∷ crc_request ∷ [])
                (acks_done size done (suc fuel) (ground arith)))
        | inr more ↦
            let less : done < size = ground arith in
            let next = after_block fuel rounds number done s rest less in
            let d' = done + wanted size done in
            let room' : length next.sink.output + length (drop d' file) ≤ next.sink.capacity =
              omega (
                arith,
                room,
                h,
                length-append {0} s.sink.output (take (wanted size done) (drop done file)),
                length-take {0} (wanted size done) (drop done file),
                length-drop {0} done file,
                length-drop {0} d' file,
              ) in
            file_loop_step fuel rounds number done s rest less room
            ∙ file_loop_lem fuel rounds ((number + 1) % 256) d' next rest (omega arith)
                (omega arith) (omega arith) room'
            ∙ took_step fuel rounds number done s rest less (answers_from fuel d')
            ∙ ap {B = Receiver × (Error ⊎ Unit {0})}
                (λ xs. (took s (drop done file) (xs ++ nak ∷ ack ∷ crc_request ∷ []) rest, inr tt))
                (sym (acks_more fuel size done less))
      ]
