-- ===== src/Ymodem/EndToEnd.antt =====
-- `receive_with` of microtun-ymodem/src/receive.rs, on what `send` of send.rs writes.
use microtun.Prelude.{
  ℕ, zero, suc, ◌+◌, ◌≤◌, ◌<◌, ◌≡◌, refl, sym, ap, ◌∙◌, Bool, true, List, [], ◌∷◌, ◌++◌, map, arith,
  length, ◌⊎◌, inl, inr, replicate, u64_max, append_assoc,
}
use microtun.Ymodem.{
  is_empty_header, Config, Metadata, Arrival, arrived, soh, eot, ack, nak, crc_request,
  header_block_len,
}
use microtun.Ymodem.Receive.{Receiver, next_byte, Error, M, ◌>>=◌, loop, progress}
use microtun.Ymodem.Rounds.{data_round}
use microtun.Ymodem.Wire.{frame_of, hears, heard, bind_ok}
use microtun.Ymodem.Steps.{says}
use microtun.Ymodem.Transcript.{wire_blocks, acks, map-append}
use microtun.Ymodem.Delivery.{took, file_loop_lem, loop_ends}
use microtun.Ymodem.Names.{parse_metadata-metadata_block}
use microtun.Ymodem.Send.{metadata_block}
use microtun.Ymodem.Receive.{first_control, control_of, pure}
use microtun.Ymodem.Rounds.{header_round, final_round, receive_with}
use microtun.Ymodem.Steps.{header_round-hears, final_round-hears}

-- The bytes of a whole transfer, and the answers to them
abbrev pub zeros : List ℕ
zeros = replicate header_block_len 0

abbrev pub transcript : (List ℕ → ℕ) → List ℕ → List ℕ → List ℕ
transcript crc16 header file =
    soh
    ∷ (frame_of crc16 0 header
        ++ ((wire_blocks crc16 (length file) (length file) 1 0 file ++ eot ∷ eot ∷ [])
            ++ (soh ∷ frame_of crc16 0 zeros)))

abbrev pub answers : ℕ → List ℕ
answers size =
    crc_request
    ∷ ack
    ∷ crc_request
    ∷ ((acks size size 0 ++ nak ∷ ack ∷ crc_request ∷ []) ++ ack ∷ [])

assoc_at :
    {A B C : Type 0} (f : A → M B) (g : B → M C) (r : Receiver × (Error ⊎ A))
    → (let fed : Receiver × (Error ⊎ B) = elim r.1 [ inl e ↦ (r.0, inl e) | inr a ↦ f a r.0 ] in
        ◌≡◌ {A = Receiver × (Error ⊎ C)}
          (elim fed.1 [ inl e ↦ (fed.0, inl e) | inr b ↦ g b fed.0 ])
          (elim r.1 [ inl e ↦ (r.0, inl e) | inr a ↦ (f a >>= g) r.0 ]))
assoc_at f g (s, inl e) = refl
assoc_at f g (s, inr a) = refl

bind_assoc :
    {A B C : Type 0} (m : M A) (f : A → M B) (g : B → M C) (s : Receiver)
    → (m >>= λ a. f a >>= g) s ≡ ((m >>= f) >>= g) s
bind_assoc m f g s = sym (assoc_at f g (m s))

module _ (crc16 : List ℕ → ℕ) (config : Config) where
  -- `receive_with` from the end of the file's blocks on
  batch_end-hears :
      (fuel size : ℕ) (s : Receiver) (rest : List Arrival)
      → 0 < fuel
      → (next_byte >>= λ last.
            loop fuel (final_round crc16 config) (control_of 0 last) >>= λ u. pure size)
          (hears s (soh ∷ frame_of crc16 0 zeros) rest)
        ≡ (says (heard s rest) (ack ∷ []), inr size)
  unfolding next_byte
  batch_end-hears zero size s rest f = absurd (omega arith)
  batch_end-hears (suc fuel) size s rest f =
      bind_ok (loop (suc fuel) (final_round crc16 config) (control_of 0 soh)) (λ u. pure size)
        (hears s (frame_of crc16 0 zeros) rest)
        (loop_ends fuel (final_round crc16 config) (control_of 0 soh)
          (hears s (frame_of crc16 0 zeros) rest)
          (final_round-hears crc16 config zeros s rest refl (unfold is_empty_header in refl)))

  abbrev batch_end : ℕ → ℕ → M ℕ
  batch_end fuel size = next_byte >>= λ last.
      loop fuel (final_round crc16 config) (control_of 0 last) >>= λ u. pure size

  -- The end of a transfer, from the file's blocks on
  blocks_and_end-hears :
      (fuel : ℕ) (file : List ℕ) (s : Receiver) (rest : List Arrival)
      → suc (length file) < fuel
      → length s.sink.output + length file ≤ s.sink.capacity
      → (let size = length file in
          (next_byte >>= λ control.
          loop fuel (data_round crc16 config size) (progress 1 0 0 control) >>= λ u.
          batch_end fuel size)
            (hears s
              ((wire_blocks crc16 size size 1 0 file ++ eot ∷ eot ∷ [])
                ++ (soh ∷ frame_of crc16 0 zeros))
              rest)
          ≡ (
            says (took s file (acks size size 0 ++ nak ∷ ack ∷ crc_request ∷ []) rest) (ack ∷ []),
            inr size,
          ))
  blocks_and_end-hears fuel file s rest f room =
      let size = length file in
      let F = soh ∷ frame_of crc16 0 zeros in
      let W = wire_blocks crc16 size size 1 0 file ++ eot ∷ eot ∷ [] in
      let m = λ (control : ℕ). loop fuel (data_round crc16 config size) (progress 1 0 0 control) in
      bind_assoc next_byte m (λ u. batch_end fuel size) (hears s (W ++ F) rest)
      ∙ ap (λ xs. ((next_byte >>= m) >>= λ u. batch_end fuel size) (record s { incoming = xs }))
          (map-append W F rest)
      ∙ bind_ok (next_byte >>= m) (λ u. batch_end fuel size) (hears s W (map arrived F ++ rest))
          (file_loop_lem crc16 config size file refl size fuel 1 0 s (map arrived F ++ rest)
            (omega arith) (omega arith) (omega arith) room)
      ∙ batch_end-hears fuel size
          (took s file (acks size size 0 ++ nak ∷ ack ∷ crc_request ∷ []) (map arrived F ++ rest))
          rest (omega arith)

  pub first_control-hears :
      (n b : ℕ) (bytes : List ℕ) (s : Receiver) (rest : List Arrival)
      → 0 < n
      → first_control n (hears s (b ∷ bytes) rest)
        ≡ (hears (says s (crc_request ∷ [])) bytes rest, inr b)
  unfolding first_control
  first_control-hears zero b bytes s rest h = absurd (omega arith)
  first_control-hears (suc n) b bytes s rest h = refl

  answers_sent :
      (before middle : List ℕ)
      → ((((before ++ crc_request ∷ []) ++ ack ∷ []) ++ crc_request ∷ []) ++ middle) ++ ack ∷ []
        ≡ before ++ (crc_request ∷ ack ∷ crc_request ∷ (middle ++ ack ∷ []))
  answers_sent before middle = simp append_assoc

  -- What `send` writes for a file is received: `receive_with` ends well with the size of the file,
  -- adds exactly the file to the sink, and has sent exactly the answers that `send` waits for. The
  -- name fits block 0, the metadata is accepted, the sink has room, at least one request is sent, and
  -- the fuel exceeds the size by two.
  pub receive_with-delivers :
      (fuel : ℕ) (accepts : Metadata → Bool) (name header file : List ℕ) (s : Receiver)
      (rest : List Arrival)
      → (let metadata : Metadata = record { filename = name; file_size = length file } in
          metadata_block metadata ≡ inr header
          → accepts metadata ≡ true
          → length file ≤ u64_max
          → suc (length file) < fuel
          → 0 < config.start_retries
          → length s.sink.output + length file ≤ s.sink.capacity
          → receive_with crc16 config fuel accepts (hears s (transcript crc16 header file) rest)
            ≡ (took s file (answers (length file)) rest, inr (length file)))
  unfolding receive_with
  receive_with-delivers zero accepts name header file s rest made ok small f n room =
      absurd (omega arith)
  receive_with-delivers (suc fuel) accepts name header file s rest made ok small f n room =
      let metadata : Metadata = record { filename = name; file_size = length file } in
      let size = length file in
      let H = frame_of crc16 0 header in
      let W = wire_blocks crc16 size size 1 0 file ++ eot ∷ eot ∷ [] in
      let B = W ++ (soh ∷ frame_of crc16 0 zeros) in
      let s1 = says s (crc_request ∷ []) in
      let s2 = says (says s1 (ack ∷ [])) (crc_request ∷ []) in
      let (parsed, full) = parse_metadata-metadata_block metadata header small made in
      let blocks : ℕ → M ℕ = λ size. next_byte >>= λ control.
      loop (suc fuel) (data_round crc16 config size) (progress 1 0 0 control) >>= λ u.
      batch_end (suc fuel) size in
      let start : ℕ → M ℕ = λ first.
        loop (suc fuel) (header_round crc16 config accepts) (control_of 0 first) >>= blocks in
      let middle = acks size size 0 ++ nak ∷ ack ∷ crc_request ∷ [] in
      bind_ok (first_control config.start_retries) start (hears s (soh ∷ (H ++ B)) rest)
        (first_control-hears config.start_retries soh (H ++ B) s rest n)
      ∙ ap (λ xs. start soh (record s1 { incoming = xs })) (map-append H B rest)
      ∙ bind_ok (loop (suc fuel) (header_round crc16 config accepts) (control_of 0 soh)) blocks
          (hears s1 H (map arrived B ++ rest))
          (loop_ends fuel (header_round crc16 config accepts) (control_of 0 soh)
            (hears s1 H (map arrived B ++ rest))
            (header_round-hears crc16 config accepts header metadata s1 (map arrived B ++ rest) full
              parsed ok))
      ∙ blocks_and_end-hears (suc fuel) file s2 rest f room
      ∙ ap {B = Receiver × (Error ⊎ ℕ)}
          (λ xs. (record (took s file [] rest) { sent = xs }, inr size))
          (answers_sent s.sent middle)
