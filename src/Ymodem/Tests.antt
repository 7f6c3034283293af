-- ===== src/Ymodem/Tests.antt =====
-- Runs of microtun-ymodem/src. The length of a block stands for its checksum.
use microtun.Prelude.{
  ℕ, ◌<◌, ◌≡◌, refl, true, some, List, [], ◌∷◌, ◌++◌, replicate, arith, inl, inr, length,
}
use microtun.Ymodem.{
  Config, Metadata, arrived, can, nak, crc_request, header_block_len, block_size, parse_metadata,
}
use microtun.Ymodem.Receive.{Receiver, protocol, first_control, loop, refuse, send, abort}
use microtun.Ymodem.Rounds.{header_round, refuse_control, receive_with}
use microtun.Ymodem.Triples.{HasCancelled}
use microtun.Ymodem.Send.{
  SendEvent, progress, metadata_block, decimal_bytes, decimal_before, overwrite,
}
use microtun.Ymodem.Send
use microtun.Ymodem.Wire.{hears, heard}
use microtun.Ymodem.Steps.{says}
use microtun.Ymodem.Noise.{receive_with-noise}
use microtun.Ymodem.Transcript.{wire_blocks}
use microtun.Ymodem.Delivery.{took}
use microtun.Ymodem.Names.{parse_metadata-metadata_block}
use microtun.Ymodem.EndToEnd.{transcript, answers, receive_with-delivers}
use microtun.Ymodem.Answered.{state, reads}
use microtun.Ymodem.Sending.{told, send_writes}
use microtun.Ymodem.Integrity.{receive_with-output, receive_with-HasCancelled}
use microtun.Ymodem.Taken.{Taken}

abbrev config : Config
config = record { start_retries = 2; max_retries = 0 }

-- A file `a` of two bytes
abbrev metadata : Metadata
metadata = record { filename = b'a' ∷ []; file_size = 2 }

abbrev header : List ℕ
header = b'a' ∷ 0 ∷ b'2' ∷ replicate 125 0

abbrev fresh : Receiver
fresh = record { incoming = []; sent = []; sink = record { capacity = 4; output = [] } }

header_made : metadata_block metadata ≡ inr header
unfolding metadata_block decimal_bytes decimal_before
header_made = refl

abbrev sent_bytes : List ℕ
sent_bytes = transcript length header (7 ∷ 8 ∷ [])

parse_metadata-metadata_block_example :
    (parse_metadata header ≡ some metadata) × (length header ≡ header_block_len)
parse_metadata-metadata_block_example =
    parse_metadata-metadata_block metadata header (omega arith) header_made

receive_with-delivers_example :
    receive_with length config 4 (λ m. true) (hears fresh sent_bytes [])
    ≡ (took fresh (7 ∷ 8 ∷ []) (answers 2) [], inr 2)
receive_with-delivers_example =
    receive_with-delivers length config 4 (λ m. true) (b'a' ∷ []) header (7 ∷ 8 ∷ []) fresh []
      header_made refl (omega arith) (omega arith) (omega arith) (omega arith)

-- The same run, with fuel above the events that arrive
delivered :
    receive_with length config 2000 (λ m. true) (hears fresh sent_bytes [])
    ≡ (took fresh (7 ∷ 8 ∷ []) (answers 2) [], inr 2)
delivered =
    receive_with-delivers length config 2000 (λ m. true) (b'a' ∷ []) header (7 ∷ 8 ∷ []) fresh []
      header_made refl (omega arith) (omega arith) (omega arith) (omega arith)

few_events : length (hears fresh sent_bytes []).incoming < 2000
unfolding wire_blocks
few_events = omega arith

receive_with-output_example :
    (file : List ℕ) × ((took fresh (7 ∷ 8 ∷ []) (answers 2) []).sink.output ≡ [] ++ file)
    × (length file ≡ 2)
    × (number : ℕ) × Taken length 2 (hears fresh sent_bytes []).incoming number file []
receive_with-output_example =
    receive_with-output length config (λ m. true) 2000 (hears fresh sent_bytes [])
      (took fresh (7 ∷ 8 ∷ []) (answers 2) []) 2 few_events delivered

-- A sender that answers with noise
abbrev noise : Receiver
noise = record fresh { incoming = arrived 0 ∷ [] }

abbrev refused : Receiver
refused = record fresh { sent = crc_request ∷ can ∷ can ∷ [] }

given_up : receive_with length config 2 (λ m. true) noise ≡ (refused, inl protocol)
unfolding receive_with first_control loop header_round refuse_control refuse send abort block_size
given_up = refl

receive_with-HasCancelled_example : HasCancelled refused
receive_with-HasCancelled_example =
    receive_with-HasCancelled length config (λ m. true) 2 noise refused protocol (omega arith)
      (inl refl) given_up

-- One byte of noise too many for `max_retries` of 1
receive_with-noise_example :
    receive_with length
      (record { start_retries = 2; max_retries = 1 })
      2
      (λ m. true)
      (hears fresh (0 ∷ 9 ∷ []) [])
    ≡ (says (heard fresh []) (crc_request ∷ (nak ∷ []) ++ can ∷ can ∷ []), inl protocol)
receive_with-noise_example =
    receive_with-noise length (record { start_retries = 2; max_retries = 1 }) (λ m. true) 2 0
      (9 ∷ []) fresh [] ((λ e. cc, λ e. cc, λ e. cc), ((λ e. cc, λ e. cc, λ e. cc), tt)) refl
      (omega arith) (omega arith) (omega arith)

send_writes_example :
    Send.send length config metadata (state (answers 2) [] [] (reads 2 2 0 (7 ∷ 8 ∷ [])) [])
    ≡ (state [] [] sent_bytes [] (told 2), inr 2)
send_writes_example =
    send_writes length config (b'a' ∷ []) header (7 ∷ 8 ∷ []) [] [] [] header_made (omega arith)
