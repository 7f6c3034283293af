-- ===== src/Ymodem/Taken.antt =====
-- The blocks that the receiver of microtun-ymodem/src/receive.rs takes from what arrives.
use microtun.Prelude.{
  ℕ, ◌+◌, ◌-◌, ◌%◌, ◌<◌, ◌≡◌, ◌∙◌, true, some, List, [], ◌++◌, min, take, drop, length, get_or,
  append_assoc,
}
use microtun.Ymodem.{Arrival, block_size, valid_frame}
use microtun.Ymodem.Receive.{Progress}
use microtun.Ymodem.Triples.{Fact, Passes, bytes_of}

-- `Taken number file rest`: of what arrived since `start`, all but `rest` has been read, and `file`
-- is the content of frames that lie in it one behind the other: the bytes of each arrived in a run,
-- its checksum and its complement fit, the frames are numbered 1, 2, 3 and so on (modulo 256, the
-- next would be `number`), and of each, at most as much is added as the file still lacks.
pub data Taken (crc16 : List ℕ → ℕ) (file_size : ℕ) (start : List Arrival)
    : ℕ → List ℕ → List Arrival → Type 0 where
  begin : (xs rest : List Arrival) → xs ++ rest ≡ start → Taken crc16 file_size start 1 [] rest
  pass :
      (number : ℕ) (file : List ℕ) (xs rest : List Arrival)
      → Taken crc16 file_size start number file (xs ++ rest)
      → Taken crc16 file_size start number file rest
  block :
      (number control size : ℕ) (file frame : List ℕ) (xs rest : List Arrival)
      → Taken crc16 file_size start number file (xs ++ rest)
      → bytes_of xs ≡ frame
      → block_size control ≡ some size
      → length frame ≡ size + 4
      → valid_frame crc16 frame size ≡ true
      → get_or frame 0 0 ≡ number
      → length file < file_size
      → Taken crc16 file_size start
          ((number + 1) % 256)
          (file ++ take (min (file_size - length file) size) (drop 2 frame))
          rest

module _ (crc16 : List ℕ → ℕ) (start : List Arrival) where
  -- Before the first block, nothing is in the file and the rest is what is left of `start`.
  abbrev pub NothingTaken : Fact
  NothingTaken file rest = (file ≡ []) × (xs : List Arrival) × (xs ++ rest ≡ start)

  pub NothingTaken-Passes : Passes NothingTaken
  NothingTaken-Passes file xs rest (e, ys, h) = (e, ys ++ xs, append_assoc ys xs rest ∙ h)

  -- Between two blocks
  abbrev pub SomeTaken : ℕ → Progress → Fact
  SomeTaken file_size t file rest =
      (length file ≡ t.written) × Taken crc16 file_size start t.expected_block file rest

  pub SomeTaken-Passes : (file_size : ℕ) (t : Progress) → Passes (SomeTaken file_size t)
  SomeTaken-Passes file_size t file xs rest (e, h) = (e, pass t.expected_block file xs rest h)

  -- After the last
  abbrev pub AllTaken : ℕ → Fact
  AllTaken file_size file rest =
      (length file ≡ file_size) × (number : ℕ) × Taken crc16 file_size start number file rest

  pub AllTaken-Passes : (file_size : ℕ) → Passes (AllTaken file_size)
  AllTaken-Passes file_size file xs rest (e, number, h) = (e, number, pass number file xs rest h)
