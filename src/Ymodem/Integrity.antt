-- ===== src/Ymodem/Integrity.antt =====
-- What a transfer of microtun-ymodem/src/receive.rs leaves in the sink, and what an error leaves on
-- the line.
use microtun.Prelude.{
  append-nil, ℕ, ◌<◌, ◌≡◌, ◌≢◌, refl, sym, ap, subst, Bool, List, [], ◌++◌, arith, length, ◌⊎◌, inl,
  inr,
}
use microtun.Ymodem.{Config, Metadata, Arrival}
use microtun.Ymodem.Receive.{
  Error, protocol, output_full, rejected, out_of_fuel, Receiver, M, pure, ◌>>=◌, ◌>>◌, next_byte,
  loop, first_control, control_of, progress, Progress,
}
use microtun.Ymodem.Rounds.{header_round, data_round, final_round, receive_with}
use microtun.Ymodem.Triples.{
  Post, Triple, Triple-bind, HasCancelled, IsTold, IsAt, IsAt-map, Fact, Passes,
}
use microtun.Ymodem.Arrivals.{next_byte-IsAt, first_control-IsAt}
use microtun.Ymodem.Taken.{
  Taken, begin, NothingTaken, NothingTaken-Passes, SomeTaken, AllTaken, AllTaken-Passes,
}
use microtun.Ymodem.Looping.{loop-IsAt}
use microtun.Ymodem.Headers.{header_round-AfterRound, final_round-AfterRound}
use microtun.Ymodem.Blocks.{data_round-AfterRound}

module _ (crc16 : List ℕ → ℕ) (config : Config) (fuel : ℕ) where
  -- `receive_with` after the file's blocks, and after block 0
  abbrev batch_end : ℕ → M ℕ
  batch_end size = do
    last ← next_byte
    loop fuel (final_round crc16 config) (control_of 0 last)
    pure size

  abbrev file_and_end : ℕ → M ℕ
  file_and_end size = do
    control ← next_byte
    loop fuel (data_round crc16 config size) (progress 1 0 0 control)
    batch_end size

  module _ (base : List ℕ) (start : List Arrival) (k : ℕ) (f : k < fuel) where
    abbrev Before : Fact
    Before = NothingTaken crc16 start

    before_pass : Passes Before
    before_pass = NothingTaken-Passes crc16 start

    -- The file begins empty.
    begun :
        (size control : ℕ) (file : List ℕ) (rest : List Arrival)
        → Before file rest
        → SomeTaken crc16 start size (progress 1 0 0 control) file rest
    begun size control file rest (e, xs, h) =
        (ap length e, subst (λ xs. Taken crc16 size start 1 xs rest) (sym e) (begin xs rest h))

    batch_end-IsAt :
        (size : ℕ)
        → Triple
            (IsAt base (AllTaken crc16 start size) k)
            (batch_end size)
            (λ n. IsAt base (AllTaken crc16 start n) k)
            IsTold
    batch_end-IsAt size =
        let P = AllTaken crc16 start size in
        let pass = AllTaken-Passes crc16 start size in
        let Q : ℕ → Receiver → Type 0 = λ n. IsAt base (AllTaken crc16 start n) k in
        Triple-bind IsTold (IsAt base P k) (λ b. IsAt base P k) Q next_byte
          (λ last. loop fuel (final_round crc16 config) (control_of 0 last) >>= λ u. pure size)
          (next_byte-IsAt base P pass k)
          (λ last.
            Triple-bind IsTold (IsAt base P k) (λ u. IsAt base P k) Q
              (loop fuel (final_round crc16 config) (control_of 0 last)) (λ u. pure size)
              (loop-IsAt base (λ t. P) P (final_round crc16 config)
                (final_round-AfterRound crc16 config base P pass) fuel k (control_of 0 last) f)
              (λ u s p. p))

    file_and_end-IsAt :
        (size : ℕ)
        → Triple
            (IsAt base Before k)
            (file_and_end size)
            (λ n. IsAt base (AllTaken crc16 start n) k)
            IsTold
    file_and_end-IsAt size =
        let first : ℕ → Progress = λ control. progress 1 0 0 control in
        let P = AllTaken crc16 start size in
        let Q : ℕ → Receiver → Type 0 = λ n. IsAt base (AllTaken crc16 start n) k in
        Triple-bind IsTold (IsAt base Before k) (λ b. IsAt base Before k) Q next_byte
          (λ control.
            loop fuel (data_round crc16 config size) (first control) >>= λ u. batch_end size)
          (next_byte-IsAt base Before before_pass k)
          (λ control s p.
            Triple-bind IsTold (IsAt base (SomeTaken crc16 start size (first control)) k)
              (λ u. IsAt base P k) Q (loop fuel (data_round crc16 config size) (first control))
              (λ u. batch_end size)
              (loop-IsAt base (λ t. SomeTaken crc16 start size t) P (data_round crc16 config size)
                (λ j. data_round-AfterRound crc16 config base start size j) fuel k (first control)
                f)
              (λ u. batch_end-IsAt size) s (IsAt-map s (begun size control) p))

    transfer-IsAt :
        (accepts : Metadata → Bool)
        → Triple
            (IsAt base Before k)
            (receive_with crc16 config fuel accepts)
            (λ n. IsAt base (AllTaken crc16 start n) k)
            IsTold
    unfolding receive_with
    transfer-IsAt accepts =
        let Q : ℕ → Receiver → Type 0 = λ n. IsAt base (AllTaken crc16 start n) k in
        Triple-bind IsTold (IsAt base Before k) (λ b. IsAt base Before k) Q
          (first_control config.start_retries)
          (λ first.
            loop fuel (header_round crc16 config accepts) (control_of 0 first) >>= file_and_end)
          (first_control-IsAt base Before before_pass k config.start_retries)
          (λ first.
            Triple-bind IsTold (IsAt base Before k) (λ n. IsAt base Before k) Q
              (loop fuel (header_round crc16 config accepts) (control_of 0 first)) file_and_end
              (loop-IsAt base (λ t. Before) Before (header_round crc16 config accepts)
                (header_round-AfterRound crc16 config base Before before_pass accepts) fuel k
                (control_of 0 first) f)
              file_and_end-IsAt)

module _ (crc16 : List ℕ → ℕ) (config : Config) (accepts : Metadata → Bool) (fuel : ℕ)
    (s s' : Receiver) where
  after_transfer :
      (r : Error ⊎ ℕ)
      → length s.incoming < fuel
      → receive_with crc16 config fuel accepts s ≡ (s', r)
      → Post
          (λ n. IsAt s.sink.output (AllTaken crc16 s.incoming n) (length s.incoming))
          IsTold
          (s', r)
  after_transfer r f h =
      let start : IsAt s.sink.output (NothingTaken crc16 s.incoming) (length s.incoming) s =
        record {
          file = [];
          holds = sym (append-nil s.sink.output);
          fact = (refl, [], refl);
          left = omega arith;
        } in
      subst
        (Post (λ n. IsAt s.sink.output (AllTaken crc16 s.incoming n) (length s.incoming)) IsTold) h
        (transfer-IsAt crc16 config fuel s.sink.output s.incoming (length s.incoming) f accepts s
          start)

  -- When a transfer succeeds with a file size, whatever arrived, what it has added to the sink
  -- behind what was there is a file of that many bytes, and the file is made of blocks that
  -- arrived, as `Taken` says: one behind the other in what arrived, each with the checksum and the
  -- complement that fit, numbered 1, 2, 3 and so on modulo 256, each adding its bytes once, the
  -- last without its padding. So a block that is refused or repeated adds nothing. The fuel exceeds
  -- the events that are to arrive.
  pub receive_with-output :
      (size : ℕ)
      → length s.incoming < fuel
      → receive_with crc16 config fuel accepts s ≡ (s', inr size)
      → (file : List ℕ) × (s'.sink.output ≡ s.sink.output ++ file)
        × (length file ≡ size)
        × (number : ℕ) × Taken crc16 size s.incoming number file s'.incoming
  receive_with-output size f h =
      let p = after_transfer (inr size) f h in
      let (full, number, blocks) = p.fact in (p.file, p.holds, full, number, blocks)

  -- The sender is told of every failure that is not the line's or its own: when a transfer ends with a
  -- protocol error, a full sink or refused metadata, CAN CAN is the last that was sent. The fuel exceeds
  -- the events that are to arrive.
  pub receive_with-HasCancelled :
      (e : Error)
      → length s.incoming < fuel
      → (e ≡ protocol) ⊎ ((e ≡ output_full) ⊎ (e ≡ rejected))
      → receive_with crc16 config fuel accepts s ≡ (s', inl e)
      → HasCancelled s'
  receive_with-HasCancelled e f (inl k) h = subst (λ e. IsTold e s') k (after_transfer (inl e) f h)
  receive_with-HasCancelled e f (inr (inl k)) h =
      subst (λ e. IsTold e s') k (after_transfer (inl e) f h)
  receive_with-HasCancelled e f (inr (inr k)) h =
      subst (λ e. IsTold e s') k (after_transfer (inl e) f h)

  -- The fuel is the model's: with more of it than there are events to arrive, it does not run out.
  receive_with_ends :
      length s.incoming < fuel → receive_with crc16 config fuel accepts s ≢ (s', inl out_of_fuel)
  receive_with_ends f h = after_transfer (inl out_of_fuel) f h
