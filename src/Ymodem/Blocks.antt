-- ===== src/Ymodem/Blocks.antt =====
-- The loop for the blocks of a file of microtun-ymodem/src/receive.rs.
use microtun.Prelude.{
  append_assoc, ℕ, suc, ◌+◌, ◌-◌, ◌%◌, ◌<◌, ◌≡◌, refl, ap, subst, ◌∙◌, true, some, List, [], ◌∷◌,
  ◌++◌, arith, leb, length, Bool-cases, Option-cases, ◌⊎◌, inl, inr, min, take, drop, length-take,
  length-drop, length-append, get_or, ◌==◌,
}
use microtun.Ymodem.{eot, ack, nak, can, Config, block_size, Arrival, write_all, valid_frame}
use microtun.Ymodem.Receive.{
  protocol, Receiver, ◌>>=◌, send, next_byte, read_frame, Progress, progress,
}
use microtun.Ymodem.Rounds.{
  write_block, refuse_block, data_block, second_eot, end_of_file, data_round,
}
use microtun.Ymodem.Triples.{
  Triple, Triple-bind, IsTold, IsAt, IsAt-map, IsAt-passed, Window, Fact, Passes,
}
use microtun.Ymodem.Arrivals.{
  send-IsAt, abort-IsTold, next_byte-IsAt, read_block-IsRead, IsRead, send_next_lem, refuse_lem,
}
use microtun.Ymodem.Sinks.{write_all-output}
use microtun.Ymodem.Taken.{Taken, block, SomeTaken, SomeTaken-Passes, AllTaken, AllTaken-Passes}
use microtun.Ymodem.Looping.{AfterRound}

module _ (crc16 : List ℕ → ℕ) (config : Config) (base : List ℕ) (start : List Arrival) where
  -- The loop for the file's blocks
  module _ (file_size k : ℕ) where
    abbrev pub Held : Progress → Fact
    Held t = SomeTaken crc16 start file_size t

    abbrev pub Done : Fact
    Done = AllTaken crc16 start file_size

    held_pass : (t : Progress) → Passes (Held t)
    held_pass t = SomeTaken-Passes crc16 start file_size t

    done_pass : Passes Done
    done_pass = AllTaken-Passes crc16 start file_size

    abbrev pub Round : Progress ⊎ Unit {0} → Receiver → Type 0
    Round = AfterRound base Held Done k

    taken :
        (t : Progress) (control size count : ℕ) (frame file : List ℕ) (rest : List Arrival)
        → block_size control ≡ some size
        → length frame ≡ size + 4
        → valid_frame crc16 frame size ≡ true
        → get_or frame 0 0 ≡ t.expected_block
        → t.written < file_size
        → count ≡ min (file_size - t.written) size
        → Window (Held t) frame file rest
        → Held
            (progress ((t.expected_block + 1) % 256) (t.written + count) 0 control)
            (file ++ take count (drop 2 frame))
            rest
    taken t control size count frame file rest b full v n l c (xs, e, (w, h)) =
        let same : min (file_size - length file) size ≡ count = omega (arith, w, c) in
        (
          omega (
            arith,
            length-append {0} file (take count (drop 2 frame)),
            w,
            c,
            length-take {0} count (drop 2 frame),
            length-drop {0} 2 frame,
            full,
          ),
          subst
              (λ m.
                Taken crc16 file_size start ((t.expected_block + 1) % 256)
                  (file ++ take m (drop 2 frame)) rest)
              same
              (block t.expected_block control size file frame xs rest h e b full v n
                (omega (arith, w, l))),
        )

    write_block-AfterRound :
        (t : Progress) (control size : ℕ) (frame : List ℕ)
        → block_size control ≡ some size
        → length frame ≡ size + 4
        → valid_frame crc16 frame size ≡ true
        → get_or frame 0 0 ≡ t.expected_block
        → Triple
            (IsAt base (Window (Held t) frame) k)
            (write_block crc16 config file_size t size frame)
            Round
            IsTold
    unfolding write_block
    write_block-AfterRound t control size frame b full v n s q =
        let p = IsAt-passed frame s (held_pass t) q in
        elim (Bool-cases (leb file_size t.written)) [
          | inl e ↦ rw e (
              abort-IsTold base (Held t) (held_pass t) k {A = Progress ⊎ Unit {0}} Round protocol
                (λ s c. c) s p)
          | inr e ↦
              let count = min (file_size - t.written) size in
              let bytes = take count (drop 2 frame) in
              let written = write_all (suc (length bytes)) s.sink bytes in
              elim (Bool-cases written.1) [
                | inr f ↦ rw e (rw f ((s.sent, refl)))
                | inl f ↦
                    let put =
                      write_all-output (suc (length bytes)) s.sink written.0 bytes (omega arith)
                        (ap (λ x. (written.0, x)) f) in
                    let t' =
                      progress ((t.expected_block + 1) % 256) (t.written + count) 0 control in
                    let p' : IsAt base (Held t') k (record s { sink = written.0 }) = record {
                      file = q.file ++ bytes;
                      holds = put ∙ ap (λ xs. xs ++ bytes) q.holds ∙ append_assoc base q.file bytes;
                      fact =
                          taken t control size count frame q.file s.incoming b full v n
                            (ground arith) refl q.fact;
                      left = q.left;
                    } in
                    rw e (
                      rw f (
                        send_next_lem base (Held t') (held_pass t') k Round (ack ∷ [])
                          (λ control.
                            inl (
                              progress ((t.expected_block + 1) % 256) (t.written + count) 0
                                control))
                          (λ b s p. p) (record s { sink = written.0 }) p'))
              ]
        ]

    refuse_block-AfterRound :
        (t : Progress) → Triple (IsAt base (Held t) k) (refuse_block crc16 config t) Round IsTold
    unfolding refuse_block
    refuse_block-AfterRound t =
        refuse_lem base (Held t) (held_pass t) k Round config t.retries
          (λ retries control. inl (progress t.expected_block t.written retries control))
          (λ r b s p. p)

    second_eot-AfterRound :
        (second : ℕ) → Triple (IsAt base Done k) (second_eot crc16 config second) Round IsTold
    unfolding second_eot
    second_eot-AfterRound second s p = elim (Bool-cases (second == eot)) [
      | inl e ↦ rw e (record { file = p.file; holds = p.holds; fact = p.fact; left = p.left })
      | inr e ↦ rw e (
          abort-IsTold base Done done_pass k {A = Progress ⊎ Unit {0}} Round protocol (λ s c. c) s
            p)
    ]

    end_of_file-AfterRound :
        (t : Progress)
        → Triple (IsAt base (Held t) k) (end_of_file crc16 config file_size t) Round IsTold
    unfolding end_of_file
    end_of_file-AfterRound t s p = elim (Bool-cases (t.written == file_size)) [
      | inr e ↦ rw e (
          abort-IsTold base (Held t) (held_pass t) k {A = Progress ⊎ Unit {0}} Round protocol
            (λ s c. c) s p)
      | inl e ↦
          let same : t.written ≡ file_size = ground arith in
          let p' : IsAt base Done k s =
            IsAt-map s (λ file rest (w, h). (w ∙ same, t.expected_block, h)) p in
          rw e (
            Triple-bind IsTold (IsAt base Done k) (λ u. IsAt base Done k) Round (send (nak ∷ []))
              (λ u. next_byte >>= λ second. second_eot crc16 config second)
              (send-IsAt base Done done_pass k (nak ∷ []))
              (λ u.
                Triple-bind IsTold (IsAt base Done k) (λ b. IsAt base Done k) Round next_byte
                  (λ second. second_eot crc16 config second) (next_byte-IsAt base Done done_pass k)
                  second_eot-AfterRound)
              s p')
    ]

    data_block-AfterRound :
        (t : Progress) (control size : ℕ) (frame : List ℕ)
        → block_size control ≡ some size
        → length frame ≡ size + 4
        → Triple
            (IsAt base (Window (Held t) frame) k)
            (data_block crc16 config file_size t size frame)
            Round
            IsTold
    unfolding data_block
    data_block-AfterRound t control size frame b full s q =
        let number = get_or frame 0 0 in
        let p = IsAt-passed frame s (held_pass t) q in
        elim (Bool-cases (valid_frame crc16 frame size)) [
          | inr e ↦ rw e (refuse_block-AfterRound t s p)
          | inl e ↦ elim (Bool-cases (number == t.expected_block)) [
            | inl f ↦
                rw e
                  (rw f (write_block-AfterRound t control size frame b full e (ground arith) s q))
            | inr f ↦ elim (Bool-cases (number == (t.expected_block + 255) % 256)) [
              | inl g ↦ rw e (
                  rw f (
                    rw g (
                      send_next_lem base (Held t) (held_pass t) k Round (ack ∷ [])
                        (λ control. inl (record t { control = control })) (λ b s p. p) s p)))
              | inr g ↦ rw e (rw f (rw g (refuse_block-AfterRound t s p)))
            ]
          ]
        ]

    pub data_round-AfterRound :
        (t : Progress)
        → Triple (IsAt base (Held t) k) (data_round crc16 config file_size t) Round IsTold
    unfolding data_round
    data_round-AfterRound t s p = elim (Bool-cases (t.control == can)) [
      | inl e ↦ rw e tt
      | inr e ↦ elim (Bool-cases (t.control == eot)) [
        | inl f ↦ rw e (rw f (end_of_file-AfterRound t s p))
        | inr f ↦ elim (Option-cases (block_size t.control)) [
          | inl b ↦ rw e (rw f (rw b (refuse_block-AfterRound t s p)))
          | inr (size, b) ↦ rw e (
              rw f (
                rw b (
                  Triple-bind IsTold (IsAt base (Held t) k) (IsRead base k (Held t) (size + 4))
                    Round (read_frame size)
                    (λ frame. data_block crc16 config file_size t size frame)
                    (read_block-IsRead base k (Held t) (size + 4))
                    (λ frame s q. data_block-AfterRound t t.control size frame b q.1 s q.0) s p)))
        ]
      ]
    ]
