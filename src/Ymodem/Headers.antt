-- ===== src/Ymodem/Headers.antt =====
-- The two loops for block 0 of microtun-ymodem/src/receive.rs.
use microtun.Prelude.{
  ℕ, ◌+◌, Bool, ◌&&◌, List, Bool-cases, Option-cases, ◌⊎◌, inl, inr, get_or, ◌==◌,
}
use microtun.Ymodem.{
  can, Config, Metadata, block_size, valid_frame, parse_metadata, is_empty_header,
}
use microtun.Ymodem.Receive.{protocol, rejected, read_frame, payload, Control, control_of}
use microtun.Ymodem.Rounds.{
  accept_metadata, refuse_control, header_block, header_round, final_block, final_round,
}
use microtun.Ymodem.Triples.{Triple, Triple-bind, IsTold, IsAt, IsAt-passed, Fact, Passes}
use microtun.Ymodem.Arrivals.{abort-IsTold, read_block-IsRead, IsRead, refuse_lem}
use microtun.Ymodem.Looping.{AfterRound}

module _ (crc16 : List ℕ → ℕ) (config : Config) (base : List ℕ) (P : Fact) (pass : Passes P) where
  -- The loops for block 0 leave what is known of the file.
  abbrev pub none_held : Control → Fact
  none_held t = P

  pub refuse_control-AfterRound :
      (A : Type 0) (k retries : ℕ)
      → Triple
          (IsAt base P k)
          (refuse_control crc16 config {A = A} retries)
          (AfterRound {A = A} base none_held P k)
          IsTold
  unfolding refuse_control
  refuse_control-AfterRound A k retries =
      refuse_lem base P pass k (AfterRound {A = A} base none_held P k) config retries
        (λ retries control. inl (control_of retries control)) (λ r b s p. p)

  accept_metadata-AfterRound :
      (accepts : Metadata → Bool) (metadata : Metadata) (k : ℕ)
      → Triple
          (IsAt base P k)
          (accept_metadata crc16 config accepts metadata)
          (AfterRound base none_held P k)
          IsTold
  unfolding accept_metadata
  accept_metadata-AfterRound accepts metadata k s p = elim (Bool-cases (accepts metadata)) [
    | inl e ↦ rw e (record { file = p.file; holds = p.holds; fact = p.fact; left = p.left })
    | inr e ↦ rw e (
        abort-IsTold base P pass k {A = Control ⊎ ℕ} (AfterRound base none_held P k) rejected
          (λ s c. c) s p)
  ]

  header_block-AfterRound :
      (accepts : Metadata → Bool) (retries size k : ℕ) (frame : List ℕ)
      → Triple
          (IsAt base P k)
          (header_block crc16 config accepts retries size frame)
          (AfterRound base none_held P k)
          IsTold
  unfolding header_block
  header_block-AfterRound accepts retries size k frame s p =
      elim (Bool-cases (valid_frame crc16 frame size && (get_or frame 0 0 == 0))) [
        | inr e ↦ rw e (refuse_control-AfterRound ℕ k retries s p)
        | inl e ↦ elim (Option-cases (parse_metadata (payload frame size))) [
          | inl m ↦ rw e (
              rw m (
                abort-IsTold base P pass k {A = Control ⊎ ℕ} (AfterRound base none_held P k)
                  protocol (λ s c. c) s p))
          | inr (metadata, m) ↦ rw e (rw m (accept_metadata-AfterRound accepts metadata k s p))
        ]
      ]

  pub header_round-AfterRound :
      (accepts : Metadata → Bool) (k : ℕ) (t : Control)
      → Triple
          (IsAt base P k)
          (header_round crc16 config accepts t)
          (AfterRound base none_held P k)
          IsTold
  unfolding header_round
  header_round-AfterRound accepts k t s p = elim (Bool-cases (t.control == can)) [
    | inl e ↦ rw e tt
    | inr e ↦ elim (Option-cases (block_size t.control)) [
      | inl b ↦ rw e (rw b (refuse_control-AfterRound ℕ k t.retries s p))
      | inr (size, b) ↦ rw e (
          rw b (
            Triple-bind IsTold (IsAt base P k) (IsRead base k P (size + 4))
              (AfterRound base none_held P k) (read_frame size)
              (λ frame. header_block crc16 config accepts t.retries size frame)
              (read_block-IsRead base k P (size + 4))
              (λ frame s q.
                header_block-AfterRound accepts t.retries size k frame s
                  (IsAt-passed frame s pass q.0))
              s p))
    ]
  ]

  -- The loop for the empty block 0
  final_block-AfterRound :
      (retries size k : ℕ) (frame : List ℕ)
      → Triple
          (IsAt base P k)
          (final_block crc16 config retries size frame)
          (AfterRound {A = Unit {0}} base none_held P k)
          IsTold
  unfolding final_block
  final_block-AfterRound retries size k frame s p =
      let last =
        valid_frame crc16 frame size
        && (get_or frame 0 0 == 0)
        && is_empty_header (payload frame size) in
      elim (Bool-cases last) [
        | inl e ↦ rw e (record { file = p.file; holds = p.holds; fact = p.fact; left = p.left })
        | inr e ↦ rw e (refuse_control-AfterRound (Unit {0}) k retries s p)
      ]

  pub final_round-AfterRound :
      (k : ℕ) (t : Control)
      → Triple
          (IsAt base P k)
          (final_round crc16 config t)
          (AfterRound {A = Unit {0}} base none_held P k)
          IsTold
  unfolding final_round
  final_round-AfterRound k t s p = elim (Bool-cases (t.control == can)) [
    | inl e ↦ rw e tt
    | inr e ↦ elim (Option-cases (block_size t.control)) [
      | inl b ↦ rw e (rw b (refuse_control-AfterRound (Unit {0}) k t.retries s p))
      | inr (size, b) ↦ rw e (
          rw b (
            Triple-bind IsTold (IsAt base P k) (IsRead base k P (size + 4))
              (AfterRound {A = Unit {0}} base none_held P k) (read_frame size)
              (λ frame. final_block crc16 config t.retries size frame)
              (read_block-IsRead base k P (size + 4))
              (λ frame s q.
                final_block-AfterRound t.retries size k frame s (IsAt-passed frame s pass q.0))
              s p))
    ]
  ]
