-- ===== src/Ymodem/Receive.antt =====
-- microtun-ymodem/src/receive.rs: `receive_with`, as a state machine over what arrives.
use microtun.Prelude.{
  ℕ, zero, suc, ◌+◌, Bool, true, false, List, [], ◌∷◌, ◌++◌, ltb, if◌then◌else◌, take, drop,
  sat_add8, ◌⊎◌, inl, inr,
}
use microtun.Ymodem.{
  nak, can, crc_request, Config, Arrival, ReadByteError, io, timeout, eof, read_byte, BufferSink,
}

-- `out_of_fuel` is of the model.
pub data Error : Type 0 where
  io_error timed_out end_of_stream cancelled protocol output_full rejected out_of_fuel : Error

-- What is to arrive, what was sent, and the sink
pub record Receiver : Type 0 where
  pub incoming : List Arrival
  pub sent : List ℕ
  pub sink : BufferSink

abbrev pub M : Type 0 → Type 0
M A = Receiver → Receiver × (Error ⊎ A)

module _ {A : Type 0} where
  abbrev pub pure : A → M A
  pure a s = (s, inr a)

  abbrev pub throw : Error → M A
  throw e s = (s, inl e)

infixl 5 ◌>>=◌ ◌>>◌
abbrev pub ◌>>=◌ : {A B : Type 0} → M A → (A → M B) → M B
◌>>=◌ m f s = let (s', r) = m s in elim r [ inl e ↦ (s', inl e) | inr a ↦ f a s' ]

abbrev pub ◌>>◌ : {A B : Type 0} → M A → M B → M B
m >> k = m >>= λ _. k

-- `transport.write_all(..)`, which succeeds, and `flush`
unfoldable pub send : List ℕ → M (Unit {0})
send bytes s = (record s { sent = s.sent ++ bytes }, inr tt)

-- `cancel(transport)`, then the error
unfoldable pub abort : {A : Type 0} → Error → M A
abort e s = (record s { sent = s.sent ++ can ∷ can ∷ [] }, inl e)

abbrev pub read_error : ReadByteError → Error
read_error io = io_error
read_error timeout = timed_out
read_error eof = end_of_stream

unfoldable pub next_byte : M ℕ
unfolding read_byte
next_byte s =
    let (rest, r) = read_byte s.incoming in
    elim r [
      | inl e ↦ (record s { incoming = rest }, inl (read_error e))
      | inr b ↦ (record s { incoming = rest }, inr b)
    ]

-- `read_block`, of `n` bytes
unfoldable pub read_block : ℕ → M (List ℕ)
unfolding next_byte
read_block zero = pure []
read_block (suc n) = do b ← next_byte; bs ← read_block n; pure (b ∷ bs)

-- The loop of `first_control`
unfoldable pub first_control : ℕ → M ℕ
unfolding send read_byte
first_control zero s = (s, inl timed_out)
first_control (suc n) s =
    let asked = (send (crc_request ∷ []) s).0 in
    let (rest, r) = read_byte asked.incoming in
    let asked' = record asked { incoming = rest } in
    elim r [
      | inr b ↦ (asked', inr b)
      | inl timeout ↦ first_control n asked'
      | inl eof ↦ (asked', inl end_of_stream)
      | inl io ↦ (asked', inl io_error)
    ]

-- A `loop` whose body goes on with a new state or breaks with a value
unfoldable pub loop : {T A : Type 0} → ℕ → (T → M (T ⊎ A)) → T → M A
loop zero body t s = (s, inl out_of_fuel)
loop (suc fuel) body t s =
    let (s', r) = body t s in
    elim r [ inl e ↦ (s', inl e) | inr (inl t') ↦ loop fuel body t' s' | inr (inr a) ↦ (s', inr a) ]

-- The refusal of a block: NAK and the next control byte, or the end after too many
unfoldable pub refuse : {A : Type 0} → Config → ℕ → (ℕ → ℕ → A) → M A
unfolding send abort next_byte
refuse config retries again =
    if ltb config.max_retries (sat_add8 retries 1)
    then abort protocol
    else (do send (nak ∷ []); control ← next_byte; pure (again (sat_add8 retries 1) control))

-- The retries and the control byte of the loops for block 0
pub record Control : Type 0 where
  pub retries : ℕ
  pub control : ℕ

abbrev pub control_of : ℕ → ℕ → Control
control_of retries control = record { retries = retries; control = control }

-- The variables of the loop for the file's blocks
pub record Progress : Type 0 where
  pub expected_block : ℕ
  pub written : ℕ
  pub retries : ℕ
  pub control : ℕ

abbrev pub progress : ℕ → ℕ → ℕ → ℕ → Progress
progress expected_block written retries control = record {
  expected_block = expected_block;
  written = written;
  retries = retries;
  control = control;
}

-- `read_block`, of a block's number, its complement, its bytes and its checksum
abbrev pub read_frame : ℕ → M (List ℕ)
read_frame size = read_block (size + 4)

-- The bytes of a frame
abbrev pub payload : List ℕ → ℕ → List ℕ
payload frame size = take size (drop 2 frame)

abbrev pub when : {A : Type 0} → Bool → M A → M A → M A
when true m k = m
when false m k = k
