-- ===== src/Ymodem/Noise.antt =====
-- A sender that never sends a block, and `receive_with` of microtun-ymodem/src/receive.rs.
use microtun.Prelude.{
  ℕ, zero, suc, ◌+◌, ◌<◌, ◌≡◌, ◌≢◌, refl, ap, ◌∙◌, Bool, true, false, List, [], ◌∷◌, ◌++◌, arith,
  ltb, ◌==◌, length, inl, inr, ◌⊎◌, sat_add8, replicate, append_assoc,
}
use microtun.Ymodem.{Config, Metadata, Arrival, can, soh, stx, nak, crc_request, block_size}
use microtun.Ymodem.Receive.{
  Error, protocol, Receiver, M, pure, ◌>>=◌, send, abort, next_byte, refuse, loop, control_of,
  first_control, progress,
}
use microtun.Ymodem.Rounds.{refuse_control, header_round, data_round, final_round, receive_with}
use microtun.Ymodem.Wire.{hears, heard, bind_ok}
use microtun.Ymodem.Steps.{says}
use microtun.Ymodem.Delivery.{loop_again}
use microtun.Ymodem.EndToEnd.{first_control-hears}
use microtun.Prelude.All.{Every}

-- A control byte that neither begins a block nor cancels
abbrev pub IsNoise : ℕ → Type 0
IsNoise byte = (byte ≢ can) × (byte ≢ soh) × (byte ≢ stx)

bind_err :
    {A B : Type 0} (m : M A) (f : A → M B) (s : Receiver) {s' : Receiver} {e : Error}
    → m s ≡ (s', inl e)
    → (m >>= f) s ≡ (s', inl e)
bind_err m f s h = ap (λ r. elim r.1 [ inl e ↦ (r.0, inl e) | inr a ↦ f a r.0 ]) h

loop_fails :
    {T A : Type 0} (fuel : ℕ) (body : T → M (T ⊎ A)) (t : T) (s : Receiver) {e : Error}
    {s' : Receiver}
    → body t s ≡ (s', inl e)
    → loop (suc fuel) body t s ≡ (s', inl e)
unfolding loop
loop_fails {T} {A} fuel body t s h =
    ap {B = Receiver × (Error ⊎ A)}
      (λ r. elim r.1 [
        | inl e ↦ (r.0, inl e)
        | inr (inl t') ↦ loop fuel body t' r.0
        | inr (inr a) ↦ (r.0, inr a)
      ])
      h

module _ (crc16 : List ℕ → ℕ) (config : Config) (accepts : Metadata → Bool) where
  header_round-noise :
      (retries byte : ℕ) (s : Receiver)
      → IsNoise byte
      → header_round crc16 config accepts (control_of retries byte) s
        ≡ refuse_control crc16 config retries s
  unfolding header_round block_size
  header_round-noise retries byte s (c, h, x) =
      let c' : (byte == can) ≡ false = ground (arith, c) in
      let h' : (byte == soh) ≡ false = ground (arith, h) in
      let x' : (byte == stx) ≡ false = ground (arith, x) in rw c' (rw h' (rw x' refl))

  once_more :
      (retries byte : ℕ) (bytes : List ℕ) (s : Receiver) (rest : List Arrival)
      → retries < config.max_retries
      → config.max_retries < 255
      → refuse_control crc16 config {A = ℕ} retries (hears s (byte ∷ bytes) rest)
        ≡ (hears (says s (nak ∷ [])) bytes rest, inr (inl (control_of (suc retries) byte)))
  unfolding refuse_control refuse send next_byte
  once_more retries byte bytes s rest h small =
      let more : ltb config.max_retries (sat_add8 retries 1) ≡ false = ground arith in
      let next : sat_add8 retries 1 ≡ suc retries = omega arith in rw more (rw next refl)

  enough :
      (s : Receiver)
      → config.max_retries < 255
      → refuse_control crc16 config {A = ℕ} config.max_retries s
        ≡ (says s (can ∷ can ∷ []), inl protocol)
  unfolding refuse_control refuse abort
  enough s small =
      let over : ltb config.max_retries (sat_add8 config.max_retries 1) ≡ true = ground arith in
      rw over refl

  noisy_loop :
      (bytes : List ℕ) (retries fuel byte : ℕ) (s : Receiver) (rest : List Arrival)
      → IsNoise byte
      → Every IsNoise bytes
      → retries + length bytes ≡ config.max_retries
      → config.max_retries < 255
      → length bytes < fuel
      → loop fuel (header_round crc16 config accepts) (control_of retries byte) (hears s bytes rest)
        ≡ (says (heard s rest) (replicate (length bytes) nak ++ can ∷ can ∷ []), inl protocol)
  noisy_loop bytes retries zero byte s rest n all e small f = absurd (omega arith)
  noisy_loop [] retries (suc fuel) byte s rest n all e small f =
      let last : retries ≡ config.max_retries = omega (arith, e) in
      loop_fails fuel (header_round crc16 config accepts) (control_of retries byte) (heard s rest) (
        header_round-noise retries byte (heard s rest) n
        ∙ ap (λ r. refuse_control crc16 config {A = ℕ} r (heard s rest)) last
        ∙ enough (heard s rest) small)
  noisy_loop (c ∷ bytes) retries (suc fuel) byte s rest n (here, later) e small f =
      loop_again fuel (header_round crc16 config accepts) (control_of retries byte)
        (hears s (c ∷ bytes) rest)
        (header_round-noise retries byte (hears s (c ∷ bytes) rest) n
          ∙ once_more retries c bytes s rest (omega (arith, e)) small)
      ∙ noisy_loop bytes (suc retries) fuel c (says s (nak ∷ [])) rest here later (omega (arith, e))
          small (omega arith)
      ∙ ap {B = Receiver × (Error ⊎ ℕ)}
          (λ xs. (record s { incoming = rest; sent = xs }, inl protocol))
          (append_assoc s.sent (nak ∷ []) (replicate (length bytes) nak ++ can ∷ can ∷ []))

  -- A sender that answers with bytes that neither begin a block nor cancel is given up after
  -- `max_retries` and one of them: `receive_with` asks for a block, answers NAK to each but the
  -- last, then cancels with CAN CAN and ends with a protocol error, with the sink as it was and
  -- what arrives later unread. The limit is below 255, at which the counter of a `u8` would never
  -- exceed it, at least one request is sent, and the fuel exceeds the limit.
  pub receive_with-noise :
      (fuel byte : ℕ) (bytes : List ℕ) (s : Receiver) (rest : List Arrival)
      → Every IsNoise (byte ∷ bytes)
      → length bytes ≡ config.max_retries
      → config.max_retries < 255
      → 0 < config.start_retries
      → config.max_retries < fuel
      → receive_with crc16 config fuel accepts (hears s (byte ∷ bytes) rest) ≡ (
        says (heard s rest) (crc_request ∷ (replicate config.max_retries nak ++ can ∷ can ∷ [])),
        inl protocol,
      )
  unfolding receive_with
  receive_with-noise fuel byte bytes s rest (here, later) e small asks f =
      let s1 = says s (crc_request ∷ []) in
      let after : ℕ → M ℕ = λ size. next_byte >>= λ control.
      loop fuel (data_round crc16 config size) (progress 1 0 0 control) >>= λ u.
      next_byte >>= λ last.
      loop fuel (final_round crc16 config) (control_of 0 last) >>= λ u. pure size in
      let start : ℕ → M ℕ =
        λ first. loop fuel (header_round crc16 config accepts) (control_of 0 first) >>= after in
      bind_ok (first_control config.start_retries) start (hears s (byte ∷ bytes) rest)
        (first_control-hears crc16 config config.start_retries byte bytes s rest asks)
      ∙ bind_err (loop fuel (header_round crc16 config accepts) (control_of 0 byte)) after
          (hears s1 bytes rest)
          (noisy_loop bytes 0 fuel byte s1 rest here later (omega (arith, e)) small
            (omega (arith, e, f)))
      ∙ ap {B = Receiver × (Error ⊎ ℕ)}
          (λ n. (
            record s {
              incoming = rest;
              sent = (s.sent ++ crc_request ∷ []) ++ (replicate n nak ++ can ∷ can ∷ []);
            },
            inl protocol,
          ))
          e
      ∙ ap {B = Receiver × (Error ⊎ ℕ)}
          (λ xs. (record s { incoming = rest; sent = xs }, inl protocol))
          (append_assoc s.sent (crc_request ∷ [])
            (replicate config.max_retries nak ++ can ∷ can ∷ []))
