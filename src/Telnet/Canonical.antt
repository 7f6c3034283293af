-- ===== src/Telnet/Canonical.antt =====
-- What `decode` of microtun-telnet/src/serial.rs accepts is what `encode` writes.
use microtun.Prelude.{
  ℕ, ◌+◌, ◌/◌, ◌%◌, ◌<◌, ◌≡◌, ◌≢◌, refl, sym, ap, ap₂, subst, ◌∙◌, ◌&&◌, Option, none, some, List,
  [], ◌∷◌, arith, leb, ◌==◌, ◌⊎◌, inl, inr, Bool-cases, Option-cases,
}
use microtun.Prelude.All.{Every}
use microtun.Telnet.Serial.{
  Origin, client, server, server_offset, Command, signature, set_baud_rate, set_data_size,
  set_parity, set_stop_size, set_control, notify_line_state, notify_modem_state,
  flow_control_suspend, flow_control_resume, set_line_state_mask, set_modem_state_mask, purge_data,
  client_code, wire_code, DecodeError, Message, baud_rate_message, data_size_message,
  parity_message, stop_size_message, control_message, line_state_message, modem_state_message,
  line_state_mask_message, modem_state_mask_message, purge_data_message, suspend_message,
  resume_message, command_from_code, from_be32, be32, four_bytes, no_byte, one_byte,
  unknown_command, decode_value, origin_of, decode, parts, value_bytes,
}
use microtun.Telnet.ComPort.{payload_of}

abbrev IsByte : ℕ → Type 0
IsByte b = b < 256

command_from_code-client_code :
    (code : ℕ) (command : Command)
    → command_from_code code ≡ some command
    → client_code command ≡ code
unfolding command_from_code client_code
command_from_code-client_code code command h = ground arith

message_inj : {m m' : Message} → ◌≡◌ {A = DecodeError ⊎ Message} (inr m) (inr m') → m ≡ m'
message_inj h = cc

no_message : {e : DecodeError} {m : Message} → ◌≢◌ {A = DecodeError ⊎ Message} (inl e) (inr m)
no_message h = cc

-- The message has the command, the origin and the value that it was read from.
abbrev Reads : Command → Origin → List ℕ → Message → Type 0
Reads command origin value m = (parts m ≡ (command, origin)) × (value_bytes m ≡ value)

module _ (command : Command) (origin : Origin) (message : ℕ → Message)
    (same : (b : ℕ) → Reads command origin (b ∷ []) (message b)) where
  one_byte-Reads :
      (value : List ℕ) (m : Message) → one_byte message value ≡ inr m → Reads command origin value m
  one_byte-Reads [] m h = absurd (cc)
  one_byte-Reads (b ∷ []) m h = subst (Reads command origin (b ∷ [])) (message_inj h) (same b)
  one_byte-Reads (b ∷ c ∷ value) m h = absurd (cc)

no_byte-Reads :
    (command : Command) (origin : Origin) (message : Message)
    → Reads command origin [] message
    → (value : List ℕ) (m : Message) → no_byte message value ≡ inr m
    → Reads command origin value m
no_byte-Reads command origin message same [] m h =
    subst (Reads command origin []) (message_inj h) same
no_byte-Reads command origin message same (b ∷ value) m h = absurd (cc)

be32-from_be32 :
    (a b c d : ℕ)
    → a < 256
    → b < 256
    → c < 256
    → d < 256
    → be32 (from_be32 a b c d) ≡ a ∷ b ∷ c ∷ d ∷ []
be32-from_be32 a b c d ha hb hc hd =
    let e1 : from_be32 a b c d / 16777216 % 256 ≡ a = omega arith in
    let e2 : from_be32 a b c d / 65536 % 256 ≡ b = omega arith in
    let e3 : from_be32 a b c d / 256 % 256 ≡ c = omega arith in
    let e4 : from_be32 a b c d % 256 ≡ d = omega arith in cc

four_bytes-Reads :
    (origin : Origin) (value : List ℕ) (m : Message)
    → Every IsByte value
    → four_bytes (baud_rate_message origin) value ≡ inr m
    → Reads set_baud_rate origin value m
four_bytes-Reads origin [] m bytes h = absurd (cc)
four_bytes-Reads origin (a ∷ []) m bytes h = absurd (cc)
four_bytes-Reads origin (a ∷ b ∷ []) m bytes h = absurd (cc)
four_bytes-Reads origin (a ∷ b ∷ c ∷ []) m bytes h = absurd (cc)
four_bytes-Reads origin (a ∷ b ∷ c ∷ d ∷ []) m bytes h =
    subst (Reads set_baud_rate origin (a ∷ b ∷ c ∷ d ∷ [])) (message_inj h)
      (refl, be32-from_be32 a b c d bytes.0 bytes.1.0 bytes.1.1.0 bytes.1.1.1.0)
four_bytes-Reads origin (a ∷ b ∷ c ∷ d ∷ e ∷ value) m bytes h = absurd (cc)

decode_value-Reads :
    (command : Command) (origin : Origin) (value : List ℕ) (m : Message)
    → Every IsByte value
    → decode_value command origin value ≡ inr m
    → Reads command origin value m
unfolding decode_value
decode_value-Reads signature origin value m bytes h =
    subst (Reads signature origin value) (message_inj h) (refl, refl)
decode_value-Reads set_baud_rate origin value m bytes h = four_bytes-Reads origin value m bytes h
decode_value-Reads flow_control_suspend origin value m bytes h =
    no_byte-Reads flow_control_suspend origin (suspend_message origin) (refl, refl) value m h
decode_value-Reads flow_control_resume origin value m bytes h =
    no_byte-Reads flow_control_resume origin (resume_message origin) (refl, refl) value m h
decode_value-Reads set_data_size origin value m bytes h =
    one_byte-Reads set_data_size origin (data_size_message origin) (λ b. (refl, refl)) value m h
decode_value-Reads set_parity origin value m bytes h =
    one_byte-Reads set_parity origin (parity_message origin) (λ b. (refl, refl)) value m h
decode_value-Reads set_stop_size origin value m bytes h =
    one_byte-Reads set_stop_size origin (stop_size_message origin) (λ b. (refl, refl)) value m h
decode_value-Reads set_control origin value m bytes h =
    one_byte-Reads set_control origin (control_message origin) (λ b. (refl, refl)) value m h
decode_value-Reads notify_line_state origin value m bytes h =
    one_byte-Reads notify_line_state origin (line_state_message origin) (λ b. (refl, refl)) value m
      h
decode_value-Reads notify_modem_state origin value m bytes h =
    one_byte-Reads notify_modem_state origin (modem_state_message origin) (λ b. (refl, refl)) value
      m h
decode_value-Reads set_line_state_mask origin value m bytes h =
    one_byte-Reads set_line_state_mask origin (line_state_mask_message origin) (λ b. (refl, refl))
      value m h
decode_value-Reads set_modem_state_mask origin value m bytes h =
    one_byte-Reads set_modem_state_mask origin (modem_state_mask_message origin) (λ b. (refl, refl))
      value m h
decode_value-Reads purge_data origin value m bytes h =
    one_byte-Reads purge_data origin (purge_data_message origin) (λ b. (refl, refl)) value m h

-- A byte stands for a client's code, or a server's.
Stands : Origin → ℕ → ℕ → Type 0
Stands client code byte = code ≡ byte
Stands server code byte = code + server_offset ≡ byte

origin_of-Stands : (byte : ℕ) → Stands (origin_of byte).0 (origin_of byte).1 byte
unfolding Stands
origin_of-Stands byte = elim (Bool-cases (byte == 0)) [
  | inl e ↦ rw e (ground arith)
  | inr e ↦ elim (Bool-cases (leb 100 byte && leb byte 112)) [
    | inl e' ↦ rw e (rw e' (ground arith))
    | inr e' ↦ rw e (rw e' refl)
  ]
]

wire_code-Stands :
    (command : Command) (origin : Origin) (code byte : ℕ)
    → client_code command ≡ code
    → Stands origin code byte
    → wire_code command origin ≡ byte
unfolding wire_code Stands
wire_code-Stands command client code byte c h = c ∙ h
wire_code-Stands command server code byte c h = ap (λ k. k + server_offset) c ∙ h

-- A payload that `decode` accepts is the one that `encode` writes for the message: a message has one form
-- on the wire. The payload is of bytes.
pub payload_of-decode :
    (payload : List ℕ) (m : Message)
    → Every IsByte payload
    → decode payload ≡ inr m
    → payload_of m ≡ payload
unfolding decode
payload_of-decode [] m bytes h = absurd (cc)
payload_of-decode (byte ∷ value) m bytes h =
    let read : Option Command → DecodeError ⊎ Message = λ o. elim o [
      | none ↦ inl (unknown_command byte)
      | some command ↦ decode_value command (origin_of byte).0 value
    ] in
    elim (Option-cases (command_from_code (origin_of byte).1)) [
      | inl e ↦ absurd (no_message (sym (ap read e) ∙ h))
      | inr (command, e) ↦
          let value_read : decode_value command (origin_of byte).0 value ≡ inr m =
            sym (ap read e) ∙ h in
          let (named, value_same) =
            decode_value-Reads command (origin_of byte).0 value m bytes.1 value_read in
          let code = command_from_code-client_code (origin_of byte).1 command e in
          let wire : wire_code (parts m).0 (parts m).1 ≡ byte =
            ap (λ p. wire_code p.0 p.1) named
            ∙ wire_code-Stands command (origin_of byte).0 (origin_of byte).1 byte code
                (origin_of-Stands byte) in
          ap₂ (λ b bs. b ∷ bs) wire value_same
    ]
