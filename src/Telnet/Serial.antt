-- ===== src/Telnet/Serial.antt =====
-- microtun-telnet/src/serial.rs: the commands of the COM port option, from and to their bytes.
use microtun.Prelude.{
  ℕ, ◌+◌, ◌-◌, ◌*◌, ◌/◌, ◌%◌, Bool, true, false, ◌&&◌, Option, none, some, List, [], ◌∷◌, leb, ltb,
  ◌==◌, if◌then◌else◌, length, min, u64_max, ◌⊎◌, inl, inr,
}
use microtun.Telnet.{iac, sb, se}
use microtun.Telnet.Codec.{count_iac, extend, push_payload}

abbrev pub opt_com_port : ℕ
opt_com_port = 44

abbrev pub server_offset : ℕ
server_offset = 100

pub data Origin : Type 0 where
  client server : Origin

pub data Command : Type 0 where
  signature set_baud_rate set_data_size set_parity set_stop_size set_control notify_line_state
        notify_modem_state flow_control_suspend flow_control_resume set_line_state_mask
        set_modem_state_mask purge_data :
      Command

-- `Command::client_code`
unfoldable pub client_code : Command → ℕ
client_code signature = 0
client_code set_baud_rate = 1
client_code set_data_size = 2
client_code set_parity = 3
client_code set_stop_size = 4
client_code set_control = 5
client_code notify_line_state = 6
client_code notify_modem_state = 7
client_code flow_control_suspend = 8
client_code flow_control_resume = 9
client_code set_line_state_mask = 10
client_code set_modem_state_mask = 11
client_code purge_data = 12

-- `Command::wire_code`; both its arms for `Signature` are what its other arms give.
unfoldable pub wire_code : Command → Origin → ℕ
unfolding client_code
wire_code command client = client_code command
wire_code command server = client_code command + server_offset

pub data DecodeError : Type 0 where
  empty invalid_length : DecodeError
  unknown_command : ℕ → DecodeError

-- `Message`. A message is of a command and an origin; three kinds carry no byte value.
pub data Message : Type 0 where
  signature_message : Origin → List ℕ → Message
  baud_rate_message : Origin → ℕ → Message
  data_size_message parity_message stop_size_message control_message line_state_message
        modem_state_message line_state_mask_message modem_state_mask_message purge_data_message :
      Origin → ℕ → Message
  suspend_message resume_message : Origin → Message

unfoldable pub command_from_code : ℕ → Option Command
command_from_code code =
    if code == 0
    then some signature
    else if code == 1
    then some set_baud_rate
    else if code == 2
    then some set_data_size
    else if code == 3
    then some set_parity
    else if code == 4
    then some set_stop_size
    else if code == 5
    then some set_control
    else if code == 6
    then some notify_line_state
    else if code == 7
    then some notify_modem_state
    else if code == 8
    then some flow_control_suspend
    else if code == 9
    then some flow_control_resume
    else if code == 10
    then some set_line_state_mask
    else if code == 11
    then some set_modem_state_mask
    else if code == 12
    then some purge_data
    else none

-- `u32::from_be_bytes` and `u32::to_be_bytes`
abbrev pub from_be32 : ℕ → ℕ → ℕ → ℕ → ℕ
from_be32 a b c d = a * 16777216 + b * 65536 + c * 256 + d

abbrev pub be32 : ℕ → List ℕ
be32 value = value / 16777216 % 256 ∷ value / 65536 % 256 ∷ value / 256 % 256 ∷ value % 256 ∷ []

-- The arms of `decode` for a value of four bytes, of none, and of one
abbrev pub four_bytes : (ℕ → Message) → List ℕ → DecodeError ⊎ Message
four_bytes message (a ∷ b ∷ c ∷ d ∷ []) = inr (message (from_be32 a b c d))
four_bytes message _ = inl invalid_length

abbrev pub no_byte : Message → List ℕ → DecodeError ⊎ Message
no_byte message [] = inr message
no_byte message (b ∷ value) = inl invalid_length

abbrev pub one_byte : (ℕ → Message) → List ℕ → DecodeError ⊎ Message
one_byte message (b ∷ []) = inr (message b)
one_byte message _ = inl invalid_length

-- The match of `decode` on the command
unfoldable pub decode_value : Command → Origin → List ℕ → DecodeError ⊎ Message
decode_value signature origin value = inr (signature_message origin value)
decode_value set_baud_rate origin value = four_bytes (baud_rate_message origin) value
decode_value flow_control_suspend origin value = no_byte (suspend_message origin) value
decode_value flow_control_resume origin value = no_byte (resume_message origin) value
decode_value set_data_size origin value = one_byte (data_size_message origin) value
decode_value set_parity origin value = one_byte (parity_message origin) value
decode_value set_stop_size origin value = one_byte (stop_size_message origin) value
decode_value set_control origin value = one_byte (control_message origin) value
decode_value notify_line_state origin value = one_byte (line_state_message origin) value
decode_value notify_modem_state origin value = one_byte (modem_state_message origin) value
decode_value set_line_state_mask origin value = one_byte (line_state_mask_message origin) value
decode_value set_modem_state_mask origin value = one_byte (modem_state_mask_message origin) value
decode_value purge_data origin value = one_byte (purge_data_message origin) value

-- The origin and the code of a client that a byte stands for
abbrev pub origin_of : ℕ → Origin × ℕ
origin_of byte =
    if byte == 0
    then (client, 0)
    else if leb 100 byte && leb byte 112
    then (server, byte - server_offset)
    else (client, byte)

unfoldable pub decode : List ℕ → DecodeError ⊎ Message
unfolding command_from_code decode_value
decode [] = inl empty
decode (byte ∷ value) = elim (command_from_code (origin_of byte).1) [
  | none ↦ inl (unknown_command byte)
  | some command ↦ decode_value command (origin_of byte).0 value
]

-- The arms of `decode_from`
abbrev pub with_origin : Origin → Message → Message
with_origin origin (signature_message _ text) = signature_message origin text
with_origin origin message = message

-- `decode_from`
unfoldable pub decode_from : Origin → List ℕ → DecodeError ⊎ Message
unfolding decode
decode_from origin payload = elim (decode payload) [
  | inl e ↦ inl e
  | inr message ↦ inr (with_origin origin message)
]

-- `Message::command` and `Message::origin`
abbrev pub parts : Message → Command × Origin
parts (signature_message origin text) = (signature, origin)
parts (baud_rate_message origin value) = (set_baud_rate, origin)
parts (data_size_message origin value) = (set_data_size, origin)
parts (parity_message origin value) = (set_parity, origin)
parts (stop_size_message origin value) = (set_stop_size, origin)
parts (control_message origin value) = (set_control, origin)
parts (line_state_message origin value) = (notify_line_state, origin)
parts (modem_state_message origin value) = (notify_modem_state, origin)
parts (suspend_message origin) = (flow_control_suspend, origin)
parts (resume_message origin) = (flow_control_resume, origin)
parts (line_state_mask_message origin value) = (set_line_state_mask, origin)
parts (modem_state_mask_message origin value) = (set_modem_state_mask, origin)
parts (purge_data_message origin value) = (purge_data, origin)

-- The value that `encode` writes
abbrev pub value_bytes : Message → List ℕ
value_bytes (signature_message origin text) = text
value_bytes (baud_rate_message origin value) = be32 value
value_bytes (suspend_message origin) = []
value_bytes (resume_message origin) = []
value_bytes (data_size_message origin value) = value ∷ []
value_bytes (parity_message origin value) = value ∷ []
value_bytes (stop_size_message origin value) = value ∷ []
value_bytes (control_message origin value) = value ∷ []
value_bytes (line_state_message origin value) = value ∷ []
value_bytes (modem_state_message origin value) = value ∷ []
value_bytes (line_state_mask_message origin value) = value ∷ []
value_bytes (modem_state_mask_message origin value) = value ∷ []
value_bytes (purge_data_message origin value) = value ∷ []

-- `encode_value`, to a vector of capacity `n`; its loop is that of `push_subnegotiation`.
unfoldable pub encode_value : ℕ → List ℕ → ℕ → List ℕ → List ℕ × Bool
unfolding push_payload
encode_value n out code value =
    let required = min (min (6 + length value) u64_max + count_iac value) u64_max in
    if ltb (n - length out) required then (out, false) else (
      extend n (push_payload n (extend n out (iac ∷ sb ∷ opt_com_port ∷ code ∷ [])) value)
          (iac ∷ se ∷ []),
      true,
    )

unfoldable pub encode : ℕ → Message → List ℕ → List ℕ × Bool
unfolding wire_code encode_value
encode n message out =
    encode_value n out (wire_code (parts message).0 (parts message).1) (value_bytes message)
