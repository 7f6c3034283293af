-- ===== src/Telnet/ComPort.antt =====
-- The round trip of microtun-telnet/src/serial.rs through the codec of lib.rs.
use microtun.Prelude.{
  ℕ, ◌+◌, ◌-◌, ◌/◌, ◌%◌, ◌≤◌, ◌<◌, ◌≡◌, refl, sym, ap, ◌∙◌, true, false, List, [], ◌∷◌, ◌++◌, arith,
  leb, ltb, ◌==◌, length, min, u64_max, inl, inr, Bool-cases, append_assoc, length-append,
}
use microtun.Telnet.{iac, sb, se, Telnet, in_data}
use microtun.Telnet.Codec.{count_iac, extend, push_payload, push_subnegotiation}
use microtun.Telnet.Escaping.{feed_all}
use microtun.Telnet.Frames.{received, feed-push_subnegotiation}
use microtun.Telnet.Serial.{
  opt_com_port, Origin, client, server, Command, signature, set_baud_rate, set_data_size,
  set_parity, set_stop_size, set_control, notify_line_state, notify_modem_state,
  flow_control_suspend, flow_control_resume, set_line_state_mask, set_modem_state_mask, purge_data,
  client_code, wire_code, Message, signature_message, baud_rate_message, data_size_message,
  parity_message, stop_size_message, control_message, line_state_message, modem_state_message,
  line_state_mask_message, modem_state_mask_message, purge_data_message, suspend_message,
  resume_message, from_be32, decode, parts, value_bytes, encode_value, encode,
}

-- The payload of a message
abbrev pub payload_of : Message → List ℕ
payload_of message = wire_code (parts message).0 (parts message).1 ∷ value_bytes message

-- The bit rate of a message is a `u32`.
abbrev pub IsU32 : Message → Type 0
IsU32 (baud_rate_message origin value) = value < 4294967296
IsU32 _ = Unit {0}

from_be32-be32 :
    (v : ℕ)
    → v < 4294967296
    → from_be32 (v / 16777216 % 256) (v / 65536 % 256) (v / 256 % 256) (v % 256) ≡ v
from_be32-be32 v h = omega arith

decode-payload_of : (message : Message) → IsU32 message → decode (payload_of message) ≡ inr message
unfolding decode wire_code
decode-payload_of (signature_message client text) h = refl
decode-payload_of (signature_message server text) h = refl
decode-payload_of (baud_rate_message client value) h =
    ap (λ v. inr (baud_rate_message client v)) (from_be32-be32 value h)
decode-payload_of (baud_rate_message server value) h =
    ap (λ v. inr (baud_rate_message server v)) (from_be32-be32 value h)
decode-payload_of (suspend_message client) h = refl
decode-payload_of (suspend_message server) h = refl
decode-payload_of (resume_message client) h = refl
decode-payload_of (resume_message server) h = refl
decode-payload_of (data_size_message client value) h = refl
decode-payload_of (data_size_message server value) h = refl
decode-payload_of (parity_message client value) h = refl
decode-payload_of (parity_message server value) h = refl
decode-payload_of (stop_size_message client value) h = refl
decode-payload_of (stop_size_message server value) h = refl
decode-payload_of (control_message client value) h = refl
decode-payload_of (control_message server value) h = refl
decode-payload_of (line_state_message client value) h = refl
decode-payload_of (line_state_message server value) h = refl
decode-payload_of (modem_state_message client value) h = refl
decode-payload_of (modem_state_message server value) h = refl
decode-payload_of (line_state_mask_message client value) h = refl
decode-payload_of (line_state_mask_message server value) h = refl
decode-payload_of (modem_state_mask_message client value) h = refl
decode-payload_of (modem_state_mask_message server value) h = refl
decode-payload_of (purge_data_message client value) h = refl
decode-payload_of (purge_data_message server value) h = refl

client_code-bound : (command : Command) → client_code command < 13
unfolding client_code
client_code-bound signature = omega arith
client_code-bound set_baud_rate = omega arith
client_code-bound set_data_size = omega arith
client_code-bound set_parity = omega arith
client_code-bound set_stop_size = omega arith
client_code-bound set_control = omega arith
client_code-bound notify_line_state = omega arith
client_code-bound notify_modem_state = omega arith
client_code-bound flow_control_suspend = omega arith
client_code-bound flow_control_resume = omega arith
client_code-bound set_line_state_mask = omega arith
client_code-bound set_modem_state_mask = omega arith
client_code-bound purge_data = omega arith

wire_code-bound : (command : Command) (origin : Origin) → wire_code command origin < iac
unfolding wire_code
wire_code-bound command client = omega (arith, client_code-bound command)
wire_code-bound command server = omega (arith, client_code-bound command)

-- The code of a command follows the opening of its subnegotiation.
push_payload-code :
    (n : ℕ) (out : List ℕ) (code : ℕ) (value : List ℕ)
    → (code == iac) ≡ false
    → length out + 4 ≤ n
    → push_payload n (extend n out (iac ∷ sb ∷ opt_com_port ∷ [])) (code ∷ value)
      ≡ push_payload n (extend n out (iac ∷ sb ∷ opt_com_port ∷ code ∷ [])) value
unfolding push_payload
push_payload-code n out code value c room =
    let first : leb (length out + 3) n ≡ true = ground arith in
    let whole : leb (length out + 4) n ≡ true = ground arith in
    let start = iac ∷ sb ∷ opt_com_port ∷ [] in
    let second : ltb (length (out ++ start)) n ≡ true = ground (arith, length-append out start) in
    rw c (
      rw first (
        rw whole
          (rw second (ap (λ xs. push_payload n xs value) (append_assoc out start (code ∷ []))))))

-- A command is the subnegotiation of its code and its value.
encode_value-push_subnegotiation :
    (n : ℕ) (out : List ℕ) (code : ℕ) (value : List ℕ)
    → n < u64_max
    → (code == iac) ≡ false
    → encode_value n out code value ≡ push_subnegotiation n out opt_com_port (code ∷ value)
unfolding encode_value push_subnegotiation
encode_value-push_subnegotiation n out code value small c =
    let required : ℕ = min (min (6 + length value) u64_max + count_iac value) u64_max in
    let same : min (min (5 + length (code ∷ value)) u64_max + count_iac (code ∷ value)) u64_max
        ≡ required =
      ground arith in
    elim (Bool-cases (ltb (n - length out) required)) [
      | inl e ↦ rw same (rw e refl)
      | inr e ↦
          let room : length out + 4 ≤ n = ground arith in
          rw same (
            rw e (
              ap (λ xs. (extend n xs (iac ∷ se ∷ []), true))
                (sym (push_payload-code n out code value c room))))
    ]

-- What `encode` writes for a message, the codec gives back as one event of the COM port option, with a
-- payload that `decode` reads as the message. The codec is between commands and its buffer holds
-- the payload, the capacity of the vector is below the largest `usize`, the message fits, and a bit rate
-- is a `u32`.
pub decode-encode :
    (m : ℕ) (self : Telnet) (reply : List ℕ) (n : ℕ) (message : Message) (out out' : List ℕ)
    → IsU32 message
    → self.rx ≡ in_data
    → length (payload_of message) ≤ self.sb_cap
    → n < u64_max
    → length out ≤ n
    → encode n message out ≡ (out', true)
    → (bytes : List ℕ) × (out' ≡ out ++ bytes)
      × (feed_all m self bytes reply ≡ received self opt_com_port (payload_of message) reply)
      × (decode (payload_of message) ≡ inr message)
unfolding encode
decode-encode m self reply n message out out' u h room small fits done =
    let code = wire_code (parts message).0 (parts message).1 in
    let value = value_bytes message in
    let plain : (code == iac) ≡ false =
      ground (arith, wire_code-bound (parts message).0 (parts message).1) in
    let pushed = sym (encode_value-push_subnegotiation n out code value small plain) ∙ done in
    let (bytes, appended, fed) =
      feed-push_subnegotiation m self reply n out out' opt_com_port (payload_of message) h room
        small fits pushed in
    (bytes, appended, fed, decode-payload_of message u)
