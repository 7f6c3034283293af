-- ===== src/Telnet/Tests.antt =====
-- Runs of the codec of microtun-telnet/src.
use microtun.Prelude.{ℕ, ◌≤◌, ◌≡◌, ◌⊎◌, refl, true, List, [], ◌∷◌, ◌++◌, arith, inl, inr, ◌==◌}
use microtun.Telnet.{
  iac, will, do_option, Policy, option_enabled, us, Telnet, new, is_yes, is_no, want_yes, in_data,
  new_slot, request_state, receive_positive, transition_event, is_pending,
}
use microtun.Telnet.Options.{
  negotiate, receive_do, receive_will, slot_mut, position, find_slot, us_enabled, him_enabled,
  us_pending, him_pending, binary_mode_enabled, binary_mode_refused, request_us, request_him,
  request_binary_mode,
}
use microtun.Telnet.Codec.{feed, feed_in, command, push_subnegotiation}
use microtun.Telnet.Binary.{
  Arrival, arrived, BinaryMode, feed_binary, feed_wire_byte, await_binary, negotiate_binary,
  write_data_unflushed,
}
use microtun.Telnet.Escaping.{feed_all, plains, feed-write_data}
use microtun.Telnet.Frames.{frame, received, feed-push_subnegotiation}
use microtun.Telnet.Negotiation.{
  Pair, ask_us, deliver_us, deliver_him, at_us, at_him, Reaches, begin, asked_us, delivered, Drains,
  done, next,
}
use microtun.Telnet.Settles.{negotiation_ends, negotiation_agrees}
use microtun.Telnet.Slots.{view, answered, negotiate-view}
use microtun.Telnet.Serial.{
  opt_com_port, server, Message, baud_rate_message, wire_code, encode, encode_value, decode,
  decode_value, command_from_code,
}
use microtun.Telnet.ComPort.{payload_of, decode-encode}
use microtun.Telnet.Canonical.{payload_of-decode}
use microtun.Telnet.Handoff.{payloads, stream, negotiate-stream}

-- BINARY is option 0.
abbrev binary_only : Policy
binary_only = record { support_us = λ option. option == 0; support_him = λ option. option == 0 }

abbrev codec : Telnet
codec = record {
  policy = binary_only;
  sb_cap = 4;
  option_cap = 2;
  rx = in_data;
  subneg_option = 0;
  subneg = [];
  options = [];
}

codec_is_new : new binary_only 4 2 ≡ codec
unfolding new
codec_is_new = refl

-- The option is accepted, and an answer goes out.
feed_do : feed_all 16 codec (iac ∷ do_option ∷ 0 ∷ []) [] ≡ (
  record codec { options = record { option = 0; us_state = is_yes; him_state = is_no } ∷ [] },
  iac ∷ will ∷ 0 ∷ [],
  option_enabled us 0 ∷ [],
)
unfolding feed_all feed feed_in command negotiate receive_do slot_mut position receive_positive
feed_do = refl

feed-write_data_example :
    feed_all 16 codec (write_data_unflushed [] (7 ∷ 255 ∷ 8 ∷ [])) []
    ≡ (codec, [], plains (7 ∷ 255 ∷ 8 ∷ []))
feed-write_data_example = feed-write_data 16 codec (7 ∷ 255 ∷ 8 ∷ []) [] refl

wire_bytes : write_data_unflushed [] (7 ∷ 255 ∷ 8 ∷ []) ≡ 7 ∷ 255 ∷ 255 ∷ 8 ∷ []
unfolding write_data_unflushed
wire_bytes = refl

pushed : push_subnegotiation 8 [] 31 (9 ∷ 255 ∷ []) ≡ (frame 31 (9 ∷ 255 ∷ []), true)
unfolding push_subnegotiation
pushed = refl

feed-push_subnegotiation_example :
    (bytes : List ℕ) × (frame 31 (9 ∷ 255 ∷ []) ≡ [] ++ bytes)
    × (feed_all 16 codec bytes [] ≡ received codec 31 (9 ∷ 255 ∷ []) [])
feed-push_subnegotiation_example =
    feed-push_subnegotiation 16 codec [] 8 [] (frame 31 (9 ∷ 255 ∷ [])) 31 (9 ∷ 255 ∷ []) refl
      (omega arith) (omega arith) (omega arith) pushed

-- One request that is accepted
abbrev asked : Pair
asked = record { us_state = want_yes; to_him = will ∷ []; to_us = []; him_state = is_no }

abbrev accepted : Pair
accepted = record { us_state = want_yes; to_him = []; to_us = do_option ∷ []; him_state = is_yes }

abbrev agreed : Pair
agreed = record { us_state = is_yes; to_him = []; to_us = []; him_state = is_yes }

asked-Reaches : Reaches 0 asked
unfolding ask_us
asked-Reaches = asked_us true begin

accepting : Drains 0 2 asked agreed
unfolding deliver_us deliver_him
accepting = next (at_him true will [] refl) (next (at_us true do_option [] refl) done)

agreed-Reaches : Reaches 0 agreed
unfolding ask_us deliver_us deliver_him
agreed-Reaches =
    delivered (delivered (asked_us true begin) (at_him true will [] refl))
      (at_us true do_option [] refl)

negotiation_ends_example : 2 ≤ 5
negotiation_ends_example = negotiation_ends 0 asked-Reaches accepting

negotiation_agrees_example :
    ((agreed.us_state ≡ is_yes) × (agreed.him_state ≡ is_yes))
    ⊎ ((agreed.us_state ≡ is_no) × (agreed.him_state ≡ is_no))
negotiation_agrees_example = negotiation_agrees 0 agreed-Reaches refl refl

negotiate-view_example :
    (view (negotiate 16 codec do_option 0 []).0.options 5 ≡ new_slot 5)
    × ((negotiate 16 codec do_option 0 []).1
        ≡ (answered binary_only 16 do_option (new_slot 0) []).1)
unfolding find_slot
negotiate-view_example =
    negotiate-view 16 codec 0 [] (inr (omega arith)) do_option 5 (inl (inl refl))

-- The peer accepts BINARY both ways, and data arrives on the way.
abbrev line : List Arrival
line =
    arrived iac
    ∷ arrived do_option
    ∷ arrived 0
    ∷ arrived 65
    ∷ arrived iac
    ∷ arrived will
    ∷ arrived 0
    ∷ arrived 66
    ∷ []

abbrev adapter : BinaryMode
adapter = record { incoming = line; written = []; telnet = codec; pending = [] }

abbrev ready : Telnet
ready = record codec { options = record { option = 0; us_state = is_yes; him_state = is_yes } ∷ [] }

abbrev handed : BinaryMode
handed = record {
  incoming = arrived 66 ∷ [];
  written = iac ∷ will ∷ 0 ∷ iac ∷ do_option ∷ 0 ∷ [];
  telnet = ready;
  pending = 65 ∷ [];
}

negotiated : negotiate_binary adapter ≡ (handed, inr tt)
unfolding negotiate_binary await_binary feed_wire_byte binary_mode_enabled binary_mode_refused feed
    feed_in command negotiate receive_do receive_will slot_mut position receive_positive find_slot
    request_binary_mode request_us request_him request_state feed_binary us_enabled him_enabled
    us_pending him_pending is_pending transition_event
negotiated = refl

negotiate-stream_example :
    (binary_mode_enabled ready ≡ true)
    × (stream handed ≡ payloads line (request_binary_mode 6 codec []).0)
negotiate-stream_example = negotiate-stream adapter handed negotiated

-- A server that reports 115200 bits a second
abbrev rate : Message
rate = baud_rate_message server 115200

abbrev serial : Telnet
serial = record codec { sb_cap = 8 }

encoded : encode 16 rate [] ≡ (frame opt_com_port (101 ∷ 0 ∷ 1 ∷ 194 ∷ 0 ∷ []), true)
unfolding encode encode_value wire_code
encoded = refl

decode-encode_example :
    (bytes : List ℕ) × (frame opt_com_port (101 ∷ 0 ∷ 1 ∷ 194 ∷ 0 ∷ []) ≡ [] ++ bytes)
    × (feed_all 16 serial bytes [] ≡ received serial opt_com_port (payload_of rate) [])
    × (decode (payload_of rate) ≡ inr rate)
decode-encode_example =
    decode-encode 16 serial [] 16 rate [] (frame opt_com_port (101 ∷ 0 ∷ 1 ∷ 194 ∷ 0 ∷ []))
      (omega arith) refl (omega arith) (omega arith) (omega arith) encoded

decoded : decode (101 ∷ 0 ∷ 1 ∷ 194 ∷ 0 ∷ []) ≡ inr rate
unfolding decode command_from_code decode_value
decoded = refl

payload_of-decode_example : payload_of rate ≡ 101 ∷ 0 ∷ 1 ∷ 194 ∷ 0 ∷ []
payload_of-decode_example =
    payload_of-decode (101 ∷ 0 ∷ 1 ∷ 194 ∷ 0 ∷ []) rate
      (omega arith, (omega arith, (omega arith, (omega arith, (omega arith, tt))))) decoded
