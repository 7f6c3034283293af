-- ===== src/Telnet/Codec.antt =====
-- microtun-telnet/src/lib.rs: `Telnet::feed` and `push_subnegotiation`.
use microtun.Prelude.{
  ℕ, ◌+◌, ◌-◌, Bool, true, false, ◌||◌, Option, none, some, List, [], ◌∷◌, ◌++◌, leb, ltb, ◌==◌,
  if◌then◌else◌, length, min, u64_max,
}
use microtun.Telnet.{
  iac, dont, do_option, wont, will, sb, se, brk, ip, ayt, ec, el, TelnetEvent, plain, interrupt,
  break, are_you_there, erase_character, erase_line, subnegotiated, RxState, in_data, in_iac,
  in_verb, in_subneg_option, in_subneg, in_subneg_iac, Telnet,
}
use microtun.Telnet.Options.{negotiate}

-- A push to a full vector changes nothing.
abbrev push : ℕ → List ℕ → ℕ → List ℕ
push cap xs x = if ltb (length xs) cap then xs ++ x ∷ [] else xs

-- `Telnet::feed` after IAC
unfoldable pub command : Telnet → ℕ → Telnet × Option TelnetEvent
command self byte =
    let next = record self { rx = in_data } in
    if byte == iac
    then (next, some (plain iac))
    else if (byte == do_option) || (byte == dont) || (byte == will) || (byte == wont)
    then (record self { rx = in_verb byte }, none)
    else if byte == sb
    then (record self { rx = in_subneg_option }, none)
    else if byte == ip
    then (next, some interrupt)
    else if byte == brk
    then (next, some break)
    else if byte == ayt
    then (next, some are_you_there)
    else if byte == ec
    then (next, some erase_character)
    else if byte == el
    then (next, some erase_line)
    else (next, none)

-- `Telnet::feed`, by the receiver's state
unfoldable pub feed_in : RxState → ℕ → Telnet → ℕ → List ℕ → Telnet × List ℕ × Option TelnetEvent
unfolding command negotiate
feed_in in_data n self byte reply =
    if byte == iac
    then (record self { rx = in_iac }, reply, none)
    else (self, reply, some (plain byte))
feed_in in_iac n self byte reply = let (self', event) = command self byte in (self', reply, event)
feed_in (in_verb verb) n self byte reply =
    negotiate n (record self { rx = in_data }) verb byte reply
feed_in in_subneg_option n self byte reply =
    (record self { subneg_option = byte; subneg = []; rx = in_subneg }, reply, none)
feed_in in_subneg n self byte reply =
    if byte == iac
    then (record self { rx = in_subneg_iac }, reply, none)
    else (record self { subneg = push self.sb_cap self.subneg byte }, reply, none)
feed_in in_subneg_iac n self byte reply =
    if byte == se
    then (record self { rx = in_data }, reply, some (subnegotiated self.subneg_option))
    else if byte == iac
    then (record self { subneg = push self.sb_cap self.subneg iac; rx = in_subneg }, reply, none)
    else (record self { rx = in_data }, reply, none)

unfoldable pub feed : ℕ → Telnet → ℕ → List ℕ → Telnet × List ℕ × Option TelnetEvent
unfolding feed_in
feed n self byte reply = feed_in self.rx n self byte reply

abbrev pub count_iac : List ℕ → ℕ
count_iac [] = 0
count_iac (byte ∷ bytes) = (if byte == iac then 1 else 0) + count_iac bytes

-- `extend_from_slice`, which changes nothing where the slice does not fit.
abbrev pub extend : ℕ → List ℕ → List ℕ → List ℕ
extend n out bytes = if leb (length out + length bytes) n then out ++ bytes else out

-- The loop of `push_subnegotiation`
unfoldable pub push_payload : ℕ → List ℕ → List ℕ → List ℕ
push_payload n out [] = out
push_payload n out (byte ∷ payload) =
    let out' = push n out byte in
    push_payload n (if byte == iac then push n out' iac else out') payload

-- `push_subnegotiation`, to a vector of capacity `n`
unfoldable pub push_subnegotiation : ℕ → List ℕ → ℕ → List ℕ → List ℕ × Bool
unfolding push_payload
push_subnegotiation n out option payload =
    let required = min (min (5 + length payload) u64_max + count_iac payload) u64_max in
    if ltb (n - length out) required then (out, false) else (
      extend n (push_payload n (extend n out (iac ∷ sb ∷ option ∷ [])) payload) (iac ∷ se ∷ []),
      true,
    )
