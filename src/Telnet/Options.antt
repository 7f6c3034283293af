-- ===== src/Telnet/Options.antt =====
-- microtun-telnet/src/lib.rs: the slots of the options, what this endpoint asks for, and `negotiate`.
use microtun.Prelude.{
  ℕ, suc, ◌-◌, Bool, true, false, ◌&&◌, ◌||◌, not, Option, none, some, List, [], ◌∷◌, ◌++◌, ltb,
  ◌==◌, if◌then◌else◌, length, get_or, set,
}
use microtun.Telnet.{
  dont, do_option, wont, will, opt_binary, Side, us, him, TelnetEvent, option_refused, QState,
  want_yes, OptionSlot, new_slot, Telnet, is_off, is_on, is_pending, request_state,
  receive_positive, receive_negative, transition_event,
}

-- The index of the first slot that passes the test.
unfoldable pub position : (OptionSlot → Bool) → List OptionSlot → Option ℕ
position test [] = none
position test (slot ∷ slots) =
    if test slot then some 0 else elim (position test slots) [ none ↦ none | some i ↦ some (suc i) ]

-- `Telnet::slot_mut`: the slots and the index of the option's.
unfoldable pub slot_mut : Telnet → ℕ → List OptionSlot × ℕ
unfolding position
slot_mut self option = elim (position (λ slot. slot.option == option) self.options) [
  | some index ↦ (self.options, index)
  | none ↦
      if ltb (length self.options) self.option_cap
      then (self.options ++ new_slot option ∷ [], length self.options)
      else let index : ℕ =
          elim (position (λ slot. is_off slot.us_state && is_off slot.him_state) self.options) [
            | some i ↦ i
            | none ↦ length self.options - 1
          ] in
        (set self.options index (new_slot option), index)
]

-- `Telnet::slot`
unfoldable pub find_slot : ℕ → List OptionSlot → Option OptionSlot
find_slot option [] = none
find_slot option (slot ∷ slots) =
    if slot.option == option then some slot else find_slot option slots

unfoldable pub us_enabled : Telnet → ℕ → Bool
unfolding find_slot
us_enabled self option = elim (find_slot option self.options) [
  | none ↦ false
  | some slot ↦ is_on slot.us_state
]

unfoldable pub him_enabled : Telnet → ℕ → Bool
unfolding find_slot
him_enabled self option = elim (find_slot option self.options) [
  | none ↦ false
  | some slot ↦ is_on slot.him_state
]

unfoldable pub us_pending : Telnet → ℕ → Bool
unfolding find_slot
us_pending self option = elim (find_slot option self.options) [
  | none ↦ false
  | some slot ↦ is_pending slot.us_state
]

unfoldable pub him_pending : Telnet → ℕ → Bool
unfolding find_slot
him_pending self option = elim (find_slot option self.options) [
  | none ↦ false
  | some slot ↦ is_pending slot.him_state
]

unfoldable pub binary_mode_enabled : Telnet → Bool
unfolding us_enabled him_enabled
binary_mode_enabled self = us_enabled self opt_binary && him_enabled self opt_binary

unfoldable pub binary_mode_refused : Telnet → Bool
unfolding us_enabled him_enabled us_pending him_pending
binary_mode_refused self =
    (not (us_enabled self opt_binary) && not (us_pending self opt_binary))
    || (not (him_enabled self opt_binary) && not (him_pending self opt_binary))

-- The methods below write to a vector of capacity `n`, and return it.
abbrev pub slot_at : List OptionSlot × ℕ → OptionSlot
slot_at (slots, index) = get_or slots index (new_slot 0)

abbrev pub store : Telnet → List OptionSlot × ℕ → OptionSlot → Telnet
store self (slots, index) slot = record self { options = set slots index slot }

unfoldable pub request_us : ℕ → Telnet → ℕ → List ℕ → Telnet × List ℕ
unfolding slot_mut request_state
request_us n self option out =
    let at = slot_mut self option in
    let (next, out') = request_state (slot_at at).us_state true will wont option n out in
    (store self at (record (slot_at at) { us_state = next }), out')

unfoldable disable_us : ℕ → Telnet → ℕ → List ℕ → Telnet × List ℕ
unfolding slot_mut request_state
disable_us n self option out =
    let at = slot_mut self option in
    let (next, out') = request_state (slot_at at).us_state false will wont option n out in
    (store self at (record (slot_at at) { us_state = next }), out')

unfoldable pub request_him : ℕ → Telnet → ℕ → List ℕ → Telnet × List ℕ
unfolding slot_mut request_state
request_him n self option out =
    let at = slot_mut self option in
    let (next, out') = request_state (slot_at at).him_state true do_option dont option n out in
    (store self at (record (slot_at at) { him_state = next }), out')

unfoldable disable_him : ℕ → Telnet → ℕ → List ℕ → Telnet × List ℕ
unfolding slot_mut request_state
disable_him n self option out =
    let at = slot_mut self option in
    let (next, out') = request_state (slot_at at).him_state false do_option dont option n out in
    (store self at (record (slot_at at) { him_state = next }), out')

unfoldable pub request_binary_mode : ℕ → Telnet → List ℕ → Telnet × List ℕ
unfolding request_us request_him
request_binary_mode n self out =
    let (self', out') = request_us n self opt_binary out in request_him n self' opt_binary out'

unfoldable pub disable_binary_mode : ℕ → Telnet → List ℕ → Telnet × List ℕ
unfolding disable_us disable_him
disable_binary_mode n self out =
    let (self', out') = disable_us n self opt_binary out in disable_him n self' opt_binary out'

abbrev is_requested : QState → Bool
is_requested want_yes = true
is_requested _ = false

-- `transition_event(..).or_else(|| (was_requested && off).then_some(OptionRefused ..))`
abbrev refusal : Side → ℕ → QState → QState → Option TelnetEvent
refusal side option old next = elim (transition_event side option (is_on old) (is_on next)) [
  | some event ↦ some event
  | none ↦ if is_requested old && is_off next then some (option_refused side option) else none
]

-- The four arms of `Telnet::negotiate`
abbrev Negotiated : Type 0
Negotiated = Telnet × List ℕ × Option TelnetEvent

unfoldable pub receive_do : ℕ → Telnet → ℕ → List ℕ → Negotiated
unfolding slot_mut receive_positive transition_event
receive_do n self option out =
    let at = slot_mut self option in
    let slot = slot_at at in
    let (next, out') =
      receive_positive slot.us_state (self.policy.support_us option) will wont option n out in
    (
      store self at (record slot { us_state = next }),
      out',
      transition_event us option (is_on slot.us_state) (is_on next),
    )

unfoldable pub receive_dont : ℕ → Telnet → ℕ → List ℕ → Negotiated
unfolding slot_mut receive_negative transition_event
receive_dont n self option out =
    let at = slot_mut self option in
    let slot = slot_at at in
    let (next, out') = receive_negative slot.us_state will wont option n out in
    (store self at (record slot { us_state = next }), out', refusal us option slot.us_state next)

unfoldable pub receive_will : ℕ → Telnet → ℕ → List ℕ → Negotiated
unfolding slot_mut receive_positive transition_event
receive_will n self option out =
    let at = slot_mut self option in
    let slot = slot_at at in
    let (next, out') =
      receive_positive slot.him_state (self.policy.support_him option) do_option dont option n
        out in
    (
      store self at (record slot { him_state = next }),
      out',
      transition_event him option (is_on slot.him_state) (is_on next),
    )

unfoldable pub receive_wont : ℕ → Telnet → ℕ → List ℕ → Negotiated
unfolding slot_mut receive_negative transition_event
receive_wont n self option out =
    let at = slot_mut self option in
    let slot = slot_at at in
    let (next, out') = receive_negative slot.him_state do_option dont option n out in
    (store self at (record slot { him_state = next }), out', refusal him option slot.him_state next)

-- `Telnet::negotiate`
unfoldable pub negotiate : ℕ → Telnet → ℕ → ℕ → List ℕ → Negotiated
unfolding receive_do receive_dont receive_will receive_wont
negotiate n self verb option out =
    if verb == do_option
    then receive_do n self option out
    else if verb == dont
    then receive_dont n self option out
    else if verb == will
    then receive_will n self option out
    else if verb == wont
    then receive_wont n self option out
    else (self, out, none)
