-- ===== src/Telnet.antt =====
-- microtun-telnet/src/lib.rs: the codec of TELNET, with the negotiation of options by RFC 1143.
mod Tests
pub mod Options
pub mod Codec
pub mod Binary
pub mod Escaping
pub mod Frames
pub mod Negotiation
pub mod Flights
pub mod Settles
pub mod Slots
pub mod Handoff
pub mod Serial
pub mod ComPort
pub mod Canonical
use microtun.Prelude.{
  ℕ, zero, suc, ◌+◌, ◌-◌, ◌≤◌, ◌≡◌, Bool, true, false, ◌&&◌, ◌||◌, not, Option, none, some, List,
  [], ◌∷◌, ◌++◌, leb, ltb, ◌==◌, if◌then◌else◌, length, get_or, set, min, u64_max,
}

abbrev pub iac : ℕ
iac = 255

abbrev pub dont : ℕ
dont = 254

abbrev pub do_option : ℕ
do_option = 253

abbrev pub wont : ℕ
wont = 252

abbrev pub will : ℕ
will = 251

abbrev pub sb : ℕ
sb = 250

abbrev pub se : ℕ
se = 240

abbrev pub brk : ℕ
brk = 243

abbrev pub ip : ℕ
ip = 244

abbrev pub ayt : ℕ
ayt = 246

abbrev pub ec : ℕ
ec = 247

abbrev pub el : ℕ
el = 248

abbrev pub opt_binary : ℕ
opt_binary = 0

pub data Side : Type 0 where
  us him : Side

-- What this endpoint may do, and what it lets the peer do.
pub record Policy : Type 0 where
  pub support_us : ℕ → Bool
  pub support_him : ℕ → Bool

pub data TelnetEvent : Type 0 where
  plain : ℕ → TelnetEvent
  interrupt break are_you_there erase_character erase_line : TelnetEvent
  option_enabled option_disabled option_refused : Side → ℕ → TelnetEvent
  subnegotiated : ℕ → TelnetEvent

pub data RxState : Type 0 where
  in_data in_iac : RxState
  in_verb : ℕ → RxState
  in_subneg_option in_subneg in_subneg_iac : RxState

pub data QState : Type 0 where
  is_no is_yes want_no want_no_opposite want_yes want_yes_opposite : QState

pub record OptionSlot : Type 0 where
  pub option : ℕ
  pub us_state : QState
  pub him_state : QState

-- `OptionSlot::new`
abbrev pub new_slot : ℕ → OptionSlot
new_slot option = record { option = option; us_state = is_no; him_state = is_no }

-- The codec, with the capacities of its two vectors.
pub record Telnet : Type 0 where
  pub policy : Policy
  pub sb_cap : ℕ
  pub option_cap : ℕ
  pub rx : RxState
  pub subneg_option : ℕ
  pub subneg : List ℕ
  pub options : List OptionSlot

-- `Telnet::new`
unfoldable pub new : Policy → ℕ → ℕ → Telnet
new policy sb_cap option_cap = record {
  policy = policy;
  sb_cap = sb_cap;
  option_cap = option_cap;
  rx = in_data;
  subneg_option = 0;
  subneg = [];
  options = [];
}

abbrev pub is_off : QState → Bool
is_off is_no = true
is_off _ = false

abbrev pub is_on : QState → Bool
is_on is_yes = true
is_on _ = false

unfoldable pub is_pending : QState → Bool
is_pending is_no = false
is_pending is_yes = false
is_pending want_no = true
is_pending want_no_opposite = true
is_pending want_yes = true
is_pending want_yes_opposite = true

-- `Telnet::push_cmd`, into a vector of capacity `n`: `none` if it does not fit.
abbrev pub push_cmd : ℕ → List ℕ → ℕ → ℕ → Option (List ℕ)
push_cmd n out verb option =
    if leb (length out + 3) n then some (out ++ iac ∷ verb ∷ option ∷ []) else none

-- `if !push_cmd(..) { return }` and the new state.
abbrev pub answer : QState → ℕ → List ℕ → ℕ → ℕ → QState → QState × List ℕ
answer state n out verb option next = elim (push_cmd n out verb option) [
  | none ↦ (state, out)
  | some out' ↦ (next, out')
]

unfoldable pub request_state : QState → Bool → ℕ → ℕ → ℕ → ℕ → List ℕ → QState × List ℕ
request_state is_no true positive negative option n out =
    answer is_no n out positive option want_yes
request_state is_yes false positive negative option n out =
    answer is_yes n out negative option want_no
request_state want_no true positive negative option n out = (want_no_opposite, out)
request_state want_no_opposite false positive negative option n out = (want_no, out)
request_state want_yes false positive negative option n out = (want_yes_opposite, out)
request_state want_yes_opposite true positive negative option n out = (want_yes, out)
request_state state enable positive negative option n out = (state, out)

unfoldable pub receive_positive : QState → Bool → ℕ → ℕ → ℕ → ℕ → List ℕ → QState × List ℕ
receive_positive is_no supported positive negative option n out =
    answer is_no n out (if supported then positive else negative) option
      (if supported then is_yes else is_no)
receive_positive is_yes supported positive negative option n out = (is_yes, out)
receive_positive want_no supported positive negative option n out = (is_no, out)
receive_positive want_no_opposite supported positive negative option n out = (is_yes, out)
receive_positive want_yes supported positive negative option n out = (is_yes, out)
receive_positive want_yes_opposite supported positive negative option n out =
    answer want_yes_opposite n out negative option want_no

unfoldable pub receive_negative : QState → ℕ → ℕ → ℕ → ℕ → List ℕ → QState × List ℕ
receive_negative is_no positive negative option n out = (is_no, out)
receive_negative is_yes positive negative option n out = answer is_yes n out negative option is_no
receive_negative want_no positive negative option n out = (is_no, out)
receive_negative want_no_opposite positive negative option n out =
    answer want_no_opposite n out positive option want_yes
receive_negative want_yes positive negative option n out = (is_no, out)
receive_negative want_yes_opposite positive negative option n out = (is_no, out)

unfoldable pub transition_event : Side → ℕ → Bool → Bool → Option TelnetEvent
transition_event side option false true = some (option_enabled side option)
transition_event side option true false = some (option_disabled side option)
transition_event side option _ _ = none
