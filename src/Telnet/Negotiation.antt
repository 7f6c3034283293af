-- ===== src/Telnet/Negotiation.antt =====
-- Two endpoints of microtun-telnet/src/lib.rs that negotiate one option: the one that performs it,
-- whose state is `us`, and its peer, whose state is `him`. Each may ask at any time for the option
-- to be enabled or disabled; what they write arrives in order.
use microtun.Prelude.{ℕ, zero, suc, ◌≡◌, Bool, List, [], ◌∷◌, ◌++◌, ◌==◌, if◌then◌else◌}
use microtun.Telnet.{
  dont, do_option, wont, will, QState, is_no, request_state, receive_positive, receive_negative,
}

-- The verbs in flight each way: WILL and WONT to the peer, DO and DONT from it.
pub record Pair : Type 0 where
  pub us_state : QState
  pub to_him : List ℕ
  pub to_us : List ℕ
  pub him_state : QState

-- The verb of the command in a vector that was empty, if there is one.
abbrev pub verbs : List ℕ → List ℕ
verbs [] = []
verbs (x ∷ []) = []
verbs (x ∷ verb ∷ _) = verb ∷ []

-- One step, in which the vector for the answer holds it: `request_us` and `disable_us` of the
-- one endpoint, `request_him` and `disable_him` of the other, and `negotiate` of a verb that arrives.
-- A policy may accept the option or not, each time.
module _ (option : ℕ) where
  unfoldable pub ask_us : Bool → Pair → Pair
  unfolding request_state
  ask_us enable self =
      let (next, out) = request_state self.us_state enable will wont option 3 [] in
      record self { us_state = next; to_him = self.to_him ++ verbs out }

  unfoldable pub ask_him : Bool → Pair → Pair
  unfolding request_state
  ask_him enable self =
      let (next, out) = request_state self.him_state enable do_option dont option 3 [] in
      record self { him_state = next; to_us = self.to_us ++ verbs out }

  unfoldable pub deliver_us : Bool → ℕ → List ℕ → Pair → Pair
  unfolding receive_positive receive_negative
  deliver_us supported verb rest self =
      let (next, out) =
        if verb == do_option
        then receive_positive self.us_state supported will wont option 3 []
        else receive_negative self.us_state will wont option 3 [] in
      record self { us_state = next; to_us = rest; to_him = self.to_him ++ verbs out }

  unfoldable pub deliver_him : Bool → ℕ → List ℕ → Pair → Pair
  unfolding receive_positive receive_negative
  deliver_him supported verb rest self =
      let (next, out) =
        if verb == will
        then receive_positive self.him_state supported do_option dont option 3 []
        else receive_negative self.him_state do_option dont option 3 [] in
      record self { him_state = next; to_him = rest; to_us = self.to_us ++ verbs out }

-- A verb arrives.
pub data Delivers (option : ℕ) (self : Pair) : Pair → Type 0 where
  at_us :
      (supported : Bool) (verb : ℕ) (rest : List ℕ)
      → self.to_us ≡ verb ∷ rest
      → Delivers option self (deliver_us option supported verb rest self)
  at_him :
      (supported : Bool) (verb : ℕ) (rest : List ℕ)
      → self.to_him ≡ verb ∷ rest
      → Delivers option self (deliver_him option supported verb rest self)

abbrev pub idle : Pair
idle = record { us_state = is_no; to_him = []; to_us = []; him_state = is_no }

-- What requests and deliveries lead to, from two endpoints that have not negotiated.
pub data Reaches (option : ℕ) : Pair → Type 0 where
  begin : Reaches option idle
  asked_us : {p : Pair} (enable : Bool) → Reaches option p → Reaches option (ask_us option enable p)
  asked_him :
      {p : Pair} (enable : Bool) → Reaches option p → Reaches option (ask_him option enable p)
  delivered : {p q : Pair} → Reaches option p → Delivers option p q → Reaches option q

-- A run of deliveries, with no request between them.
pub data Drains (option : ℕ) : ℕ → Pair → Pair → Type 0 where
  done : {p : Pair} → Drains option zero p p
  next :
      {k : ℕ} {p q r : Pair} → Delivers option p q → Drains option k q r → Drains option (suc k) p r
