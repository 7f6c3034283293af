-- ===== src/Telnet/Slots.antt =====
-- The option slots of microtun-telnet/src/lib.rs: negotiating one option leaves the others alone.
use microtun.Prelude.{
  ℕ, zero, suc, ◌<◌, ◌≡◌, ◌≢◌, refl, sym, subst, Bool, none, some, List, [], ◌∷◌, ◌++◌, arith, ◌==◌,
  if◌then◌else◌, length, get_or, set, Option-cases, ◌⊎◌, inl, inr,
}
use microtun.Telnet.{
  dont, do_option, wont, will, OptionSlot, new_slot, Telnet, receive_positive, receive_negative,
  Policy,
}
use microtun.Telnet.Options.{
  position, slot_mut, find_slot, slot_at, store, negotiate, receive_do, receive_dont, receive_will,
  receive_wont,
}

-- The slot of an option, or the slot that `slot_mut` would make for it.
abbrev pub view : List OptionSlot → ℕ → OptionSlot
view slots option = elim (find_slot option slots) [ none ↦ new_slot option | some slot ↦ slot ]

abbrev is_for : ℕ → OptionSlot → Bool
is_for option slot = slot.option == option

position_found :
    (slots : List OptionSlot) (option : ℕ) {i : ℕ} (d : OptionSlot)
    → position (is_for option) slots ≡ some i
    → (find_slot option slots ≡ some (get_or slots i d)) × ((get_or slots i d).option ≡ option)
unfolding position find_slot
position_found [] option d h = absurd (cc)
position_found (slot ∷ slots) option {i = zero} d h = ground arith
position_found (slot ∷ slots) option {i = suc i} d h =
    ground (arith, position_found slots option {i = i} d)

position_missing :
    (slots : List OptionSlot) (option : ℕ)
    → position (is_for option) slots ≡ none
    → find_slot option slots ≡ none
unfolding position find_slot
position_missing [] option h = refl
position_missing (slot ∷ slots) option h = ground (arith, position_missing slots option)

find_slot-set :
    (slots : List OptionSlot) (option other : ℕ) {i : ℕ} (slot : OptionSlot)
    → position (is_for option) slots ≡ some i
    → slot.option ≡ option
    → find_slot other (set slots i slot)
      ≡ (if option == other then some slot else find_slot other slots)
unfolding position find_slot
find_slot-set [] option other slot h e = absurd (cc)
find_slot-set (s ∷ slots) option other {i = zero} slot h e = ground arith
find_slot-set (s ∷ slots) option other {i = suc i} slot h e =
    ground (arith, find_slot-set slots option other {i = i} slot)

find_slot-append :
    (slots : List OptionSlot) (option other : ℕ)
    → find_slot option slots ≡ none
    → view (slots ++ new_slot option ∷ []) other ≡ view slots other
unfolding find_slot
find_slot-append [] option other h = ground arith
find_slot-append (s ∷ slots) option other h = ground (arith, find_slot-append slots option other)

position-append :
    (slots : List OptionSlot) (option : ℕ)
    → position (is_for option) slots ≡ none
    → position (is_for option) (slots ++ new_slot option ∷ []) ≡ some (length slots)
unfolding position
position-append [] option h = ground arith
position-append (s ∷ slots) option h = ground (arith, position-append slots option)

-- The option has a slot, or there is room for one.
abbrev pub HasRoom : Telnet → ℕ → Type 0
HasRoom self option =
    (find_slot option self.options ≢ none) ⊎ (length self.options < self.option_cap)

slot_mut_lem :
    (self : Telnet) (option other : ℕ)
    → HasRoom self option
    → let (slots, i) = slot_mut self option in
      (position (is_for option) slots ≡ some i) × (view slots other ≡ view self.options other)
unfolding slot_mut
slot_mut_lem self option other room = elim (Option-cases (position (is_for option) self.options)) [
  | inr (i, e) ↦ ground (arith, e)
  | inl e ↦
      let missing = position_missing self.options option e in
      let space : length self.options < self.option_cap = elim room [
        | inl found ↦ absurd (found missing)
        | inr space ↦ space
      ] in
      ground (
        arith,
        e,
        space,
        position-append self.options option e,
        find_slot-append self.options option other missing,
      )
]

-- What a verb does to the slot of its option, and the vector of the answer.
abbrev pub answered : Policy → ℕ → ℕ → OptionSlot → List ℕ → OptionSlot × List ℕ
answered policy n verb slot out =
    if verb == do_option
    then (let r =
          receive_positive slot.us_state (policy.support_us slot.option) will wont slot.option n
            out in
        (record slot { us_state = r.0 }, r.1))
    else if verb == dont
    then (let r = receive_negative slot.us_state will wont slot.option n out in
        (record slot { us_state = r.0 }, r.1))
    else if verb == will
    then (let r =
          receive_positive slot.him_state (policy.support_him slot.option) do_option dont
            slot.option n out in
        (record slot { him_state = r.0 }, r.1))
    else if verb == wont
    then (let r = receive_negative slot.him_state do_option dont slot.option n out in
        (record slot { him_state = r.0 }, r.1))
    else (slot, out)

module _ (n : ℕ) (self : Telnet) (option : ℕ) (out : List ℕ) (room : HasRoom self option) where
  slot_at-view :
      (slot_at (slot_mut self option) ≡ view self.options option)
      × ((slot_at (slot_mut self option)).option ≡ option)
  slot_at-view =
      let (slots, i) = slot_mut self option in
      let (at, same) = slot_mut_lem self option option room in
      let (found, name) = position_found slots option {i = i} (new_slot 0) at in
      (ground (arith, found, same), name)

  -- After a write of the option's slot
  view-store :
      (slot : OptionSlot) (other : ℕ)
      → slot.option ≡ option
      → view (store self (slot_mut self option) slot).options other
        ≡ (if option == other then slot else view self.options other)
  view-store slot other e =
      let (slots, i) = slot_mut self option in
      let (at, same) = slot_mut_lem self option other room in
      let written = find_slot-set slots option other {i = i} slot at e in
      ground (arith, written, same)

  abbrev Answers : ℕ → ℕ → Type 0
  Answers verb other =
      let r = answered self.policy n verb (view self.options option) out in
      (view (negotiate n self verb option out).0.options other
        ≡ (if option == other then r.0 else view self.options other))
      × ((negotiate n self verb option out).1 ≡ r.1)

  -- From the slot that `slot_mut` gives to the option's own
  to_view :
      (result : OptionSlot) (reply : List ℕ) (f : ℕ → OptionSlot → OptionSlot × List ℕ) (other : ℕ)
      → let r = f option (slot_at (slot_mut self option)) in
        (result ≡ (if option == other then r.0 else view self.options other)) × (reply ≡ r.1)
        → let r = f (view self.options option).option (view self.options option) in
          (result ≡ (if option == other then r.0 else view self.options other)) × (reply ≡ r.1)
  to_view result reply f other h =
      let (same, name) = slot_at-view in
      let T : ℕ → OptionSlot → Type 0 = λ o s.
        (result ≡ (if option == other then (f o s).0 else view self.options other))
        × (reply ≡ (f o s).1) in
      subst (λ s. T s.option s) same
        (subst (λ o. T o (slot_at (slot_mut self option))) (sym name) h)

  do-Answers : (other : ℕ) → Answers do_option other
  unfolding negotiate receive_do
  do-Answers other =
      let f : ℕ → OptionSlot → OptionSlot × List ℕ = λ o s. (
        record s {
          us_state = (receive_positive s.us_state (self.policy.support_us o) will wont o n out).0;
        },
        (receive_positive s.us_state (self.policy.support_us o) will wont o n out).1,
      ) in
      let s = slot_at (slot_mut self option) in
      to_view (view (negotiate n self do_option option out).0.options other)
        (negotiate n self do_option option out).1 f other
        (view-store (f option s).0 other slot_at-view.1, refl)

  dont-Answers : (other : ℕ) → Answers dont other
  unfolding negotiate receive_dont
  dont-Answers other =
      let f : ℕ → OptionSlot → OptionSlot × List ℕ = λ o s. (
        record s { us_state = (receive_negative s.us_state will wont o n out).0 },
        (receive_negative s.us_state will wont o n out).1,
      ) in
      let s = slot_at (slot_mut self option) in
      to_view (view (negotiate n self dont option out).0.options other)
        (negotiate n self dont option out).1 f other
        (view-store (f option s).0 other slot_at-view.1, refl)

  will-Answers : (other : ℕ) → Answers will other
  unfolding negotiate receive_will
  will-Answers other =
      let f : ℕ → OptionSlot → OptionSlot × List ℕ = λ o s. (
        record s {
          him_state =
              (receive_positive s.him_state (self.policy.support_him o) do_option dont o n out).0;
        },
        (receive_positive s.him_state (self.policy.support_him o) do_option dont o n out).1,
      ) in
      let s = slot_at (slot_mut self option) in
      to_view (view (negotiate n self will option out).0.options other)
        (negotiate n self will option out).1 f other
        (view-store (f option s).0 other slot_at-view.1, refl)

  wont-Answers : (other : ℕ) → Answers wont other
  unfolding negotiate receive_wont
  wont-Answers other =
      let f : ℕ → OptionSlot → OptionSlot × List ℕ = λ o s. (
        record s { him_state = (receive_negative s.him_state do_option dont o n out).0 },
        (receive_negative s.him_state do_option dont o n out).1,
      ) in
      let s = slot_at (slot_mut self option) in
      to_view (view (negotiate n self wont option out).0.options other)
        (negotiate n self wont option out).1 f other
        (view-store (f option s).0 other slot_at-view.1, refl)

  -- A verb that arrives changes the slot of its own option and no other. The option's slot, and the
  -- vector of the answer, become what `receive_positive` or `receive_negative` makes of them by the
  -- verb and the policy, at `us` for DO and DONT and at `him` for WILL and WONT. The option has a slot
  -- or there is room for one, and the verb is one of the four.
  pub negotiate-view :
      (verb other : ℕ)
      → ((verb ≡ do_option) ⊎ (verb ≡ dont)) ⊎ ((verb ≡ will) ⊎ (verb ≡ wont))
      → let r = answered self.policy n verb (view self.options option) out in
        (view (negotiate n self verb option out).0.options other
          ≡ (if option == other then r.0 else view self.options other))
        × ((negotiate n self verb option out).1 ≡ r.1)
  negotiate-view verb other (inl (inl e)) = subst (λ v. Answers v other) (sym e) (do-Answers other)
  negotiate-view verb other (inl (inr e)) =
      subst (λ v. Answers v other) (sym e) (dont-Answers other)
  negotiate-view verb other (inr (inl e)) =
      subst (λ v. Answers v other) (sym e) (will-Answers other)
  negotiate-view verb other (inr (inr e)) =
      subst (λ v. Answers v other) (sym e) (wont-Answers other)
