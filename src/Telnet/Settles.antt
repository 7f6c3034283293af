-- ===== src/Telnet/Settles.antt =====
-- The negotiation of microtun-telnet/src/lib.rs comes to an end, and in agreement.
use microtun.Prelude.{
  ℕ, ◌≤◌, ◌<◌, ◌≡◌, refl, sym, ap, subst, ◌∙◌, Bool, true, false, Option, none, some, List, [], ◌∷◌,
  arith, leb, ltb, Option-cases, ◌⊎◌, inl, inr,
}
use microtun.Telnet.{QState, is_no, is_yes}
use microtun.Telnet.Negotiation.{
  Pair, ask_us, ask_him, deliver_us, deliver_him, Delivers, at_us, at_him, Reaches, begin, asked_us,
  asked_him, delivered, Drains, done, next,
}
use microtun.Telnet.Flights.{
  Flight, settled, locate, him_queue, us_queue, rank, bound, pair, locate_sound, all_states,
  all_flights, all_states_sound, all_flights_sound,
}

-- A bound that is there stays there, and a number below `k` is.
abbrev is_some : Option ℕ → Bool
is_some none = false
is_some (some k) = true

abbrev stays : Option ℕ → Option ℕ → Bool
stays none r = true
stays (some k) r = is_some r

abbrev falls : Option ℕ → Option ℕ → Bool
falls none r = true
falls (some k) none = false
falls (some k) (some j) = ltb j k

abbrev at_most : ℕ → Option ℕ → Bool
at_most n none = true
at_most n (some k) = leb k n

abbrev everywhere : (QState → Flight → QState → Bool) → Bool
everywhere t = all_states (λ a. all_flights (λ f. all_states (λ b. t a f b)))

everywhere_sound :
    (t : QState → Flight → QState → Bool) (a : QState) (f : Flight) (b : QState)
    → everywhere t ≡ true
    → t a f b ≡ true
everywhere_sound t a f b h =
    all_states_sound (λ b. t a f b) b
      (all_flights_sound (λ f. all_states (λ b. t a f b)) f
        (all_states_sound (λ a. all_flights (λ f. all_states (λ b. t a f b))) a h))

-- The delivery of the verb ahead
abbrev ahead : (ℕ → List ℕ → Pair → Pair) → List ℕ → Pair → Option ℕ → Bool
ahead deliver [] p k = true
ahead deliver (verb ∷ rest) p k = falls k (bound (deliver verb rest p))

-- What a request keeps, and a delivery lowers, at all the states and contents
abbrev Keeps : (Pair → Pair) → Type 0
Keeps ask = everywhere (λ a f b. stays (rank a f b) (bound (ask (pair a f b)))) ≡ true

abbrev Lowers : (ℕ → List ℕ → Pair → Pair) → (Flight → List ℕ) → Type 0
Lowers deliver queue =
    everywhere (λ a f b. ahead deliver (queue f) (pair a f b) (rank a f b)) ≡ true

module _ (option : ℕ) where
  ask_us_table : (enable : Bool) → Keeps (ask_us option enable)
  unfolding rank bound ask_us
  ask_us_table true = refl
  ask_us_table false = refl

  ask_him_table : (enable : Bool) → Keeps (ask_him option enable)
  unfolding rank bound ask_him
  ask_him_table true = refl
  ask_him_table false = refl

  deliver_us_table : (supported : Bool) → Lowers (deliver_us option supported) us_queue
  unfolding rank bound deliver_us
  deliver_us_table true = refl
  deliver_us_table false = refl

  deliver_him_table : (supported : Bool) → Lowers (deliver_him option supported) him_queue
  unfolding rank bound deliver_him
  deliver_him_table true = refl
  deliver_him_table false = refl

rank_table : everywhere (λ a f b. at_most 5 (rank a f b)) ≡ true
unfolding rank
rank_table = refl

-- A pair with a bound holds one of the contents.
bound_sound :
    (p : Pair) (k : ℕ)
    → bound p ≡ some k
    → (f : Flight) × (p ≡ pair p.us_state f p.him_state) × (rank p.us_state f p.him_state ≡ some k)
unfolding bound
bound_sound p k h = elim (Option-cases (locate p.to_him p.to_us)) [
  | inl e ↦ absurd (ground (arith, e))
  | inr (f, e) ↦
      let (him_side, us_side) = locate_sound p.to_him p.to_us e in
      (f, ground arith, ground (arith, e, h))
]

abbrev IsBounded : Pair → Type 0
IsBounded p = (k : ℕ) × (bound p ≡ some k)

stays_sound : (m r : Option ℕ) {k : ℕ} → m ≡ some k → stays m r ≡ true → (j : ℕ) × (r ≡ some j)
stays_sound m none e h = absurd (ground arith)
stays_sound m (some j) e h = (j, refl)

falls_sound :
    (m r : Option ℕ) {k : ℕ} → m ≡ some k → falls m r ≡ true → (j : ℕ) × (r ≡ some j) × (j < k)
falls_sound m none e h = absurd (ground arith)
falls_sound none (some j) e h = absurd (cc)
falls_sound (some i) (some j) e h = (j, refl, ground arith)

Keeps-IsBounded : (ask : Pair → Pair) (p : Pair) → Keeps ask → IsBounded p → IsBounded (ask p)
Keeps-IsBounded ask p keeps (k, h) =
    let (f, same, r) = bound_sound p k h in
    let t : QState → Flight → QState → Bool =
      λ a f b. stays (rank a f b) (bound (ask (pair a f b))) in
    subst (λ q. IsBounded (ask q)) (sym same)
      (stays_sound (rank p.us_state f p.him_state) (bound (ask (pair p.us_state f p.him_state))) r
        (everywhere_sound t p.us_state f p.him_state keeps))

Lowers-bound :
    (deliver : ℕ → List ℕ → Pair → Pair) (queue : Flight → List ℕ) (p : Pair) (k verb : ℕ)
    (rest : List ℕ)
    → Lowers deliver queue
    → bound p ≡ some k
    → ((f : Flight) → p ≡ pair p.us_state f p.him_state → queue f ≡ verb ∷ rest)
    → (j : ℕ) × (bound (deliver verb rest p) ≡ some j) × (j < k)
Lowers-bound deliver queue p k verb rest lowers h holds =
    let (f, same, r) = bound_sound p k h in
    let there = pair p.us_state f p.him_state in
    let m = rank p.us_state f p.him_state in
    let t : QState → Flight → QState → Bool =
      λ a f b. ahead deliver (queue f) (pair a f b) (rank a f b) in
    let table =
      subst (λ xs. ahead deliver xs there m ≡ true) (holds f same)
        (everywhere_sound t p.us_state f p.him_state lowers) in
    subst (λ x. (j : ℕ) × (bound (deliver verb rest x) ≡ some j) × (j < k)) (sym same)
      (falls_sound m (bound (deliver verb rest there)) r table)

module _ (option : ℕ) where
  -- Each delivery leaves room for fewer.
  Delivers-bound :
      {p q : Pair} (k : ℕ)
      → bound p ≡ some k
      → Delivers option p q
      → (j : ℕ) × (bound q ≡ some j) × (j < k)
  Delivers-bound {p} k h (at_us supported verb rest e) =
      Lowers-bound (deliver_us option supported) us_queue p k verb rest
        (deliver_us_table option supported) h (λ f same. sym (ap (λ x. x.to_us) same) ∙ e)
  Delivers-bound {p} k h (at_him supported verb rest e) =
      Lowers-bound (deliver_him option supported) him_queue p k verb rest
        (deliver_him_table option supported) h (λ f same. sym (ap (λ x. x.to_him) same) ∙ e)

  Reaches-IsBounded : {p : Pair} → Reaches option p → IsBounded p
  unfolding bound rank
  Reaches-IsBounded begin = (0, refl)
  Reaches-IsBounded (asked_us {p} enable r) =
      Keeps-IsBounded (ask_us option enable) p (ask_us_table option enable) (Reaches-IsBounded r)
  Reaches-IsBounded (asked_him {p} enable r) =
      Keeps-IsBounded (ask_him option enable) p (ask_him_table option enable) (Reaches-IsBounded r)
  Reaches-IsBounded (delivered r d) =
      let (k, h) = Reaches-IsBounded r in let (j, e, less) = Delivers-bound k h d in (j, e)

  Drains-bound : {n : ℕ} {p q : Pair} (k : ℕ) → bound p ≡ some k → Drains option n p q → n ≤ k
  Drains-bound k h done = omega arith
  Drains-bound k h (next d ds) =
      let (j, e, less) = Delivers-bound k h d in omega (arith, less, Drains-bound j e ds)

  -- Two endpoints that negotiate an option never go on for ever: whatever requests and deliveries came
  -- before, in any order and with any policy, at most five deliveries can follow before one of the
  -- endpoints asks again.
  pub negotiation_ends : {n : ℕ} {p q : Pair} → Reaches option p → Drains option n p q → n ≤ 5
  negotiation_ends {p} r ds =
      let (k, h) = Reaches-IsBounded r in
      let (f, same, e) = bound_sound p k h in
      let table =
        everywhere_sound (λ a f b. at_most 5 (rank a f b)) p.us_state f p.him_state rank_table in
      ground (arith, table, Drains-bound k h ds)

  settled_lem :
      (a b : QState) {k : ℕ}
      → rank a settled b ≡ some k
      → ((a ≡ is_yes) × (b ≡ is_yes)) ⊎ ((a ≡ is_no) × (b ≡ is_no))
  unfolding rank
  settled_lem is_no b h = ground arith
  settled_lem a b h = ground arith

  -- When nothing is in flight, the two endpoints agree on the option and neither waits for an answer:
  -- it is enabled at both or disabled at both. So it is after any requests and deliveries, in any
  -- order and with any policy.
  pub negotiation_agrees :
      {p : Pair}
      → Reaches option p
      → p.to_him ≡ []
      → p.to_us ≡ []
      → ((p.us_state ≡ is_yes) × (p.him_state ≡ is_yes))
        ⊎ ((p.us_state ≡ is_no) × (p.him_state ≡ is_no))
  unfolding bound
  negotiation_agrees {p} r e e' =
      let (k, h) = Reaches-IsBounded r in
      let both : rank p.us_state settled p.him_state ≡ some k = ground (arith, e, e', h) in
      settled_lem p.us_state p.him_state both
