-- ===== src/Telnet/Flights.antt =====
-- The eleven contents of the two channels that a negotiation of microtun-telnet/src/lib.rs meets, and
-- how many deliveries each can still lead to.
use microtun.Prelude.{
  ℕ, ◌+◌, ◌≡◌, refl, Bool, true, false, ◌&&◌, ◌||◌, Option, none, some, List, [], ◌∷◌, arith, ◌==◌,
  if◌then◌else◌, max, ◌≢◌, ◌⊎◌, inl, inr, ◌∙◌,
}
use microtun.Telnet.{
  dont, do_option, wont, will, QState, is_no, is_yes, want_no, want_no_opposite, want_yes,
  want_yes_opposite, is_off, is_on,
}
use microtun.Telnet.Negotiation.{Pair}

-- `plus` is WILL or DO and `minus` is WONT or DONT.
pub data Queue : Type 0 where
  empty plus minus plus_minus minus_plus other : Queue

pub data Flight : Type 0 where
  settled both_plus both_minus : Flight
  him_plus him_minus him_plus_minus him_minus_plus : Flight
  us_plus us_minus us_plus_minus us_minus_plus : Flight

abbrev pub read_queue : ℕ → ℕ → List ℕ → Queue
read_queue p m [] = empty
read_queue p m (x ∷ []) = if x == p then plus else if x == m then minus else other
read_queue p m (x ∷ y ∷ []) =
    if x == p
    then if y == m then plus_minus else other
    else if x == m
    then if y == p then minus_plus else other
    else other
read_queue p m (x ∷ y ∷ z ∷ _) = other

abbrev pub flight_of : Queue → Queue → Option Flight
flight_of empty empty = some settled
flight_of plus plus = some both_plus
flight_of minus minus = some both_minus
flight_of plus empty = some him_plus
flight_of minus empty = some him_minus
flight_of plus_minus empty = some him_plus_minus
flight_of minus_plus empty = some him_minus_plus
flight_of empty plus = some us_plus
flight_of empty minus = some us_minus
flight_of empty plus_minus = some us_plus_minus
flight_of empty minus_plus = some us_minus_plus
flight_of _ _ = none

abbrev pub locate : List ℕ → List ℕ → Option Flight
locate to_him to_us = flight_of (read_queue will wont to_him) (read_queue do_option dont to_us)

abbrev pub him_queue : Flight → List ℕ
him_queue both_plus = will ∷ []
him_queue both_minus = wont ∷ []
him_queue him_plus = will ∷ []
him_queue him_minus = wont ∷ []
him_queue him_plus_minus = will ∷ wont ∷ []
him_queue him_minus_plus = wont ∷ will ∷ []
him_queue _ = []

abbrev pub us_queue : Flight → List ℕ
us_queue both_plus = do_option ∷ []
us_queue both_minus = dont ∷ []
us_queue us_plus = do_option ∷ []
us_queue us_minus = dont ∷ []
us_queue us_plus_minus = do_option ∷ dont ∷ []
us_queue us_minus_plus = dont ∷ do_option ∷ []
us_queue _ = []

abbrev pub asks : QState → Bool
asks want_yes = true
asks want_yes_opposite = true
asks _ = false

abbrev pub stops : QState → Bool
stops want_no = true
stops want_no_opposite = true
stops _ = false

-- A state that will ask for the opposite takes two deliveries more.
abbrev pub extra : QState → ℕ
extra want_yes_opposite = 2
extra want_no_opposite = 2
extra _ = 0

abbrev pub when : Bool → ℕ → Option ℕ → Option ℕ
when b k otherwise = if b then some k else otherwise

-- The deliveries that can follow, for the states that a content of the channels can meet.
unfoldable pub rank : QState → Flight → QState → Option ℕ
rank a settled b = when ((is_off a && is_off b) || (is_on a && is_on b)) 0 none
rank a both_plus b = when (asks a && asks b) (2 + max (extra a) (extra b)) none
rank a both_minus b = when (stops a && stops b) (2 + max (extra a) (extra b)) none
rank a him_plus b =
    when (asks a && is_off b) (2 + extra a) (when (is_on a && asks b) (1 + extra b) none)
rank a us_plus b =
    when (asks b && is_off a) (2 + extra b) (when (is_on b && asks a) (1 + extra a) none)
rank a him_minus b =
    when (is_off a && stops b) (1 + extra b)
      (when (is_off a && asks b) 1 (when (stops a && is_on b) (2 + extra a) none))
rank a us_minus b =
    when (is_off b && stops a) (1 + extra a)
      (when (is_off b && asks a) 1 (when (stops b && is_on a) (2 + extra b) none))
rank a him_plus_minus b = when (stops a && asks b) (3 + extra a) none
rank a us_plus_minus b = when (asks a && stops b) (3 + extra b) none
rank a him_minus_plus b = when (asks a && (asks b || stops b)) (3 + extra a) none
rank a us_minus_plus b = when (asks b && (asks a || stops a)) (3 + extra b) none

abbrev pub pair : QState → Flight → QState → Pair
pair a f b = record { us_state = a; to_him = him_queue f; to_us = us_queue f; him_state = b }

-- The deliveries that can follow, or `none` where the channels and the states do not fit.
unfoldable pub bound : Pair → Option ℕ
unfolding rank
bound p = elim (locate p.to_him p.to_us) [ none ↦ none | some f ↦ rank p.us_state f p.him_state ]

abbrev pub contents : ℕ → ℕ → Queue → List ℕ
contents p m plus = p ∷ []
contents p m minus = m ∷ []
contents p m plus_minus = p ∷ m ∷ []
contents p m minus_plus = m ∷ p ∷ []
contents p m _ = []

read_queue_sound :
    (p m : ℕ) (q : List ℕ) → (read_queue p m q ≡ other) ⊎ (q ≡ contents p m (read_queue p m q))
read_queue_sound p m [] = inr refl
read_queue_sound p m (x ∷ []) = ground arith
read_queue_sound p m (x ∷ y ∷ []) = ground arith
read_queue_sound p m (x ∷ y ∷ z ∷ q) = inl refl

flight_of_sound :
    (a b : Queue) {f : Flight}
    → flight_of a b ≡ some f
    → (contents will wont a ≡ him_queue f)
      × (contents do_option dont b ≡ us_queue f)
      × (a ≢ other)
      × (b ≢ other)
flight_of_sound empty empty h = ground arith
flight_of_sound a b h = ground arith

pub locate_sound :
    (to_him to_us : List ℕ) {f : Flight}
    → locate to_him to_us ≡ some f
    → (to_him ≡ him_queue f) × (to_us ≡ us_queue f)
locate_sound to_him to_us h =
    let (him_side, us_side, him_known, us_known) =
      flight_of_sound (read_queue will wont to_him) (read_queue do_option dont to_us) h in
    (
      elim (read_queue_sound will wont to_him) [
        | inl e ↦ absurd (him_known e)
        | inr e ↦ e ∙ him_side
      ],
      elim (read_queue_sound do_option dont to_us) [
        | inl e ↦ absurd (us_known e)
        | inr e ↦ e ∙ us_side
      ],
    )

-- A test at all the states and contents.
abbrev pub all_states : (QState → Bool) → Bool
all_states t =
    t is_no && t is_yes && t want_no && t want_no_opposite && t want_yes && t want_yes_opposite

abbrev pub all_flights : (Flight → Bool) → Bool
all_flights t =
    t settled
    && t both_plus
    && t both_minus
    && t him_plus
    && t him_minus
    && t him_plus_minus
    && t him_minus_plus
    && t us_plus
    && t us_minus
    && t us_plus_minus
    && t us_minus_plus

pub all_states_sound : (t : QState → Bool) (s : QState) → all_states t ≡ true → t s ≡ true
all_states_sound t is_no h = ground arith
all_states_sound t s h = ground arith

pub all_flights_sound : (t : Flight → Bool) (f : Flight) → all_flights t ≡ true → t f ≡ true
all_flights_sound t settled h = ground arith
all_flights_sound t f h = ground arith
