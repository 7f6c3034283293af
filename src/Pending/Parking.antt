-- ===== src/Pending/Parking.antt =====
-- What parking a packet in the pool of microtun-core/src/pending.rs may cost.
use microtun.Prelude.All.{Every, Every-map}
use microtun.Prelude.{
  ℕ, suc, ◌≤◌, ◌<◌, ◌≡◌, ◌≢◌, refl, ◌∙◌, true, false, Option, none, some, List, [], ◌∷◌, arith, leb,
  ltb, ◌⊎◌, length, get_elem?, set, Bool-cases, Option-cases, inl, inr, if◌then◌else◌,
}
use microtun.Time.{Instant}
use microtun.Pending.{
  PendingPacket, Wait, Slots, PendingPool, max_inner_size, fill, deadline_of, earliest_slot,
  replace_earliest, place, park,
}

-- An empty slot, or, in a full pool, the packet of the earliest deadline.
abbrev pub IsVictim : Slots → Option PendingPacket → Type 0
IsVictim ss old =
    (old ≡ none) ⊎ (Every (λ s. s ≢ none) ss × Every (λ s. deadline_of old ≤ deadline_of s) ss)

-- The slots are as before, but for one, which holds the new packet.
pub record Parks (ss : Slots) (entry : PendingPacket) (ss' : Slots) : Type 0 where
  pub at : ℕ
  pub old : Option PendingPacket
  pub here : get_elem? ss at ≡ some old
  pub after : ss' ≡ set ss at (some entry)
  pub victim : IsVictim ss old

fill_sound :
    (entry : PendingPacket) (ss ss' : Slots)
    → fill entry ss ≡ some ss'
    → (at : ℕ) × (get_elem? ss at ≡ some none) × (ss' ≡ set ss at (some entry))
unfolding fill
fill_sound entry [] ss' h = absurd (cc)
fill_sound entry (none ∷ ss) ss' h = (0, refl, ground arith)
fill_sound entry (some p ∷ ss) ss' h = elim (Option-cases (fill entry ss)) [
  | inl n ↦ absurd (ground arith)
  | inr (r, e) ↦ let (at, here, after) = fill_sound entry ss r e in (suc at, here, ground arith)
]

fill-none : (entry : PendingPacket) (ss : Slots) → fill entry ss ≡ none → Every (λ s. s ≢ none) ss
unfolding fill
fill-none entry [] h = tt
fill-none entry (none ∷ ss) h = absurd (cc)
fill-none entry (some p ∷ ss) h = ((λ e. cc), fill-none entry ss (ground arith))

earliest_slot-some : (ss : Slots) → 0 < length ss → (r : ℕ × Instant) × (earliest_slot ss ≡ some r)
unfolding earliest_slot
earliest_slot-some [] h = absurd (omega arith)
earliest_slot-some (s ∷ ss) h = elim (Option-cases (earliest_slot ss)) [
  | inl n ↦ ((0, deadline_of s), ground arith)
  | inr ((i, t), e) ↦
      (if leb (deadline_of s) t then (0, deadline_of s) else (suc i, t), ground arith)
]

earliest_slot_sound :
    (ss : Slots) (i : ℕ) (t : Instant)
    → earliest_slot ss ≡ some (i, t)
    → (old : Option PendingPacket) × (get_elem? ss i ≡ some old)
      × (deadline_of old ≡ t)
      × Every (λ s. t ≤ deadline_of s) ss
unfolding earliest_slot
earliest_slot_sound [] i t h = absurd (cc)
earliest_slot_sound (s ∷ []) i t h =
    let first : 0 ≡ i = ground arith in
    let least : deadline_of s ≡ t = ground arith in
    (s, rw (← first) refl, least, (omega (arith, least), tt))
earliest_slot_sound (s ∷ r ∷ ss) i t h =
    let ((j, u), e) = earliest_slot-some (r ∷ ss) (omega arith) in
    let (old, here, least, all) = earliest_slot_sound (r ∷ ss) j u e in
    elim (Bool-cases (leb (deadline_of s) u)) [
      | inl b ↦
          let first : 0 ≡ i = ground arith in
          let now : deadline_of s ≡ t = ground arith in
          (
            s,
            rw (← first) refl,
            now,
            (omega (arith, now), Every-map _ _ (r ∷ ss) (λ x p. ground (arith, p, now)) all),
          )
      | inr b ↦
          let later : suc j ≡ i = ground arith in
          let same : u ≡ t = ground arith in
          (
            old,
            rw (← later) here,
            least ∙ same,
            (ground arith, Every-map _ _ (r ∷ ss) (λ x p. omega (arith, p, same)) all),
          )
    ]

replace_earliest-Parks :
    (entry : PendingPacket) (ss : Slots)
    → fill entry ss ≡ none
    → 0 < length ss
    → ((replace_earliest entry ss).1 ≡ true) × Parks ss entry (replace_earliest entry ss).0
unfolding replace_earliest
replace_earliest-Parks entry ss f h =
    let ((i, t), e) = earliest_slot-some ss h in
    let (old, here, least, all) = earliest_slot_sound ss i t e in
    (
      ground arith,
      record {
        at = i;
        old = old;
        here = here;
        after = ground arith;
        victim = inr (fill-none entry ss f, rw least all);
      },
    )

place-Parks :
    (entry : PendingPacket) (ss : Slots)
    → 0 < length ss
    → ((place entry ss).1 ≡ true) × Parks ss entry (place entry ss).0
unfolding place
place-Parks entry ss h = elim (Option-cases (fill entry ss)) [
  | inl n ↦
      let (ok, parks) = replace_earliest-Parks entry ss n h in (ground arith, rw (place, n) parks)
  | inr (r, e) ↦
      let (at, here, after) = fill_sound entry ss r e in
      (
        ground arith,
        record {
          at = at;
          old = none;
          here = here;
          after = ground (arith, after);
          victim = inl refl;
        },
      )
]

-- A pool that has slots parks every packet of at most `MAX_INNER_SIZE` bytes, in one slot, and
-- leaves the others alone: the slot was empty, or no slot was, and the packet that it held had the
-- earliest deadline of all.
pub park-Parks :
    (self : PendingPool) (packet : List ℕ) (wait : Wait) (deadline : Instant)
    → length packet ≤ max_inner_size
    → 0 < length self.slots
    → let (self', ok) = park self packet wait deadline in
      (ok ≡ true)
      × Parks self.slots (record { buf = packet; wait = wait; deadline = deadline }) self'.slots
unfolding park
park-Parks self packet wait deadline fits h =
    let entry : PendingPacket = record { buf = packet; wait = wait; deadline = deadline } in
    let placed = place-Parks entry self.slots h in
    let small : ltb max_inner_size (length packet) ≡ false = ground arith in rw (park, small) placed
