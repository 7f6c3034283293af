-- ===== src/Pending/Taking.antt =====
-- What leaves the pool of microtun-core/src/pending.rs.
use microtun.Prelude.All.{Every}
use microtun.Prelude.{
  ℕ, suc, ◌≡◌, refl, ap, Bool, true, false, Option, none, some, [], ◌∷◌, get_elem?, set, take,
  Bool-cases, inl, inr,
}
use microtun.Pending.{PendingPacket, Slots, PendingPool, drop_each, take_first, take_if}

-- The slot holds no packet that matches.
abbrev pub Misses : (PendingPacket → Bool) → Option PendingPacket → Type 0
Misses pred none = Unit {0}
Misses pred (some p) = pred p ≡ false

-- A taken packet matches, it was the first that does, and its slot is emptied; without a match
-- nothing is taken and nothing changes.
abbrev pub Takes : (PendingPacket → Bool) → Slots → Slots × Option PendingPacket → Type 0
Takes pred ss (ss', none) = (ss' ≡ ss) × Every (Misses pred) ss
Takes pred ss (ss', some p) =
    (pred p ≡ true)
    × ((at : ℕ) × (get_elem? ss at ≡ some (some p))
        × (ss' ≡ set ss at none)
        × Every (Misses pred) (take at ss))

-- A slot that does not match stays in front.
later-Takes :
    (pred : PendingPacket → Bool) (s : Option PendingPacket) (ss : Slots)
    (r : Slots × Option PendingPacket)
    → Misses pred s
    → Takes pred ss r
    → Takes pred (s ∷ ss) (s ∷ r.0, r.1)
later-Takes pred s ss (ss', none) m (same, all) = (ap (λ xs. s ∷ xs) same, (m, all))
later-Takes pred s ss (ss', some p) m (hit, (at, here, after, before)) =
    (hit, (suc at, here, ap (λ xs. s ∷ xs) after, (m, before)))

take_first-Takes : (pred : PendingPacket → Bool) (ss : Slots) → Takes pred ss (take_first pred ss)
unfolding take_first
take_first-Takes pred [] = (refl, tt)
take_first-Takes pred (none ∷ ss) =
    later-Takes pred none ss (take_first pred ss) tt (take_first-Takes pred ss)
take_first-Takes pred (some p ∷ ss) = elim (Bool-cases (pred p)) [
  | inl b ↦ rw (take_first, b) (b, (0, refl, refl, tt))
  | inr b ↦ rw b (later-Takes pred (some p) ss (take_first pred ss) b (take_first-Takes pred ss))
]

-- `take_if` returns the first packet that matches, and empties its slot; it returns none exactly
-- when no packet matches, and then changes nothing.
pub take_if-Takes :
    (self : PendingPool) (pred : PendingPacket → Bool)
    → let (self', r) = take_if self pred in Takes pred self.slots (self'.slots, r)
unfolding take_if
take_if-Takes self pred = take_first-Takes pred self.slots

-- After `drop_if` no parked packet matches.
drop_each-Misses :
    (pred : PendingPacket → Bool) (ss : Slots) → Every (Misses pred) (drop_each pred ss)
unfolding drop_each
drop_each-Misses pred [] = tt
drop_each-Misses pred (none ∷ ss) = (tt, drop_each-Misses pred ss)
drop_each-Misses pred (some p ∷ ss) = elim (Bool-cases (pred p)) [
  | inl b ↦ rw b (tt, drop_each-Misses pred ss)
  | inr b ↦ rw b (b, drop_each-Misses pred ss)
]
