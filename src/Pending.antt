-- ===== src/Pending.antt =====
-- microtun-core/src/pending.rs: the pool of outbound packets that wait for a resolver or for a
-- handshake. A packet's buffer holds exactly its bytes (the heap backend).
pub mod Timers
mod Tests
pub mod Parking
pub mod Taking
use microtun.Prelude.{
  ℕ, zero, suc, ◌+◌, ◌-◌, ◌*◌, ◌/◌, Bool, true, false, not, Option, none, some, List, [], ◌∷◌,
  arith, ltb, leb, ◌==◌, if◌then◌else◌, length, replicate, get_elem?, set,
}
use microtun.Time.{Instant, min_deadline}
use microtun.Messages.{data_overhead}
use microtun.Relay.{align_down, max_udp_size}

-- `MAX_INNER_SIZE` of lib.rs.
abbrev pub max_inner_size : ℕ
max_inner_size = align_down (max_udp_size - data_overhead)

-- A resolver query by its identifier, or a peer by its index.
pub data Wait : Type 0 where
  resolve : ℕ → Wait
  handshake : ℕ → Wait

pub record PendingPacket : Type 0 where
  pub buf : List ℕ
  pub wait : Wait
  pub deadline : Instant

abbrev pub Slots : Type 0
Slots = List (Option PendingPacket)

pub record PendingPool : Type 0 where
  pub slots : Slots

pub new : ℕ → PendingPool
new max_packets = record { slots = replicate max_packets none }

-- `iter_mut().find(|s| s.is_none())` and the write to what it finds.
unfoldable pub fill : PendingPacket → Slots → Option Slots
fill entry [] = none
fill entry (none ∷ ss) = some (some entry ∷ ss)
fill entry (some p ∷ ss) = elim (fill entry ss) [ none ↦ none | some ss' ↦ some (some p ∷ ss') ]

-- The key of `min_by_key`, where an empty slot counts as 0.
abbrev pub deadline_of : Option PendingPacket → Instant
deadline_of none = 0
deadline_of (some p) = p.deadline

-- The place of the first least key, with the key.
unfoldable pub earliest_slot : Slots → Option (ℕ × Instant)
earliest_slot [] = none
earliest_slot (s ∷ ss) = elim (earliest_slot ss) [
  | none ↦ some (0, deadline_of s)
  | some (i, t) ↦ if leb (deadline_of s) t then some (0, deadline_of s) else some (suc i, t)
]

unfoldable pub replace_earliest : PendingPacket → Slots → Slots × Bool
replace_earliest entry ss = elim (earliest_slot ss) [
  | none ↦ (ss, false)
  | some (i, t) ↦ (set ss i (some entry), true)
]

unfoldable pub place : PendingPacket → Slots → Slots × Bool
place entry ss = elim (fill entry ss) [ some ss' ↦ (ss', true) | none ↦ replace_earliest entry ss ]

pub park : PendingPool → List ℕ → Wait → Instant → PendingPool × Bool
park self packet wait deadline =
    if ltb max_inner_size (length packet)
    then (self, false)
    else let entry : PendingPacket = record { buf = packet; wait = wait; deadline = deadline } in
      let (ss, ok) = place entry self.slots in (record { slots = ss }, ok)

unfoldable pub take_first : (PendingPacket → Bool) → Slots → Slots × Option PendingPacket
take_first pred [] = ([], none)
take_first pred (none ∷ ss) = let (ss', r) = take_first pred ss in (none ∷ ss', r)
take_first pred (some p ∷ ss) =
    let (ss', r) = take_first pred ss in if pred p then (none ∷ ss, some p) else (some p ∷ ss', r)

pub take_if : PendingPool → (PendingPacket → Bool) → PendingPool × Option PendingPacket
take_if self pred = let (ss, r) = take_first pred self.slots in (record { slots = ss }, r)

unfoldable pub drop_each : (PendingPacket → Bool) → Slots → Slots
drop_each pred [] = []
drop_each pred (none ∷ ss) = none ∷ drop_each pred ss
drop_each pred (some p ∷ ss) = (if pred p then none else some p) ∷ drop_each pred ss

pub drop_if : PendingPool → (PendingPacket → Bool) → PendingPool
drop_if self pred = record { slots = drop_each pred self.slots }

-- `iter().flatten().map(|p| p.deadline).min()`
unfoldable pub least : Slots → Option Instant
least [] = none
least (none ∷ ss) = least ss
least (some p ∷ ss) = min_deadline (some p.deadline) (least ss)

pub next_deadline : PendingPool → Option Instant
next_deadline self = least self.slots

unfoldable pub expire_first : Instant → Slots → Slots × Bool
expire_first now [] = ([], false)
expire_first now (none ∷ ss) = let (ss', ok) = expire_first now ss in (none ∷ ss', ok)
expire_first now (some p ∷ ss) =
    let (ss', ok) = expire_first now ss in
    if leb p.deadline now then (none ∷ ss, true) else (some p ∷ ss', ok)

pub expire_one : PendingPool → Instant → PendingPool × Bool
expire_one self now = let (ss, ok) = expire_first now self.slots in (record { slots = ss }, ok)
