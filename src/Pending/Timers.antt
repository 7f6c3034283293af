-- ===== src/Pending/Timers.antt =====
-- The deadlines of the pool of microtun-core/src/pending.rs.
use microtun.Prelude.{
  ℕ, zero, suc, ◌+◌, ◌≤◌, ◌≡◌, refl, ap, ◌∙◌, sym, Bool, false, Option, none, some, [], ◌∷◌, arith,
  leb, Bool-cases, inl, inr, if◌then◌else◌,
}
use microtun.Time.{Instant, min_deadline}
use microtun.Pending.{Slots, PendingPool, least, next_deadline, expire_first, expire_one}

-- Whether a timer for the deadline is due.
abbrev pub due : Instant → Option Instant → Bool
due now none = false
due now (some t) = leb t now

-- How many packets are parked.
unfoldable pub parked : Slots → ℕ
parked [] = 0
parked (none ∷ ss) = parked ss
parked (some p ∷ ss) = suc (parked ss)

expire_first-due : (now : Instant) (ss : Slots) → (expire_first now ss).1 ≡ due now (least ss)
unfolding expire_first least min_deadline
expire_first-due now [] = refl
expire_first-due now (none ∷ ss) = expire_first-due now ss
expire_first-due now (some p ∷ ss) = ground (arith, expire_first-due now ss)

expire_first-parked :
    (now : Instant) (ss : Slots)
    → parked (expire_first now ss).0 + (if (expire_first now ss).1 then 1 else 0) ≡ parked ss
unfolding expire_first parked
expire_first-parked now [] = refl
expire_first-parked now (none ∷ ss) = expire_first-parked now ss
expire_first-parked now (some p ∷ ss) = ground (arith, expire_first-parked now ss)

-- The timer action that `poll_at` announces is the one that `expire_one` takes: it drops a packet
-- exactly when the next deadline is due, and then exactly one.
pub expire_one-next_deadline :
    (self : PendingPool) (now : Instant)
    → let (self', ok) = expire_one self now in
      (ok ≡ due now (next_deadline self))
      × (parked self'.slots + (if ok then 1 else 0) ≡ parked self.slots)
unfolding expire_one next_deadline
expire_one-next_deadline self now =
    (expire_first-due now self.slots, expire_first-parked now self.slots)

-- The engine's loop over due timers, `rounds` at most.
pub expire_rounds : ℕ → PendingPool → Instant → PendingPool
expire_rounds zero self now = self
expire_rounds (suc rounds) self now =
    let (self', ok) = expire_one self now in
    let rest = expire_rounds rounds self' now in if ok then rest else self'

none-due : (now : Instant) (ss : Slots) → parked ss ≡ 0 → due now (least ss) ≡ false
unfolding parked least
none-due now [] h = refl
none-due now (none ∷ ss) h = none-due now ss h
none-due now (some p ∷ ss) h = absurd (omega arith)

expire_first-unchanged :
    (now : Instant) (ss : Slots) → (expire_first now ss).1 ≡ false → (expire_first now ss).0 ≡ ss
unfolding expire_first
expire_first-unchanged now [] h = refl
expire_first-unchanged now (none ∷ ss) h = ap (λ xs. none ∷ xs) (expire_first-unchanged now ss h)
expire_first-unchanged now (some p ∷ ss) h = ground (arith, expire_first-unchanged now ss)

idle-due :
    (self : PendingPool) (now : Instant)
    → (expire_one self now).1 ≡ false
    → due now (next_deadline (expire_one self now).0) ≡ false
unfolding expire_one next_deadline
idle-due self now h =
    ap (λ ss. due now (least ss)) (expire_first-unchanged now self.slots h)
    ∙ (sym (expire_first-due now self.slots) ∙ h)

-- Expiring one packet at a time ends: after as many rounds as packets are parked, none is due.
pub expire_rounds-enough :
    (rounds : ℕ) (self : PendingPool) (now : Instant)
    → parked self.slots ≤ rounds
    → due now (next_deadline (expire_rounds rounds self now)) ≡ false
unfolding expire_rounds
expire_rounds-enough zero self now h = unfold next_deadline in none-due now self.slots (omega arith)
expire_rounds-enough (suc rounds) self now h =
    let (agrees, fewer) = expire_one-next_deadline self now in
    elim (Bool-cases (expire_one self now).1) [
      | inl b ↦
          rw b (expire_rounds-enough rounds (expire_one self now).0 now (ground (arith, fewer)))
      | inr b ↦ rw b (idle-due self now b)
    ]
