-- ===== src/Rate/Interval.antt =====
-- `IntervalBudget` of microtun-core/src/rate.rs: one token for each interval, up to a burst.
use microtun.Prelude.{
  ℕ, ◌+◌, ◌-◌, ◌*◌, ◌/◌, ◌≤◌, ◌≡◌, min, Bool, true, false, ◌||◌, arith, ltb, ◌==◌, if◌then◌else◌,
  u32_max, u64_max, sat_add64, sat_mul64, List, [], ◌∷◌, ap,
}
use native.Mathlib.Nat.{div-mul-le_self, mul-le-mul_left}
use microtun.Time.{Instant, Duration, saturating_since}

pub record IntervalBudget : Type 0 where
  pub available : ℕ
  pub burst : ℕ
  pub interval_ms : ℕ
  pub last_refill : Instant

pub new : Duration → ℕ → Instant → IntervalBudget
new interval burst now = record {
  available = burst;
  burst = burst;
  interval_ms = interval;
  last_refill = now;
}

-- The refill that `try_take_many` makes first. `u32::saturating_add` is a `min` with `u32::MAX`.
pub refill : IntervalBudget → Instant → IntervalBudget
refill self now =
    let refills = saturating_since now self.last_refill / self.interval_ms in
    if refills == 0 then self else record self {
      available = min (min (self.available + min refills u32_max) u32_max) self.burst;
      last_refill = sat_add64 self.last_refill (sat_mul64 refills self.interval_ms);
    }

pub try_take_many : IntervalBudget → ℕ → Instant → IntervalBudget × Bool
try_take_many self count now =
    if count == 0
    then (self, true)
    else if (self.interval_ms == 0) || (self.burst == 0) || ltb self.burst count
    then (self, false)
    else let filled = refill self now in
      if ltb filled.available count
      then (filled, false)
      else (record filled { available = filled.available - count }, true)

pub try_take : IntervalBudget → Instant → IntervalBudget × Bool
unfolding try_take_many
try_take self now = try_take_many self 1 now

pub record IsValid (b : IntervalBudget) : Type 0 where
  pub capped : b.available ≤ b.burst
  pub burst32 : b.burst ≤ u32_max

-- The budget never holds more than its burst, and a refill never runs ahead of the clock.
refill-IsValid : {b : IntervalBudget} (now : Instant) → IsValid b → IsValid (refill b now)
unfolding refill
refill-IsValid now v = ground arith

pub try_take_many-IsValid :
    {b : IntervalBudget} (count : ℕ) (now : Instant)
    → IsValid b
    → IsValid (try_take_many b count now).0
unfolding try_take_many
try_take_many-IsValid count now v = ground (arith, refill-IsValid now v)

refill_earns :
    (b : IntervalBudget) (now : Instant)
    → now ≤ u64_max
    → b.last_refill ≤ now
    → (b.interval_ms * (refill b now).available + b.last_refill
        ≤ b.interval_ms * b.available + (refill b now).last_refill)
      × ((refill b now).last_refill ≤ now)
      × ((refill b now).interval_ms ≡ b.interval_ms)
unfolding refill
refill_earns b now fits h =
    let refills = saturating_since now b.last_refill / b.interval_ms in
    ground (
      arith,
      div-mul-le_self (now - b.last_refill) b.interval_ms,
      mul-le-mul_left {m = min (min (b.available + min refills u32_max) u32_max) b.burst}
          {n = b.available + refills} b.interval_ms (omega arith),
    )

-- A charge that is let through is paid for out of the tokens.
try_take_many_pays :
    (b : IntervalBudget) (count : ℕ) (now : Instant)
    → now ≤ u64_max
    → b.last_refill ≤ now
    → let (b', ok) = try_take_many b count now in
      (b.interval_ms * (b'.available + (if ok then count else 0)) + b.last_refill
        ≤ b.interval_ms * b.available + b'.last_refill)
      × (b'.last_refill ≤ now)
      × (b'.interval_ms ≡ b.interval_ms)
unfolding try_take_many
try_take_many_pays b count now fits h = ground (arith, refill_earns b now fits h)

-- Charges of given sizes at given instants, with the total that was let through.
pub take_all : IntervalBudget → List (ℕ × Instant) → IntervalBudget × ℕ
take_all b [] = (b, 0)
take_all b ((count, t) ∷ cs) =
    let (b', ok) = try_take_many b count t in
    let (b'', n) = take_all b' cs in (b'', (if ok then count else 0) + n)

-- The instants do not go back, and fit a `u64`.
abbrev pub Ascending : Instant → List (ℕ × Instant) → Type 0
Ascending from [] = Unit {0}
Ascending from ((count, t) ∷ cs) = (from ≤ t) × (t ≤ u64_max) × Ascending t cs

abbrev pub final : Instant → List (ℕ × Instant) → Instant
final from [] = from
final from ((count, t) ∷ cs) = final t cs

Ascending-final :
    (from : Instant) (cs : List (ℕ × Instant)) → Ascending from cs → from ≤ final from cs
Ascending-final from [] h = omega arith
Ascending-final from ((count, t) ∷ cs) h = omega (arith, Ascending-final t cs h.2)

take_all_pays :
    (b : IntervalBudget) (now : Instant) (cs : List (ℕ × Instant))
    → b.last_refill ≤ now
    → Ascending now cs
    → let (b', n) = take_all b cs in
      (b.interval_ms * (b'.available + n) + b.last_refill
        ≤ b.interval_ms * b.available + b'.last_refill)
      × (b'.last_refill ≤ final now cs)
unfolding take_all
take_all_pays b now [] h a = omega arith
take_all_pays b now ((count, t) ∷ cs) h a =
    let (b', ok) = try_take_many b count t in
    let (pays, before, same) = try_take_many_pays b count t a.1 (omega arith) in
    let (rest, last) = take_all_pays b' t cs before a.2 in
    (
      omega (
        arith,
        ap (λ k. k * ((take_all b' cs).0.available + (take_all b' cs).1)) same,
        ap (λ k. k * b'.available) same,
      ),
      last,
    )

-- A new budget, charged at instants that do not go back, lets through at most its burst and one
-- operation for each whole interval from its creation to the last charge.
pub interval_bound :
    (interval burst t0 : ℕ) (cs : List (ℕ × Instant))
    → Ascending t0 cs
    → interval * (take_all (new interval burst t0) cs).1 + t0 ≤ interval * burst + final t0 cs
unfolding new
interval_bound interval burst t0 cs a =
    let b = new interval burst t0 in
    let (pays, last) = take_all_pays b t0 cs (omega arith) a in omega arith
