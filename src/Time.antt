-- ===== src/Time.antt =====
-- Monotonic time of the engine, microtun-core/src/time.rs: instants and durations in
-- milliseconds, each a `u64` whose arithmetic saturates, and the cached bound on the next timer.
pub mod Cache
use microtun.Prelude.{ℕ, ◌-◌, ◌≡◌, Option, none, some, min, sat_add64, sat_mul64, arith}

-- `Instant` and `Duration` wrap one `u64` each, the number of milliseconds.
abbrev pub Instant : Type 0
Instant = ℕ

abbrev pub Duration : Type 0
Duration = ℕ

abbrev pub saturating_since : Instant → Instant → Duration
saturating_since self earlier = self - earlier

abbrev pub saturating_add : Instant → Duration → Instant
saturating_add self d = sat_add64 self d

abbrev pub from_secs : ℕ → Duration
from_secs s = sat_mul64 s 1000

-- The earlier of two optional deadlines.
unfoldable pub min_deadline : Option Instant → Option Instant → Option Instant
min_deadline none b = b
min_deadline (some a) none = some a
min_deadline (some a) (some b) = some (min a b)
