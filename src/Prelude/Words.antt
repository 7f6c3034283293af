-- ===== src/Prelude/Words.antt =====
-- Machine words: the limits of the unsigned types and the saturating operations of Rust.
use Prim.Native.Nat.{ℕ, ◌+◌, ◌-◌, ◌*◌, ◌^◌, min}

abbrev pub u8_max : ℕ
u8_max = 2 ^ 8 - 1

abbrev pub u16_max : ℕ
u16_max = 2 ^ 16 - 1

abbrev pub u32_max : ℕ
u32_max = 2 ^ 32 - 1

abbrev pub u64_max : ℕ
u64_max = 2 ^ 64 - 1

-- `u64::saturating_add` and `u64::saturating_mul`; `saturating_sub` is `-` on ℕ.
abbrev pub sat_add64 : ℕ → ℕ → ℕ
sat_add64 a b = min (a + b) u64_max

abbrev pub sat_mul64 : ℕ → ℕ → ℕ
sat_mul64 a b = min (a * b) u64_max

abbrev pub sat_mul32 : ℕ → ℕ → ℕ
sat_mul32 a b = min (a * b) u32_max

abbrev pub sat_add16 : ℕ → ℕ → ℕ
sat_add16 a b = min (a + b) u16_max

abbrev pub sat_add8 : ℕ → ℕ → ℕ
sat_add8 a b = min (a + b) u8_max
