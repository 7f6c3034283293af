-- ===== src/Rate.antt =====
-- microtun-core/src/rate.rs: token buckets in millitokens, and the table of one bucket for each
-- handshake source (the allocation-free backend: an array of at most `max_entries` buckets).
pub mod Budget
pub mod Table
pub mod Uniform
pub mod Isolation
pub mod Interval
mod Tests
use microtun.Prelude.{
  ℕ, suc, ◌+◌, ◌-◌, ◌*◌, ◌≤◌, min, Bool, true, false, not, Option, none, some, List, [], ◌∷◌, ◌++◌,
  arith, leb, ltb, take, if◌then◌else◌, sat_add64, sat_mul64, sat_mul32, length, ◌≡◌,
}
use mathlib.Core.Option
use mathlib.Core.Logic.{ite}
use native.Mathlib.Decide.{ℕ_discrete}
use microtun.Ip.{IpAddr, v4, v6, unmap_ip}
use microtun.Time.{Instant, saturating_since}

abbrev pub cost_mt : ℕ
cost_mt = 1000

pub record TokenBucket : Type 0 where
  pub millitokens : ℕ
  pub capacity_mt : ℕ
  pub per_sec : ℕ
  pub last : Instant

unfoldable pub new_bucket : ℕ → ℕ → Instant → TokenBucket
new_bucket per_sec burst now = record {
  millitokens = sat_mul32 burst 1000;
  capacity_mt = sat_mul32 burst 1000;
  per_sec = per_sec;
  last = now;
}

unfoldable pub tokens_at : TokenBucket → Instant → ℕ
tokens_at self now =
    let elapsed_ms = saturating_since now self.last in
    let gained = sat_mul64 elapsed_ms self.per_sec in
    min (sat_add64 self.millitokens gained) self.capacity_mt

unfoldable pub is_full : TokenBucket → Instant → Bool
is_full self now = leb self.capacity_mt (tokens_at self now)

unfoldable pub try_take : TokenBucket → Instant → TokenBucket × Bool
try_take self now =
    let tokens = tokens_at self now in
    if leb cost_mt tokens
    then (record self { millitokens = tokens - cost_mt; last = now }, true)
    else (record self { millitokens = tokens; last = now }, false)

-- What counts as one source: an IPv4 address, or the upper 64 bits of an IPv6 address.
pub data Key : Type 0 where
  v4_key : List ℕ → Key
  v6_prefix : List ℕ → Key

unfoldable pub Key-discrete : Discrete Key
unfolding ℕ_discrete
Key-discrete = hlevel ℕ_discrete

pub key_of : IpAddr → Key
key_of (v4 octets) = v4_key octets
key_of (v6 octets) = v6_prefix (take 8 octets)

unfoldable pub from_ip : IpAddr → Key
unfolding key_of
from_ip ip = key_of (unmap_ip ip)

pub record Bucket : Type 0 where
  pub key : Key
  pub tokens : TokenBucket

pub record RateLimiter : Type 0 where
  pub per_sec : ℕ
  pub burst : ℕ
  pub max_entries : ℕ
  pub buckets : List Bucket

-- `MAX_RATE_LIMIT_ENTRIES`, the size of the inline array.
abbrev pub max_rate_limit_entries : ℕ
max_rate_limit_entries = 64

pub new : ℕ → ℕ → ℕ → RateLimiter
new per_sec burst max_entries = record {
  per_sec = per_sec;
  burst = burst;
  max_entries = max_entries;
  buckets = [];
}

-- `lookup_mut` and `try_take` on what it finds; `none` for an unseen source.
pub charge : Key → Instant → List Bucket → Option (List Bucket × Bool)
charge key now [] = none
charge key now (b ∷ bs) =
    ite (Key-discrete b.key key)
      (some (record b { tokens = (try_take b.tokens now).0 } ∷ bs, (try_take b.tokens now).1))
      (Option.map (λ r. (b ∷ r.0, r.1)) (charge key now bs))

-- `retain` of the buckets that are not full.
pub collect : Instant → List Bucket → List Bucket
collect now [] = []
collect now (b ∷ bs) = if is_full b.tokens now then collect now bs else b ∷ collect now bs

pub admit : RateLimiter → Key → Instant → RateLimiter × Bool
admit self key now =
    let (tokens, allowed) = try_take (new_bucket self.per_sec self.burst now) now in
    if ltb (length self.buckets) max_rate_limit_entries
    then (
      record self { buckets = self.buckets ++ record { key = key; tokens = tokens } ∷ [] },
      allowed,
    )
    else (self, false)

pub admit_if_room : RateLimiter → Key → Instant → RateLimiter × Bool
admit_if_room self key now =
    if leb self.max_entries (length self.buckets) then (self, false) else admit self key now

-- An unseen source: full buckets are reclaimed only when there is no room, and a table that is
-- still full denies.
pub allow_new : RateLimiter → Key → Instant → RateLimiter × Bool
allow_new self key now =
    if leb self.max_entries (length self.buckets)
    then admit_if_room (record self { buckets = collect now self.buckets }) key now
    else admit self key now

pub allow : RateLimiter → IpAddr → Instant → RateLimiter × Bool
allow self ip now = elim (charge (from_ip ip) now self.buckets) [
  | some (buckets, allowed) ↦ (record self { buckets = buckets }, allowed)
  | none ↦ allow_new self (from_ip ip) now
]
