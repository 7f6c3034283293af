-- ===== src/Rate/Table.antt =====
-- The table of sources of microtun-core/src/rate.rs: how many sources it may
-- remember.
use microtun.Prelude.{
  ◌≤◌, ◌<◌, ◌≡◌, Bool, some, List, [], ◌∷◌, arith, length, length-append, Option-cases, inl, inr,
}
use microtun.Time.{Instant}
use microtun.Ip.{IpAddr}
use microtun.Rate.{
  new_bucket, try_take, Key, Key-discrete, from_ip, Bucket, RateLimiter, max_rate_limit_entries,
  charge, collect, admit, admit_if_room, allow_new, allow,
}

length-charge :
    (key : Key) (now : Instant) (bs : List Bucket) {r : List Bucket × Bool}
    → charge key now bs ≡ some r
    → length r.0 ≡ length bs
unfolding charge
length-charge key now [] e = absurd (cc)
length-charge key now (b ∷ bs) {r} e = elim (Key-discrete b.key key) [
  | yes p ↦ ground arith
  | no p ↦ elim (Option-cases (charge key now bs)) [
    | inl n ↦ absurd (ground arith)
    | inr (q, h) ↦ ground (arith, length-charge key now bs h)
  ]
]

length-collect-le : (now : Instant) (bs : List Bucket) → length (collect now bs) ≤ length bs
unfolding collect
length-collect-le now [] = omega arith
length-collect-le now (b ∷ bs) = ground (arith, length-collect-le now bs)

-- At most the configured limit, and at most the size of the array.
pub record IsBounded (self : RateLimiter) : Type 0 where
  pub configured : length self.buckets ≤ self.max_entries
  pub stored : length self.buckets ≤ max_rate_limit_entries

admit-IsBounded :
    (self : RateLimiter) (key : Key) (now : Instant)
    → IsBounded self
    → length self.buckets < self.max_entries
    → IsBounded (admit self key now).0
unfolding admit
admit-IsBounded self key now v room = ground (
  arith,
  length-append self.buckets (
      record { key = key; tokens = (try_take (new_bucket self.per_sec self.burst now) now).0 }
      ∷ []),
)

admit_if_room-IsBounded :
    (self : RateLimiter) (key : Key) (now : Instant)
    → IsBounded self
    → IsBounded (admit_if_room self key now).0
unfolding admit_if_room
admit_if_room-IsBounded self key now v = ground (arith, admit-IsBounded self key now)

allow_new-IsBounded :
    (self : RateLimiter) (key : Key) (now : Instant)
    → IsBounded self
    → IsBounded (allow_new self key now).0
unfolding allow_new
allow_new-IsBounded self key now v =
    let kept = length-collect-le now self.buckets in
    ground (
      arith,
      admit-IsBounded self key now v,
      admit_if_room-IsBounded (record self { buckets = collect now self.buckets }) key now
          (omega arith),
    )

-- Handling a message keeps the table within its limits.
pub allow-IsBounded :
    (self : RateLimiter) (ip : IpAddr) (now : Instant)
    → IsBounded self
    → IsBounded (allow self ip now).0
unfolding allow
allow-IsBounded self ip now v = elim (Option-cases (charge (from_ip ip) now self.buckets)) [
  | inl n ↦ ground (arith, allow_new-IsBounded self (from_ip ip) now v)
  | inr (q, h) ↦ ground (arith, length-charge (from_ip ip) now self.buckets h)
]
