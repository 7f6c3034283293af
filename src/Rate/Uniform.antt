-- ===== src/Rate/Uniform.antt =====
-- One bucket for each source, of the limiter's capacity: the invariant of the table of
-- microtun-core/src/rate.rs.
use mathlib.Core.Logic.{ite}
use native.Mathlib.Nat.{mul-le-mul_right}
use microtun.Prelude.{
  ℕ, ◌-◌, ◌≤◌, ◌≡◌, ◌≢◌, refl, sym, subst, ◌∙◌, Bool, true, Option, none, some, List, [], ◌∷◌, ◌++◌,
  arith, sat_mul32, Option-cases, inl, inr,
}
use microtun.Time.{Instant}
use microtun.Ip.{IpAddr}
use microtun.Rate.{
  TokenBucket, new_bucket, tokens_at, is_full, try_take, Key, Key-discrete, from_ip, Bucket,
  RateLimiter, charge, collect, admit, admit_if_room, allow_new, allow,
}

-- What the bucket of `key` holds at `t`; a source with no bucket counts as full.
unfoldable pub find : Key → List Bucket → Option TokenBucket
find key [] = none
find key (b ∷ bs) = ite (Key-discrete b.key key) (some b.tokens) (find key bs)

-- What a source may spend at `t`, where a missing bucket counts as `cap`.
abbrev pub held : Option TokenBucket → ℕ → Instant → ℕ
held none cap t = cap
held (some b) cap t = tokens_at b t

unfoldable pub budget : RateLimiter → Key → Instant → ℕ
budget self key t = held (find key self.buckets) (sat_mul32 self.burst 1000) t

-- Every source has one bucket, of the limiter's capacity.
abbrev pub Uniform : ℕ → List Bucket → Type 0
Uniform cap [] = Unit {0}
Uniform cap (b ∷ bs) = (b.tokens.capacity_mt ≡ cap) × (find b.key bs ≡ none) × Uniform cap bs

pub charge_others :
    (key other : Key) (now : Instant) (bs : List Bucket) {r : List Bucket × Bool}
    → other ≢ key
    → charge key now bs ≡ some r
    → find other r.0 ≡ find other bs
unfolding charge find
charge_others key other now [] ne e = absurd (cc)
charge_others key other now (b ∷ bs) {r} ne e = elim (Key-discrete b.key key) [
  | yes p ↦ ground arith
  | no p ↦ elim (Option-cases (charge key now bs)) [
    | inl n ↦ absurd (ground arith)
    | inr (q, h) ↦ ground (arith, charge_others key other now bs ne h)
  ]
]

pub find-append :
    (key : Key) (bs : List Bucket) (b : Bucket)
    → b.key ≢ key
    → find key (bs ++ b ∷ []) ≡ find key bs
unfolding find
find-append key [] b ne = ground arith
find-append key (x ∷ bs) b ne = ground (arith, find-append key bs b ne)

-- A bucket that is full stays full.
pub tokens_at-full :
    (b : TokenBucket) (now t : Instant)
    → is_full b now ≡ true
    → now ≤ t
    → tokens_at b t ≡ b.capacity_mt
unfolding is_full tokens_at
tokens_at-full b now t h le =
    ground (arith, mul-le-mul_right {m = now - b.last} {n = t - b.last} b.per_sec (omega arith))

pub none-collect :
    (key : Key) (now : Instant) (bs : List Bucket)
    → find key bs ≡ none
    → find key (collect now bs) ≡ none
unfolding collect find
none-collect key now [] e = refl
none-collect key now (b ∷ bs) e = ground (arith, none-collect key now bs)

pub find-collect :
    (key : Key) (cap : ℕ) (now t : Instant) (bs : List Bucket)
    → Uniform cap bs
    → now ≤ t
    → held (find key (collect now bs)) cap t ≡ held (find key bs) cap t
unfolding collect find
find-collect key cap now t [] u le = refl
find-collect key cap now t (b ∷ bs) u le =
    let rest = find-collect key cap now t bs u.2 le in
    elim (Key-discrete b.key key) [
      | no p ↦ ground (arith, rest)
      | yes p ↦
          let gone = none-collect key now bs (subst (λ k. find k bs ≡ none) p u.1) in
          ground (arith, gone, tokens_at-full b.tokens now t)
    ]

none-charge :
    (key other : Key) (now : Instant) (bs : List Bucket) {r : List Bucket × Bool}
    → find other bs ≡ none
    → charge key now bs ≡ some r
    → find other r.0 ≡ none
unfolding charge find
none-charge key other now [] n e = absurd (cc)
none-charge key other now (b ∷ bs) n e = elim (Key-discrete b.key key) [
  | yes p ↦ ground arith
  | no p ↦ elim (Option-cases (charge key now bs)) [
    | inl m ↦ absurd (ground arith)
    | inr (q, h) ↦ ground (arith, none-charge key other now bs {r = q})
  ]
]

pub charge-none :
    (key : Key) (now : Instant) (bs : List Bucket) → charge key now bs ≡ none → find key bs ≡ none
unfolding charge find
charge-none key now [] e = refl
charge-none key now (b ∷ bs) e = elim (Option-cases (charge key now bs)) [
  | inl m ↦ ground (arith, charge-none key now bs m)
  | inr (q, h) ↦ ground arith
]

find-last :
    (key : Key) (bs : List Bucket) (b : Bucket)
    → find key bs ≡ none
    → b.key ≡ key
    → find key (bs ++ b ∷ []) ≡ some b.tokens
unfolding find
find-last key [] b n e = ground arith
find-last key (x ∷ bs) b n e = ground (arith, find-last key bs b)

-- The invariant, operation by operation.
Uniform-collect :
    (cap : ℕ) (now : Instant) (bs : List Bucket) → Uniform cap bs → Uniform cap (collect now bs)
unfolding collect
Uniform-collect cap now [] u = tt
Uniform-collect cap now (b ∷ bs) u =
    ground (arith, Uniform-collect cap now bs u.2, none-collect b.key now bs u.1)

try_take-capacity :
    (b : TokenBucket) (now : Instant) → (try_take b now).0.capacity_mt ≡ b.capacity_mt
unfolding try_take
try_take-capacity b now = ground arith

Uniform-charge :
    (cap : ℕ) (key : Key) (now : Instant) (bs : List Bucket) {r : List Bucket × Bool}
    → Uniform cap bs
    → charge key now bs ≡ some r
    → Uniform cap r.0
unfolding charge
Uniform-charge cap key now [] u e = absurd (cc)
Uniform-charge cap key now (b ∷ bs) {r} u e = elim (Key-discrete b.key key) [
  | yes p ↦
      let charged : Bucket = record b { tokens = (try_take b.tokens now).0 } in
      let e' : charged ∷ bs ≡ r.0 = ground arith in
      subst (Uniform cap) e' (try_take-capacity b.tokens now ∙ u.0, u.1, u.2)
  | no p ↦ elim (Option-cases (charge key now bs)) [
    | inl m ↦ absurd (ground arith)
    | inr (q, h) ↦
        let e' : b ∷ q.0 ≡ r.0 = ground arith in
        subst (Uniform cap) e'
          (u.0, none-charge key b.key now bs u.1 h, Uniform-charge cap key now bs u.2 h)
  ]
]

Uniform-append :
    (cap : ℕ) (bs : List Bucket) (b : Bucket)
    → Uniform cap bs
    → find b.key bs ≡ none
    → b.tokens.capacity_mt ≡ cap
    → Uniform cap (bs ++ b ∷ [])
unfolding find
Uniform-append cap [] b u n e = (e, refl, tt)
Uniform-append cap (x ∷ bs) b u n e = elim (Key-discrete x.key b.key) [
  | yes p ↦ absurd (ground arith)
  | no p ↦ (
    u.0,
    find-append x.key bs b (λ h. p (sym h)) ∙ u.1,
    Uniform-append cap bs b u.2 (ground arith) e,
  )
]

-- The sources of a limiter are well kept: one bucket each, of the capacity of the limiter.
abbrev pub IsUniform : RateLimiter → Type 0
IsUniform self = Uniform (sat_mul32 self.burst 1000) self.buckets

admit-IsUniform :
    (self : RateLimiter) (key : Key) (now : Instant)
    → IsUniform self
    → find key self.buckets ≡ none
    → IsUniform (admit self key now).0
unfolding admit
admit-IsUniform self key now u n =
    let fresh : Bucket = record {
      key = key;
      tokens = (try_take (new_bucket self.per_sec self.burst now) now).0;
    } in
    ground (
      arith,
      Uniform-append (sat_mul32 self.burst 1000) self.buckets fresh u n
          (try_take-capacity _ now ∙ unfold new_bucket in refl),
    )

allow_new-IsUniform :
    (self : RateLimiter) (key : Key) (now : Instant)
    → IsUniform self
    → find key self.buckets ≡ none
    → IsUniform (allow_new self key now).0
unfolding allow_new admit_if_room
allow_new-IsUniform self key now u n =
    let swept : RateLimiter = record self { buckets = collect now self.buckets } in
    let u' = Uniform-collect (sat_mul32 self.burst 1000) now self.buckets u in
    let kept = admit-IsUniform self key now u n in
    let after_sweep = admit-IsUniform swept key now u' (none-collect key now self.buckets n) in
    ground (arith, u', kept, after_sweep)

pub allow-IsUniform :
    (self : RateLimiter) (ip : IpAddr) (now : Instant)
    → IsUniform self
    → IsUniform (allow self ip now).0
unfolding allow
allow-IsUniform self ip now u = elim (Option-cases (charge (from_ip ip) now self.buckets)) [
  | inl n ↦ ground (
    arith,
    allow_new-IsUniform self (from_ip ip) now u (charge-none (from_ip ip) now self.buckets n),
  )
  | inr (q, h) ↦ ground (arith, Uniform-charge _ (from_ip ip) now self.buckets u h)
]
