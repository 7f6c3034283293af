-- ===== src/Rate/Isolation.antt =====
-- The budget of one source of microtun-core/src/rate.rs while other sources send.
use microtun.Prelude.{
  ℕ, ◌≤◌, ◌<◌, ◌⊎◌, Bool, some, leb, length, ◌≡◌, ◌≢◌, refl, sym, ap, ◌∙◌, List, [], ◌∷◌, arith,
  sat_mul32, Option-cases, inl, inr,
}
use microtun.Time.{Instant}
use microtun.Ip.{IpAddr}
use microtun.Rate.Uniform.{
  find, held, budget, IsUniform, allow-IsUniform, charge_others, find-append, find-collect,
  charge-none, find,
}
use microtun.Rate.{
  new, new_bucket, try_take, tokens_at, cost_mt, max_rate_limit_entries, Key-discrete, Key, from_ip,
  Bucket, RateLimiter, charge, collect, admit, admit_if_room, allow_new, allow,
}

admit_others :
    (self : RateLimiter) (key other : Key) (now t : Instant)
    → other ≢ key
    → budget (admit self key now).0 other t ≡ budget self other t
unfolding admit budget
admit_others self key other now t ne =
    let fresh : Bucket = record {
      key = key;
      tokens = (try_take (new_bucket self.per_sec self.burst now) now).0;
    } in
    ground (arith, find-append other self.buckets fresh (λ e. ne (sym e)))

sweep_others :
    (self : RateLimiter) (other : Key) (now t : Instant)
    → IsUniform self
    → now ≤ t
    → budget (record self { buckets = collect now self.buckets }) other t ≡ budget self other t
unfolding budget
sweep_others self other now t u le =
    find-collect other (sat_mul32 self.burst 1000) now t self.buckets u le

allow_new_others :
    (self : RateLimiter) (key other : Key) (now t : Instant)
    → IsUniform self
    → other ≢ key
    → now ≤ t
    → budget (allow_new self key now).0 other t ≡ budget self other t
unfolding allow_new admit_if_room
allow_new_others self key other now t u ne le =
    let swept : RateLimiter = record self { buckets = collect now self.buckets } in
    ground (
      arith,
      admit_others self key other now t ne,
      admit_others swept key other now t ne,
      sweep_others self other now t u le,
    )

budget_congr :
    (self : RateLimiter) (other : Key) (t : Instant) (bs : List Bucket)
    → find other bs ≡ find other self.buckets
    → budget (record self { buckets = bs }) other t ≡ budget self other t
unfolding budget
budget_congr self other t bs e = ap (λ o. held o (sat_mul32 self.burst 1000) t) e

allow_others :
    (self : RateLimiter) (ip : IpAddr) (other : Key) (now t : Instant)
    → IsUniform self
    → other ≢ from_ip ip
    → now ≤ t
    → budget (allow self ip now).0 other t ≡ budget self other t
unfolding allow
allow_others self ip other now t u ne le =
    elim (Option-cases (charge (from_ip ip) now self.buckets)) [
      | inl n ↦ ground (arith, allow_new_others self (from_ip ip) other now t u ne le)
      | inr (q, h) ↦ ground (
        arith,
        charge_others (from_ip ip) other now self.buckets ne h,
        budget_congr self other t q.0,
      )
    ]

-- A flood of messages, each with the source that it claims and the time that it came.
unfoldable pub allow_all : RateLimiter → List (IpAddr × Instant) → RateLimiter
allow_all self [] = self
allow_all self ((ip, now) ∷ ms) = allow_all (allow self ip now).0 ms

-- No message is from `other`, and none comes after `t`.
abbrev pub Others : Key → Instant → List (IpAddr × Instant) → Type 0
Others other t [] = Unit {0}
Others other t ((ip, now) ∷ ms) = (other ≢ from_ip ip) × (now ≤ t) × Others other t ms

allow_all-Others :
    (self : RateLimiter) (other : Key) (t : Instant) (ms : List (IpAddr × Instant))
    → IsUniform self
    → Others other t ms
    → budget (allow_all self ms) other t ≡ budget self other t
unfolding allow_all
allow_all-Others self other t [] u o = refl
allow_all-Others self other t ((ip, now) ∷ ms) u o =
    allow_all-Others (allow self ip now).0 other t ms (allow-IsUniform self ip now u) o.2
    ∙ allow_others self ip other now t u o.0 o.1

allow_all-IsUniform :
    (self : RateLimiter) (ms : List (IpAddr × Instant))
    → IsUniform self
    → IsUniform (allow_all self ms)
unfolding allow_all
allow_all-IsUniform self [] u = u
allow_all-IsUniform self ((ip, now) ∷ ms) u =
    allow_all-IsUniform (allow self ip now).0 ms (allow-IsUniform self ip now u)

-- There is a slot for a source that has none.
abbrev pub HasRoom : RateLimiter → Type 0
HasRoom self =
    (length self.buckets < self.max_entries) × (length self.buckets < max_rate_limit_entries)

charge_verdict :
    (key : Key) (cap : ℕ) (now : Instant) (bs : List Bucket) {r : List Bucket × Bool}
    → charge key now bs ≡ some r
    → r.1 ≡ leb cost_mt (held (find key bs) cap now)
unfolding charge find
charge_verdict key cap now [] e = absurd (cc)
charge_verdict key cap now (b ∷ bs) {r} e = elim (Key-discrete b.key key) [
  | yes p ↦ unfold try_take in ground arith
  | no p ↦ elim (Option-cases (charge key now bs)) [
    | inl n ↦ absurd (ground arith)
    | inr (q, h) ↦ ground (arith, charge_verdict key cap now bs {r = q} h)
  ]
]

-- A source with a slot, or with room for one, is let through when its budget pays for it.
allow-budget :
    (self : RateLimiter) (ip : IpAddr) (now : Instant)
    → (budget self (from_ip ip) now < sat_mul32 self.burst 1000) ⊎ HasRoom self
    → (allow self ip now).1 ≡ leb cost_mt (budget self (from_ip ip) now)
unfolding allow budget
allow-budget self ip now place = elim (Option-cases (charge (from_ip ip) now self.buckets)) [
  | inr (q, h) ↦
      ground
        (arith, charge_verdict (from_ip ip) (sat_mul32 self.burst 1000) now self.buckets {r = q} h)
  | inl n ↦
      let fresh = charge-none (from_ip ip) now self.buckets n in
      unfold allow_new in
      unfold admit in
      unfold try_take in unfold tokens_at in unfold new_bucket in ground (arith, fresh, place)
]

allow-burst :
    (self : RateLimiter) (ip : IpAddr) (now : Instant) → (allow self ip now).0.burst ≡ self.burst
unfolding allow allow_new admit_if_room admit
allow-burst self ip now = ground arith

allow_all-burst :
    (self : RateLimiter) (ms : List (IpAddr × Instant)) → (allow_all self ms).burst ≡ self.burst
unfolding allow_all
allow_all-burst self [] = refl
allow_all-burst self ((ip, now) ∷ ms) =
    allow_all-burst (allow self ip now).0 ms ∙ allow-burst self ip now

-- A flood of messages from other sources, however many addresses they cycle through, with none
-- later than `t`, takes nothing from a source that has a place in the table: its bucket is not full
-- at `t`, or the flood left a slot free. The source may spend at `t` what it could have spent without
-- the flood (its bucket is never evicted or reset, and dropping a refilled bucket takes nothing
-- from it), and a message of it is let through at `t` exactly when that pays for it.
pub allow_isolated :
    (per_sec burst max_entries : ℕ) (own others : List (IpAddr × Instant)) (ip : IpAddr)
    (t : Instant)
    → Others (from_ip ip) t others
    → (budget (allow_all (new per_sec burst max_entries) own) (from_ip ip) t < sat_mul32 burst 1000)
      ⊎ HasRoom (allow_all (allow_all (new per_sec burst max_entries) own) others)
    → let self = allow_all (new per_sec burst max_entries) own in
      let flooded = allow_all self others in
      (budget flooded (from_ip ip) t ≡ budget self (from_ip ip) t)
      × ((allow flooded ip t).1 ≡ leb cost_mt (budget self (from_ip ip) t))
allow_isolated per_sec burst max_entries own others ip t o place =
    let first = new per_sec burst max_entries in
    let self = allow_all first own in
    let same =
      allow_all-Others self (from_ip ip) t others (allow_all-IsUniform first own (unfold new in tt))
        o in
    let burst' : (allow_all self others).burst ≡ burst =
      allow_all-burst self others ∙ allow_all-burst first own ∙ unfold new in refl in
    (
      same,
      allow-budget (allow_all self others) ip t (elim place [
        | inl h ↦ inl (omega (arith, h, same, ap (λ k. sat_mul32 k 1000) burst'))
        | inr h ↦ inr h
      ])
          ∙ ap (leb cost_mt) same,
    )
