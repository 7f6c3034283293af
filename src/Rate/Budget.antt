-- ===== src/Rate/Budget.antt =====
-- What one token bucket of microtun-core/src/rate.rs lets through over time.
use microtun.Prelude.{
  ℕ, suc, ◌+◌, ◌-◌, ◌*◌, ◌≤◌, ◌≡◌, refl, sym, ap, subst, ◌∙◌, Bool, true, false, List, [], ◌∷◌,
  arith, if◌then◌else◌, u32_max, sat_mul32,
}
use microtun.Time.{Instant}
use microtun.Rate.{TokenBucket, new_bucket, tokens_at, try_take, cost_mt}

pub record IsValid (b : TokenBucket) : Type 0 where
  pub capped : b.millitokens ≤ b.capacity_mt
  pub cap32 : b.capacity_mt ≤ u32_max

pub new_bucket-IsValid : (per_sec burst now : ℕ) → IsValid (new_bucket per_sec burst now)
unfolding new_bucket
new_bucket-IsValid per_sec burst now = omega arith

pub try_take-IsValid : {b : TokenBucket} (now : Instant) → IsValid b → IsValid (try_take b now).0
unfolding try_take tokens_at
try_take-IsValid now v = ground arith

-- The calls at the instants `ts`, with the number that was let through.
pub take_all : TokenBucket → List Instant → TokenBucket × ℕ
take_all b [] = (b, 0)
take_all b (t ∷ ts) =
    let (b', ok) = try_take b t in let (b'', n) = take_all b' ts in (b'', if ok then suc n else n)

-- The instants do not go back.
abbrev pub Ascending : Instant → List Instant → Type 0
Ascending from [] = Unit {0}
Ascending from (t ∷ ts) = (from ≤ t) × Ascending t ts

refill :
    (b : TokenBucket) (now : Instant)
    → b.last ≤ now
    → tokens_at b now + b.per_sec * b.last ≤ b.millitokens + b.per_sec * now
unfolding tokens_at
refill b now h = grind arith

try_take_spends :
    (b : TokenBucket) (now : Instant)
    → b.last ≤ now
    → let (b', ok) = try_take b now in
      (b'.millitokens + (if ok then 1000 else 0) + b.per_sec * b.last
        ≤ b.millitokens + b.per_sec * b'.last)
      × (b'.last ≡ now)
      × (b'.per_sec ≡ b.per_sec)
unfolding try_take
try_take_spends b now h = ground (arith, refill b now h)

try_take-last : (b : TokenBucket) (now : Instant) → (try_take b now).0.last ≡ now
unfolding try_take
try_take-last b now = ground arith

-- One call after the other: the rates agree, so what the first spends adds to the rest.
count_in :
    (b b' b'' : TokenBucket) (ok : Bool) (n : ℕ)
    → b'.per_sec ≡ b.per_sec
    → b'.millitokens + (if ok then 1000 else 0) + b.per_sec * b.last
      ≤ b.millitokens + b.per_sec * b'.last
    → b''.millitokens + 1000 * n + b'.per_sec * b'.last ≤ b'.millitokens + b'.per_sec * b''.last
    → b''.millitokens + 1000 * (if ok then suc n else n) + b.per_sec * b.last
      ≤ b.millitokens + b.per_sec * b''.last
count_in b b' b'' true n e first rest =
    omega (arith, ap (λ k. k * b'.last) e, ap (λ k. k * b''.last) e)
count_in b b' b'' false n e first rest =
    omega (arith, ap (λ k. k * b'.last) e, ap (λ k. k * b''.last) e)

-- The window is its first call and the rest.
opened :
    (b b' : TokenBucket) (ok : Bool) (n m from to : ℕ)
    → b'.millitokens + (if ok then 1000 else 0) ≤ b.capacity_mt
    → b'.per_sec ≡ b.per_sec
    → m + 1000 * n + b'.per_sec * from ≤ b'.millitokens + b'.per_sec * to
    → 1000 * (if ok then suc n else n) + b.per_sec * from ≤ b.capacity_mt + b.per_sec * to
opened b b' true n m from to full e rest = omega (arith, ap (λ k. k * from) e, ap (λ k. k * to) e)
opened b b' false n m from to full e rest = omega (arith, ap (λ k. k * from) e, ap (λ k. k * to) e)

take_all_spends :
    (b : TokenBucket) (ts : List Instant)
    → Ascending b.last ts
    → let (b', n) = take_all b ts in
      b'.millitokens + 1000 * n + b.per_sec * b.last ≤ b.millitokens + b.per_sec * b'.last
unfolding take_all
take_all_spends b [] h = omega arith
take_all_spends b (t ∷ ts) h =
    let b' = (try_take b t).0 in
    let (spent, last, rate) = try_take_spends b t h.0 in
    let rest = take_all_spends b' ts (subst (λ k. Ascending k ts) (sym last) h.1) in
    count_in b b' (take_all b' ts).0 (try_take b t).1 (take_all b' ts).1 rate spent rest

abbrev pub final : Instant → List Instant → Instant
final from [] = from
final from (t ∷ ts) = final t ts

last-take_all : (b : TokenBucket) (ts : List Instant) → (take_all b ts).0.last ≡ final b.last ts
unfolding take_all try_take
last-take_all b [] = refl
last-take_all b (t ∷ ts) =
    last-take_all (try_take b t).0 ts ∙ ap (λ k. final k ts) (try_take-last b t)

-- The call that opens a window finds at most a full bucket.
try_take-full :
    (b : TokenBucket) (t : Instant)
    → let (b', ok) = try_take b t in b'.millitokens + (if ok then 1000 else 0) ≤ b.capacity_mt
unfolding try_take tokens_at
try_take-full b t = ground arith

take_all_keeps :
    (b : TokenBucket) (ts : List Instant)
    → let b' = (take_all b ts).0 in (b'.capacity_mt ≡ b.capacity_mt) × (b'.per_sec ≡ b.per_sec)
unfolding take_all try_take
take_all_keeps b [] = (refl, refl)
take_all_keeps b (t ∷ ts) =
    let rest = take_all_keeps (try_take b t).0 ts in
    let first : ((try_take b t).0.capacity_mt ≡ b.capacity_mt)
        × ((try_take b t).0.per_sec ≡ b.per_sec) =
      unfold try_take in ground arith in
    (rest.0 ∙ first.0, rest.1 ∙ first.1)

window :
    (b : TokenBucket) (t : Instant) (ts : List Instant)
    → Ascending t ts
    → 1000 * (take_all b (t ∷ ts)).1 + b.per_sec * t ≤ b.capacity_mt + b.per_sec * final t ts
unfolding take_all
window b t ts h =
    let b' = (try_take b t).0 in
    let last = try_take-last b t in
    let rate : b'.per_sec ≡ b.per_sec = unfold try_take in ground arith in
    let spent = take_all_spends b' ts (subst (λ k. Ascending k ts) (sym last) h) in
    let end : (take_all b' ts).0.last ≡ final t ts =
      last-take_all b' ts ∙ ap (λ k. final k ts) last in
    opened b b' (try_take b t).1 (take_all b' ts).1 (take_all b' ts).0.millitokens t (final t ts)
      (try_take-full b t) rate
      (omega (arith, spent, ap (λ k. b'.per_sec * k) last, ap (λ k. b'.per_sec * k) end))

-- Whatever the bucket was asked before, the calls from `t` to the last of `ts` let through at
-- most the burst and what the rate earns in that time: in thousandths of an operation, 1000 for
-- each operation let through is at most `burst * 1000`, which stops at the largest `u32`, and
-- `per_sec` for each millisecond. The calls of the window do not go back in time; those before
-- it may come at any instants.
pub take_all_bound :
    (per_sec burst t0 : ℕ) (before : List Instant) (t : Instant) (ts : List Instant)
    → Ascending t ts
    → let b = (take_all (new_bucket per_sec burst t0) before).0 in
      1000 * (take_all b (t ∷ ts)).1 + per_sec * t ≤ sat_mul32 burst 1000 + per_sec * final t ts
take_all_bound per_sec burst t0 before t ts h =
    let start = new_bucket per_sec burst t0 in
    let (capacity, rate) = take_all_keeps start before in
    let all = window (take_all start before).0 t ts h in
    unfold new_bucket in grind (arith, capacity, rate, all)

-- A bucket that can hold one operation lets it through once enough time has passed since it was
-- last asked.
pub try_take_after_wait :
    (b : TokenBucket) (now : Instant)
    → cost_mt ≤ b.capacity_mt
    → cost_mt ≤ (now - b.last) * b.per_sec
    → (try_take b now).1 ≡ true
unfolding try_take tokens_at
try_take_after_wait b now h k = ground arith
