-- ===== src/Time/Cache.antt =====
-- `TimerCache` of microtun-core/src/time.rs, the lower bound on the engine's next deadline.
use microtun.Prelude.{
  ℕ, ◌≡◌, ◌≤◌, Bool, true, Option, none, some, List, [], ◌∷◌, arith, ltb, if◌then◌else◌, zero, suc,
  subst, sym,
}
use microtun.Time.{Instant, min_deadline}

pub record TimerCache : Type 0 where
  pub at : Option Instant

pub new : TimerCache
new = record { at = none }

-- `self.at.is_none_or(|current| at < current)`
is_none_or_before : Option Instant → Instant → Bool
is_none_or_before none at = true
is_none_or_before (some current) at = ltb at current

pub arm : TimerCache → Instant → TimerCache
unfolding is_none_or_before
arm self at = if is_none_or_before self.at at then record { at = some at } else self

pub set_exact : TimerCache → Option Instant → TimerCache
set_exact self at = record { at = at }

-- The bound after arming is the earlier of the old bound and the new deadline.
pub arm-min : (c : TimerCache) (at : Instant) → (arm c at).at ≡ min_deadline c.at (some at)
unfolding arm min_deadline
arm-min c at = ground arith

-- What the engine does to its timers. `recompute` is the exact walk that follows a wake with
-- nothing due.
pub data Event : Type 0 where
  install : Instant → Event
  clear : ℕ → Event
  recompute : Event

-- The `i`-th pending deadline is dropped.
pub remove_at : ℕ → List Instant → List Instant
remove_at i [] = []
remove_at zero (t ∷ ts) = ts
remove_at (suc i) (t ∷ ts) = t ∷ remove_at i ts

pub earliest : List Instant → Option Instant
earliest [] = none
earliest (t ∷ ts) = min_deadline (some t) (earliest ts)

-- The pending deadlines beside the cache: installing a timer arms the cache, clearing one does
-- not touch it, and only `recompute` may move the bound later.
pub step : TimerCache × List Instant → Event → TimerCache × List Instant
step (c, ts) (install t) = (arm c t, t ∷ ts)
step (c, ts) (clear i) = (c, remove_at i ts)
step (c, ts) recompute = (set_exact c (earliest ts), ts)

pub run : TimerCache × List Instant → List Event → TimerCache × List Instant
run s [] = s
run s (e ∷ es) = run (step s e) es

-- The bound is at or before `t`; no bound is infinitely far away.
abbrev pub AtOrBefore : Option Instant → Instant → Type 0
AtOrBefore none t = ⊥
AtOrBefore (some at) t = at ≤ t

-- The bound is at or before every pending deadline.
abbrev pub Covers : Option Instant → List Instant → Type 0
Covers b [] = Unit {0}
Covers b (t ∷ ts) = AtOrBefore b t × Covers b ts

Covers-min :
    (b : Option Instant) (t : Instant) (ts : List Instant)
    → Covers b ts
    → Covers (min_deadline b (some t)) ts
unfolding min_deadline
Covers-min none t [] h = tt
Covers-min none t (x ∷ ts) h = absurd h.0
Covers-min (some a) t [] h = tt
Covers-min (some a) t (x ∷ ts) h = (omega arith, Covers-min (some a) t ts h.1)

AtOrBefore-min : (b : Option Instant) (t : Instant) → AtOrBefore (min_deadline b (some t)) t
unfolding min_deadline
AtOrBefore-min none t = omega arith
AtOrBefore-min (some a) t = omega arith

Covers-remove_at :
    (b : Option Instant) (i : ℕ) (ts : List Instant) → Covers b ts → Covers b (remove_at i ts)
unfolding remove_at
Covers-remove_at b zero [] h = tt
Covers-remove_at b (suc i) [] h = tt
Covers-remove_at b zero (t ∷ ts) h = h.1
Covers-remove_at b (suc i) (t ∷ ts) h = (h.0, Covers-remove_at b i ts h.1)

Covers-swap :
    (t : Instant) (e : Option Instant) (ts : List Instant)
    → Covers e ts
    → Covers (min_deadline (some t) e) ts
unfolding min_deadline
Covers-swap t e [] h = tt
Covers-swap t none (x ∷ ts) h = absurd h.0
Covers-swap t (some a) (x ∷ ts) h = (omega arith, Covers-swap t (some a) ts h.1)

AtOrBefore-swap : (t : Instant) (e : Option Instant) → AtOrBefore (min_deadline (some t) e) t
unfolding min_deadline
AtOrBefore-swap t none = omega arith
AtOrBefore-swap t (some a) = omega arith

Covers-earliest : (ts : List Instant) → Covers (earliest ts) ts
unfolding earliest
Covers-earliest [] = tt
Covers-earliest (t ∷ ts) =
    (AtOrBefore-swap t (earliest ts), Covers-swap t (earliest ts) ts (Covers-earliest ts))

arm-Covers :
    (c : TimerCache) (t : Instant) (ts : List Instant)
    → Covers c.at ts
    → Covers (arm c t).at (t ∷ ts)
arm-Covers c t ts h =
    subst (λ b. Covers b (t ∷ ts)) (sym (arm-min c t))
      (AtOrBefore-min c.at t, Covers-min c.at t ts h)

step-Covers :
    (c : TimerCache) (ts : List Instant) (e : Event)
    → Covers c.at ts
    → Covers (step (c, ts) e).0.at (step (c, ts) e).1
unfolding step set_exact
step-Covers c ts (install t) h = arm-Covers c t ts h
step-Covers c ts (clear i) h = Covers-remove_at c.at i ts h
step-Covers c ts recompute h = Covers-earliest ts

-- Whatever timers are installed, cleared or recomputed, in whatever order, the cached bound is
-- never later than any pending deadline.
pub run-Covers :
    (c : TimerCache) (ts : List Instant) (es : List Event)
    → Covers c.at ts
    → Covers (run (c, ts) es).0.at (run (c, ts) es).1
unfolding run
run-Covers c ts [] h = h
run-Covers c ts (e ∷ es) h =
    let (c', ts') = step (c, ts) e in run-Covers c' ts' es (step-Covers c ts e h)
