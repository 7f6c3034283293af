-- ===== src/Rate/Tests.antt =====
-- Runs of the token buckets, of the budget of the evictions and of the table of sources.
use microtun.Prelude.{◌+◌, ◌*◌, ◌≤◌, ◌<◌, ◌≡◌, leb, inl, [], ◌∷◌, arith, sat_mul32}
use microtun.Ip.{IpAddr, v4, unmap_ip}
use microtun.Rate.{
  new_bucket, from_ip, new, allow, cost_mt, charge, allow_new, admit, try_take, tokens_at,
  Key-discrete,
}
use microtun.Rate.Budget.{take_all, take_all_bound}
use microtun.Rate.Interval.{interval_bound}
use microtun.Rate.Interval
use microtun.Rate.Uniform.{budget, find}
use microtun.Rate.Isolation.{allow_all, allow_isolated}

take_all_bound_example :
    let b = (take_all (new_bucket 2 3 100) (100 ∷ 100 ∷ [])).0 in
    1000 * (take_all b (600 ∷ 600 ∷ 1100 ∷ [])).1 + 2 * 600 ≤ sat_mul32 3 1000 + 2 * 1100
take_all_bound_example =
    take_all_bound 2 3 100 (100 ∷ 100 ∷ []) 600 (600 ∷ 1100 ∷ []) (omega arith, (omega arith, tt))

interval_bound_example :
    10000 * (Interval.take_all (Interval.new 10000 1 0) ((1, 500) ∷ (1, 20500) ∷ [])).1 + 0
    ≤ 10000 * 1 + 20500
interval_bound_example =
    interval_bound 10000 1 0 ((1, 500) ∷ (1, 20500) ∷ [])
      (omega arith, omega arith, (omega arith, omega arith, tt))

abbrev alice : IpAddr
alice = v4 (10 ∷ 0 ∷ 0 ∷ 1 ∷ [])

abbrev bob : IpAddr
bob = v4 (10 ∷ 0 ∷ 0 ∷ 2 ∷ [])

alice_spent : budget (allow_all (new 20 5 2) ((alice, 5) ∷ [])) (from_ip alice) 12 < 5000
unfolding allow_all allow charge allow_new admit budget find new new_bucket try_take tokens_at
    from_ip unmap_ip Key-discrete
alice_spent = omega arith

-- alice spent; bob fills the table of two slots and comes back
allow_isolated_example :
    let self = allow_all (new 20 5 2) ((alice, 5) ∷ []) in
    let flooded = allow_all self ((bob, 9) ∷ (bob, 10) ∷ []) in
    (budget flooded (from_ip alice) 12 ≡ budget self (from_ip alice) 12)
    × ((allow flooded alice 12).1 ≡ leb cost_mt (budget self (from_ip alice) 12))
allow_isolated_example =
    allow_isolated 20 5 2 ((alice, 5) ∷ []) ((bob, 9) ∷ (bob, 10) ∷ []) alice 12
      (unfold from_ip in unfold unmap_ip in (λ e. cc, omega arith, (λ e. cc, omega arith, tt)))
      (inl alice_spent)
