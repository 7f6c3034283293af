-- ===== src/Ymodem/Looping.antt =====
-- The loops of `receive_with` of microtun-ymodem/src/receive.rs, by what one round of each does.
use microtun.Prelude.{ℕ, zero, suc, ◌-◌, ◌≤◌, ◌<◌, List, arith, length, ◌⊎◌, inl, inr}
use microtun.Ymodem.Receive.{Error, Receiver, M, loop}
use microtun.Ymodem.Triples.{IsAt, IsBelow, IsTold, Fact, Post, Post-map, Triple}

-- After one round of a loop: fewer events are left if it goes on.
abbrev pub AfterRound : {T A : Type 0} → List ℕ → (T → Fact) → Fact → ℕ → T ⊎ A → Receiver → Type 0
AfterRound base held held_last k (inl t) s = IsBelow base (held t) k s
AfterRound base held held_last k (inr a) s = IsAt base held_last k s

loop_step-IsAt :
    {T A : Type 0} (base : List ℕ) (held : T → Fact) (held_last : Fact) (k : ℕ) (again : T → M A)
    (r : Receiver × (Error ⊎ (T ⊎ A)))
    → ((t : T) → Triple (IsBelow base (held t) k) (again t) (λ a. IsAt base held_last k) IsTold)
    → Post (AfterRound base held held_last k) IsTold r
    → Post {A = A}
        (λ a. IsAt base held_last k)
        IsTold
        (elim r.1 [ inl e ↦ (r.0, inl e) | inr (inl t) ↦ again t r.0 | inr (inr a) ↦ (r.0, inr a) ])
loop_step-IsAt base held held_last k again (s, inl e) f p = p
loop_step-IsAt base held held_last k again (s, inr (inl t)) f p = f t s p
loop_step-IsAt base held held_last k again (s, inr (inr a)) f p = p

IsAt-mono :
    {base : List ℕ} {P : Fact} {j k : ℕ} (s : Receiver) → j ≤ k → IsAt base P j s → IsAt base P k s
IsAt-mono s h p = record {
  file = p.file;
  holds = p.holds;
  fact = p.fact;
  left = omega (arith, p.left);
}

-- A loop whose body takes events until it breaks ends with its fuel, when there is more of it than
-- events. `held` is what a state of the loop stands for.
pub loop-IsAt :
    {T A : Type 0} (base : List ℕ) (held : T → Fact) (held_last : Fact) (body : T → M (T ⊎ A))
    → ((k : ℕ) (t : T)
        → Triple (IsAt base (held t) k) (body t) (AfterRound base held held_last k) IsTold)
    → (fuel k : ℕ) (t : T) → k < fuel
    → Triple (IsAt base (held t) k) (loop fuel body t) (λ a. IsAt base held_last k) IsTold
unfolding loop
loop-IsAt base held held_last body step zero k t h s p = absurd (omega arith)
loop-IsAt {T} {A} base held held_last body step (suc fuel) k t h s p =
    loop_step-IsAt base held held_last k (loop fuel body) (body t s)
      (λ t' s' q.
        let less : length s'.incoming ≤ k - 1 = omega (arith, q.1) in
        let here : IsAt base (held t') (k - 1) s' = record {
          file = q.0.file;
          holds = q.0.holds;
          fact = q.0.fact;
          left = less;
        } in
        Post-map {A = A} IsTold (λ a. IsAt base held_last (k - 1)) (λ a. IsAt base held_last k)
          (loop fuel body t' s') (λ a s'' x. IsAt-mono s'' (omega arith) x)
          (loop-IsAt base held held_last body step fuel (k - 1) t' (omega (arith, q.1)) s' here))
      (step k t s p)
