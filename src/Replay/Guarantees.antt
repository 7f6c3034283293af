-- ===== src/Replay/Guarantees.antt =====
-- What `ReplayWindow` of microtun-core/src/replay.rs guarantees for a whole sequence of counters.
use microtun.Prelude.{ℕ, ◌<◌, ◌≡◌, refl, ap₂, ◌∙◌, sym, Bool, true, false, List, [], ◌∷◌}
use microtun.Replay.{ReplayWindow, window, new, check_and_update}
use microtun.Replay.Represents.{Represents}
use microtun.Replay.Refine.{check_and_update-Agrees, new-Represents}
use microtun.Replay.Spec

module _ (replay_words : ℕ) where
  -- The window after a sequence of counters, and the verdicts on them.
  unfoldable pub run : ReplayWindow → List ℕ → ReplayWindow
  run self [] = self
  run self (c ∷ cs) = run (check_and_update replay_words self c).0 cs

  unfoldable pub verdicts : ReplayWindow → List ℕ → List Bool
  verdicts self [] = []
  verdicts self (c ∷ cs) =
      let (self', ok) = check_and_update replay_words self c in ok ∷ verdicts self' cs

  accepted : List ℕ → List ℕ → List ℕ
  accepted seen [] = seen
  accepted seen (c ∷ cs) = accepted (Spec.step (window replay_words) seen c).0 cs

module _ (replay_words : ℕ) (some_words : 0 < replay_words) where
  verdicts-Represents :
      (self : ReplayWindow) (seen : List ℕ) (cs : List ℕ)
      → Represents replay_words self seen
      → verdicts replay_words self cs ≡ Spec.verdicts (window replay_words) seen cs
  unfolding verdicts Spec.verdicts
  verdicts-Represents self seen [] r = refl
  verdicts-Represents self seen (c ∷ cs) r =
      let (ok, r') = check_and_update-Agrees replay_words some_words self seen c r in
      ap₂ ◌∷◌ (ok ∙ sym (Spec.step-verdict (window replay_words) seen c)) (
        verdicts-Represents (check_and_update replay_words self c).0
          (Spec.step (window replay_words) seen c).0 cs r')

  run-Represents :
      (self : ReplayWindow) (seen : List ℕ) (cs : List ℕ)
      → Represents replay_words self seen
      → Represents replay_words (run replay_words self cs) (accepted replay_words seen cs)
  unfolding run accepted
  run-Represents self seen [] r = r
  run-Represents self seen (c ∷ cs) r =
      run-Represents (check_and_update replay_words self c).0
        (Spec.step (window replay_words) seen c).0 cs
        (check_and_update-Agrees replay_words some_words self seen c r).1

  contains-accepted :
      (seen cs : List ℕ) (c : ℕ)
      → Spec.contains c seen ≡ true
      → Spec.contains c (accepted replay_words seen cs) ≡ true
  unfolding accepted
  contains-accepted seen [] c h = h
  contains-accepted seen (d ∷ ds) c h =
      contains-accepted (Spec.step (window replay_words) seen d).0 ds c
        (Spec.step-contains (window replay_words) seen d c h)

  -- For a ring of at least one word, the verdicts of a new window on any sequence of counters are
  -- those of the filter that remembers every accepted counter: each is accepted exactly when it
  -- was not accepted before and is at most 64 * (words - 1) below the highest accepted one.
  pub verdicts_refine :
      (cs : List ℕ)
      → verdicts replay_words (new replay_words) cs ≡ Spec.verdicts (window replay_words) [] cs
  verdicts_refine cs =
      verdicts-Represents (new replay_words) [] cs (new-Represents replay_words some_words)

  -- For a ring of at least one word: once a counter has been accepted, after any traffic from a
  -- new window, no further traffic makes the window accept it again.
  pub never_twice :
      (before after : List ℕ) (c : ℕ)
      → (check_and_update replay_words (run replay_words (new replay_words) before) c).1 ≡ true
      → let later =
          run replay_words
            (check_and_update replay_words (run replay_words (new replay_words) before) c).0
            after in
        (check_and_update replay_words later c).1 ≡ false
  never_twice before after c ok =
      let r0 =
        run-Represents (new replay_words) [] before (new-Represents replay_words some_words) in
      let (v, r1) = check_and_update-Agrees replay_words some_words _ _ c r0 in
      let r2 = run-Represents _ _ after r1 in
      let (v', r3) = check_and_update-Agrees replay_words some_words _ _ c r2 in
      v'
      ∙ Spec.accepts-seen (window replay_words) _ c (
          contains-accepted _ after c
            (Spec.step-accepts-contains (window replay_words) _ c (sym v ∙ ok)))
