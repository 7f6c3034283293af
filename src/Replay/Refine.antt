-- ===== src/Replay/Refine.antt =====
-- The ring of microtun-core/src/replay.rs, one counter at a time, against the filter of
-- `Replay.Spec`.
use microtun.Prelude.{
  ℕ, ◌+◌, ◌-◌, ◌/◌, ◌≤◌, ◌<◌, ◌≡◌, refl, ◌∙◌, sym, subst, Bool, true, false, none, some, List, ◌∷◌,
  [], arith, length-replicate, Option-cases, Bool-cases, inl, inr, ◌⊎◌,
}
use microtun.Replay.{
  ReplayWindow, word_bits, window, new, get_bit, set_bit, first, advance, behind, check_and_update,
}
use microtun.Replay.Bitmap.{set_bit-some, clear_sized}
use microtun.Replay.Spec
use native.Mathlib.Decide.{dec_lt}
use microtun.Replay.Represents.{
  Represents, blank, steps, cleared, get_bit-fresh, marked-Represents, cleared-bits,
}

module _ (replay_words : ℕ) (some_words : 0 < replay_words) where
  -- What one call does: the verdict of the specification, and a window that stands for its set.
  abbrev Agrees : List ℕ → ℕ → ReplayWindow × Bool → Type 0
  Agrees seen c (w, ok) =
      (ok ≡ Spec.accepts (window replay_words) seen c)
      × Represents replay_words w (Spec.step (window replay_words) seen c).0

  first-marks :
      (self : ReplayWindow) (c : ℕ) {m : List ℕ}
      → set_bit replay_words (blank replay_words) c ≡ some m
      → first replay_words self c ≡ (record { bitmap = m; top = some c }, true)
  unfolding first
  first-marks self c h = ground arith

  first-Agrees : (self : ReplayWindow) (c : ℕ) → Agrees [] c (first replay_words self c)
  unfolding Spec.accepts Spec.step Spec.contains Spec.highest Spec.in_window
  first-Agrees self c =
      let sized = length-replicate replay_words 0 in
      let (m, marked) = set_bit-some replay_words some_words (blank replay_words) sized c in
      subst (Agrees [] c) (sym (first-marks self c marked)) (
        refl,
        marked-Represents replay_words some_words (blank replay_words) m [] c c sized marked
            (omega arith) refl (λ d hd. get_bit-fresh replay_words d),
      )

  advance-marks :
      (self : ReplayWindow) (t c : ℕ) {m : List ℕ}
      → (cleared replay_words self.bitmap t c).1 ≡ true
      → set_bit replay_words (cleared replay_words self.bitmap t c).0 c ≡ some m
      → advance replay_words self t c ≡ (record { bitmap = m; top = some c }, true)
  unfolding advance
  advance-marks self t c h k = ground arith

  advance-Agrees :
      (self : ReplayWindow) (seen : List ℕ) (t c : ℕ)
      → Represents replay_words self seen
      → self.top ≡ some t
      → t < c
      → Agrees seen c (advance replay_words self t c)
  advance-Agrees self seen t c r e above =
      let all_le = Spec.highest-AllLe seen (sym r.top ∙ e) in
      let (sized, done) =
        clear_sized replay_words some_words (t / word_bits) (steps replay_words t c) 1 self.bitmap
          r.sized in
      let bm = (cleared replay_words self.bitmap t c).0 in
      let (m, marked) = set_bit-some replay_words some_words bm sized c in
      let (ok, high) = Spec.accepts-above (window replay_words) seen t c (sym r.top ∙ e) above in
      subst (Agrees seen c) (sym (advance-marks self t c done marked)) (
        sym ok,
        subst (Represents replay_words _) (sym (Spec.step-accepted (window replay_words) seen c ok))
            (marked-Represents replay_words some_words bm m seen c c sized marked (omega arith) high
              (cleared-bits replay_words some_words self.bitmap seen t c r.sized above all_le
                (λ d hd. r.marks t d e hd.0 hd.1))),
      )

  -- Inside the window the slot of `c` is in the ring.
  behind_in_ring :
      (t c : ℕ)
      → c ≤ t
      → t - c ≤ window replay_words
      → (c / word_bits ≤ t / word_bits) × (t / word_bits < c / word_bits + replay_words)
  behind_in_ring t c le h = omega arith

  behind-marks :
      (self : ReplayWindow) (t c : ℕ) {m : List ℕ}
      → t - c ≤ window replay_words
      → get_bit replay_words self.bitmap c ≡ false
      → set_bit replay_words self.bitmap c ≡ some m
      → behind replay_words self t c ≡ (record self { bitmap = m }, true)
  unfolding behind
  behind-marks self t c h g k = ground arith

  behind-refuses :
      (self : ReplayWindow) (t c : ℕ)
      → (window replay_words < t - c) ⊎ (get_bit replay_words self.bitmap c ≡ true)
      → behind replay_words self t c ≡ (self, false)
  unfolding behind
  behind-refuses self t c h = ground arith

  refused-Agrees :
      (self : ReplayWindow) (seen : List ℕ) (c : ℕ)
      → Represents replay_words self seen
      → Spec.accepts (window replay_words) seen c ≡ false
      → Agrees seen c (self, false)
  refused-Agrees self seen c r h = (
    sym h,
    subst (Represents replay_words self) (sym (Spec.step-refused (window replay_words) seen c h)) r,
  )

  behind-Agrees :
      (self : ReplayWindow) (seen : List ℕ) (t c : ℕ)
      → Represents replay_words self seen
      → self.top ≡ some t
      → c ≤ t
      → Agrees seen c (behind replay_words self t c)
  behind-Agrees self seen t c r e below =
      let high : Spec.highest seen ≡ some t = sym r.top ∙ e in
      elim (dec_lt (window replay_words) (t - c)) [
        | yes old ↦ subst (Agrees seen c) (sym (behind-refuses self t c (inl old))) (
            refused-Agrees self seen c r
              (Spec.accepts-old (window replay_words) seen t c high (omega arith)))
        | no recent ↦
            let ring = behind_in_ring t c below (omega arith) in
            let mark = r.marks t c e ring.0 ring.1 in
            elim (Bool-cases (get_bit replay_words self.bitmap c)) [
              | inl replayed ↦
                  subst (Agrees seen c) (sym (behind-refuses self t c (inr replayed))) (
                    refused-Agrees self seen c r
                      (Spec.accepts-seen (window replay_words) seen c (sym mark ∙ replayed)))
              | inr unseen ↦
                  let (m, marked) = set_bit-some replay_words some_words self.bitmap r.sized c in
                  let (ok, top) =
                    Spec.accepts-recent (window replay_words) seen t c high below (omega arith)
                      (sym mark ∙ unseen) in
                  subst (Agrees seen c) (sym (behind-marks self t c (omega arith) unseen marked)) (
                    sym ok,
                    subst (Represents replay_words _)
                        (sym (Spec.step-accepted (window replay_words) seen c ok))
                        (subst
                          (λ o. Represents replay_words (record { bitmap = m; top = o }) (c ∷ seen))
                          (sym e)
                          (marked-Represents replay_words some_words self.bitmap m seen t c r.sized
                            marked ring top (λ d hd. r.marks t d e hd.0 hd.1))),
                  )
            ]
      ]

  to_first :
      (self : ReplayWindow) (c : ℕ)
      → self.top ≡ none
      → check_and_update replay_words self c ≡ first replay_words self c
  unfolding check_and_update
  to_first self c e = ground arith

  to_advance :
      (self : ReplayWindow) (t c : ℕ)
      → self.top ≡ some t
      → t < c
      → check_and_update replay_words self c ≡ advance replay_words self t c
  unfolding check_and_update
  to_advance self t c e h = ground arith

  to_behind :
      (self : ReplayWindow) (t c : ℕ)
      → self.top ≡ some t
      → c ≤ t
      → check_and_update replay_words self c ≡ behind replay_words self t c
  unfolding check_and_update
  to_behind self t c e h = ground arith

  -- `check_and_update` gives the verdict of the specification, and the new window stands for the
  -- set of counters that the specification then remembers.
  pub check_and_update-Agrees :
      (self : ReplayWindow) (seen : List ℕ) (c : ℕ)
      → Represents replay_words self seen
      → ((check_and_update replay_words self c).1 ≡ Spec.accepts (window replay_words) seen c)
        × Represents replay_words
            (check_and_update replay_words self c).0
            (Spec.step (window replay_words) seen c).0
  check_and_update-Agrees self seen c r = elim (Option-cases self.top) [
    | inl empty ↦ subst (Agrees seen c) (sym (to_first self c empty)) (
        subst (λ s. Agrees s c (first replay_words self c))
          (sym (Spec.highest-none seen (sym r.top ∙ empty))) (first-Agrees self c))
    | inr (t, e) ↦ elim (dec_lt t c) [
      | yes above ↦
          subst (Agrees seen c) (sym (to_advance self t c e above))
            (advance-Agrees self seen t c r e above)
      | no below ↦
          subst (Agrees seen c) (sym (to_behind self t c e (omega arith)))
            (behind-Agrees self seen t c r e (omega arith))
    ]
  ]

  pub new-Represents : Represents replay_words (new replay_words) []
  unfolding new Spec.highest
  new-Represents = record {
    sized = length-replicate replay_words 0;
    top = refl;
    marks = λ t c e. absurd (cc);
  }
