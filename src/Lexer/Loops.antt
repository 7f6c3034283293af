-- ===== src/Lexer/Loops.antt =====
-- The two inner loops of microtun-cli/src/lexer.rs.
use microtun.Prelude.{
  ℕ, zero, suc, ◌+◌, ◌≤◌, ◌<◌, ◌≡◌, ◌⊎◌, refl, sym, subst, ◌∙◌, true, false, Option, some, List,
  arith, leb, get_or, Bool-cases, inl, inr,
}
use microtun.Lexer.{Cursor, skip, Round, more, stop, fail, round, scan, skip_spaces, is_space}
use microtun.Lexer.InPlace.{IsAhead, Keeps, round-Keeps, skip-IsAhead}

-- The byte at the read position.
abbrev pub current : Cursor → ℕ
current self = get_or self.buffer self.read 0

module _ (buffer : List ℕ) (len : ℕ) where
  -- A loop has moved on, and stopped at the end of the line or at a byte that satisfies `P`.
  pub record Reaches (P : Cursor → Type 0) (self next : Cursor) : Type 0 where
    pub ahead : IsAhead buffer len next
    pub wrote : self.write ≤ next.write
    pub further : self.read ≤ next.read
    pub ends : (next.read ≡ len) ⊎ P next

  pub Round-cases :
      (r : Round)
      → (r ≡ fail)
        ⊎ ((quote : Option ℕ) × (next : Cursor) × ((r ≡ more quote next) ⊎ (r ≡ stop quote next)))
  Round-cases fail = inl refl
  Round-cases (more quote next) = inr (quote, next, inl refl)
  Round-cases (stop quote next) = inr (quote, next, inr refl)

  abbrev pub Space : Cursor → Type 0
  Space next = is_space (current next) ≡ true

  reached_end :
      (P : Cursor → Type 0) (self : Cursor)
      → IsAhead buffer len self
      → len ≤ self.read
      → Reaches P self self
  reached_end P self a h = record {
    ahead = a;
    wrote = omega arith;
    further = omega arith;
    ends = inl (omega (arith, a.inside));
  }

  reached_here :
      (P : Cursor → Type 0) (self : Cursor) → IsAhead buffer len self → P self → Reaches P self self
  reached_here P self a p = record {
    ahead = a;
    wrote = omega arith;
    further = omega arith;
    ends = inr p;
  }

  reached_later :
      (P : Cursor → Type 0) (self between next : Cursor)
      → self.write ≤ between.write
      → self.read ≤ between.read
      → Reaches P between next
      → Reaches P self next
  reached_later P self between next w r later = record {
    ahead = later.ahead;
    wrote = omega (arith, later.wrote);
    further = omega (arith, later.further);
    ends = later.ends;
  }

  -- The scan of a token, with fuel for the rest of the line, stops at the end or at white space, and
  -- in the latter case outside a quote.
  pub scan-Reaches :
      (fuel : ℕ) (quote q : Option ℕ) (self next : Cursor)
      → IsAhead buffer len self
      → len ≤ fuel + self.read
      → scan fuel len quote self ≡ some (q, next)
      → Reaches Space self next
  unfolding scan
  scan-Reaches zero quote q self next a f h =
      let same : self ≡ next = ground arith in
      subst (Reaches Space self) same (reached_end Space self a (omega arith))
  scan-Reaches (suc fuel) quote q self next a f h =
      let r = round len quote (current self) self in
      elim (Bool-cases (leb len self.read)) [
        | inl b ↦
            let same : self ≡ next = ground arith in
            subst (Reaches Space self) same (reached_end Space self a (ground arith))
        | inr b ↦
            let l : self.read < len = ground arith in
            let kept = round-Keeps buffer len quote self a l in
            elim (Round-cases r) [
              | inl e ↦ absurd (ground arith)
              | inr (q', n, inl e) ↦
                  let (ahead, further, wrote) = subst (Keeps buffer len self) e kept in
                  let h' : scan fuel len q' n ≡ some (q, next) = ground arith in
                  reached_later Space self n next wrote (omega (arith, further))
                    (scan-Reaches fuel q' q n next ahead (omega (arith, further)) h')
              | inr (q', n, inr e) ↦
                  let (still, outside, space) = subst (Keeps buffer len self) e kept in
                  let same : self ≡ next = sym still ∙ ground arith in
                  subst (Reaches Space self) same (reached_here Space self a space)
            ]
      ]

  pub skip_spaces-Reaches :
      (fuel : ℕ) (self : Cursor)
      → IsAhead buffer len self
      → len ≤ fuel + self.read
      → Reaches (λ next. is_space (current next) ≡ false) self (skip_spaces fuel len self)
  unfolding skip_spaces
  skip_spaces-Reaches zero self a f = record {
    ahead = a;
    wrote = omega arith;
    further = omega arith;
    ends = inl (omega (arith, a.inside));
  }
  skip_spaces-Reaches (suc fuel) self a f =
      let P : Cursor → Type 0 = λ next. is_space (current next) ≡ false in
      elim (Bool-cases (leb len self.read)) [
        | inl b ↦ rw (skip_spaces, b) (reached_end P self a (ground arith))
        | inr b ↦ elim (Bool-cases (is_space (current self))) [
          | inr c ↦
              let same : skip_spaces (suc fuel) len self ≡ self = ground arith in
              subst (Reaches P self) (sym same) (reached_here P self a c)
          | inl c ↦
              let same : skip_spaces (suc fuel) len self ≡ skip_spaces fuel len (skip self) =
                ground arith in
              let ahead = skip-IsAhead buffer len self a (ground arith) in
              let moved : (skip self).read ≡ suc self.read = unfold skip in refl in
              let still : (skip self).write ≡ self.write = unfold skip in refl in
              let rest = skip_spaces-Reaches fuel (skip self) ahead (omega (arith, moved)) in
              subst (Reaches P self) (sym same) (
                reached_later P self (skip self) (skip_spaces fuel len (skip self))
                  (omega (arith, still)) (omega (arith, moved)) rest)
        ]
      ]
