-- ===== src/Lexer/Unbounded.antt =====
-- The loops of `lex` of microtun-cli/src/lexer.rs as the source has them, without a bound on their
-- rounds: relations by the rounds that are run, and that `lex` runs all of them.
use microtun.Prelude.{
  ℕ, zero, suc, ◌+◌, ◌≤◌, ◌<◌, ◌≡◌, ◌⊎◌, refl, subst, true, false, Option, none, some, List, [],
  ◌∷◌, ◌++◌, arith, leb, ltb, ◌||◌, Option-cases, length, take, Bool-cases, inl, inr, u16_max,
}
use microtun.Lexer.{
  Cursor, Token, ErrorKind, trailing_escape, unterminated_quote, too_many_tokens, skip, more, stop,
  fail, round, scan, skip_spaces, take_token, tokens_from, lex, is_space, max_tokens,
}
use microtun.Lexer.InPlace.{IsAhead, Keeps, round-Keeps, skip-IsAhead}
use microtun.Lexer.Loops.{current, Round-cases, scan-Reaches, skip_spaces-Reaches}
use microtun.Lexer.Tokens.{
  IsLexed, take_token-IsLexed, skipped-IsLexed, skipped-dark, start, start-IsLexed,
}

-- The inner loop; `none` is `TrailingEscape`.
pub data Scans (len : ℕ) : Option ℕ → Cursor → Option (Option ℕ × Cursor) → Type 0 where
  at_end :
      (quote : Option ℕ) (self : Cursor)
      → len ≤ self.read
      → Scans len quote self (some (quote, self))
  goes_on :
      (quote quote' : Option ℕ) (self next : Cursor) (r : Option (Option ℕ × Cursor))
      → self.read < len
      → round len quote (current self) self ≡ more quote' next
      → Scans len quote' next r
      → Scans len quote self r
  stops :
      (quote quote' : Option ℕ) (self next : Cursor)
      → self.read < len
      → round len quote (current self) self ≡ stop quote' next
      → Scans len quote self (some (quote', next))
  fails :
      (quote : Option ℕ) (self : Cursor)
      → self.read < len
      → round len quote (current self) self ≡ fail
      → Scans len quote self none

-- The loop over white space
pub data Skips (len : ℕ) : Cursor → Cursor → Type 0 where
  line_end : (self : Cursor) → len ≤ self.read → Skips len self self
  no_space :
      (self : Cursor) → self.read < len → is_space (current self) ≡ false → Skips len self self
  space :
      (self next : Cursor)
      → self.read < len
      → is_space (current self) ≡ true
      → Skips len (skip self) next
      → Skips len self next

-- What the loop over the tokens comes to
abbrev pub Outcome : Type 0
Outcome = ErrorKind ⊎ (Cursor × List Token)

-- The outer loop, from `self` on with the tokens so far
pub data Lexes (len : ℕ) : Cursor → List Token → Outcome → Type 0 where
  done :
      (self here : Cursor) (tokens : List Token)
      → Skips len self here
      → len ≤ here.read
      → Lexes len self tokens (inr (here, tokens))
  cut_escape :
      (self here : Cursor) (tokens : List Token)
      → Skips len self here
      → here.read < len
      → Scans len none here none
      → Lexes len self tokens (inl trailing_escape)
  open_quote :
      (self here next : Cursor) (q : ℕ) (tokens : List Token)
      → Skips len self here
      → here.read < len
      → Scans len none here (some (some q, next))
      → Lexes len self tokens (inl unterminated_quote)
  full :
      (self here next : Cursor) (tokens : List Token)
      → Skips len self here
      → here.read < len
      → Scans len none here (some (none, next))
      → max_tokens ≤ length tokens
      → Lexes len self tokens (inl too_many_tokens)
  token :
      (self here next after : Cursor) (tokens : List Token) (r : Outcome)
      → Skips len self here
      → here.read < len
      → Scans len none here (some (none, next))
      → length tokens < max_tokens
      → Skips len next after
      → Lexes len after (tokens ++ record { start = here.write; end = next.write } ∷ []) r
      → Lexes len self tokens r

-- What `lex` makes of it
abbrev pub returned : Outcome → ErrorKind ⊎ (List ℕ × List Token)
returned (inl e) = inl e
returned (inr (last, tokens)) = inr (take last.write last.buffer, tokens)

module _ (buffer : List ℕ) (len : ℕ) where
  scan-Scans :
      (fuel : ℕ) (quote : Option ℕ) (self : Cursor)
      → IsAhead buffer len self
      → len ≤ fuel + self.read
      → Scans len quote self (scan fuel len quote self)
  unfolding scan
  scan-Scans zero quote self a f = at_end quote self (omega arith)
  scan-Scans (suc fuel) quote self a f = elim (Bool-cases (leb len self.read)) [
    | inl b ↦ rw b (at_end quote self (ground arith))
    | inr b ↦
        let l : self.read < len = ground arith in
        let kept = round-Keeps buffer len quote self a l in
        rw b (elim (Round-cases buffer len (round len quote (current self) self)) [
          | inl e ↦ rw e (fails quote self l e)
          | inr (q, n, inl e) ↦
              let (ahead, further, wrote) = subst (Keeps buffer len self) e kept in
              rw e (
                goes_on quote q self n (scan fuel len q n) l e
                  (scan-Scans fuel q n ahead (omega (arith, further, f))))
          | inr (q, n, inr e) ↦ rw e (stops quote q self n l e)
        ])
  ]

  skip_spaces-Skips :
      (fuel : ℕ) (self : Cursor)
      → IsAhead buffer len self
      → len ≤ fuel + self.read
      → Skips len self (skip_spaces fuel len self)
  unfolding skip_spaces
  skip_spaces-Skips zero self a f = line_end self (omega arith)
  skip_spaces-Skips (suc fuel) self a f = elim (Bool-cases (leb len self.read)) [
    | inl b ↦ rw b (line_end self (ground arith))
    | inr b ↦
        let l : self.read < len = ground arith in
        rw b (elim (Bool-cases (is_space (current self))) [
          | inr c ↦ rw c (no_space self l c)
          | inl c ↦
              let moved : (skip self).read ≡ suc self.read = unfold skip in refl in
              rw c (
                space self (skip_spaces fuel len (skip self)) l c (
                  skip_spaces-Skips fuel (skip self) (skip-IsAhead buffer len self a l)
                    (omega (arith, moved, f))))
        ])
  ]

  tokens_from-Lexes :
      (fuel : ℕ) (self : Cursor) (tokens : List Token)
      → IsLexed buffer len self tokens
      → len ≤ fuel + self.read
      → Lexes len self tokens (tokens_from fuel len self tokens)
  unfolding tokens_from
  tokens_from-Lexes zero self tokens x f =
      done self self tokens (line_end self (omega arith)) (omega arith)
  tokens_from-Lexes (suc fuel) self tokens x f =
      let here = skip_spaces len len self in
      let further = (skip_spaces-Reaches buffer len len self x.ahead (omega arith)).further in
      let skips = skip_spaces-Skips len self x.ahead (omega arith) in
      let x' = skipped-IsLexed buffer len self tokens x in
      let scans = scan-Scans len none here x'.ahead (omega arith) in
      elim (Bool-cases (leb len here.read)) [
        | inl b ↦ rw b (done self here tokens skips (ground arith))
        | inr b ↦
            let l : here.read < len = ground arith in
            let dark = skipped-dark buffer len self x.ahead l in
            rw b (elim (Option-cases (scan len len none here)) [
              | inl n ↦
                  let t : take_token len len here tokens ≡ inl trailing_escape =
                    unfold take_token in ground arith in
                  rw t (cut_escape self here tokens skips l (subst (Scans len none here) n scans))
              | inr ((some q, next), e) ↦
                  let t : take_token len len here tokens ≡ inl unterminated_quote =
                    unfold take_token in ground arith in
                  rw t (
                    open_quote self here next q tokens skips l
                      (subst (Scans len none here) e scans))
              | inr ((none, next), e) ↦
                  let ended = subst (Scans len none here) e scans in
                  elim (Bool-cases (leb max_tokens (length tokens))) [
                    | inl m ↦
                        let t : take_token len len here tokens ≡ inl too_many_tokens =
                          unfold take_token in ground arith in
                        rw t (full self here next tokens skips l ended (ground arith))
                    | inr m ↦
                        let after = skip_spaces len len next in
                        let tokens' =
                          tokens ++ record { start = here.write; end = next.write } ∷ [] in
                        let t : take_token len len here tokens ≡ inr (after, tokens') =
                          unfold take_token in ground arith in
                        let reached =
                          scan-Reaches buffer len len none none here next x'.ahead (omega arith)
                            e in
                        let (lexed, moved) =
                          take_token-IsLexed buffer len here after tokens tokens' x' l dark t in
                        rw t (
                          token self here next after tokens (tokens_from fuel len after tokens')
                            skips l ended (ground arith)
                            (skip_spaces-Skips len next reached.ahead (omega arith))
                            (tokens_from-Lexes fuel after tokens' lexed
                              (omega (arith, f, further, moved))))
                  ]
            ])
      ]

-- For a line within its buffer and the lexer's limit, `lex` returns what its three nested loops
-- come to, as long as they run: over white space until a byte that is none or the end of the
-- line, over a token until white space outside quotes or the end of the line, and over the tokens
-- until the end of the line or the first error. So none of the loops is cut short by the rounds
-- that the model allows it.
pub lex-Lexes :
    (buffer : List ℕ) (len : ℕ)
    → len ≤ length buffer
    → len ≤ u16_max
    → (r : Outcome) × Lexes len (start buffer) [] r × (lex buffer len ≡ returned r)
unfolding lex
lex-Lexes buffer len h k =
    let short : (ltb (length buffer) len || ltb u16_max len) ≡ false = ground arith in
    (
      tokens_from len len (start buffer) [],
      tokens_from-Lexes buffer len len (start buffer) [] (start-IsLexed buffer len) (omega arith),
      rw short refl,
    )
