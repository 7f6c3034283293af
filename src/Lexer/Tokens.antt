-- ===== src/Lexer/Tokens.antt =====
-- The tokens that `lex` of microtun-cli/src/lexer.rs returns.
use microtun.Prelude.All.{Every, Every-append, Every-map}
use microtun.Prelude.{
  ℕ, zero, suc, ◌+◌, ◌≤◌, ◌<◌, ◌≡◌, ◌⊎◌, refl, sym, subst, ap, ◌∙◌, false, none, some, List, [],
  ◌∷◌, ◌++◌, arith, leb, ltb, length, get_or, drop, take, Bool-cases, Option-cases, inl, inr,
  length-append, length-take,
}
use microtun.Lexer.{
  Cursor, Token, ErrorKind, scan, skip_spaces, take_token, tokens_from, lex, is_space, max_tokens,
}
use microtun.Lexer.InPlace.{IsAhead}
use microtun.Lexer.Loops.{current, Reaches, Space, scan-Reaches, skip_spaces-Reaches}

get_or-drop : (n : ℕ) (xs : List ℕ) → get_or (drop n xs) 0 0 ≡ get_or xs n 0
get_or-drop zero xs = refl
get_or-drop (suc n) [] = refl
get_or-drop (suc n) (x ∷ xs) = get_or-drop n xs

-- A token lies in the first `w` bytes.
abbrev pub Within : ℕ → Token → Type 0
Within w t = (t.start ≤ t.end) × (t.end ≤ w)

-- What holds between two tokens.
pub record IsLexed (buffer : List ℕ) (len : ℕ) (self : Cursor) (tokens : List Token) : Type 0 where
  pub ahead : IsAhead buffer len self
  pub within : Every (Within self.write) tokens
  pub few : length tokens ≤ max_tokens

module _ (buffer : List ℕ) (len : ℕ) where
  same_byte :
      (self next : Cursor)
      → IsAhead buffer len self
      → IsAhead buffer len next
      → self.read ≡ next.read
      → current self ≡ current next
  same_byte self next a b e =
      let left = sym (get_or-drop self.read self.buffer) ∙ ap (λ xs. get_or xs 0 0) a.unread in
      let right = sym (get_or-drop next.read next.buffer) ∙ ap (λ xs. get_or xs 0 0) b.unread in
      left ∙ (ap (λ n. get_or (drop n buffer) 0 0) e ∙ sym right)

  moved_on :
      (self next : Cursor)
      → IsAhead buffer len self
      → self.read < len
      → is_space (current self) ≡ false
      → Reaches buffer len (Space buffer len) self next
      → self.read < next.read
  moved_on self next a l c r = elim r.ends [
    | inl e ↦ omega (arith, e)
    | inr space ↦ elim (Bool-cases (ltb self.read next.read)) [
      | inl b ↦ ground arith
      | inr b ↦
          let e : self.read ≡ next.read = ground (arith, r.further) in
          let same = same_byte self next a r.ahead e in absurd (ground (arith, ap is_space same))
    ]
  ]

  pushed :
      (start w v : ℕ) (next : Cursor) (tokens : List Token)
      → Every (Within w) tokens
      → w ≤ next.write
      → next.write ≤ v
      → start ≤ next.write
      → Every (Within v) (tokens ++ record { start = start; end = next.write } ∷ [])
  pushed start w v next tokens e l m s =
      Every-append (Within v) tokens (record { start = start; end = next.write })
        (Every-map (Within w) (Within v) tokens (λ t p. (p.0, omega (arith, p.1))) e) (s, m)

  -- One token: it lies in what was written, and at least one byte was read for it.
  pub take_token-IsLexed :
      (self last : Cursor) (tokens tokens' : List Token)
      → IsLexed buffer len self tokens
      → self.read < len
      → is_space (current self) ≡ false
      → take_token len len self tokens ≡ inr (last, tokens')
      → IsLexed buffer len last tokens' × (self.read < last.read)
  unfolding take_token
  take_token-IsLexed self last tokens tokens' x l c h =
      elim (Option-cases (scan len len none self)) [
        | inl n ↦ absurd (ground arith)
        | inr ((some q, next), e) ↦ absurd (ground arith)
        | inr ((none, next), e) ↦
            let r = scan-Reaches buffer len len none none self next x.ahead (omega arith) e in
            let after = skip_spaces len len next in
            let s = skip_spaces-Reaches buffer len len next r.ahead (omega arith) in
            let t : Token = record { start = self.write; end = next.write } in
            let room : length tokens < max_tokens = ground arith in
            let same : after ≡ last = ground arith in
            let same' : tokens ++ t ∷ [] ≡ tokens' = ground arith in
            let lexed : IsLexed buffer len after (tokens ++ t ∷ []) = record {
              ahead = s.ahead;
              within =
                  pushed self.write self.write after.write next tokens x.within r.wrote s.wrote
                    r.wrote;
              few = omega (arith, room, length-append {0} tokens (t ∷ []));
            } in
            let further = moved_on self next x.ahead l c r in
            (
              subst (λ ts. IsLexed buffer len last ts) same'
                  (subst (λ k. IsLexed buffer len k (tokens ++ t ∷ [])) same lexed),
              subst (λ k. self.read < k.read) same (omega (arith, further, s.further)),
            )
      ]

  -- After the white space before a token
  pub skipped-IsLexed :
      (self : Cursor) (tokens : List Token)
      → IsLexed buffer len self tokens
      → IsLexed buffer len (skip_spaces len len self) tokens
  skipped-IsLexed self tokens x =
      let s = skip_spaces-Reaches buffer len len self x.ahead (omega arith) in
      record {
        ahead = s.ahead;
        within =
            Every-map (Within self.write) (Within (skip_spaces len len self).write) tokens
              (λ t p. (p.0, omega (arith, p.1, s.wrote))) x.within;
        few = x.few;
      }

  pub skipped-dark :
      (self : Cursor)
      → IsAhead buffer len self
      → (skip_spaces len len self).read < len
      → is_space (current (skip_spaces len len self)) ≡ false
  skipped-dark self a l = elim (skip_spaces-Reaches buffer len len self a (omega arith)).ends [
    | inl e ↦ absurd (omega (arith, e, l))
    | inr d ↦ d
  ]

  pub Outcome-cases :
      (r : ErrorKind ⊎ (Cursor × List Token))
      → ((e : ErrorKind) × (r ≡ inl e))
        ⊎ ((next : Cursor) × (ts : List Token) × (r ≡ inr (next, ts)))
  Outcome-cases (inl e) = inl (e, refl)
  Outcome-cases (inr (next, ts)) = inr (next, ts, refl)

  -- With fuel for the rest of the line, all of it is read.
  tokens_from-keeps-IsLexed :
      (fuel : ℕ) (self last : Cursor) (tokens tokens' : List Token)
      → IsLexed buffer len self tokens
      → len ≤ fuel + self.read
      → tokens_from fuel len self tokens ≡ inr (last, tokens')
      → IsLexed buffer len last tokens' × (last.read ≡ len)
  unfolding tokens_from
  tokens_from-keeps-IsLexed zero self last tokens tokens' x f h =
      let same : self ≡ last = ground arith in
      let same' : tokens ≡ tokens' = ground arith in
      (
        subst (λ ts. IsLexed buffer len last ts) same'
            (subst (λ k. IsLexed buffer len k tokens) same x),
        omega (arith, x.ahead.inside, ap (λ k. k.read) same),
      )
  tokens_from-keeps-IsLexed (suc fuel) self last tokens tokens' x f h =
      let here = skip_spaces len len self in
      let s = skip_spaces-Reaches buffer len len self x.ahead (omega arith) in
      let x' = skipped-IsLexed self tokens x in
      elim (Bool-cases (leb len here.read)) [
        | inl b ↦
            let same : here ≡ last = ground arith in
            let same' : tokens ≡ tokens' = ground arith in
            (
              subst (λ ts. IsLexed buffer len last ts) same'
                  (subst (λ k. IsLexed buffer len k tokens) same x'),
              ground (arith, s.ahead.inside, ap (λ k. k.read) same),
            )
        | inr b ↦ elim (Outcome-cases (take_token len len here tokens)) [
          | inl (e, t) ↦ absurd (ground arith)
          | inr (next, ts, t) ↦
              let l : here.read < len = ground arith in
              let dark = skipped-dark self x.ahead l in
              let (lexed, further) = take_token-IsLexed here next tokens ts x' l dark t in
              let h' : tokens_from fuel len next ts ≡ inr (last, tokens') = ground arith in
              tokens_from-keeps-IsLexed fuel next last ts tokens' lexed
                (omega (arith, f, further, s.further)) h'
        ]
      ]

abbrev pub start : List ℕ → Cursor
start buffer = record { buffer = buffer; read = 0; write = 0 }

pub start-IsLexed : (buffer : List ℕ) (len : ℕ) → IsLexed buffer len (start buffer) []
start-IsLexed buffer len = record {
  ahead = record { size = refl; behind = omega arith; inside = omega arith; unread = refl };
  within = tt;
  few = omega arith;
}

-- When the loop ends without an error, all of the line has been read, what was written has not
-- overtaken it, and there are at most `MAX_TOKENS` tokens, which lie within what was written.
tokens_from-IsLexed :
    (buffer : List ℕ) (len : ℕ) (last : Cursor) (tokens : List Token)
    → tokens_from len len (start buffer) [] ≡ inr (last, tokens)
    → IsLexed buffer len last tokens × (last.read ≡ len)
tokens_from-IsLexed buffer len last tokens h =
    tokens_from-keeps-IsLexed buffer len len (start buffer) last [] tokens
      (start-IsLexed buffer len) (omega arith) h

-- What `lex` returns can be sliced: it is no longer than the line, there are at most `MAX_TOKENS`
-- tokens, and each starts at or before its end and ends within the bytes returned.
pub lex-Within :
    (buffer : List ℕ) (len : ℕ) (bytes : List ℕ) (tokens : List Token)
    → lex buffer len ≡ inr (bytes, tokens)
    → Every (Within (length bytes)) tokens × (length bytes ≤ len) × (length tokens ≤ max_tokens)
unfolding lex
lex-Within buffer len bytes tokens h =
    elim (Outcome-cases buffer len (tokens_from len len (start buffer) [])) [
      | inl (e, t) ↦ absurd (ground arith)
      | inr (last, ts, t) ↦
          let (x, end) = tokens_from-IsLexed buffer len last ts t in
          let fits : len ≤ length buffer = ground arith in
          let cut : take last.write last.buffer ≡ bytes = ground arith in
          let all : ts ≡ tokens = ground arith in
          let size : length bytes ≡ last.write = omega (
            arith,
            ap length cut,
            length-take {0} last.write last.buffer,
            x.ahead.size,
            x.ahead.behind,
            x.ahead.inside,
          ) in
          (
            subst (λ us. Every (Within (length bytes)) us) all
                (subst (λ w. Every (Within w) ts) (sym size) x.within),
            omega (arith, size, x.ahead.behind, x.ahead.inside),
            omega (arith, x.few, ap (λ us. length us) all),
          )
    ]
