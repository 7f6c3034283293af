-- ===== src/Lexer/Escaped.antt =====
-- Lines of microtun-cli/src/lexer.rs in which every byte is escaped.
use microtun.Prelude.{
  append_assoc, append-nil, ℕ, zero, suc, ◌+◌, ◌≤◌, ◌<◌, ◌≡◌, refl, sym, subst, ap, ◌∙◌, false,
  none, some, List, [], ◌∷◌, ◌++◌, arith, leb, length, length-append, take, drop, set, get_or,
  length-set, u16_max, inr,
}
use microtun.Lexer.{
  Cursor, Token, skip, copy, escape, more, round, scan, skip_spaces, backslash, take_token,
  tokens_from, lex,
}
use microtun.Lexer.InPlace.{drop-set, drop-suc}
use microtun.Lexer.Tokens.{start}

-- A backslash before every byte.
unfoldable pub escaped : List ℕ → List ℕ
escaped [] = []
escaped (b ∷ bs) = backslash ∷ b ∷ escaped bs

length-escaped : (bs : List ℕ) → length (escaped bs) ≡ length bs + length bs
unfolding escaped
length-escaped [] = refl
length-escaped (b ∷ bs) = omega (arith, length-escaped bs)

take-set : (xs : List ℕ) (w v : ℕ) → w < length xs → take (suc w) (set xs w v) ≡ take w xs ++ v ∷ []
take-set [] w v h = absurd (omega arith)
take-set (x ∷ xs) zero v h = refl
take-set (x ∷ xs) (suc w) v h = ap (λ ys. x ∷ ys) (take-set xs w v (omega arith))

get_or-drop : (xs : List ℕ) (n d : ℕ) → get_or xs n d ≡ get_or (drop n xs) 0 d
get_or-drop [] zero d = refl
get_or-drop [] (suc n) d = refl
get_or-drop (x ∷ xs) zero d = refl
get_or-drop (x ∷ xs) (suc n) d = get_or-drop xs n d

-- `done` has been written and `rest` is still to be read, of a line of `len` bytes.
record IsAt (len : ℕ) (done rest : List ℕ) (self : Cursor) : Type 0 where
  size : length self.buffer ≡ len
  left : self.read + (length rest + length rest) ≡ len
  behind : self.write ≤ self.read
  wrote : self.write ≡ length done
  front : take self.write self.buffer ≡ done
  back : drop self.read self.buffer ≡ escaped rest

module _ (len : ℕ) (done : List ℕ) (b : ℕ) (rest : List ℕ) (self : Cursor)
    (at : IsAt len done (b ∷ rest) self) where
  current_escaped : get_or self.buffer self.read 0 ≡ backslash
  unfolding escaped
  current_escaped = get_or-drop self.buffer self.read 0 ∙ ap (λ xs. get_or xs 0 0) at.back

  after_escaped : drop (suc self.read) self.buffer ≡ b ∷ escaped rest
  unfolding escaped
  after_escaped = drop-suc self.read self.buffer ∙ ap (drop 1) at.back

  round_escaped :
      round len none (get_or self.buffer self.read 0) self ≡ more none (copy (skip self))
  unfolding round escape skip
  round_escaped = ground (arith, current_escaped, at.left)

  copy-IsAt : IsAt len (done ++ b ∷ []) rest (copy (skip self))
  unfolding copy skip
  copy-IsAt =
      let v = get_or self.buffer (suc self.read) 0 in
      let v_b : v ≡ b =
        get_or-drop self.buffer (suc self.read) 0 ∙ ap (λ xs. get_or xs 0 0) after_escaped in
      let front : take (suc self.write) (set self.buffer self.write v) ≡ done ++ b ∷ [] =
        take-set self.buffer self.write v (omega (arith, at.size, at.left, at.behind))
        ∙ (ap (λ xs. xs ++ v ∷ []) at.front ∙ ap (λ c. done ++ c ∷ []) v_b) in
      record {
        size = length-set self.buffer self.write v ∙ at.size;
        left = omega (arith, at.left);
        behind = omega (arith, at.behind);
        wrote = omega (arith, at.wrote, length-append {0} done (b ∷ []));
        front = front;
        back =
            drop-set self.buffer self.write (suc (suc self.read)) v (omega (arith, at.behind))
            ∙ (drop-suc (suc self.read) self.buffer ∙ ap (drop 1) after_escaped);
      }

scan_escaped :
    (len : ℕ) (rest done : List ℕ) (fuel : ℕ) (self : Cursor)
    → IsAt len done rest self
    → length rest ≤ fuel
    → (last : Cursor) × (scan fuel len none self ≡ some (none, last))
      × IsAt len (done ++ rest) [] last
unfolding scan
scan_escaped len [] done zero self at f =
    (self, refl, subst (λ xs. IsAt len xs [] self) (sym (append-nil done)) at)
scan_escaped len [] done (suc fuel) self at f =
    (self, ground (arith, at.left), subst (λ xs. IsAt len xs [] self) (sym (append-nil done)) at)
scan_escaped len (b ∷ rest) done zero self at f = absurd (omega (arith, f))
scan_escaped len (b ∷ rest) done (suc fuel) self at f =
    let next = copy (skip self) in
    let (last, scanned, end) =
      scan_escaped len rest (done ++ b ∷ []) fuel next (copy-IsAt len done b rest self at)
        (omega (arith, f)) in
    let unread : leb len self.read ≡ false = ground (arith, at.left) in
    (
      last,
      ground (arith, unread, round_escaped len done b rest self at, scanned),
      subst (λ xs. IsAt len xs [] last) (append_assoc done (b ∷ []) rest) end,
    )

skip_spaces_end :
    (fuel len : ℕ) (self : Cursor) → len ≤ self.read → skip_spaces fuel len self ≡ self
unfolding skip_spaces
skip_spaces_end zero len self h = refl
skip_spaces_end (suc fuel) len self h = ground arith

skip_spaces_none :
    (fuel len : ℕ) (self : Cursor)
    → get_or self.buffer self.read 0 ≡ backslash
    → skip_spaces fuel len self ≡ self
unfolding skip_spaces
skip_spaces_none zero len self h = refl
skip_spaces_none (suc fuel) len self h = ground arith

take_token_once :
    (len : ℕ) (self last : Cursor)
    → scan len len none self ≡ some (none, last)
    → len ≤ last.read
    → take_token len len self [] ≡ inr (last, record { start = self.write; end = last.write } ∷ [])
unfolding take_token
take_token_once len self last scanned h = ground (arith, skip_spaces_end len len last h)

tokens_from_end :
    (fuel len : ℕ) (self : Cursor) (tokens : List Token)
    → len ≤ self.read
    → tokens_from fuel len self tokens ≡ inr (self, tokens)
unfolding tokens_from
tokens_from_end zero len self tokens h = refl
tokens_from_end (suc fuel) len self tokens h = ground (arith, skip_spaces_end len len self h)

tokens_from_once :
    (fuel len : ℕ) (self last : Cursor)
    → get_or self.buffer self.read 0 ≡ backslash
    → self.read < len
    → 0 < fuel
    → scan len len none self ≡ some (none, last)
    → len ≤ last.read
    → tokens_from fuel len self []
      ≡ inr (last, record { start = self.write; end = last.write } ∷ [])
unfolding tokens_from
tokens_from_once zero len self last e l f scanned h = absurd (omega (arith, f))
tokens_from_once (suc fuel) len self last e l f scanned h =
    let tokens : List Token = record { start = self.write; end = last.write } ∷ [] in
    ground (
      arith,
      skip_spaces_none len len self e,
      take_token_once len self last scanned h,
      tokens_from_end fuel len last tokens h,
    )

lex_once :
    (line : List ℕ) (last : Cursor) (bytes : List ℕ)
    → length line ≤ u16_max
    → tokens_from (length line) (length line) (start line) []
      ≡ inr (last, record { start = 0; end = last.write } ∷ [])
    → take last.write last.buffer ≡ bytes
    → lex line (length line) ≡ inr (bytes, record { start = 0; end = last.write } ∷ [])
unfolding lex
lex_once line last bytes h lexed front = ground (arith, lexed, front)

-- `lex` reads a line of at most `u16::MAX` bytes that is a nonempty argument with a backslash before
-- each of its bytes as one token, which holds the argument.
pub lex-escaped :
    (b : ℕ) (bs : List ℕ)
    → length (escaped (b ∷ bs)) ≤ u16_max
    → lex (escaped (b ∷ bs)) (length (escaped (b ∷ bs)))
      ≡ inr (b ∷ bs, record { start = 0; end = length (b ∷ bs) } ∷ [])
lex-escaped b bs h =
    let line = escaped (b ∷ bs) in
    let len = length line in
    let double = length-escaped (b ∷ bs) in
    let at : IsAt len [] (b ∷ bs) (start line) = record {
      size = refl;
      left = omega (arith, double);
      behind = omega arith;
      wrote = refl;
      front = refl;
      back = refl;
    } in
    let (last, scanned, end) =
      scan_escaped len (b ∷ bs) [] len (start line) at (omega (arith, double)) in
    let written : last.write ≡ length (b ∷ bs) = end.wrote in
    let more_than_none : 0 < len = omega (arith, double) in
    let first = current_escaped len [] b bs (start line) at in
    let lexed =
      tokens_from_once len len (start line) last first more_than_none more_than_none scanned
        (omega (arith, end.left)) in
    lex_once line last (b ∷ bs) h lexed end.front
    ∙ ap (λ n. inr (b ∷ bs, record { start = 0; end = n } ∷ [])) end.wrote
