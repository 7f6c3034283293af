-- ===== src/Lexer/InPlace.antt =====
-- The buffer of microtun-cli/src/lexer.rs while it is lexed in place.
use microtun.Prelude.{
  ℕ, zero, suc, ◌≤◌, ◌<◌, ◌≡◌, ◌≢◌, refl, sym, ap, ◌∙◌, true, Option, none, some, List, [], ◌∷◌,
  arith, length, drop, set, get_or, length-set,
}
use microtun.Lexer.{Cursor, skip, copy, escape, Round, more, stop, fail, round, is_space}

pub drop-set : (xs : List ℕ) (i n v : ℕ) → i < n → drop n (set xs i v) ≡ drop n xs
drop-set [] i n v h = refl
drop-set (x ∷ xs) i zero v h = absurd (omega arith)
drop-set (x ∷ xs) zero (suc n) v h = refl
drop-set (x ∷ xs) (suc i) (suc n) v h = drop-set xs i n v (omega arith)

pub drop-suc : (n : ℕ) (xs : List ℕ) → drop (suc n) xs ≡ drop 1 (drop n xs)
drop-suc zero xs = refl
drop-suc (suc n) [] = refl
drop-suc (suc n) (x ∷ xs) = drop-suc n xs

-- The write position has not overtaken the read position, and what is not read yet is as it was.
pub record IsAhead (buffer : List ℕ) (len : ℕ) (self : Cursor) : Type 0 where
  pub size : length self.buffer ≡ length buffer
  pub behind : self.write ≤ self.read
  pub inside : self.read ≤ len
  pub unread : drop self.read self.buffer ≡ drop self.read buffer

module _ (buffer : List ℕ) (len : ℕ) where
  pub skip-IsAhead :
      (self : Cursor) → IsAhead buffer len self → self.read < len → IsAhead buffer len (skip self)
  unfolding skip
  skip-IsAhead self a l = record {
    size = a.size;
    behind = omega (arith, a.behind);
    inside = l;
    unread =
        drop-suc self.read self.buffer ∙ (ap (drop 1) a.unread ∙ sym (drop-suc self.read buffer));
  }

  copy-IsAhead :
      (self : Cursor) → IsAhead buffer len self → self.read < len → IsAhead buffer len (copy self)
  unfolding copy
  copy-IsAhead self a l =
      let v = get_or self.buffer self.read 0 in
      record {
        size = length-set self.buffer self.write v ∙ a.size;
        behind = omega (arith, a.behind);
        inside = l;
        unread =
            drop-set self.buffer self.write (suc self.read) v (omega (arith, a.behind))
            ∙ (drop-suc self.read self.buffer
                ∙ (ap (drop 1) a.unread ∙ sym (drop-suc self.read buffer)));
      }

  -- A round that goes on keeps the cursor ahead, and reads on; one that stops does not move it.
  abbrev pub Keeps : Cursor → Round → Type 0
  Keeps self fail = Unit {0}
  Keeps self (more quote next) =
      IsAhead buffer len next × (self.read < next.read) × (self.write ≤ next.write)
  Keeps self (stop quote next) =
      (next ≡ self) × (quote ≡ none) × (is_space (get_or self.buffer self.read 0) ≡ true)

  Keeps-skip :
      (quote : Option ℕ) (self : Cursor)
      → IsAhead buffer len self
      → self.read < len
      → Keeps self (more quote (skip self))
  Keeps-skip quote self a l =
      (skip-IsAhead self a l, unfold skip in omega arith, unfold skip in omega arith)

  Keeps-copy :
      (quote : Option ℕ) (self : Cursor)
      → IsAhead buffer len self
      → self.read < len
      → Keeps self (more quote (copy self))
  Keeps-copy quote self a l =
      (copy-IsAhead self a l, unfold copy in omega arith, unfold copy in omega arith)

  Keeps-skip-copy :
      (quote : Option ℕ) (self : Cursor)
      → IsAhead buffer len self
      → self.read < len
      → (skip self).read ≢ len
      → Keeps self (more quote (copy (skip self)))
  Keeps-skip-copy quote self a l n =
      let a' = skip-IsAhead self a l in
      let (kept, further, wrote) = Keeps-copy quote (skip self) a' (omega (arith, a'.inside, n)) in
      let moved : (skip self).read ≡ suc self.read = unfold skip in refl in
      let same : (skip self).write ≡ self.write = unfold skip in refl in
      (kept, omega (arith, further, moved), omega (arith, wrote, same))

  escape-Keeps :
      (quote : Option ℕ) (self : Cursor)
      → IsAhead buffer len self
      → self.read < len
      → Keeps self (escape len quote self)
  unfolding escape
  escape-Keeps quote self a l =
      ground (arith, λ (n : (skip self).read ≢ len). Keeps-skip-copy quote self a l n)

  pub round-Keeps :
      (quote : Option ℕ) (self : Cursor)
      → IsAhead buffer len self
      → self.read < len
      → Keeps self (round len quote (get_or self.buffer self.read 0) self)
  unfolding round
  round-Keeps none self a l =
      let b = get_or self.buffer self.read 0 in
      let skipped = Keeps-skip (some b) self a l in
      let copied = Keeps-copy none self a l in
      let escaped = escape-Keeps none self a l in ground (arith, skipped, copied, escaped)
  round-Keeps (some q) self a l =
      let skipped = Keeps-skip none self a l in
      let copied = Keeps-copy (some q) self a l in
      let escaped = escape-Keeps (some q) self a l in ground (arith, skipped, copied, escaped)
