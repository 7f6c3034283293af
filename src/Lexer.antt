-- ===== src/Lexer.antt =====
-- microtun-cli/src/lexer.rs: the lexer of command lines, which unescapes in the place of its input.
pub mod Escaped
pub mod InPlace
mod Tests
pub mod Loops
pub mod Tokens
pub mod Unbounded
use microtun.Prelude.{
  ℕ, zero, suc, ◌+◌, ◌≤◌, Bool, true, false, ◌||◌, Option, none, some, List, [], ◌∷◌, ◌++◌, arith,
  ltb, leb, ◌==◌, if◌then◌else◌, length, get_elem?, get_or, set, take, u16_max, ◌⊎◌, inl, inr,
}

abbrev pub max_tokens : ℕ
max_tokens = 32

pub record Token : Type 0 where
  pub start : ℕ
  pub end : ℕ

-- The kinds of error that `lex` returns.
pub data ErrorKind : Type 0 where
  line_too_long trailing_escape unterminated_quote too_many_tokens : ErrorKind

-- The buffer with the two positions of `lex`.
pub record Cursor : Type 0 where
  pub buffer : List ℕ
  pub read : ℕ
  pub write : ℕ

-- Space, tab, carriage return and line feed.
abbrev pub is_space : ℕ → Bool
is_space byte = (byte == 32) || (byte == 9) || (byte == 13) || (byte == 10)

-- The two quotes, and the backslash.
abbrev pub is_quote : ℕ → Bool
is_quote byte = (byte == 39) || (byte == 34)

abbrev pub backslash : ℕ
backslash = 92

-- `read += 1`
unfoldable pub skip : Cursor → Cursor
skip self = record self { read = suc self.read }

-- `buffer[write] = buffer[read]` and a step of both positions.
unfoldable pub copy : Cursor → Cursor
copy self = record {
  buffer = set self.buffer self.write (get_or self.buffer self.read 0);
  read = suc self.read;
  write = suc self.write;
}

-- What one round of the inner loop leads to.
pub data Round : Type 0 where
  more : Option ℕ → Cursor → Round
  stop : Option ℕ → Cursor → Round
  fail : Round

unfoldable pub escape : ℕ → Option ℕ → Cursor → Round
escape len quote self =
    let next = skip self in if next.read == len then fail else more quote (copy next)

unfoldable pub round : ℕ → Option ℕ → ℕ → Cursor → Round
round len (some q) b self =
    if b == q
    then more none (skip self)
    else if b == backslash
    then escape len (some q) self
    else more (some q) (copy self)
round len none b self =
    if is_quote b
    then more (some b) (skip self)
    else if b == backslash
    then escape len none self
    else if is_space b
    then stop none self
    else more none (copy self)

-- The inner loop, of at most `fuel` rounds; `none` is `TrailingEscape`.
unfoldable pub scan : ℕ → ℕ → Option ℕ → Cursor → Option (Option ℕ × Cursor)
scan zero len quote self = some (quote, self)
scan (suc fuel) len quote self =
    if leb len self.read
    then some (quote, self)
    else elim (round len quote (get_or self.buffer self.read 0) self) [
      | more quote' next ↦ scan fuel len quote' next
      | stop quote' next ↦ some (quote', next)
      | fail ↦ none
    ]

-- The loop over white space.
unfoldable pub skip_spaces : ℕ → ℕ → Cursor → Cursor
skip_spaces zero len self = self
skip_spaces (suc fuel) len self =
    let rest = skip_spaces fuel len (skip self) in
    if leb len self.read
    then self
    else if is_space (get_or self.buffer self.read 0)
    then rest
    else self

-- One token, from `start` on.
unfoldable pub take_token : ℕ → ℕ → Cursor → List Token → ErrorKind ⊎ (Cursor × List Token)
take_token fuel len self tokens = elim (scan fuel len none self) [
  | none ↦ inl trailing_escape
  | some (some q, next) ↦ inl unterminated_quote
  | some (none, next) ↦
      if leb max_tokens (length tokens)
      then inl too_many_tokens
      else inr (
        skip_spaces fuel len next,
        tokens ++ record { start = self.write; end = next.write } ∷ [],
      )
]

unfoldable pub tokens_from : ℕ → ℕ → Cursor → List Token → ErrorKind ⊎ (Cursor × List Token)
tokens_from zero len self tokens = inr (self, tokens)
tokens_from (suc fuel) len self tokens =
    let here = skip_spaces len len self in
    if leb len here.read then inr (here, tokens) else elim (take_token len len here tokens) [
      | inl e ↦ inl e
      | inr (next, tokens') ↦ tokens_from fuel len next tokens'
    ]

-- The bytes written and the tokens. `len` rounds of each loop are enough.
unfoldable pub lex : List ℕ → ℕ → ErrorKind ⊎ (List ℕ × List Token)
lex buffer len =
    if ltb (length buffer) len || ltb u16_max len
    then inl line_too_long
    else elim (tokens_from len len (record { buffer = buffer; read = 0; write = 0 }) []) [
      | inl e ↦ inl e
      | inr (last, tokens) ↦ inr (take last.write last.buffer, tokens)
    ]
