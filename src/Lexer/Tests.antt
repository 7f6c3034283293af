-- ===== src/Lexer/Tests.antt =====
-- Runs of the lexer of microtun-cli/src/lexer.rs.
use microtun.Prelude.{ℕ, arith, ◌≡◌, ◌≤◌, length, refl, List, [], ◌∷◌, inl, inr}
use microtun.Lexer.{
  max_tokens, Token, trailing_escape, unterminated_quote, scan, round, skip, copy, escape,
  skip_spaces, take_token, tokens_from, lex,
}
use microtun.Lexer.Escaped.{escaped, lex-escaped}
use microtun.Lexer.Tokens.{Within, start, lex-Within}
use microtun.Lexer.Unbounded.{Outcome, Lexes, returned, lex-Lexes}
use microtun.Prelude.All.{Every}

-- a "b c"
abbrev line : List ℕ
line = 97 ∷ 32 ∷ 34 ∷ 98 ∷ 32 ∷ 99 ∷ 34 ∷ []

abbrev words : List Token
words = record { start = 0; end = 1 } ∷ record { start = 1; end = 4 } ∷ []

lex-line : lex line 7 ≡ inr (97 ∷ 98 ∷ 32 ∷ 99 ∷ [], words)
unfolding lex tokens_from take_token skip_spaces scan round skip copy
lex-line = refl

-- a quote that does not end, and a backslash that ends the line
lex_errors :
    (lex (34 ∷ 98 ∷ []) 2 ≡ inl unterminated_quote) × (lex (98 ∷ 92 ∷ []) 2 ≡ inl trailing_escape)
unfolding lex tokens_from take_token skip_spaces scan round skip copy escape
lex_errors = (refl, refl)

lex-Lexes_example : (r : Outcome) × Lexes 7 (start line) [] r × (lex line 7 ≡ returned r)
lex-Lexes_example = lex-Lexes line 7 (omega arith) (omega arith)

lex-Within_example : Every (Within 4) words × (4 ≤ 7) × (length words ≤ max_tokens)
lex-Within_example = lex-Within line 7 (97 ∷ 98 ∷ 32 ∷ 99 ∷ []) words lex-line

-- a quote and a space, both escaped
lex-escaped_example :
    lex (92 ∷ 34 ∷ 92 ∷ 32 ∷ []) 4 ≡ inr (34 ∷ 32 ∷ [], record { start = 0; end = 2 } ∷ [])
unfolding escaped
lex-escaped_example = lex-escaped 34 (32 ∷ []) (omega arith)
