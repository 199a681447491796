-- ===== src/Tiny/Tokenizer/Lexeme.antt =====
-- The lexemes of ivl/langs/tiny/tokenize.hpp: what a program writes, and the tokens that stand
-- for it.
use all.Prelude.{ℕ, ◌+◌, ◌<◌, ◌≡◌, Bool, true, false, List, [], ◌∷◌, ◌++◌, ◌==◌, ◌&&◌, ◌||◌}
use all.Tiny.Tokenizer.{keywords}
use all.Prelude.Chars.{codes, isalpha, isalnum}
use all.Tiny.Token.{
  Token, kw_let, kw_print, kw_if, kw_else, kw_while, kw_true, kw_false, op_or, op_and, op_eq, op_ne,
  op_le, op_lt, op_ge, op_gt, op_plus, op_minus, op_mul, op_div, op_not, op_paren_open,
  op_paren_close, op_curly_open, op_curly_close, op_semicolon, op_comma, op_mod, op_assign,
  number_start, number_digit, number_end, identifier_start, identifier_char, identifier_end,
}

-- The text of a keyword or an operator; empty for the other tokens.
abbrev pub spelling : Token → List ℕ
spelling kw_let = codes "let"
spelling kw_print = codes "print"
spelling kw_if = codes "if"
spelling kw_else = codes "else"
spelling kw_while = codes "while"
spelling kw_true = codes "true"
spelling kw_false = codes "false"
spelling op_or = codes "||"
spelling op_and = codes "&&"
spelling op_eq = codes "=="
spelling op_ne = codes "!="
spelling op_le = codes "<="
spelling op_lt = codes "<"
spelling op_ge = codes ">="
spelling op_gt = codes ">"
spelling op_plus = codes "+"
spelling op_minus = codes "-"
spelling op_mul = codes "*"
spelling op_div = codes "/"
spelling op_not = codes "!"
spelling op_paren_open = codes "("
spelling op_paren_close = codes ")"
spelling op_curly_open = codes "{"
spelling op_curly_close = codes "}"
spelling op_semicolon = codes ";"
spelling op_comma = codes ","
spelling op_mod = codes "%"
spelling op_assign = codes "="
spelling t = []

pub data Lexeme : Type 0 where
  plain : Token → Lexeme
  numeral : ℕ → List ℕ → Lexeme
  name : ℕ → List ℕ → Lexeme

abbrev pub filled : List ℕ → Bool
filled [] = false
filled (c ∷ cs) = true

abbrev pub same_text : List ℕ → List ℕ → Bool
same_text [] [] = true
same_text (a ∷ as') (b ∷ bs) = a == b && same_text as' bs
same_text _ _ = false

-- Is the text one of the words of the table?
abbrev pub in_table : List (List ℕ × Token) → List ℕ → Bool
in_table [] text = false
in_table ((kw, t) ∷ table) text = same_text kw text || in_table table text

abbrev pub is_keyword : List ℕ → Bool
is_keyword text = in_table keywords text

abbrev pub AllDigit : List ℕ → Type 0
AllDigit [] = Unit
AllDigit (d ∷ ds) = (d < 10) × AllDigit ds

abbrev pub AllAlnum : List ℕ → Type 0
AllAlnum [] = Unit
AllAlnum (c ∷ cs) = (isalnum c ≡ true) × AllAlnum cs

-- A keyword or operator, a sequence of digits, or a word that is no keyword.
abbrev pub IsLexeme : Lexeme → Type 0
IsLexeme (plain t) = filled (spelling t) ≡ true
IsLexeme (numeral d ds) = (d < 10) × AllDigit ds
IsLexeme (name c cs) = (isalpha c ≡ true) × AllAlnum cs × (is_keyword (c ∷ cs) ≡ false)

abbrev pub AllLexeme : List Lexeme → Type 0
AllLexeme [] = Unit
AllLexeme (l ∷ ls) = IsLexeme l × AllLexeme ls

abbrev pub digit_codes : List ℕ → List ℕ
digit_codes [] = []
digit_codes (d ∷ ds) = (d + b'0') ∷ digit_codes ds

abbrev pub spell : Lexeme → List ℕ
spell (plain t) = spelling t
spell (numeral d ds) = digit_codes (d ∷ ds)
spell (name c cs) = c ∷ cs

abbrev pub digit_tokens : List ℕ → List Token
digit_tokens [] = []
digit_tokens (d ∷ ds) = number_digit d ∷ digit_tokens ds

abbrev pub char_tokens : List ℕ → List Token
char_tokens [] = []
char_tokens (c ∷ cs) = identifier_char c ∷ char_tokens cs

abbrev pub tokens_of : Lexeme → List Token
tokens_of (plain t) = t ∷ []
tokens_of (numeral d ds) = number_start ∷ (digit_tokens (d ∷ ds) ++ number_end ∷ [])
tokens_of (name c cs) = identifier_start ∷ (char_tokens (c ∷ cs) ++ identifier_end ∷ [])

-- Each lexeme, and a space after it.
abbrev pub spell_all : List Lexeme → List ℕ
spell_all [] = []
spell_all (l ∷ ls) = spell l ++ 32 ∷ spell_all ls

abbrev pub tokens_of_all : List Lexeme → List Token
tokens_of_all [] = []
tokens_of_all (l ∷ ls) = tokens_of l ++ tokens_of_all ls
