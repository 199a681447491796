-- ===== src/Tiny/Tokenizer.antt =====
-- `tokenize` of ivl/langs/tiny/tokenize.hpp. The text stands without its comments.
pub mod Lexeme
pub mod Step
pub mod RoundTrip
pub mod Total
use all.Prelude.{
  ℕ, zero, suc, ◌-◌, Bool, true, false, not, ◌&&◌, Option, none, some, List, [], ◌∷◌, ◌++◌, length,
  drop, if◌then◌else◌,
}
use all.Prelude.Result.{Result, ok, failed, assertion, exception, out_of_fuel, ◌>>=◌, ◌>>◌, check}
use all.Prelude.Chars.{codes, isspace, isdigit, isalpha, isalnum, starts_with}
use all.Tiny.Token.{
  Token, kw_let, kw_print, kw_if, kw_else, kw_while, kw_true, kw_false, op_or, op_and, op_eq, op_ne,
  op_le, op_lt, op_ge, op_gt, op_plus, op_minus, op_mul, op_div, op_not, op_paren_open,
  op_paren_close, op_curly_open, op_curly_close, op_semicolon, op_comma, op_mod, op_assign,
  number_start, number_digit, number_end, identifier_start, identifier_char, identifier_end,
}

-- The lines `X("||", op_or)` and on, in their order.
abbrev pub operators : List (List ℕ × Token)
operators =
    (codes "||", op_or)
    ∷ (codes "&&", op_and)
    ∷ (codes "==", op_eq)
    ∷ (codes "!=", op_ne)
    ∷ (codes "<=", op_le)
    ∷ (codes "<", op_lt)
    ∷ (codes ">=", op_ge)
    ∷ (codes ">", op_gt)
    ∷ (codes "+", op_plus)
    ∷ (codes "-", op_minus)
    ∷ (codes "*", op_mul)
    ∷ (codes "/", op_div)
    ∷ (codes "!", op_not)
    ∷ (codes "(", op_paren_open)
    ∷ (codes ")", op_paren_close)
    ∷ (codes "{", op_curly_open)
    ∷ (codes "}", op_curly_close)
    ∷ (codes ";", op_semicolon)
    ∷ (codes ",", op_comma)
    ∷ (codes "%", op_mod)
    ∷ (codes "=", op_assign)
    ∷ []

-- The lines `X("let", kw_let)` and on, in their order.
abbrev pub keywords : List (List ℕ × Token)
keywords =
    (codes "let", kw_let)
    ∷ (codes "print", kw_print)
    ∷ (codes "if", kw_if)
    ∷ (codes "else", kw_else)
    ∷ (codes "while", kw_while)
    ∷ (codes "true", kw_true)
    ∷ (codes "false", kw_false)
    ∷ []

-- The first line that fits: its token, and the rest of the text.
unfoldable pub match_operator : List (List ℕ × Token) → List ℕ → Option (Token × List ℕ)
match_operator [] file = none
match_operator ((str, t) ∷ table) file =
    if starts_with str file then some (t, drop (length str) file) else match_operator table file

-- `file.size() == kw.size() || !std::isalnum(file[kw.size()])`, on the text after the keyword.
abbrev pub word_ends : List ℕ → Bool
word_ends [] = true
word_ends (c ∷ rest) = not (isalnum c)

unfoldable pub match_keyword : List (List ℕ × Token) → List ℕ → Option (Token × List ℕ)
match_keyword [] file = none
match_keyword ((kw, t) ∷ table) file =
    if starts_with kw file && word_ends (drop (length kw) file)
    then some (t, drop (length kw) file)
    else match_keyword table file

-- The loop over the digits of a number: their tokens, and the rest.
unfoldable pub digits_loop : List ℕ → List Token × List ℕ
digits_loop [] = ([], [])
digits_loop (c ∷ file) =
    let (out, rest) = digits_loop file in
    if isdigit c then (number_digit (c - b'0') ∷ out, rest) else ([], c ∷ file)

-- The loop over the characters of an identifier.
unfoldable pub chars_loop : List ℕ → List Token × List ℕ
chars_loop [] = ([], [])
chars_loop (c ∷ file) =
    let (out, rest) = chars_loop file in
    if isalnum c then (identifier_char c ∷ out, rest) else ([], c ∷ file)

-- `!file.empty() && isalpha(file[0])`
abbrev pub alpha_next : List ℕ → Bool
alpha_next [] = false
alpha_next (c ∷ file) = isalpha c

-- From a digit on: a number, with no letter after it.
unfoldable pub number_step : List ℕ → Result (List Token × List ℕ)
unfolding digits_loop
number_step text =
    let (ds, rest) = digits_loop text in
    check (not (alpha_next rest)) exception >> ok (number_start ∷ (ds ++ number_end ∷ []), rest)

-- From a letter on: a keyword or an identifier.
unfoldable pub word_step : List ℕ → Result (List Token × List ℕ)
unfolding match_keyword chars_loop
word_step text = elim (match_keyword keywords text) [
  | some (t, rest) ↦ ok (t ∷ [], rest)
  | none ↦
      let (cs, rest) = chars_loop text in ok (identifier_start ∷ (cs ++ identifier_end ∷ []), rest)
]

-- One round of the outer loop on a text that is not empty: the tokens it puts out, and the rest.
unfoldable pub token_step : ℕ → List ℕ → Result (List Token × List ℕ)
unfolding match_operator number_step word_step
token_step c file =
    let text = c ∷ file in
    if isspace c then ok ([], file) else elim (match_operator operators text) [
      | some (t, rest) ↦ ok (t ∷ [], rest)
      | none ↦ if isdigit c then number_step text else check (isalpha c) assertion >> word_step text
    ]

-- The outer loop, a unit of fuel for each round.
unfoldable pub tokenize_loop : ℕ → List ℕ → Result (List Token)
unfolding token_step
tokenize_loop zero file = failed out_of_fuel
tokenize_loop (suc f) [] = ok []
tokenize_loop (suc f) (c ∷ file) =
    let round = do (out, rest) ← token_step c file; more ← tokenize_loop f rest; ok (out ++ more)
    in round

unfoldable pub tokenize : List ℕ → Result (List Token)
unfolding tokenize_loop
tokenize file = tokenize_loop (suc (length file)) file
