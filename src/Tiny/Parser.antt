-- ===== src/Tiny/Parser.antt =====
-- The recursive descent of ivl/langs/tiny/parse.hpp. What is left of the tokens stands for
-- `token_storage` and `current`; `top()` is read where the list is not empty. Each call spends a
-- unit of fuel. `uninitialized` is the value that `Number number;` leaves in the field before the
-- digits are added: the source gives it none. Of two faults on one path the first is reported: the
-- `scope_exit` of a parenthesis would run its assertion after an exception.
pub mod Progress
pub mod Grammar
pub mod Spelled
pub mod Leaves
pub mod Sound
use all.Prelude.{ℕ, zero, suc, Bool, false, ◌||◌, List, [], ◌∷◌, if◌then◌else◌}
use all.Prelude.Int.{ℤ, pos}
use all.Prelude.Result.{Result, ok, failed, assertion, exception, out_of_fuel, ◌>>=◌}
use all.Tiny.Int64.{add64, mul64}
use all.Tiny.Token.{
  Token, has, kw_true, kw_false, op_or, op_and, op_eq, op_ne, op_le, op_lt, op_ge, op_gt, op_plus,
  op_minus, op_mul, op_div, op_not, op_paren_open, op_paren_close, op_mod, number_start,
  number_digit, number_end, identifier_start, identifier_char, identifier_end,
}
use all.Tiny.Syntax.{
  Identifier, Primary, identifier, number, true_literal, false_literal, paren, Unary, unary, Factor,
  factor, FactorRest, factor_end, factor_more, Term, term, TermRest, term_end, term_more,
  Comparison, comparison, ComparisonRest, comparison_end, comparison_more, Equals, equals,
  EqualsRest, equals_end, equals_more, And, and_all, AndRest, and_end, and_more, Or, or_all, OrRest,
  or_end, or_more, Expression, expression,
}

abbrev pub Parser : Type 0 → Type 0
Parser A = List Token → Result (A × List Token)

-- `has<T>()` and `has<Ts...>()`: is there a token, and is it one of these?
unfoldable pub has_top : Token → List Token → Bool
unfolding has
has_top t [] = false
has_top t (u ∷ ts) = has t u

unfoldable pub has_any : List Token → Token → Bool
unfolding has
has_any [] u = false
has_any (t ∷ ts) u = has t u || has_any ts u

-- `assert(consume_if<T>())`
unfoldable pub expect : Token → Parser (Unit {0})
unfolding has
expect t [] = failed assertion
expect t (u ∷ ts) = if has t u then ok (tt, ts) else failed assertion

abbrev pub unary_ops : List Token
unary_ops = op_not ∷ op_minus ∷ []

abbrev pub factor_ops : List Token
factor_ops = op_mul ∷ op_div ∷ op_mod ∷ []

abbrev pub term_ops : List Token
term_ops = op_plus ∷ op_minus ∷ []

abbrev pub comparison_ops : List Token
comparison_ops = op_lt ∷ op_le ∷ op_gt ∷ op_ge ∷ []

abbrev pub equals_ops : List Token
equals_ops = op_eq ∷ op_ne ∷ []

-- The loop of `parse<Identifier>`, up to `identifier_end`.
unfoldable pub identifier_loop : Parser Identifier
identifier_loop [] = failed assertion
identifier_loop (identifier_end ∷ ts) = ok ([], ts)
identifier_loop (identifier_char c ∷ ts) = do (name, rest) ← identifier_loop ts; ok (c ∷ name, rest)
identifier_loop (t ∷ ts) = failed exception

unfoldable pub parse_identifier : Parser Identifier
unfolding expect identifier_loop
parse_identifier ts = expect identifier_start ts >>= λ (_, rest). identifier_loop rest

-- The loop of `parse<PrimaryExpression>` over the digits of a number.
unfoldable pub number_loop : ℤ → Parser ℤ
unfolding add64 mul64
number_loop n [] = failed assertion
number_loop n (number_end ∷ ts) = ok (n, ts)
number_loop n (number_digit d ∷ ts) = do
  tenfold ← mul64 n (pos 10)
  next ← add64 tenfold (pos d)
  number_loop next ts
number_loop n (t ∷ ts) = failed exception

-- The loop of `parse<UnaryExpression>` over its operators.
unfoldable pub operators_loop : List Token → List Token × List Token
unfolding has_any
operators_loop [] = ([], [])
operators_loop (t ∷ ts) =
    let (ops, rest) = operators_loop ts in
    if has_any unary_ops t then (t ∷ ops, rest) else ([], t ∷ ts)

module _ (uninitialized : ℤ) where
  unfoldable mutual
    unfolding parse_identifier number_loop operators_loop has_any has_top expect

    pub parse_primary : ℕ → Parser Primary
    parse_primary zero ts = failed out_of_fuel
    parse_primary (suc f) (kw_false ∷ ts) = ok (false_literal, ts)
    parse_primary (suc f) (kw_true ∷ ts) = ok (true_literal, ts)
    parse_primary (suc f) (identifier_start ∷ ts) = do
      (name, rest) ← parse_identifier (identifier_start ∷ ts)
      ok (identifier name, rest)
    parse_primary (suc f) (number_start ∷ ts) = do
      (n, rest) ← number_loop uninitialized ts
      ok (number n, rest)
    parse_primary (suc f) ts = do
      (_, inner) ← expect op_paren_open ts
      (e, rest) ← parse_expression f inner
      (_, rest') ← expect op_paren_close rest
      ok (paren e, rest')

    pub parse_unary : ℕ → Parser Unary
    parse_unary zero ts = failed out_of_fuel
    parse_unary (suc f) ts = do
      let (ops, rest) = operators_loop ts
      (e, rest') ← parse_primary f rest
      ok (unary ops e, rest')

    pub parse_factor : ℕ → Parser Factor
    parse_factor zero ts = failed out_of_fuel
    parse_factor (suc f) ts = do
      (e, rest) ← parse_unary f ts
      (more, rest') ← parse_factor_rest f rest
      ok (factor e more, rest')

    pub parse_factor_rest : ℕ → Parser FactorRest
    parse_factor_rest zero ts = failed out_of_fuel
    parse_factor_rest (suc f) [] = ok (factor_end, [])
    parse_factor_rest (suc f) (t ∷ ts) =
        let next = do
          (e, rest) ← parse_unary f ts
          (more, rest') ← parse_factor_rest f rest
          ok (factor_more t e more, rest')
        in if has_any factor_ops t then next else ok (factor_end, t ∷ ts)

    pub parse_term : ℕ → Parser Term
    parse_term zero ts = failed out_of_fuel
    parse_term (suc f) ts = do
      (e, rest) ← parse_factor f ts
      (more, rest') ← parse_term_rest f rest
      ok (term e more, rest')

    pub parse_term_rest : ℕ → Parser TermRest
    parse_term_rest zero ts = failed out_of_fuel
    parse_term_rest (suc f) [] = ok (term_end, [])
    parse_term_rest (suc f) (t ∷ ts) =
        let next = do
          (e, rest) ← parse_factor f ts
          (more, rest') ← parse_term_rest f rest
          ok (term_more t e more, rest')
        in if has_any term_ops t then next else ok (term_end, t ∷ ts)

    pub parse_comparison : ℕ → Parser Comparison
    parse_comparison zero ts = failed out_of_fuel
    parse_comparison (suc f) ts = do
      (e, rest) ← parse_term f ts
      (more, rest') ← parse_comparison_rest f rest
      ok (comparison e more, rest')

    pub parse_comparison_rest : ℕ → Parser ComparisonRest
    parse_comparison_rest zero ts = failed out_of_fuel
    parse_comparison_rest (suc f) [] = ok (comparison_end, [])
    parse_comparison_rest (suc f) (t ∷ ts) =
        let next = do
          (e, rest) ← parse_term f ts
          (more, rest') ← parse_comparison_rest f rest
          ok (comparison_more t e more, rest')
        in if has_any comparison_ops t then next else ok (comparison_end, t ∷ ts)

    pub parse_equals : ℕ → Parser Equals
    parse_equals zero ts = failed out_of_fuel
    parse_equals (suc f) ts = do
      (e, rest) ← parse_comparison f ts
      (more, rest') ← parse_equals_rest f rest
      ok (equals e more, rest')

    pub parse_equals_rest : ℕ → Parser EqualsRest
    parse_equals_rest zero ts = failed out_of_fuel
    parse_equals_rest (suc f) [] = ok (equals_end, [])
    parse_equals_rest (suc f) (t ∷ ts) =
        let next = do
          (e, rest) ← parse_comparison f ts
          (more, rest') ← parse_equals_rest f rest
          ok (equals_more t e more, rest')
        in if has_any equals_ops t then next else ok (equals_end, t ∷ ts)

    pub parse_and : ℕ → Parser And
    parse_and zero ts = failed out_of_fuel
    parse_and (suc f) ts = do
      (e, rest) ← parse_equals f ts
      (more, rest') ← parse_and_rest f rest
      ok (and_all e more, rest')

    pub parse_and_rest : ℕ → Parser AndRest
    parse_and_rest zero ts = failed out_of_fuel
    parse_and_rest (suc f) [] = ok (and_end, [])
    parse_and_rest (suc f) (t ∷ ts) =
        let next = do
          (e, rest) ← parse_equals f ts
          (more, rest') ← parse_and_rest f rest
          ok (and_more e more, rest')
        in if has op_and t then next else ok (and_end, t ∷ ts)

    pub parse_or : ℕ → Parser Or
    parse_or zero ts = failed out_of_fuel
    parse_or (suc f) ts = do
      (e, rest) ← parse_and f ts
      (more, rest') ← parse_or_rest f rest
      ok (or_all e more, rest')

    pub parse_or_rest : ℕ → Parser OrRest
    parse_or_rest zero ts = failed out_of_fuel
    parse_or_rest (suc f) [] = ok (or_end, [])
    parse_or_rest (suc f) (t ∷ ts) =
        let next = do
          (e, rest) ← parse_and f ts
          (more, rest') ← parse_or_rest f rest
          ok (or_more e more, rest')
        in if has op_or t then next else ok (or_end, t ∷ ts)

    pub parse_expression : ℕ → Parser Expression
    parse_expression zero ts = failed out_of_fuel
    parse_expression (suc f) ts = do (e, rest) ← parse_or f ts; ok (expression e, rest)
