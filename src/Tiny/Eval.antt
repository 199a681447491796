-- ===== src/Tiny/Eval.antt =====
-- Expressions, by ivl/langs/tiny/eval.hpp. An `EvalValue` holds an `int64_t` or a `bool`; the map
-- of variables is a list of pairs in which the first pair of a name counts.
pub mod Variables
use all.Prelude.{Bool, true, false, not, ◌&&◌, ◌||◌, List, [], ◌∷◌, ◌==◌, if◌then◌else◌}
use all.Prelude.Int.{ℤ, ltb_ℤ}
use all.Prelude.Names.{same_name}
use all.Prelude.Result.{Result, ok, failed, assertion, exception, ◌>>=◌}
use all.Tiny.Int64.{add64, sub64, mul64, div64, mod64, neg64}
use all.Tiny.Token.{
  Token, op_eq, op_le, op_lt, op_ge, op_gt, op_plus, op_minus, op_mul, op_div, op_mod, op_not,
}
use all.Tiny.Syntax.{
  Identifier, Primary, identifier, number, true_literal, false_literal, paren, Unary, unary, Factor,
  factor, FactorRest, factor_end, factor_more, Term, term, TermRest, term_end, term_more,
  Comparison, comparison, comparison_end, comparison_more, Equals, equals, equals_end, equals_more,
  And, and_all, AndRest, and_end, and_more, Or, or_all, OrRest, or_end, or_more, Expression,
  expression,
}

pub data EvalValue : Type 0 where
  int64 : ℤ → EvalValue
  boolean : Bool → EvalValue

abbrev pub Variables : Type 0
Variables = List (Identifier × EvalValue)

-- `state.variables.at(name)`
unfoldable pub at : Variables → Identifier → Result EvalValue
at [] name = failed exception
at ((x, v) ∷ vars) name = if same_name x name then ok v else at vars name

-- `state.variables.insert_or_assign(name, value)`
unfoldable pub insert_or_assign : Identifier → EvalValue → Variables → Variables
insert_or_assign name value [] = (name, value) ∷ []
insert_or_assign name value ((x, v) ∷ vars) =
    if same_name x name then (x, value) ∷ vars else (x, v) ∷ insert_or_assign name value vars

-- `std::get<int64_t>` and `std::get<bool>` throw at the other kind.
abbrev pub get_int : EvalValue → Result ℤ
get_int (int64 n) = ok n
get_int (boolean b) = failed exception

abbrev pub get_bool : EvalValue → Result Bool
get_bool (int64 n) = failed exception
get_bool (boolean b) = ok b

unfoldable pub apply_unary : Token → EvalValue → Result EvalValue
unfolding neg64
apply_unary op_not v = get_bool v >>= λ b. ok (boolean (not b))
apply_unary op_minus v = get_int v >>= λ n. neg64 n >>= λ m. ok (int64 m)
apply_unary t v = failed exception

-- `for (auto op : expr.operators)`, from the first operator to the last.
unfoldable pub apply_operators : List Token → EvalValue → Result EvalValue
unfolding apply_unary
apply_operators [] v = ok v
apply_operators (t ∷ ts) v = apply_unary t v >>= apply_operators ts

unfoldable pub apply_factor : Token → ℤ → ℤ → Result ℤ
unfolding mul64 div64 mod64
apply_factor op_mul a b = mul64 a b
apply_factor op_div a b = div64 a b
apply_factor op_mod a b = mod64 a b
apply_factor t a b = failed exception

unfoldable pub apply_term : Token → ℤ → ℤ → Result ℤ
unfolding add64 sub64
apply_term op_plus a b = add64 a b
apply_term op_minus a b = sub64 a b
apply_term t a b = failed exception

unfoldable pub apply_comparison : Token → ℤ → ℤ → Result Bool
apply_comparison op_le a b = ok (not (ltb_ℤ b a))
apply_comparison op_lt a b = ok (ltb_ℤ a b)
apply_comparison op_ge a b = ok (not (ltb_ℤ a b))
apply_comparison op_gt a b = ok (ltb_ℤ b a)
apply_comparison t a b = failed exception

abbrev pub eq_ℤ : ℤ → ℤ → Bool
eq_ℤ a b = not (ltb_ℤ a b) && not (ltb_ℤ b a)

-- Anything but `op_eq` is read as `!=`.
unfoldable pub apply_equals : Token → ℤ → ℤ → Bool
apply_equals op_eq a b = eq_ℤ a b
apply_equals t a b = not (eq_ℤ a b)

unfoldable mutual
  unfolding at apply_operators apply_factor apply_term apply_comparison apply_equals

  pub evaluate_primary : Primary → Variables → Result EvalValue
  evaluate_primary (identifier name) vars = at vars name
  evaluate_primary (number n) vars = ok (int64 n)
  evaluate_primary true_literal vars = ok (boolean true)
  evaluate_primary false_literal vars = ok (boolean false)
  evaluate_primary (paren e) vars = evaluate_expression e vars

  pub evaluate_unary : Unary → Variables → Result EvalValue
  evaluate_unary (unary ops e) vars = evaluate_primary e vars >>= apply_operators ops

  pub evaluate_factor : Factor → Variables → Result EvalValue
  evaluate_factor (factor e more) vars = evaluate_factor_rest more vars (evaluate_unary e vars)

  -- With no operator the value is passed on, of either kind; else both sides are integers.
  pub evaluate_factor_rest : FactorRest → Variables → Result EvalValue → Result EvalValue
  evaluate_factor_rest factor_end vars v = v
  evaluate_factor_rest (factor_more t e more) vars v = evaluate_factor_rest more vars do
    a ← v >>= get_int
    b ← evaluate_unary e vars >>= get_int
    c ← apply_factor t a b
    ok (int64 c)

  pub evaluate_term : Term → Variables → Result EvalValue
  evaluate_term (term e more) vars = evaluate_term_rest more vars (evaluate_factor e vars)

  pub evaluate_term_rest : TermRest → Variables → Result EvalValue → Result EvalValue
  evaluate_term_rest term_end vars v = v
  evaluate_term_rest (term_more t e more) vars v = evaluate_term_rest more vars do
    a ← v >>= get_int
    b ← evaluate_factor e vars >>= get_int
    c ← apply_term t a b
    ok (int64 c)

  -- `assert(expr.expressions.size() == 2)`
  pub evaluate_comparison : Comparison → Variables → Result EvalValue
  evaluate_comparison (comparison e comparison_end) vars = evaluate_term e vars
  evaluate_comparison (comparison e (comparison_more t e' comparison_end)) vars = do
    a ← evaluate_term e vars >>= get_int
    b ← evaluate_term e' vars >>= get_int
    r ← apply_comparison t a b
    ok (boolean r)
  evaluate_comparison (comparison e (comparison_more t e' (comparison_more t' e'' more))) vars =
      failed assertion

  pub evaluate_equals : Equals → Variables → Result EvalValue
  evaluate_equals (equals e equals_end) vars = evaluate_comparison e vars
  evaluate_equals (equals e (equals_more t e' equals_end)) vars = do
    a ← evaluate_comparison e vars >>= get_int
    b ← evaluate_comparison e' vars >>= get_int
    ok (boolean (apply_equals t a b))
  evaluate_equals (equals e (equals_more t e' (equals_more t' e'' more))) vars = failed assertion

  -- Every operand is evaluated: there is no short circuit.
  pub evaluate_and : And → Variables → Result EvalValue
  evaluate_and (and_all e and_end) vars = evaluate_equals e vars
  evaluate_and (and_all e (and_more e' more)) vars = do
    a ← evaluate_equals e vars >>= get_bool
    r ← evaluate_and_rest (and_more e' more) vars a
    ok (boolean r)

  pub evaluate_and_rest : AndRest → Variables → Bool → Result Bool
  evaluate_and_rest and_end vars value = ok value
  evaluate_and_rest (and_more e more) vars value = do
    b ← evaluate_equals e vars >>= get_bool
    evaluate_and_rest more vars (value && b)

  pub evaluate_or : Or → Variables → Result EvalValue
  evaluate_or (or_all e or_end) vars = evaluate_and e vars
  evaluate_or (or_all e (or_more e' more)) vars = do
    a ← evaluate_and e vars >>= get_bool
    r ← evaluate_or_rest (or_more e' more) vars a
    ok (boolean r)

  pub evaluate_or_rest : OrRest → Variables → Bool → Result Bool
  evaluate_or_rest or_end vars value = ok value
  evaluate_or_rest (or_more e more) vars value = do
    b ← evaluate_and e vars >>= get_bool
    evaluate_or_rest more vars (value || b)

  pub evaluate_expression : Expression → Variables → Result EvalValue
  evaluate_expression (expression e) vars = evaluate_or e vars
