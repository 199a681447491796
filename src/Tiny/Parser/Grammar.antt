-- ===== src/Tiny/Parser/Grammar.antt =====
-- The grammar of expressions, which tokens spell which tree, with no parser in it.
use all.Prelude.{ℕ, List, [], ◌∷◌, ◌++◌, ◌≡◌, Bool, true, ◌&&◌}
use all.Prelude.Int.{ℤ, pos}
use all.Prelude.Result.{Result, ok, ◌>>=◌}
use all.Tiny.Int64.{add64, mul64}
use all.Tiny.Token.{
  Token, has, number_start, number_digit, number_end, identifier_start, identifier_char,
  identifier_end, kw_true, kw_false, op_and, op_or, op_paren_open, op_paren_close,
}
use all.Tiny.Syntax.{
  Identifier, Primary, identifier, number, true_literal, false_literal, paren, Unary, unary, Factor,
  factor, FactorRest, factor_end, factor_more, Term, term, TermRest, term_end, term_more,
  Comparison, comparison, ComparisonRest, comparison_end, comparison_more, Equals, equals,
  EqualsRest, equals_end, equals_more, And, and_all, AndRest, and_end, and_more, Or, or_all, OrRest,
  or_end, or_more, Expression, expression,
}
use all.Tiny.Parser.{has_any, unary_ops, factor_ops, term_ops, comparison_ops, equals_ops}

abbrev pub name_tokens : Identifier → List Token
name_tokens [] = identifier_end ∷ []
name_tokens (c ∷ name) = identifier_char c ∷ name_tokens name

abbrev pub digit_tokens : List ℕ → List Token
digit_tokens [] = number_end ∷ []
digit_tokens (d ∷ ds) = number_digit d ∷ digit_tokens ds

-- The number that the digits make, from the value `n` on.
abbrev pub value_of : ℤ → List ℕ → Result ℤ
unfolding add64 mul64
value_of n [] = ok n
value_of n (d ∷ ds) =
    mul64 n (pos 10) >>= λ tenfold. add64 tenfold (pos d) >>= λ next. value_of next ds

abbrev pub all_in : List Token → List Token → Bool
unfolding has_any
all_in ops [] = true
all_in ops (t ∷ ts) = has_any ops t && all_in ops ts

-- Each constructor is a rule. `u` is the value before the first digit of a number.
module _ (u : ℤ) where
  mutual
    pub data SpellsPrimary : Primary → List Token → Type 0 where
      name_rule :
          (name : Identifier)
          → SpellsPrimary (identifier name) (identifier_start ∷ name_tokens name)
      number_rule :
          (n : ℤ) (ds : List ℕ)
          → value_of u ds ≡ ok n
          → SpellsPrimary (number n) (number_start ∷ digit_tokens ds)
      true_rule : SpellsPrimary true_literal (kw_true ∷ [])
      false_rule : SpellsPrimary false_literal (kw_false ∷ [])
      paren_rule :
          (e : Expression) (ts : List Token) (open' close : Token)
          → has op_paren_open open' ≡ true
          → has op_paren_close close ≡ true
          → SpellsExpression e ts
          → SpellsPrimary (paren e) (open' ∷ (ts ++ close ∷ []))

    pub data SpellsUnary : Unary → List Token → Type 0 where
      unary_rule :
          (ops : List Token) (e : Primary) (ts : List Token)
          → all_in unary_ops ops ≡ true
          → SpellsPrimary e ts
          → SpellsUnary (unary ops e) (ops ++ ts)

    pub data SpellsFactor : Factor → List Token → Type 0 where
      factor_rule :
          (e : Unary) (more : FactorRest) (a b : List Token)
          → SpellsUnary e a
          → SpellsFactorRest more b
          → SpellsFactor (factor e more) (a ++ b)

    pub data SpellsFactorRest : FactorRest → List Token → Type 0 where
      factor_end_rule : SpellsFactorRest factor_end []
      factor_more_rule :
          (t : Token) (e : Unary) (more : FactorRest) (a b : List Token)
          → has_any factor_ops t ≡ true
          → SpellsUnary e a
          → SpellsFactorRest more b
          → SpellsFactorRest (factor_more t e more) (t ∷ (a ++ b))

    pub data SpellsTerm : Term → List Token → Type 0 where
      term_rule :
          (e : Factor) (more : TermRest) (a b : List Token)
          → SpellsFactor e a
          → SpellsTermRest more b
          → SpellsTerm (term e more) (a ++ b)

    pub data SpellsTermRest : TermRest → List Token → Type 0 where
      term_end_rule : SpellsTermRest term_end []
      term_more_rule :
          (t : Token) (e : Factor) (more : TermRest) (a b : List Token)
          → has_any term_ops t ≡ true
          → SpellsFactor e a
          → SpellsTermRest more b
          → SpellsTermRest (term_more t e more) (t ∷ (a ++ b))

    pub data SpellsComparison : Comparison → List Token → Type 0 where
      comparison_rule :
          (e : Term) (more : ComparisonRest) (a b : List Token)
          → SpellsTerm e a
          → SpellsComparisonRest more b
          → SpellsComparison (comparison e more) (a ++ b)

    pub data SpellsComparisonRest : ComparisonRest → List Token → Type 0 where
      comparison_end_rule : SpellsComparisonRest comparison_end []
      comparison_more_rule :
          (t : Token) (e : Term) (more : ComparisonRest) (a b : List Token)
          → has_any comparison_ops t ≡ true
          → SpellsTerm e a
          → SpellsComparisonRest more b
          → SpellsComparisonRest (comparison_more t e more) (t ∷ (a ++ b))

    pub data SpellsEquals : Equals → List Token → Type 0 where
      equals_rule :
          (e : Comparison) (more : EqualsRest) (a b : List Token)
          → SpellsComparison e a
          → SpellsEqualsRest more b
          → SpellsEquals (equals e more) (a ++ b)

    pub data SpellsEqualsRest : EqualsRest → List Token → Type 0 where
      equals_end_rule : SpellsEqualsRest equals_end []
      equals_more_rule :
          (t : Token) (e : Comparison) (more : EqualsRest) (a b : List Token)
          → has_any equals_ops t ≡ true
          → SpellsComparison e a
          → SpellsEqualsRest more b
          → SpellsEqualsRest (equals_more t e more) (t ∷ (a ++ b))

    pub data SpellsAnd : And → List Token → Type 0 where
      and_rule :
          (e : Equals) (more : AndRest) (a b : List Token)
          → SpellsEquals e a
          → SpellsAndRest more b
          → SpellsAnd (and_all e more) (a ++ b)

    pub data SpellsAndRest : AndRest → List Token → Type 0 where
      and_end_rule : SpellsAndRest and_end []
      and_more_rule :
          (t : Token) (e : Equals) (more : AndRest) (a b : List Token)
          → has op_and t ≡ true
          → SpellsEquals e a
          → SpellsAndRest more b
          → SpellsAndRest (and_more e more) (t ∷ (a ++ b))

    pub data SpellsOr : Or → List Token → Type 0 where
      or_rule :
          (e : And) (more : OrRest) (a b : List Token)
          → SpellsAnd e a
          → SpellsOrRest more b
          → SpellsOr (or_all e more) (a ++ b)

    pub data SpellsOrRest : OrRest → List Token → Type 0 where
      or_end_rule : SpellsOrRest or_end []
      or_more_rule :
          (t : Token) (e : And) (more : OrRest) (a b : List Token)
          → has op_or t ≡ true
          → SpellsAnd e a
          → SpellsOrRest more b
          → SpellsOrRest (or_more e more) (t ∷ (a ++ b))

    pub data SpellsExpression : Expression → List Token → Type 0 where
      expression_rule :
          (e : Or) (ts : List Token) → SpellsOr e ts → SpellsExpression (expression e) ts
