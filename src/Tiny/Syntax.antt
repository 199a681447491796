-- ===== src/Tiny/Syntax.antt =====
-- The syntax trees of ivl/langs/tiny/parse.hpp.
use all.Prelude.{ℕ, List}
use all.Prelude.Int.{ℤ}
use all.Tiny.Token.{Token}

abbrev pub Identifier : Type 0
Identifier = List ℕ

-- The two vectors of a node stand in one: an expression, and then pairs of an operator and an
-- expression (`operators.size() + 1 == expressions.size()`). An `AndExpression` and an
-- `OrExpression` have no operators, and one expression at least.
mutual
  pub data Primary : Type 0 where
    identifier : Identifier → Primary
    number : ℤ → Primary
    true_literal false_literal : Primary
    paren : Expression → Primary

  pub data Unary : Type 0 where
    unary : List Token → Primary → Unary

  pub data Factor : Type 0 where
    factor : Unary → FactorRest → Factor

  pub data FactorRest : Type 0 where
    factor_end : FactorRest
    factor_more : Token → Unary → FactorRest → FactorRest

  pub data Term : Type 0 where
    term : Factor → TermRest → Term

  pub data TermRest : Type 0 where
    term_end : TermRest
    term_more : Token → Factor → TermRest → TermRest

  pub data Comparison : Type 0 where
    comparison : Term → ComparisonRest → Comparison

  pub data ComparisonRest : Type 0 where
    comparison_end : ComparisonRest
    comparison_more : Token → Term → ComparisonRest → ComparisonRest

  pub data Equals : Type 0 where
    equals : Comparison → EqualsRest → Equals

  pub data EqualsRest : Type 0 where
    equals_end : EqualsRest
    equals_more : Token → Comparison → EqualsRest → EqualsRest

  pub data And : Type 0 where
    and_all : Equals → AndRest → And

  pub data AndRest : Type 0 where
    and_end : AndRest
    and_more : Equals → AndRest → AndRest

  pub data Or : Type 0 where
    or_all : And → OrRest → Or

  pub data OrRest : Type 0 where
    or_end : OrRest
    or_more : And → OrRest → OrRest

  pub data Expression : Type 0 where
    expression : Or → Expression

-- `BlockStatement` holds a vector of statements; `false_branch` may be null.
mutual
  pub data Statement : Type 0 where
    let_statement : Identifier → Expression → Statement
    assign_statement : Identifier → Expression → Statement
    print_statement : Expression → Statement
    if_statement : Expression → Statement → FalseBranch → Statement
    while_statement : Expression → Statement → Statement
    block_statement : Statements → Statement

  pub data FalseBranch : Type 0 where
    no_branch : FalseBranch
    branch : Statement → FalseBranch

  pub data Statements : Type 0 where
    done : Statements
    then_statement : Statement → Statements → Statements
