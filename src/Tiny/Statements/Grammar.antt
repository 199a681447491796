-- ===== src/Tiny/Statements/Grammar.antt =====
-- The grammar of statements and programs, with no parser in it.
use all.Prelude.{List, [], ◌∷◌, ◌++◌, ◌≡◌, true}
use all.Prelude.Int.{ℤ}
use all.Tiny.Token.{
  Token, has, kw_let, kw_print, kw_if, kw_else, kw_while, identifier_start, op_paren_open,
  op_paren_close, op_curly_open, op_curly_close, op_semicolon, op_assign,
}
use all.Tiny.Syntax.{
  Identifier, Expression, Statement, let_statement, assign_statement, print_statement, if_statement,
  while_statement, block_statement, FalseBranch, no_branch, branch, Statements, done,
  then_statement,
}
use all.Tiny.Parser.Grammar.{name_tokens, SpellsExpression}

-- The token `c` has the type of `t`.
abbrev pub Is : Token → Token → Type 0
Is t c = has t c ≡ true

module _ (u : ℤ) where
  -- identifier = expression ;
  pub data SpellsAssignment : Identifier → Expression → List Token → Type 0 where
    assignment_rule :
        (i : Identifier) (e : Expression) (start eq semi : Token) (ts : List Token)
        → Is identifier_start start
        → Is op_assign eq
        → SpellsExpression u e ts
        → Is op_semicolon semi
        → SpellsAssignment i e (start ∷ (name_tokens i ++ eq ∷ (ts ++ semi ∷ [])))

  -- ( expression )
  pub data SpellsCondition : Expression → List Token → Type 0 where
    condition_rule :
        (e : Expression) (open' close : Token) (ts : List Token)
        → Is op_paren_open open'
        → SpellsExpression u e ts
        → Is op_paren_close close
        → SpellsCondition e (open' ∷ (ts ++ close ∷ []))

  mutual
    pub data SpellsStatement : Statement → List Token → Type 0 where
      let_rule :
          (i : Identifier) (e : Expression) (k : Token) (ts : List Token)
          → Is kw_let k
          → SpellsAssignment i e ts
          → SpellsStatement (let_statement i e) (k ∷ ts)
      assign_rule :
          (i : Identifier) (e : Expression) (ts : List Token)
          → SpellsAssignment i e ts
          → SpellsStatement (assign_statement i e) ts
      print_rule :
          (e : Expression) (k semi : Token) (ts : List Token)
          → Is kw_print k
          → SpellsCondition e ts
          → Is op_semicolon semi
          → SpellsStatement (print_statement e) (k ∷ (ts ++ semi ∷ []))
      if_rule :
          (c : Expression) (t : Statement) (e : FalseBranch) (k : Token) (cs as' bs : List Token)
          → Is kw_if k
          → SpellsCondition c cs
          → SpellsStatement t as'
          → SpellsBranch e bs
          → SpellsStatement (if_statement c t e) (k ∷ (cs ++ (as' ++ bs)))
      while_rule :
          (c : Expression) (b : Statement) (k : Token) (cs bs : List Token)
          → Is kw_while k
          → SpellsCondition c cs
          → SpellsStatement b bs
          → SpellsStatement (while_statement c b) (k ∷ (cs ++ bs))
      block_rule :
          (ss : Statements) (k : Token) (ts : List Token)
          → Is op_curly_open k
          → SpellsBlock ss ts
          → SpellsStatement (block_statement ss) (k ∷ ts)

    pub data SpellsBranch : FalseBranch → List Token → Type 0 where
      absent_rule : SpellsBranch no_branch []
      else_rule :
          (s : Statement) (k : Token) (ts : List Token)
          → Is kw_else k
          → SpellsStatement s ts
          → SpellsBranch (branch s) (k ∷ ts)

    -- Up to the brace that closes the block.
    pub data SpellsBlock : Statements → List Token → Type 0 where
      close_rule : (c : Token) → Is op_curly_close c → SpellsBlock done (c ∷ [])
      statement_rule :
          (s : Statement) (ss : Statements) (as' bs : List Token)
          → SpellsStatement s as'
          → SpellsBlock ss bs
          → SpellsBlock (then_statement s ss) (as' ++ bs)

  pub data SpellsProgram : Statements → List Token → Type 0 where
    end_rule : SpellsProgram done []
    program_rule :
        (s : Statement) (ss : Statements) (as' bs : List Token)
        → SpellsStatement s as'
        → SpellsProgram ss bs
        → SpellsProgram (then_statement s ss) (as' ++ bs)
