-- ===== src/Tiny/Statements.antt =====
-- The statements of ivl/langs/tiny/parse.hpp, and `parse_program`.
pub mod Progress
pub mod Grammar
pub mod Sound
use all.Prelude.{ℕ, zero, suc, ◌+◌, ◌*◌, List, [], ◌∷◌, length, if◌then◌else◌}
use all.Prelude.Int.{ℤ}
use all.Prelude.Result.{Result, ok, failed, out_of_fuel, ◌>>=◌}
use all.Tiny.Token.{
  Token, has, kw_let, kw_print, kw_if, kw_else, kw_while, op_paren_open, op_paren_close,
  op_curly_open, op_curly_close, op_semicolon, op_assign,
}
use all.Tiny.Syntax.{
  Identifier, Expression, Statement, let_statement, assign_statement, print_statement, if_statement,
  while_statement, block_statement, FalseBranch, no_branch, branch, Statements, done,
  then_statement,
}
use all.Tiny.Parser.{Parser, has_top, expect, parse_identifier, parse_expression}

module _ (uninitialized : ℤ) where
  -- The fuel for an expression is taken from the length of what is left.
  unfoldable pub read_expression : Parser Expression
  unfolding parse_expression
  read_expression ts = parse_expression uninitialized (10 * length ts + 10) ts

  -- `identifier = expression ;`, the common end of two statements.
  unfoldable pub parse_assignment : Parser (Identifier × Expression)
  unfolding parse_identifier expect read_expression
  parse_assignment ts = do
    (i, ts₁) ← parse_identifier ts
    (_, ts₂) ← expect op_assign ts₁
    (e, ts₃) ← read_expression ts₂
    (_, ts₄) ← expect op_semicolon ts₃
    ok ((i, e), ts₄)

  -- `( expression )`
  unfoldable pub parse_condition : Parser Expression
  unfolding expect read_expression
  parse_condition ts = do
    (_, ts₁) ← expect op_paren_open ts
    (e, ts₂) ← read_expression ts₁
    (_, ts₃) ← expect op_paren_close ts₂
    ok (e, ts₃)

  unfoldable pub parse_let : Parser Statement
  unfolding expect parse_assignment
  parse_let ts = do
    (_, ts₁) ← expect kw_let ts
    ((i, e), ts₂) ← parse_assignment ts₁
    ok (let_statement i e, ts₂)

  unfoldable pub parse_assign : Parser Statement
  unfolding parse_assignment
  parse_assign ts = do ((i, e), ts₁) ← parse_assignment ts; ok (assign_statement i e, ts₁)

  unfoldable pub parse_print : Parser Statement
  unfolding expect parse_condition
  parse_print ts = do
    (_, ts₁) ← expect kw_print ts
    (e, ts₂) ← parse_condition ts₁
    (_, ts₃) ← expect op_semicolon ts₂
    ok (print_statement e, ts₃)

  unfoldable mutual
    unfolding has_top expect parse_let parse_assign parse_print parse_condition

    pub parse_statement : ℕ → Parser Statement
    parse_statement zero ts = failed out_of_fuel
    parse_statement (suc f) ts =
        let for_while = do
          (_, ts₁) ← expect kw_while ts
          (e, ts₂) ← parse_condition ts₁
          (b, ts₃) ← parse_statement f ts₂
          ok (while_statement e b, ts₃)
        in let for_if = do
          (_, ts₁) ← expect kw_if ts
          (e, ts₂) ← parse_condition ts₁
          (tb, ts₃) ← parse_statement f ts₂
          (fb, ts₄) ← parse_false_branch f ts₃
          ok (if_statement e tb fb, ts₄)
          in let for_block = do
            (_, ts₁) ← expect op_curly_open ts
            (ss, ts₂) ← parse_block f ts₁
            ok (block_statement ss, ts₂)
            in if has_top kw_let ts
              then parse_let ts
              else if has_top kw_while ts
              then for_while
              else if has_top kw_if ts
              then for_if
              else if has_top op_curly_open ts
              then for_block
              else if has_top kw_print ts
              then parse_print ts
              else parse_assign ts

    -- `if (consume_if<kw_else>()) ...`
    pub parse_false_branch : ℕ → Parser FalseBranch
    parse_false_branch zero ts = failed out_of_fuel
    parse_false_branch (suc f) [] = ok (no_branch, [])
    parse_false_branch (suc f) (t ∷ ts) =
        let taken = parse_statement f ts >>= λ (s, ts₁). ok (branch s, ts₁) in
        if has kw_else t then taken else ok (no_branch, t ∷ ts)

    -- The loop of `parse<BlockStatement>`, up to `op_curly_close`.
    pub parse_block : ℕ → Parser Statements
    parse_block zero ts = failed out_of_fuel
    parse_block (suc f) [] = do
      (s, ts₁) ← parse_statement f []
      (ss, ts₂) ← parse_block f ts₁
      ok (then_statement s ss, ts₂)
    parse_block (suc f) (t ∷ ts) =
        let next = do
          (s, ts₁) ← parse_statement f (t ∷ ts)
          (ss, ts₂) ← parse_block f ts₁
          ok (then_statement s ss, ts₂)
        in if has op_curly_close t then ok (done, ts) else next

  -- The loop of `parse_program`, up to the end of the tokens.
  unfoldable pub program_loop : ℕ → List Token → Result Statements
  unfolding parse_statement
  program_loop zero ts = failed out_of_fuel
  program_loop (suc f) [] = ok done
  program_loop (suc f) (t ∷ ts) =
      let next = do
        (s, rest) ← parse_statement f (t ∷ ts)
        ss ← program_loop f rest
        ok (then_statement s ss)
      in next

  unfoldable pub parse_program : List Token → Result Statements
  unfolding program_loop
  parse_program ts = program_loop (2 * length ts + 2) ts
