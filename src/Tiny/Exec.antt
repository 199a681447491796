-- ===== src/Tiny/Exec.antt =====
-- Statements, by ivl/langs/tiny/eval.hpp, with the values that were printed. A program need not
-- stop, so a statement runs on fuel; each call and each round of a loop spends one unit.
pub mod BigStep
pub mod Sound
pub mod Complete
use all.Prelude.{ℕ, zero, suc, Bool, true, false, List, [], ◌∷◌, ◌++◌}
use all.Prelude.Result.{Result, ok, failed, assertion, out_of_fuel, ◌>>=◌}
use all.Tiny.Syntax.{
  Identifier, Expression, Statement, let_statement, assign_statement, print_statement, if_statement,
  while_statement, block_statement, FalseBranch, no_branch, branch, Statements, done,
  then_statement,
}
use all.Tiny.Eval.{EvalValue, int64, boolean, Variables, evaluate_expression, insert_or_assign}

pub record EvalState : Type 0 where
  pub variables : Variables
  pub printed : List EvalValue

abbrev pub assign : Identifier → EvalValue → EvalState → EvalState
assign name value st = record st { variables = insert_or_assign name value st.variables }

abbrev pub print : EvalValue → EvalState → EvalState
print value st = record st { printed = st.printed ++ value ∷ [] }

-- `assert(std::holds_alternative<bool>(cond.kind))`
abbrev pub held_bool : EvalValue → Result Bool
held_bool (int64 n) = failed assertion
held_bool (boolean b) = ok b

unfoldable pub condition : Expression → EvalState → Result Bool
unfolding evaluate_expression
condition e st = evaluate_expression e st.variables >>= held_bool

unfoldable mutual
  unfolding condition evaluate_expression insert_or_assign

  pub execute : ℕ → Statement → EvalState → Result EvalState
  execute zero s st = failed out_of_fuel
  execute (suc f) (let_statement i e) st =
      evaluate_expression e st.variables >>= λ v. ok (assign i v st)
  execute (suc f) (assign_statement i e) st =
      evaluate_expression e st.variables >>= λ v. ok (assign i v st)
  execute (suc f) (print_statement e) st =
      evaluate_expression e st.variables >>= λ v. ok (print v st)
  execute (suc f) (if_statement c t e) st =
      let taken = execute f t st in
      let other = execute_branch f e st in condition c st >>= elim [ true ↦ taken | false ↦ other ]
  execute (suc f) (while_statement c b) st =
      let round = execute f b st >>= execute f (while_statement c b) in
      condition c st >>= elim [ true ↦ round | false ↦ ok st ]
  execute (suc f) (block_statement ss) st = execute_all f ss st

  pub execute_branch : ℕ → FalseBranch → EvalState → Result EvalState
  execute_branch zero e st = failed out_of_fuel
  execute_branch (suc f) no_branch st = ok st
  execute_branch (suc f) (branch s) st = execute f s st

  pub execute_all : ℕ → Statements → EvalState → Result EvalState
  execute_all zero ss st = failed out_of_fuel
  execute_all (suc f) done st = ok st
  execute_all (suc f) (then_statement s ss) st = execute f s st >>= execute_all f ss

-- `evaluate(const Program&)`, from an empty state.
unfoldable pub execute_program : ℕ → Statements → Result EvalState
unfolding execute_all
execute_program f ss = execute_all f ss (record { variables = []; printed = [] })
