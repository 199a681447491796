-- ===== src/Tiny/Exec/BigStep.antt =====
-- What a statement of ivl/langs/tiny/eval.hpp does, with no fuel: a relation between the states
-- before and after.
use all.Prelude.{◌≡◌, true, false, []}
use all.Prelude.Result.{ok}
use all.Tiny.Syntax.{
  Identifier, Expression, Statement, let_statement, assign_statement, print_statement, if_statement,
  while_statement, block_statement, FalseBranch, no_branch, branch, Statements, done,
  then_statement,
}
use all.Tiny.Eval.{EvalValue, evaluate_expression}
use all.Tiny.Exec.{EvalState, assign, print, condition}

mutual
  pub data Runs : Statement → EvalState → EvalState → Type 0 where
    lets :
        (i : Identifier) (e : Expression) (st : EvalState) (v : EvalValue)
        → evaluate_expression e st.variables ≡ ok v
        → Runs (let_statement i e) st (assign i v st)
    assigns :
        (i : Identifier) (e : Expression) (st : EvalState) (v : EvalValue)
        → evaluate_expression e st.variables ≡ ok v
        → Runs (assign_statement i e) st (assign i v st)
    prints :
        (e : Expression) (st : EvalState) (v : EvalValue)
        → evaluate_expression e st.variables ≡ ok v
        → Runs (print_statement e) st (print v st)
    takes :
        (c : Expression) (t : Statement) (e : FalseBranch) (st st' : EvalState)
        → condition c st ≡ ok true
        → Runs t st st'
        → Runs (if_statement c t e) st st'
    skips :
        (c : Expression) (t : Statement) (e : FalseBranch) (st st' : EvalState)
        → condition c st ≡ ok false
        → RunsBranch e st st'
        → Runs (if_statement c t e) st st'
    stops :
        (c : Expression) (b : Statement) (st : EvalState)
        → condition c st ≡ ok false
        → Runs (while_statement c b) st st
    rounds :
        (c : Expression) (b : Statement) (st st' st'' : EvalState)
        → condition c st ≡ ok true
        → Runs b st st'
        → Runs (while_statement c b) st' st''
        → Runs (while_statement c b) st st''
    blocks :
        (ss : Statements) (st st' : EvalState)
        → RunsAll ss st st'
        → Runs (block_statement ss) st st'

  pub data RunsBranch : FalseBranch → EvalState → EvalState → Type 0 where
    absent : (st : EvalState) → RunsBranch no_branch st st
    present : (s : Statement) (st st' : EvalState) → Runs s st st' → RunsBranch (branch s) st st'

  pub data RunsAll : Statements → EvalState → EvalState → Type 0 where
    finishes : (st : EvalState) → RunsAll done st st
    continues :
        (s : Statement) (ss : Statements) (st st' st'' : EvalState)
        → Runs s st st'
        → RunsAll ss st' st''
        → RunsAll (then_statement s ss) st st''

-- The state in which a program starts.
abbrev pub empty_state : EvalState
empty_state = record { variables = []; printed = [] }
