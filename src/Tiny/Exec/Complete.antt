-- ===== src/Tiny/Exec/Complete.antt =====
-- What the relation says is computed, with enough fuel.
use all.Prelude.{ℕ, zero, suc, ◌≤◌, ◌≡◌, refl, sym, ◌∙◌, arith, ◌↔◌, max}
use all.Prelude.Result.{Result, ok, ok-injective}
use all.Tiny.Syntax.{
  Statement, let_statement, assign_statement, print_statement, if_statement, while_statement,
  block_statement, FalseBranch, no_branch, branch, Statements, done, then_statement,
}
use all.Tiny.Exec.{EvalState, assign, print, execute, execute_branch, execute_all, execute_program}
use all.Tiny.Exec.BigStep.{
  Runs, lets, assigns, prints, takes, skips, stops, rounds, blocks, RunsBranch, absent, present,
  RunsAll, finishes, continues, empty_state,
}
use all.Tiny.Exec.Sound.{execute_all-RunsAll}

-- From some fuel on, the run has this result.
abbrev Eventually : (ℕ → Result EvalState) → EvalState → Type 0
Eventually run st' = (f : ℕ) × ((g : ℕ) → f ≤ g → run g ≡ ok st')

-- One unit of fuel more, for the call itself.
after_call :
    (run inner : ℕ → Result EvalState) (st' : EvalState)
    → ((g : ℕ) → inner g ≡ ok st' → run (suc g) ≡ ok st')
    → Eventually inner st'
    → Eventually run st'
after_call run inner st' step (f, h) =
    (suc f, elim [ zero ↦ λ k. absurd (omega arith) | suc g ↦ λ k. step g (h g (omega arith)) ])

two_calls :
    (run first : ℕ → Result EvalState) (second : ℕ → EvalState → Result EvalState)
    (st₁ st' : EvalState)
    → ((g : ℕ) → first g ≡ ok st₁ → second g st₁ ≡ ok st' → run (suc g) ≡ ok st')
    → Eventually first st₁
    → Eventually (λ g. second g st₁) st'
    → Eventually run st'
two_calls run first second st₁ st' step (f, h) (f', h') = (
  suc (max f f'),
  elim [
    | zero ↦ λ k. absurd (omega arith)
    | suc g ↦ λ k. step g (h g (omega arith)) (h' g (omega arith))
  ],
)

at_once :
    (run : ℕ → Result EvalState) (st' : EvalState)
    → ((g : ℕ) → run (suc g) ≡ ok st')
    → Eventually run st'
at_once run st' h = (1, elim [ zero ↦ λ k. absurd (omega arith) | suc g ↦ λ k. h g ])

mutual
  unfolding execute

  Runs-execute :
      {s : Statement} {st st' : EvalState} → Runs s st st' → Eventually (λ f. execute f s st) st'
  Runs-execute (lets i e st v p) =
      at_once (λ f. execute f (let_statement i e) st) (assign i v st) (λ g. rw p)
  Runs-execute (assigns i e st v p) =
      at_once (λ f. execute f (assign_statement i e) st) (assign i v st) (λ g. rw p)
  Runs-execute (prints e st v p) =
      at_once (λ f. execute f (print_statement e) st) (print v st) (λ g. rw p)
  Runs-execute (takes c t e st st' p r) =
      after_call (λ f. execute f (if_statement c t e) st) (λ f. execute f t st) st' (λ g q. rw p q)
        (Runs-execute r)
  Runs-execute (skips c t e st st' p r) =
      after_call (λ f. execute f (if_statement c t e) st) (λ f. execute_branch f e st) st'
        (λ g q. rw p q) (RunsBranch-execute r)
  Runs-execute (stops c b st p) = at_once (λ f. execute f (while_statement c b) st) st (λ g. rw p)
  Runs-execute (rounds c b st st₁ st' p r r') =
      two_calls (λ f. execute f (while_statement c b) st) (λ f. execute f b st)
        (λ f. execute f (while_statement c b)) st₁ st' (λ g q q'. rw (p, q) q') (Runs-execute r)
        (Runs-execute r')
  Runs-execute (blocks ss st st' r) =
      after_call (λ f. execute f (block_statement ss) st) (λ f. execute_all f ss st) st' (λ g q. q)
        (RunsAll-execute r)

  RunsBranch-execute :
      {e : FalseBranch} {st st' : EvalState}
      → RunsBranch e st st'
      → Eventually (λ f. execute_branch f e st) st'
  RunsBranch-execute (absent st) = at_once (λ f. execute_branch f no_branch st) st (λ g. refl)
  RunsBranch-execute (present s st st' r) =
      after_call (λ f. execute_branch f (branch s) st) (λ f. execute f s st) st' (λ g q. q)
        (Runs-execute r)

  pub RunsAll-execute :
      {ss : Statements} {st st' : EvalState}
      → RunsAll ss st st'
      → Eventually (λ f. execute_all f ss st) st'
  RunsAll-execute (finishes st) = at_once (λ f. execute_all f done st) st (λ g. refl)
  RunsAll-execute (continues s ss st st₁ st' r r') =
      two_calls (λ f. execute_all f (then_statement s ss) st) (λ f. execute f s st)
        (λ f. execute_all f ss) st₁ st' (λ g q q'. rw q q') (Runs-execute r) (RunsAll-execute r')

-- A program that is run from the empty state ends in a state, for some fuel, exactly if the relation
-- leads there.
pub execute_program-iff-RunsAll :
    (ss : Statements) (st' : EvalState)
    → ((f : ℕ) × (execute_program f ss ≡ ok st')) ↔ RunsAll ss empty_state st'
unfolding execute_program
execute_program-iff-RunsAll ss st' = (
  λ (f, h). execute_all-RunsAll f ss empty_state st' h,
  λ r. let (f, h) = RunsAll-execute r in (f, h f (omega arith)),
)

-- The relation is deterministic: a program ends in one state at most.
pub RunsAll-unique :
    (ss : Statements) (st a b : EvalState) → RunsAll ss st a → RunsAll ss st b → a ≡ b
RunsAll-unique ss st a b r r' =
    let (f, h) = RunsAll-execute r in
    let (f', h') = RunsAll-execute r' in
    ok-injective (sym (h (max f f') (omega arith)) ∙ h' (max f f') (omega arith))

-- Once a program has ended in a state with some fuel, every fuel from some point on gives that
-- state, and no fuel another one.
pub execute_program_fuel :
    (f : ℕ) (ss : Statements) (st' : EvalState)
    → execute_program f ss ≡ ok st'
    → ((k : ℕ) × ((g : ℕ) → k ≤ g → execute_program g ss ≡ ok st'))
      × ((g : ℕ) (other : EvalState) → execute_program g ss ≡ ok other → other ≡ st')
unfolding execute_program
execute_program_fuel f ss st' h =
    let r = execute_all-RunsAll f ss empty_state st' h in
    (
      RunsAll-execute r,
      λ g other e.
          RunsAll-unique ss empty_state other st' (execute_all-RunsAll g ss empty_state other e) r,
    )
