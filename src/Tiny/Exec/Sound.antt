-- ===== src/Tiny/Exec/Sound.antt =====
-- What the fuelled interpreter computes is in the relation.
use all.Prelude.{ℕ, zero, suc, ◌≡◌, refl, Bool, true, false, subst, ◌⊎◌, inl, inr}
use all.Prelude.Result.{Result, ok, failed, ◌>>=◌, >>=-eq-ok, ok-injective}
use all.Tiny.Syntax.{
  Statement, let_statement, assign_statement, print_statement, if_statement, while_statement,
  block_statement, FalseBranch, no_branch, branch, Statements, done, then_statement,
}
use all.Tiny.Eval.{EvalValue, evaluate_expression}
use all.Tiny.Exec.{EvalState, assign, print, condition, execute, execute_branch, execute_all}
use all.Tiny.Exec.BigStep.{
  Runs, lets, assigns, prints, takes, skips, stops, rounds, blocks, RunsBranch, absent, present,
  RunsAll, finishes, continues,
}

-- A condition with a value chooses one of the continuations.
branches :
    (r : Result Bool) (x y : Result EvalState) {st' : EvalState}
    → (r >>= elim [ true ↦ x | false ↦ y ]) ≡ ok st'
    → ((r ≡ ok true) × (x ≡ ok st')) ⊎ ((r ≡ ok false) × (y ≡ ok st'))
branches (ok true) x y h = inl (refl, h)
branches (ok false) x y h = inr (refl, h)
branches (failed e) x y h = cc

value_then :
    (r : Result EvalValue) (k : EvalValue → EvalState) {st' : EvalState}
    → (r >>= λ v. ok (k v)) ≡ ok st'
    → (v : EvalValue) × (r ≡ ok v) × (k v ≡ st')
value_then r k h = let (v, e, q) = >>=-eq-ok r (λ v. ok (k v)) h in (v, e, ok-injective q)

mutual
  unfolding execute

  execute-Runs :
      (f : ℕ) (s : Statement) (st st' : EvalState) → execute f s st ≡ ok st' → Runs s st st'
  execute-Runs zero s st st' h = cc
  execute-Runs (suc f) (let_statement i e) st st' h =
      let (v, p, q) = value_then (evaluate_expression e st.variables) (λ v. assign i v st) h in
      subst (Runs (let_statement i e) st) q (lets i e st v p)
  execute-Runs (suc f) (assign_statement i e) st st' h =
      let (v, p, q) = value_then (evaluate_expression e st.variables) (λ v. assign i v st) h in
      subst (Runs (assign_statement i e) st) q (assigns i e st v p)
  execute-Runs (suc f) (print_statement e) st st' h =
      let (v, p, q) = value_then (evaluate_expression e st.variables) (λ v. print v st) h in
      subst (Runs (print_statement e) st) q (prints e st v p)
  execute-Runs (suc f) (if_statement c t e) st st' h =
      elim (branches (condition c st) (execute f t st) (execute_branch f e st) h) [
        | inl (p, q) ↦ takes c t e st st' p (execute-Runs f t st st' q)
        | inr (p, q) ↦ skips c t e st st' p (execute_branch-Runs f e st st' q)
      ]
  execute-Runs (suc f) (while_statement c b) st st' h =
      elim (branches (condition c st) (execute f b st >>= execute f (while_statement c b)) (ok st)
        h) [
          | inl (p, q) ↦
              let (st₁, q₁, q₂) = >>=-eq-ok (execute f b st) (execute f (while_statement c b)) q in
              rounds c b st st₁ st' p (execute-Runs f b st st₁ q₁)
                (execute-Runs f (while_statement c b) st₁ st' q₂)
          | inr (p, q) ↦ subst (Runs (while_statement c b) st) (ok-injective q) (stops c b st p)
        ]
  execute-Runs (suc f) (block_statement ss) st st' h =
      blocks ss st st' (execute_all-RunsAll f ss st st' h)

  execute_branch-Runs :
      (f : ℕ) (e : FalseBranch) (st st' : EvalState)
      → execute_branch f e st ≡ ok st'
      → RunsBranch e st st'
  execute_branch-Runs zero e st st' h = cc
  execute_branch-Runs (suc f) no_branch st st' h =
      subst (RunsBranch no_branch st) (ok-injective h) (absent st)
  execute_branch-Runs (suc f) (branch s) st st' h = present s st st' (execute-Runs f s st st' h)

  pub execute_all-RunsAll :
      (f : ℕ) (ss : Statements) (st st' : EvalState)
      → execute_all f ss st ≡ ok st'
      → RunsAll ss st st'
  execute_all-RunsAll zero ss st st' h = cc
  execute_all-RunsAll (suc f) done st st' h = subst (RunsAll done st) (ok-injective h) (finishes st)
  execute_all-RunsAll (suc f) (then_statement s ss) st st' h =
      let (st₁, q₁, q₂) = >>=-eq-ok (execute f s st) (execute_all f ss) h in
      continues s ss st st₁ st' (execute-Runs f s st st₁ q₁) (execute_all-RunsAll f ss st₁ st' q₂)
