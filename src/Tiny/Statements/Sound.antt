-- ===== src/Tiny/Statements/Sound.antt =====
-- What `parse_program` returns is spelled by all of its tokens.
use all.Prelude.{
  ℕ, zero, suc, ◌+◌, ◌*◌, ◌≡◌, refl, sym, ap, ◌∙◌, subst, List, [], ◌∷◌, ◌++◌, length,
}
use all.Prelude.Int.{ℤ}
use all.Prelude.Result.{ok, out_of_fuel, ◌>>=◌, >>=-eq-ok, ok-injective}
use all.Tiny.Token.{
  Token, has, kw_let, kw_print, kw_if, kw_else, kw_while, identifier_start, op_paren_open,
  op_paren_close, op_curly_open, op_curly_close, op_semicolon, op_assign,
}
use all.Tiny.Syntax.{
  Identifier, Expression, let_statement, assign_statement, print_statement, if_statement,
  while_statement, block_statement, no_branch, branch, Statements, done, then_statement,
}
use all.Tiny.Parser.{has_top, identifier_loop, parse_identifier}
use all.Tiny.Parser.Grammar.{name_tokens, SpellsExpression}
use all.Tiny.Parser.Spelled.{Spelled, yields, faults, either, after, token, rephrase, glue}
use all.Tiny.Parser.Leaves.{SpellsName, identifier_loop-Spelled}
use all.Tiny.Parser.Sound.{parse_expression-Spelled}
use all.Tiny.Statements.{
  read_expression, parse_assignment, parse_condition, parse_let, parse_assign, parse_print,
  parse_statement, parse_false_branch, parse_block, program_loop, parse_program,
}
use all.Tiny.Statements.Grammar
use all.Tiny.Statements.Grammar.{
  Is, SpellsAssignment, SpellsCondition, SpellsStatement, SpellsBranch, SpellsBlock, SpellsProgram,
}

abbrev SpellsIdentifier : Identifier → List Token → Type 0
SpellsIdentifier i pre = (c : Token) × Is identifier_start c × (pre ≡ c ∷ name_tokens i)

parse_identifier-Spelled : (ts : List Token) → Spelled SpellsIdentifier ts (parse_identifier ts)
unfolding parse_identifier
parse_identifier-Spelled ts = token identifier_start SpellsIdentifier ts ts _ (λ c rest t e.
    rephrase SpellsName SpellsIdentifier rest ts (identifier_loop rest)
      (identifier_loop-Spelled rest)
      (λ i rest' pre p s. (c ∷ pre, e ∙ ap (λ r. c ∷ r) p, (c, t, ap (λ r. c ∷ r) s))))

module _ (u : ℤ) where
  read_expression-Spelled :
      (ts : List Token) → Spelled (SpellsExpression u) ts (read_expression u ts)
  unfolding read_expression
  read_expression-Spelled ts = parse_expression-Spelled u (10 * length ts + 10) ts

  parse_condition-Spelled :
      (ts : List Token) → Spelled (SpellsCondition u) ts (parse_condition u ts)
  unfolding parse_condition
  parse_condition-Spelled ts =
      let S = SpellsCondition u in
      token op_paren_open S ts ts _ (λ open' ts₁ t₁ e₁.
        after (SpellsExpression u) S ts₁ ts (read_expression u ts₁) _ (read_expression-Spelled ts₁)
          (λ e ts₂ pre p s. token op_paren_close S ts₂ ts _ (λ close ts₃ t₃ e₃.
            yields S ts (open' ∷ (pre ++ close ∷ [])) e ts₃
              (e₁ ∙ ap (λ r. open' ∷ r) (glue ts₁ pre ts₂ (close ∷ []) ts₃ p e₃))
              (Grammar.condition_rule e open' close pre t₁ s t₃))))

  abbrev Assigns : Identifier × Expression → List Token → Type 0
  Assigns p pre = SpellsAssignment u p.0 p.1 pre

  parse_assignment-Spelled : (ts : List Token) → Spelled Assigns ts (parse_assignment u ts)
  unfolding parse_assignment
  parse_assignment-Spelled ts =
      after SpellsIdentifier Assigns ts ts (parse_identifier ts) _ (parse_identifier-Spelled ts)
        (λ i ts₁ pre₁ p₁ s₁. token op_assign Assigns ts₁ ts _ (λ eq ts₂ t₂ e₂.
          after (SpellsExpression u) Assigns ts₂ ts (read_expression u ts₂) _
            (read_expression-Spelled ts₂)
            (λ e ts₃ pre p s. token op_semicolon Assigns ts₃ ts _ (λ semi ts₄ t₄ e₄.
              yields Assigns ts (s₁.0 ∷ (name_tokens i ++ eq ∷ (pre ++ semi ∷ []))) (i, e) ts₄
                (glue ts (s₁.0 ∷ name_tokens i) ts₁ (eq ∷ (pre ++ semi ∷ [])) ts₄
                  (p₁ ∙ ap (λ x. x ++ ts₁) s₁.2)
                  (e₂ ∙ ap (λ r. eq ∷ r) (glue ts₂ pre ts₃ (semi ∷ []) ts₄ p e₄)))
                (Grammar.assignment_rule i e s₁.0 eq semi pre s₁.1 t₂ s t₄)))))

  parse_let-Spelled : (ts : List Token) → Spelled (SpellsStatement u) ts (parse_let u ts)
  unfolding parse_let
  parse_let-Spelled ts = token kw_let (SpellsStatement u) ts ts _ (λ k ts₁ t e.
      after Assigns (SpellsStatement u) ts₁ ts (parse_assignment u ts₁) _
        (parse_assignment-Spelled ts₁)
        (λ q rest pre p s.
          yields (SpellsStatement u) ts (k ∷ pre) (let_statement q.0 q.1) rest
            (e ∙ ap (λ r. k ∷ r) p) (Grammar.let_rule q.0 q.1 k pre t s)))

  parse_assign-Spelled : (ts : List Token) → Spelled (SpellsStatement u) ts (parse_assign u ts)
  unfolding parse_assign
  parse_assign-Spelled ts =
      after Assigns (SpellsStatement u) ts ts (parse_assignment u ts) _
        (parse_assignment-Spelled ts)
        (λ q rest pre p s.
          yields (SpellsStatement u) ts pre (assign_statement q.0 q.1) rest p
            (Grammar.assign_rule q.0 q.1 pre s))

  parse_print-Spelled : (ts : List Token) → Spelled (SpellsStatement u) ts (parse_print u ts)
  unfolding parse_print
  parse_print-Spelled ts = token kw_print (SpellsStatement u) ts ts _ (λ k ts₁ t e.
      after (SpellsCondition u) (SpellsStatement u) ts₁ ts (parse_condition u ts₁) _
        (parse_condition-Spelled ts₁)
        (λ c ts₂ pre p s. token op_semicolon (SpellsStatement u) ts₂ ts _ (λ semi ts₃ t₃ e₃.
          yields (SpellsStatement u) ts (k ∷ (pre ++ semi ∷ [])) (print_statement c) ts₃
            (e ∙ ap (λ r. k ∷ r) (glue ts₁ pre ts₂ (semi ∷ []) ts₃ p e₃))
            (Grammar.print_rule c k semi pre t s t₃))))

  -- A statement of a block, and the rest of the block.
  block_step :
      (f : ℕ) (ts : List Token)
      → ((ts' : List Token) → Spelled (SpellsStatement u) ts' (parse_statement u f ts'))
      → ((ts' : List Token) → Spelled (SpellsBlock u) ts' (parse_block u f ts'))
      → Spelled (SpellsBlock u) ts do
        (s, ts₁) ← parse_statement u f ts
        (ss, ts₂) ← parse_block u f ts₁
        ok (then_statement s ss, ts₂)
  block_step f ts ih ih' =
      after (SpellsStatement u) (SpellsBlock u) ts ts (parse_statement u f ts) _ (ih ts)
        (λ s rest a p q.
          after (SpellsBlock u) (SpellsBlock u) rest ts (parse_block u f rest) _ (ih' rest)
            (λ ss rest' b p' q'.
              yields (SpellsBlock u) ts (a ++ b) (then_statement s ss) rest'
                (glue ts a rest b rest' p p') (Grammar.statement_rule s ss a b q q')))

  mutual
    unfolding parse_statement

    parse_statement-Spelled :
        (f : ℕ) (ts : List Token) → Spelled (SpellsStatement u) ts (parse_statement u f ts)
    parse_statement-Spelled zero ts = faults (SpellsStatement u) ts out_of_fuel
    parse_statement-Spelled (suc f) ts =
        let S = SpellsStatement u in
        either S ts (has_top kw_let ts) (λ _. parse_let-Spelled ts)
          (λ _.
            either S ts (has_top kw_while ts)
              (λ _. token kw_while S ts ts _ (λ k ts₁ t e.
                after (SpellsCondition u) S ts₁ ts (parse_condition u ts₁) _
                  (parse_condition-Spelled ts₁)
                  (λ c ts₂ cs p s.
                    after S S ts₂ ts (parse_statement u f ts₂) _ (parse_statement-Spelled f ts₂)
                      (λ b ts₃ bs p' s'.
                        yields S ts (k ∷ (cs ++ bs)) (while_statement c b) ts₃
                          (e ∙ ap (λ r. k ∷ r) (glue ts₁ cs ts₂ bs ts₃ p p'))
                          (Grammar.while_rule c b k cs bs t s s')))))
              (λ _.
                either S ts (has_top kw_if ts)
                  (λ _. token kw_if S ts ts _ (λ k ts₁ t e.
                    after (SpellsCondition u) S ts₁ ts (parse_condition u ts₁) _
                      (parse_condition-Spelled ts₁)
                      (λ c ts₂ cs p s.
                        after S S ts₂ ts (parse_statement u f ts₂) _ (parse_statement-Spelled f ts₂)
                          (λ tb ts₃ as' p' s'.
                            after (SpellsBranch u) S ts₃ ts (parse_false_branch u f ts₃) _
                              (parse_false_branch-Spelled f ts₃)
                              (λ fb ts₄ bs p'' s''.
                                yields S ts (k ∷ (cs ++ (as' ++ bs))) (if_statement c tb fb) ts₄
                                  (e
                                    ∙ ap (λ r. k ∷ r)
                                        (glue ts₁ cs ts₂ (as' ++ bs) ts₄ p
                                          (glue ts₂ as' ts₃ bs ts₄ p' p'')))
                                  (Grammar.if_rule c tb fb k cs as' bs t s s' s''))))))
                  (λ _.
                    either S ts (has_top op_curly_open ts)
                      (λ _. token op_curly_open S ts ts _ (λ k ts₁ t e.
                        after (SpellsBlock u) S ts₁ ts (parse_block u f ts₁) _
                          (parse_block-Spelled f ts₁)
                          (λ ss ts₂ pre p s.
                            yields S ts (k ∷ pre) (block_statement ss) ts₂ (e ∙ ap (λ r. k ∷ r) p)
                              (Grammar.block_rule ss k pre t s))))
                      (λ _.
                        either S ts (has_top kw_print ts) (λ _. parse_print-Spelled ts)
                          (λ _. parse_assign-Spelled ts)))))

    parse_false_branch-Spelled :
        (f : ℕ) (ts : List Token) → Spelled (SpellsBranch u) ts (parse_false_branch u f ts)
    parse_false_branch-Spelled zero ts = faults (SpellsBranch u) ts out_of_fuel
    parse_false_branch-Spelled (suc f) [] =
        yields (SpellsBranch u) [] [] no_branch [] refl Grammar.absent_rule
    parse_false_branch-Spelled (suc f) (t ∷ ts) =
        either (SpellsBranch u) (t ∷ ts) (has kw_else t)
          (λ e.
            after (SpellsStatement u) (SpellsBranch u) ts (t ∷ ts) (parse_statement u f ts) _
              (parse_statement-Spelled f ts)
              (λ s rest pre p q.
                yields (SpellsBranch u) (t ∷ ts) (t ∷ pre) (branch s) rest (ap (λ r. t ∷ r) p)
                  (Grammar.else_rule s t pre e q)))
          (λ _. yields (SpellsBranch u) (t ∷ ts) [] no_branch (t ∷ ts) refl Grammar.absent_rule)

    parse_block-Spelled :
        (f : ℕ) (ts : List Token) → Spelled (SpellsBlock u) ts (parse_block u f ts)
    parse_block-Spelled zero ts = faults (SpellsBlock u) ts out_of_fuel
    parse_block-Spelled (suc f) [] =
        block_step f [] (parse_statement-Spelled f) (parse_block-Spelled f)
    parse_block-Spelled (suc f) (t ∷ ts) =
        either (SpellsBlock u) (t ∷ ts) (has op_curly_close t)
          (λ e. yields (SpellsBlock u) (t ∷ ts) (t ∷ []) done ts refl (Grammar.close_rule t e))
          (λ _. block_step f (t ∷ ts) (parse_statement-Spelled f) (parse_block-Spelled f))

  program_loop-SpellsProgram :
      (f : ℕ) (ts : List Token) (program : Statements)
      → program_loop u f ts ≡ ok program
      → SpellsProgram u program ts
  unfolding program_loop
  program_loop-SpellsProgram zero ts program h = cc
  program_loop-SpellsProgram (suc f) [] program h =
      subst (λ p. SpellsProgram u p []) (ok-injective h) Grammar.end_rule
  program_loop-SpellsProgram (suc f) (t ∷ ts) program h =
      let ((s, rest), p, q) = >>=-eq-ok (parse_statement u f (t ∷ ts)) _ h in
      let (ss, p', q') = >>=-eq-ok (program_loop u f rest) _ q in
      let (pre, split, spells) = (parse_statement-Spelled f (t ∷ ts)).taken s rest p in
      let rule =
        Grammar.program_rule s ss pre rest spells (program_loop-SpellsProgram f rest ss p') in
      subst (λ x. SpellsProgram u x (t ∷ ts)) (ok-injective q')
        (subst (SpellsProgram u (then_statement s ss)) (sym split) rule)

  -- A program that `parse_program` returns is a program of the grammar, and all the tokens together
  -- spell it.
  pub parse_program_sound :
      (ts : List Token) (program : Statements)
      → parse_program u ts ≡ ok program
      → SpellsProgram u program ts
  unfolding parse_program
  parse_program_sound ts program h = program_loop-SpellsProgram (2 * length ts + 2) ts program h
