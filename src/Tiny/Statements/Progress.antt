-- ===== src/Tiny/Statements/Progress.antt =====
-- `parse_program` never runs out of fuel.
use all.Prelude.{
  ℕ, zero, suc, ◌+◌, ◌*◌, ◌≤◌, ◌≡◌, ◌≢◌, refl, List, [], ◌∷◌, length, arith, ◌⊎◌, inl, inr,
}
use all.Prelude.Int.{ℤ}
use all.Prelude.Result.{Result, Fault, ok, failed, assertion, out_of_fuel}
use all.Tiny.Token.{
  Token, has, kw_let, kw_print, kw_if, kw_else, kw_while, op_paren_open, op_paren_close,
  op_curly_open, op_curly_close, op_semicolon, op_assign,
}
use all.Tiny.Syntax.{
  let_statement, assign_statement, print_statement, if_statement, while_statement, block_statement,
  no_branch, branch, Statements, done, then_statement,
}
use all.Tiny.Parser.{expect, parse_identifier}
use all.Tiny.Statements.{
  read_expression, parse_assignment, parse_condition, parse_let, parse_assign, parse_print,
  parse_statement, parse_false_branch, parse_block, program_loop, parse_program,
}
use all.Tiny.Progress.{Within, reads, fails, chain, choose, expect-Within, parse_identifier-Within}
use all.Tiny.Parser.Progress.{parse_expression-Within}

module _ (u : ℤ) where
  read_expression-Within :
      (n : ℕ) (ts : List Token) → length ts ≤ suc n → Within n (read_expression u ts)
  unfolding read_expression
  read_expression-Within n ts h =
      parse_expression-Within u (10 * length ts + 10) n ts h (omega arith)

  parse_assignment-Within :
      (n : ℕ) (ts : List Token) → length ts ≤ suc n → Within n (parse_assignment u ts)
  unfolding parse_assignment
  parse_assignment-Within n ts h =
      chain (parse_identifier ts) _ (parse_identifier-Within n ts h) (λ i ts₁ l₁.
        chain (expect op_assign ts₁) _ (expect-Within op_assign n ts₁ (omega arith)) (λ _ ts₂ l₂.
          chain (read_expression u ts₂) _ (read_expression-Within n ts₂ (omega arith)) (λ e ts₃ l₃.
            chain (expect op_semicolon ts₃) _ (expect-Within op_semicolon n ts₃ (omega arith))
              (λ _ ts₄ l₄. reads n (i, e) ts₄ l₄))))

  parse_condition-Within :
      (n : ℕ) (ts : List Token) → length ts ≤ suc n → Within n (parse_condition u ts)
  unfolding parse_condition
  parse_condition-Within n ts h =
      chain (expect op_paren_open ts) _ (expect-Within op_paren_open n ts h) (λ _ ts₁ l₁.
        chain (read_expression u ts₁) _ (read_expression-Within n ts₁ (omega arith)) (λ e ts₂ l₂.
          chain (expect op_paren_close ts₂) _ (expect-Within op_paren_close n ts₂ (omega arith))
            (λ _ ts₃ l₃. reads n e ts₃ l₃)))

  parse_let-Within : (n : ℕ) (ts : List Token) → length ts ≤ suc n → Within n (parse_let u ts)
  unfolding parse_let
  parse_let-Within n ts h = chain (expect kw_let ts) _ (expect-Within kw_let n ts h) (λ _ ts₁ l₁.
      chain (parse_assignment u ts₁) _ (parse_assignment-Within n ts₁ (omega arith))
        (λ p ts₂ l₂. reads n (let_statement p.0 p.1) ts₂ l₂))

  parse_assign-Within : (n : ℕ) (ts : List Token) → length ts ≤ suc n → Within n (parse_assign u ts)
  unfolding parse_assign
  parse_assign-Within n ts h =
      chain (parse_assignment u ts) _ (parse_assignment-Within n ts h)
        (λ p ts₁ l₁. reads n (assign_statement p.0 p.1) ts₁ l₁)

  parse_print-Within : (n : ℕ) (ts : List Token) → length ts ≤ suc n → Within n (parse_print u ts)
  unfolding parse_print
  parse_print-Within n ts h =
      chain (expect kw_print ts) _ (expect-Within kw_print n ts h) (λ _ ts₁ l₁.
        chain (parse_condition u ts₁) _ (parse_condition-Within n ts₁ (omega arith)) (λ e ts₂ l₂.
          chain (expect op_semicolon ts₂) _ (expect-Within op_semicolon n ts₂ (omega arith))
            (λ _ ts₃ l₃. reads n (print_statement e) ts₃ l₃)))

  -- Two units of fuel for each token: for a statement, and for the place where it stands.
  mutual
    unfolding parse_statement

    parse_statement-Within :
        (f n : ℕ) (ts : List Token)
        → length ts ≤ suc n
        → 2 * length ts + 1 ≤ f
        → Within n (parse_statement u f ts)
    parse_statement-Within zero n ts h k = absurd (omega arith)
    parse_statement-Within (suc f) n [] h k = parse_assign-Within n [] h
    parse_statement-Within (suc f) n (t ∷ ts) h k =
        let m = length ts in
        choose (has kw_let t) (parse_let-Within n (t ∷ ts) h) (
          choose (has kw_while t)
            (chain (expect kw_while (t ∷ ts)) _ (expect-Within kw_while m (t ∷ ts) (omega arith))
              (λ _ ts₁ l₁.
                chain (parse_condition u ts₁) _ (parse_condition-Within m ts₁ (omega arith))
                  (λ c ts₂ l₂.
                    chain (parse_statement u f ts₂) _
                      (parse_statement-Within f n ts₂ (omega arith) (omega arith))
                      (λ b ts₃ l₃. reads n (while_statement c b) ts₃ l₃))))
            (choose (has kw_if t)
              (chain (expect kw_if (t ∷ ts)) _ (expect-Within kw_if m (t ∷ ts) (omega arith))
                (λ _ ts₁ l₁.
                  chain (parse_condition u ts₁) _ (parse_condition-Within m ts₁ (omega arith))
                    (λ c ts₂ l₂.
                      chain (parse_statement u f ts₂) _
                        (parse_statement-Within f m ts₂ (omega arith) (omega arith))
                        (λ tb ts₃ l₃.
                          chain (parse_false_branch u f ts₃) _
                            (parse_false_branch-Within f n ts₃ (omega arith) (omega arith))
                            (λ fb ts₄ l₄. reads n (if_statement c tb fb) ts₄ l₄)))))
              (choose (has op_curly_open t)
                (chain (expect op_curly_open (t ∷ ts)) _
                  (expect-Within op_curly_open m (t ∷ ts) (omega arith))
                  (λ _ ts₁ l₁.
                    chain (parse_block u f ts₁) _
                      (parse_block-Within f n ts₁ (omega arith) (omega arith))
                      (λ ss ts₂ l₂. reads n (block_statement ss) ts₂ l₂)))
                (choose (has kw_print t) (parse_print-Within n (t ∷ ts) h)
                  (parse_assign-Within n (t ∷ ts) h)))))

    parse_false_branch-Within :
        (f n : ℕ) (ts : List Token)
        → length ts ≤ n
        → 2 * length ts + 1 ≤ f
        → Within n (parse_false_branch u f ts)
    parse_false_branch-Within zero n ts h k = absurd (omega arith)
    parse_false_branch-Within (suc f) n [] h k = reads n no_branch [] h
    parse_false_branch-Within (suc f) n (t ∷ ts) h k =
        choose (has kw_else t)
          (chain (parse_statement u f ts) _
            (parse_statement-Within f n ts (omega arith) (omega arith))
            (λ s ts₁ l₁. reads n (branch s) ts₁ l₁))
          (reads n no_branch (t ∷ ts) h)

    parse_block-Within :
        (f n : ℕ) (ts : List Token)
        → length ts ≤ suc n
        → 2 * length ts + 2 ≤ f
        → Within n (parse_block u f ts)
    parse_block-Within zero n ts h k = absurd (omega arith)
    parse_block-Within (suc zero) n ts h k = absurd (omega arith)
    parse_block-Within (suc (suc f)) n [] h k = fails n assertion (λ e. cc)
    parse_block-Within (suc (suc f)) n (t ∷ ts) h k =
        choose (has op_curly_close t) (reads n done ts (omega arith)) (
          chain (parse_statement u (suc f) (t ∷ ts)) _
            (parse_statement-Within (suc f) (length ts) (t ∷ ts) (omega arith) (omega arith))
            (λ s ts₁ l₁.
              chain (parse_block u (suc f) ts₁) _
                (parse_block-Within (suc f) n ts₁ (omega arith) (omega arith))
                (λ ss ts₂ l₂. reads n (then_statement s ss) ts₂ l₂)))

  -- A program, or a fault of the program.
  abbrev pub Settles : Result Statements → Type 0
  Settles r =
      ((program : Statements) × (r ≡ ok program))
      ⊎ ((e : Fault) × (r ≡ failed e) × (e ≢ out_of_fuel))

  program_loop-Settles :
      (f : ℕ) (ts : List Token) → 2 * length ts + 2 ≤ f → Settles (program_loop u f ts)
  unfolding program_loop
  program_loop-Settles zero ts k = absurd (omega arith)
  program_loop-Settles (suc f) [] k = inl (done, refl)
  program_loop-Settles (suc f) (t ∷ ts) k =
      elim (parse_statement-Within f (length ts) (t ∷ ts) (omega arith) (omega arith)).cases [
        | inr (e, q, d) ↦ rw q (inr (e, refl, d))
        | inl ((s, rest), q, l) ↦ elim (program_loop-Settles f rest (omega arith)) [
          | inr (e, q', d) ↦ rw (q, q') (inr (e, refl, d))
          | inl (ss, q') ↦ rw (q, q') (inl (then_statement s ss, refl))
        ]
      ]

  -- For any tokens `parse_program` ends within its fuel: it gives a program, or a failed assertion,
  -- an exception or undefined behaviour of the source.
  pub parse_program-Settles : (ts : List Token) → Settles (parse_program u ts)
  unfolding parse_program
  parse_program-Settles ts = program_loop-Settles (2 * length ts + 2) ts (omega arith)
