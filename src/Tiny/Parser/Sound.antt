-- ===== src/Tiny/Parser/Sound.antt =====
-- What the expression parser returns is spelled by the tokens that it takes.
use all.Prelude.{ℕ, zero, suc, ◌≡◌, refl, sym, ap, ◌∙◌, subst, List, [], ◌∷◌, ◌++◌}
use all.Prelude.Int.{ℤ}
use all.Prelude.Result.{ok, assertion, ◌>>=◌}
use all.Tiny.Token.{
  Token, has, op_and, op_or, op_paren_open, op_paren_close, number_start, identifier_start, kw_true,
  kw_false,
}
use all.Tiny.Syntax.{
  identifier, number, true_literal, false_literal, paren, unary, factor, factor_end, factor_more,
  term, term_end, term_more, comparison, comparison_end, comparison_more, equals, equals_end,
  equals_more, and_all, and_end, and_more, or_all, or_end, or_more, Expression, expression,
}
use all.Tiny.Parser.{
  has_any, expect, factor_ops, term_ops, comparison_ops, equals_ops, identifier_loop, number_loop,
  operators_loop, parse_primary, parse_unary, parse_factor, parse_factor_rest, parse_term,
  parse_term_rest, parse_comparison, parse_comparison_rest, parse_equals, parse_equals_rest,
  parse_and, parse_and_rest, parse_or, parse_or_rest, parse_expression,
}
use all.Tiny.Parser.Grammar
use all.Tiny.Parser.Grammar.{name_tokens, digit_tokens, value_of, all_in}
use all.Tiny.Parser.Spelled.{Spelled, yields, faults, either, after, Only, expect-Spelled, glue}
use all.Tiny.Parser.Leaves.{
  SpellsName, identifier_loop-Spelled, SpellsDigits, number_loop-Spelled, operators_loop-split,
}

module _ (u : ℤ) where
  paren-Spelled :
      (f : ℕ) (t : Token) (ts : List Token)
      → ((ts' : List Token) → Spelled (Grammar.SpellsExpression u) ts' (parse_expression u f ts'))
      → Spelled (Grammar.SpellsPrimary u) (t ∷ ts) do
        (_, inner) ← expect op_paren_open (t ∷ ts)
        (e, rest) ← parse_expression u f inner
        (_, rest') ← expect op_paren_close rest
        ok (paren e, rest')
  paren-Spelled f t ts ih =
      let S = Grammar.SpellsPrimary u in
      after (Only op_paren_open) S (t ∷ ts) (t ∷ ts) (expect op_paren_open (t ∷ ts)) _
        (expect-Spelled op_paren_open (t ∷ ts))
        (λ _ inner pre₀ p₀ s₀.
          after (Grammar.SpellsExpression u) S inner (t ∷ ts) (parse_expression u f inner) _
            (ih inner)
            (λ e rest pre p s.
              after (Only op_paren_close) S rest (t ∷ ts) (expect op_paren_close rest) _
                (expect-Spelled op_paren_close rest)
                (λ _ rest' pre₁ p₁ s₁.
                  yields S (t ∷ ts) (s₀.0 ∷ (pre ++ s₁.0 ∷ [])) (paren e) rest'
                    (p₀
                      ∙ ap (λ x. x ++ inner) s₀.2
                      ∙ ap (λ x. s₀.0 ∷ x)
                          (glue inner pre rest (s₁.0 ∷ []) rest' p
                            (p₁ ∙ ap (λ x. x ++ rest') s₁.2)))
                    (Grammar.paren_rule e pre s₀.0 s₁.0 s₀.1 s₁.1 s))))

  mutual
    unfolding parse_expression

    parse_primary-Spelled :
        (f : ℕ) (ts : List Token) → Spelled (Grammar.SpellsPrimary u) ts (parse_primary u f ts)
    parse_primary-Spelled zero ts = faults (Grammar.SpellsPrimary u) ts _
    parse_primary-Spelled (suc f) (Token.kw_false ∷ ts) =
        yields (Grammar.SpellsPrimary u) (kw_false ∷ ts) (kw_false ∷ []) false_literal ts refl
          Grammar.false_rule
    parse_primary-Spelled (suc f) (Token.kw_true ∷ ts) =
        yields (Grammar.SpellsPrimary u) (kw_true ∷ ts) (kw_true ∷ []) true_literal ts refl
          Grammar.true_rule
    parse_primary-Spelled (suc f) (Token.identifier_start ∷ ts) =
        after SpellsName (Grammar.SpellsPrimary u) ts (identifier_start ∷ ts) (identifier_loop ts) _
          (identifier_loop-Spelled ts)
          (λ name rest pre e s.
            yields (Grammar.SpellsPrimary u) (identifier_start ∷ ts) (identifier_start ∷ pre)
              (identifier name) rest (ap (λ r. identifier_start ∷ r) e)
              (subst (λ p. Grammar.SpellsPrimary u (identifier name) (identifier_start ∷ p)) (sym s)
                (Grammar.name_rule name)))
    parse_primary-Spelled (suc f) (Token.number_start ∷ ts) =
        after (SpellsDigits u) (Grammar.SpellsPrimary u) ts (number_start ∷ ts) (number_loop u ts) _
          (number_loop-Spelled u ts)
          (λ n rest pre e s.
            yields (Grammar.SpellsPrimary u) (number_start ∷ ts) (number_start ∷ pre) (number n)
              rest (ap (λ r. number_start ∷ r) e)
              (subst (λ p. Grammar.SpellsPrimary u (number n) (number_start ∷ p)) (sym s.1)
                (Grammar.number_rule n s.0 s.2)))
    parse_primary-Spelled (suc f) [] = faults (Grammar.SpellsPrimary u) [] assertion
    parse_primary-Spelled (suc f) (t ∷ ts) = paren-Spelled f t ts (parse_expression-Spelled f)

    parse_unary-Spelled :
        (f : ℕ) (ts : List Token) → Spelled (Grammar.SpellsUnary u) ts (parse_unary u f ts)
    parse_unary-Spelled zero ts = faults (Grammar.SpellsUnary u) ts _
    parse_unary-Spelled (suc f) ts =
        let (split, ops) = operators_loop-split ts in
        let rest = (operators_loop ts).1 in
        after (Grammar.SpellsPrimary u) (Grammar.SpellsUnary u) rest ts (parse_primary u f rest) _
          (parse_primary-Spelled f rest)
          (λ e rest' pre p s.
            yields (Grammar.SpellsUnary u) ts ((operators_loop ts).0 ++ pre)
              (unary (operators_loop ts).0 e) rest'
              (glue ts (operators_loop ts).0 rest pre rest' split p)
              (Grammar.unary_rule (operators_loop ts).0 e pre ops s))

    parse_factor-Spelled :
        (f : ℕ) (ts : List Token) → Spelled (Grammar.SpellsFactor u) ts (parse_factor u f ts)
    parse_factor-Spelled zero ts = faults (Grammar.SpellsFactor u) ts _
    parse_factor-Spelled (suc f) ts =
        after (Grammar.SpellsUnary u) (Grammar.SpellsFactor u) ts ts (parse_unary u f ts) _
          (parse_unary-Spelled f ts)
          (λ e rest a p s.
            after (Grammar.SpellsFactorRest u) (Grammar.SpellsFactor u) rest ts
              (parse_factor_rest u f rest) _ (parse_factor_rest-Spelled f rest)
              (λ more rest' b p' s'.
                yields (Grammar.SpellsFactor u) ts (a ++ b) (factor e more) rest'
                  (glue ts a rest b rest' p p') (Grammar.factor_rule e more a b s s')))

    parse_factor_rest-Spelled :
        (f : ℕ) (ts : List Token)
        → Spelled (Grammar.SpellsFactorRest u) ts (parse_factor_rest u f ts)
    parse_factor_rest-Spelled zero ts = faults (Grammar.SpellsFactorRest u) ts _
    parse_factor_rest-Spelled (suc f) [] =
        yields (Grammar.SpellsFactorRest u) [] [] factor_end [] refl Grammar.factor_end_rule
    parse_factor_rest-Spelled (suc f) (t ∷ ts) =
        either (Grammar.SpellsFactorRest u) (t ∷ ts) (has_any factor_ops t)
          (λ op.
            after (Grammar.SpellsUnary u) (Grammar.SpellsFactorRest u) ts (t ∷ ts)
              (parse_unary u f ts) _ (parse_unary-Spelled f ts)
              (λ e rest a p s.
                after (Grammar.SpellsFactorRest u) (Grammar.SpellsFactorRest u) rest (t ∷ ts)
                  (parse_factor_rest u f rest) _ (parse_factor_rest-Spelled f rest)
                  (λ more rest' b p' s'.
                    yields (Grammar.SpellsFactorRest u) (t ∷ ts) (t ∷ (a ++ b))
                      (factor_more t e more) rest' (ap (λ r. t ∷ r) (glue ts a rest b rest' p p'))
                      (Grammar.factor_more_rule t e more a b op s s'))))
          (λ _.
            yields (Grammar.SpellsFactorRest u) (t ∷ ts) [] factor_end (t ∷ ts) refl
              Grammar.factor_end_rule)

    parse_term-Spelled :
        (f : ℕ) (ts : List Token) → Spelled (Grammar.SpellsTerm u) ts (parse_term u f ts)
    parse_term-Spelled zero ts = faults (Grammar.SpellsTerm u) ts _
    parse_term-Spelled (suc f) ts =
        after (Grammar.SpellsFactor u) (Grammar.SpellsTerm u) ts ts (parse_factor u f ts) _
          (parse_factor-Spelled f ts)
          (λ e rest a p s.
            after (Grammar.SpellsTermRest u) (Grammar.SpellsTerm u) rest ts
              (parse_term_rest u f rest) _ (parse_term_rest-Spelled f rest)
              (λ more rest' b p' s'.
                yields (Grammar.SpellsTerm u) ts (a ++ b) (term e more) rest'
                  (glue ts a rest b rest' p p') (Grammar.term_rule e more a b s s')))

    parse_term_rest-Spelled :
        (f : ℕ) (ts : List Token) → Spelled (Grammar.SpellsTermRest u) ts (parse_term_rest u f ts)
    parse_term_rest-Spelled zero ts = faults (Grammar.SpellsTermRest u) ts _
    parse_term_rest-Spelled (suc f) [] =
        yields (Grammar.SpellsTermRest u) [] [] term_end [] refl Grammar.term_end_rule
    parse_term_rest-Spelled (suc f) (t ∷ ts) =
        either (Grammar.SpellsTermRest u) (t ∷ ts) (has_any term_ops t)
          (λ op.
            after (Grammar.SpellsFactor u) (Grammar.SpellsTermRest u) ts (t ∷ ts)
              (parse_factor u f ts) _ (parse_factor-Spelled f ts)
              (λ e rest a p s.
                after (Grammar.SpellsTermRest u) (Grammar.SpellsTermRest u) rest (t ∷ ts)
                  (parse_term_rest u f rest) _ (parse_term_rest-Spelled f rest)
                  (λ more rest' b p' s'.
                    yields (Grammar.SpellsTermRest u) (t ∷ ts) (t ∷ (a ++ b)) (term_more t e more)
                      rest' (ap (λ r. t ∷ r) (glue ts a rest b rest' p p'))
                      (Grammar.term_more_rule t e more a b op s s'))))
          (λ _.
            yields (Grammar.SpellsTermRest u) (t ∷ ts) [] term_end (t ∷ ts) refl
              Grammar.term_end_rule)

    parse_comparison-Spelled :
        (f : ℕ) (ts : List Token)
        → Spelled (Grammar.SpellsComparison u) ts (parse_comparison u f ts)
    parse_comparison-Spelled zero ts = faults (Grammar.SpellsComparison u) ts _
    parse_comparison-Spelled (suc f) ts =
        after (Grammar.SpellsTerm u) (Grammar.SpellsComparison u) ts ts (parse_term u f ts) _
          (parse_term-Spelled f ts)
          (λ e rest a p s.
            after (Grammar.SpellsComparisonRest u) (Grammar.SpellsComparison u) rest ts
              (parse_comparison_rest u f rest) _ (parse_comparison_rest-Spelled f rest)
              (λ more rest' b p' s'.
                yields (Grammar.SpellsComparison u) ts (a ++ b) (comparison e more) rest'
                  (glue ts a rest b rest' p p') (Grammar.comparison_rule e more a b s s')))

    parse_comparison_rest-Spelled :
        (f : ℕ) (ts : List Token)
        → Spelled (Grammar.SpellsComparisonRest u) ts (parse_comparison_rest u f ts)
    parse_comparison_rest-Spelled zero ts = faults (Grammar.SpellsComparisonRest u) ts _
    parse_comparison_rest-Spelled (suc f) [] =
        yields (Grammar.SpellsComparisonRest u) [] [] comparison_end [] refl
          Grammar.comparison_end_rule
    parse_comparison_rest-Spelled (suc f) (t ∷ ts) =
        either (Grammar.SpellsComparisonRest u) (t ∷ ts) (has_any comparison_ops t)
          (λ op.
            after (Grammar.SpellsTerm u) (Grammar.SpellsComparisonRest u) ts (t ∷ ts)
              (parse_term u f ts) _ (parse_term-Spelled f ts)
              (λ e rest a p s.
                after (Grammar.SpellsComparisonRest u) (Grammar.SpellsComparisonRest u) rest
                  (t ∷ ts) (parse_comparison_rest u f rest) _ (parse_comparison_rest-Spelled f rest)
                  (λ more rest' b p' s'.
                    yields (Grammar.SpellsComparisonRest u) (t ∷ ts) (t ∷ (a ++ b))
                      (comparison_more t e more) rest'
                      (ap (λ r. t ∷ r) (glue ts a rest b rest' p p'))
                      (Grammar.comparison_more_rule t e more a b op s s'))))
          (λ _.
            yields (Grammar.SpellsComparisonRest u) (t ∷ ts) [] comparison_end (t ∷ ts) refl
              Grammar.comparison_end_rule)

    parse_equals-Spelled :
        (f : ℕ) (ts : List Token) → Spelled (Grammar.SpellsEquals u) ts (parse_equals u f ts)
    parse_equals-Spelled zero ts = faults (Grammar.SpellsEquals u) ts _
    parse_equals-Spelled (suc f) ts =
        after (Grammar.SpellsComparison u) (Grammar.SpellsEquals u) ts ts (parse_comparison u f ts)
          _ (parse_comparison-Spelled f ts)
          (λ e rest a p s.
            after (Grammar.SpellsEqualsRest u) (Grammar.SpellsEquals u) rest ts
              (parse_equals_rest u f rest) _ (parse_equals_rest-Spelled f rest)
              (λ more rest' b p' s'.
                yields (Grammar.SpellsEquals u) ts (a ++ b) (equals e more) rest'
                  (glue ts a rest b rest' p p') (Grammar.equals_rule e more a b s s')))

    parse_equals_rest-Spelled :
        (f : ℕ) (ts : List Token)
        → Spelled (Grammar.SpellsEqualsRest u) ts (parse_equals_rest u f ts)
    parse_equals_rest-Spelled zero ts = faults (Grammar.SpellsEqualsRest u) ts _
    parse_equals_rest-Spelled (suc f) [] =
        yields (Grammar.SpellsEqualsRest u) [] [] equals_end [] refl Grammar.equals_end_rule
    parse_equals_rest-Spelled (suc f) (t ∷ ts) =
        either (Grammar.SpellsEqualsRest u) (t ∷ ts) (has_any equals_ops t)
          (λ op.
            after (Grammar.SpellsComparison u) (Grammar.SpellsEqualsRest u) ts (t ∷ ts)
              (parse_comparison u f ts) _ (parse_comparison-Spelled f ts)
              (λ e rest a p s.
                after (Grammar.SpellsEqualsRest u) (Grammar.SpellsEqualsRest u) rest (t ∷ ts)
                  (parse_equals_rest u f rest) _ (parse_equals_rest-Spelled f rest)
                  (λ more rest' b p' s'.
                    yields (Grammar.SpellsEqualsRest u) (t ∷ ts) (t ∷ (a ++ b))
                      (equals_more t e more) rest' (ap (λ r. t ∷ r) (glue ts a rest b rest' p p'))
                      (Grammar.equals_more_rule t e more a b op s s'))))
          (λ _.
            yields (Grammar.SpellsEqualsRest u) (t ∷ ts) [] equals_end (t ∷ ts) refl
              Grammar.equals_end_rule)

    parse_and-Spelled :
        (f : ℕ) (ts : List Token) → Spelled (Grammar.SpellsAnd u) ts (parse_and u f ts)
    parse_and-Spelled zero ts = faults (Grammar.SpellsAnd u) ts _
    parse_and-Spelled (suc f) ts =
        after (Grammar.SpellsEquals u) (Grammar.SpellsAnd u) ts ts (parse_equals u f ts) _
          (parse_equals-Spelled f ts)
          (λ e rest a p s.
            after (Grammar.SpellsAndRest u) (Grammar.SpellsAnd u) rest ts (parse_and_rest u f rest)
              _ (parse_and_rest-Spelled f rest)
              (λ more rest' b p' s'.
                yields (Grammar.SpellsAnd u) ts (a ++ b) (and_all e more) rest'
                  (glue ts a rest b rest' p p') (Grammar.and_rule e more a b s s')))

    parse_and_rest-Spelled :
        (f : ℕ) (ts : List Token) → Spelled (Grammar.SpellsAndRest u) ts (parse_and_rest u f ts)
    parse_and_rest-Spelled zero ts = faults (Grammar.SpellsAndRest u) ts _
    parse_and_rest-Spelled (suc f) [] =
        yields (Grammar.SpellsAndRest u) [] [] and_end [] refl Grammar.and_end_rule
    parse_and_rest-Spelled (suc f) (t ∷ ts) =
        either (Grammar.SpellsAndRest u) (t ∷ ts) (has op_and t)
          (λ op.
            after (Grammar.SpellsEquals u) (Grammar.SpellsAndRest u) ts (t ∷ ts)
              (parse_equals u f ts) _ (parse_equals-Spelled f ts)
              (λ e rest a p s.
                after (Grammar.SpellsAndRest u) (Grammar.SpellsAndRest u) rest (t ∷ ts)
                  (parse_and_rest u f rest) _ (parse_and_rest-Spelled f rest)
                  (λ more rest' b p' s'.
                    yields (Grammar.SpellsAndRest u) (t ∷ ts) (t ∷ (a ++ b)) (and_more e more) rest'
                      (ap (λ r. t ∷ r) (glue ts a rest b rest' p p'))
                      (Grammar.and_more_rule t e more a b op s s'))))
          (λ _.
            yields (Grammar.SpellsAndRest u) (t ∷ ts) [] and_end (t ∷ ts) refl Grammar.and_end_rule)

    parse_or-Spelled : (f : ℕ) (ts : List Token) → Spelled (Grammar.SpellsOr u) ts (parse_or u f ts)
    parse_or-Spelled zero ts = faults (Grammar.SpellsOr u) ts _
    parse_or-Spelled (suc f) ts =
        after (Grammar.SpellsAnd u) (Grammar.SpellsOr u) ts ts (parse_and u f ts) _
          (parse_and-Spelled f ts)
          (λ e rest a p s.
            after (Grammar.SpellsOrRest u) (Grammar.SpellsOr u) rest ts (parse_or_rest u f rest) _
              (parse_or_rest-Spelled f rest)
              (λ more rest' b p' s'.
                yields (Grammar.SpellsOr u) ts (a ++ b) (or_all e more) rest'
                  (glue ts a rest b rest' p p') (Grammar.or_rule e more a b s s')))

    parse_or_rest-Spelled :
        (f : ℕ) (ts : List Token) → Spelled (Grammar.SpellsOrRest u) ts (parse_or_rest u f ts)
    parse_or_rest-Spelled zero ts = faults (Grammar.SpellsOrRest u) ts _
    parse_or_rest-Spelled (suc f) [] =
        yields (Grammar.SpellsOrRest u) [] [] or_end [] refl Grammar.or_end_rule
    parse_or_rest-Spelled (suc f) (t ∷ ts) =
        either (Grammar.SpellsOrRest u) (t ∷ ts) (has op_or t)
          (λ op.
            after (Grammar.SpellsAnd u) (Grammar.SpellsOrRest u) ts (t ∷ ts) (parse_and u f ts) _
              (parse_and-Spelled f ts)
              (λ e rest a p s.
                after (Grammar.SpellsOrRest u) (Grammar.SpellsOrRest u) rest (t ∷ ts)
                  (parse_or_rest u f rest) _ (parse_or_rest-Spelled f rest)
                  (λ more rest' b p' s'.
                    yields (Grammar.SpellsOrRest u) (t ∷ ts) (t ∷ (a ++ b)) (or_more e more) rest'
                      (ap (λ r. t ∷ r) (glue ts a rest b rest' p p'))
                      (Grammar.or_more_rule t e more a b op s s'))))
          (λ _.
            yields (Grammar.SpellsOrRest u) (t ∷ ts) [] or_end (t ∷ ts) refl Grammar.or_end_rule)

    pub parse_expression-Spelled :
        (f : ℕ) (ts : List Token)
        → Spelled (Grammar.SpellsExpression u) ts (parse_expression u f ts)
    parse_expression-Spelled zero ts = faults (Grammar.SpellsExpression u) ts _
    parse_expression-Spelled (suc f) ts =
        after (Grammar.SpellsOr u) (Grammar.SpellsExpression u) ts ts (parse_or u f ts) _
          (parse_or-Spelled f ts)
          (λ e rest pre p s.
            yields (Grammar.SpellsExpression u) ts pre (expression e) rest p
              (Grammar.expression_rule e pre s))

  -- What `parse<Expression>` returns is an expression of the grammar: the tokens that it took spell the
  -- expression, and the rest of the tokens is what it left.
  pub parse_expression_sound :
      (f : ℕ) (ts : List Token) (e : Expression) (rest : List Token)
      → parse_expression u f ts ≡ ok (e, rest)
      → (pre : List Token) × (ts ≡ pre ++ rest) × Grammar.SpellsExpression u e pre
  parse_expression_sound f ts e rest h = (parse_expression-Spelled f ts).taken e rest h
