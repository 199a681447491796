-- ===== src/Tiny/Parser/Progress.antt =====
-- The recursive descent consumes tokens and never runs out of fuel: ten units for each token, and
-- one more for each level of precedence.
use all.Prelude.{
  ℕ, zero, suc, ◌+◌, ◌-◌, ◌*◌, ◌≤◌, List, [], ◌∷◌, length, arith, inl, inr, Bool-cases,
}
use all.Prelude.Int.{ℤ}
use all.Prelude.Result.{Result, ok, assertion, ◌>>=◌}
use all.Tiny.Token.{Token, has, op_and, op_or, op_paren_open, op_paren_close}
use all.Tiny.Syntax.{
  identifier, number, true_literal, false_literal, paren, unary, factor, factor_end, factor_more,
  term, term_end, term_more, comparison, comparison_end, comparison_more, equals, equals_end,
  equals_more, and_all, and_end, and_more, or_all, or_end, or_more, expression,
}
use all.Tiny.Parser.{
  expect, has_any, operators_loop, parse_identifier, number_loop, factor_ops, term_ops,
  comparison_ops, equals_ops, parse_primary, parse_unary, parse_factor, parse_factor_rest,
  parse_term, parse_term_rest, parse_comparison, parse_comparison_rest, parse_equals,
  parse_equals_rest, parse_and, parse_and_rest, parse_or, parse_or_rest, parse_expression,
}
use all.Tiny.Progress.{
  Within, reads, fails, chain, expect-Within, parse_identifier-Within, number_loop-Within,
  length-operators_loop,
}

module _ (u : ℤ) where
  -- A parser on f units of fuel, at a level that asks for `rank` units besides ten for each token.
  abbrev pub Consumes {ℓ} :
      {A : Type ℓ} → (ℕ → List Token → Result (A × List Token)) → ℕ → ℕ → Type ℓ
  Consumes parser rank f =
      (n : ℕ) (ts : List Token)
      → length ts ≤ suc n
      → 10 * length ts + rank ≤ f
      → Within n (parser f ts)

  abbrev pub Continues {ℓ} : {A : Type ℓ} → (ℕ → List Token → Result (A × List Token)) → ℕ → Type ℓ
  Continues parser f =
      (n : ℕ) (ts : List Token) → length ts ≤ n → 10 * length ts + 1 ≤ f → Within n (parser f ts)

  paren-Within :
      (f n : ℕ) (t : Token) (ts : List Token)
      → Consumes (parse_expression u) 9 f
      → suc (length ts) ≤ suc n
      → 10 * suc (length ts) + 1 ≤ suc f
      → Within n do
        (_, inner) ← expect op_paren_open (t ∷ ts)
        (e, rest) ← parse_expression u f inner
        (_, rest') ← expect op_paren_close rest
        ok (paren e, rest')
  paren-Within f n t ts inside h k =
      chain (expect op_paren_open (t ∷ ts)) _
        (expect-Within op_paren_open (length ts) (t ∷ ts) (omega arith))
        (λ _ inner l.
          chain (parse_expression u f inner) _ (inside n inner (omega arith) (omega arith))
            (λ e rest l'.
              chain (expect op_paren_close rest) _
                (expect-Within op_paren_close n rest (omega arith))
                (λ _ rest' l''. reads n (paren e) rest' l'')))

  mutual
    unfolding parse_expression

    pub parse_primary-Within : (f : ℕ) → Consumes (parse_primary u) 1 f
    parse_primary-Within zero n ts h k = absurd (omega arith)
    parse_primary-Within (suc f) n (Token.kw_false ∷ ts) h k =
        reads n false_literal ts (omega arith)
    parse_primary-Within (suc f) n (Token.kw_true ∷ ts) h k = reads n true_literal ts (omega arith)
    parse_primary-Within (suc f) n (Token.identifier_start ∷ ts) h k =
        chain (parse_identifier (Token.identifier_start ∷ ts)) _
          (parse_identifier-Within n (Token.identifier_start ∷ ts) h)
          (λ name rest l. reads n (identifier name) rest l)
    parse_primary-Within (suc f) n (Token.number_start ∷ ts) h k =
        chain (number_loop u ts) _ (number_loop-Within u n ts (omega arith))
          (λ m rest l. reads n (number m) rest l)
    parse_primary-Within (suc f) n [] h k = fails n assertion (λ e. cc)
    parse_primary-Within (suc f) n (t ∷ ts) h k =
        paren-Within f n t ts (parse_expression-Within f) h k

    pub parse_unary-Within : (f : ℕ) → Consumes (parse_unary u) 2 f
    parse_unary-Within zero n ts h k = absurd (omega arith)
    parse_unary-Within (suc f) n ts h k =
        let shorter = length-operators_loop ts in
        let rest = (operators_loop ts).1 in
        chain (parse_primary u f rest) _ (parse_primary-Within f n rest (omega arith) (omega arith))
          (λ e rest' l. reads n (unary (operators_loop ts).0 e) rest' l)

    pub parse_factor-Within : (f : ℕ) → Consumes (parse_factor u) 3 f
    parse_factor-Within zero n ts h k = absurd (omega arith)
    parse_factor-Within (suc f) n ts h k =
        chain (parse_unary u f ts) _
          (parse_unary-Within f (length ts - 1) ts (omega arith) (omega arith))
          (λ e rest l.
            chain (parse_factor_rest u f rest) _
              (parse_factor_rest-Within f n rest (omega arith) (omega arith))
              (λ more rest' l'. reads n (factor e more) rest' l'))

    pub parse_factor_rest-Within : (f : ℕ) → Continues (parse_factor_rest u) f
    parse_factor_rest-Within zero n ts h k = absurd (omega arith)
    parse_factor_rest-Within (suc f) n [] h k = reads n factor_end [] h
    parse_factor_rest-Within (suc f) n (t ∷ ts) h k = elim (Bool-cases (has_any factor_ops t)) [
      | inr e ↦ rw e (reads n factor_end (t ∷ ts) h)
      | inl e ↦ rw e (
          chain (parse_unary u f ts) _
            (parse_unary-Within f (length ts - 1) ts (omega arith) (omega arith))
            (λ e rest l.
              chain (parse_factor_rest u f rest) _
                (parse_factor_rest-Within f n rest (omega arith) (omega arith))
                (λ more rest' l'. reads n (factor_more t e more) rest' l')))
    ]

    pub parse_term-Within : (f : ℕ) → Consumes (parse_term u) 4 f
    parse_term-Within zero n ts h k = absurd (omega arith)
    parse_term-Within (suc f) n ts h k =
        chain (parse_factor u f ts) _
          (parse_factor-Within f (length ts - 1) ts (omega arith) (omega arith))
          (λ e rest l.
            chain (parse_term_rest u f rest) _
              (parse_term_rest-Within f n rest (omega arith) (omega arith))
              (λ more rest' l'. reads n (term e more) rest' l'))

    pub parse_term_rest-Within : (f : ℕ) → Continues (parse_term_rest u) f
    parse_term_rest-Within zero n ts h k = absurd (omega arith)
    parse_term_rest-Within (suc f) n [] h k = reads n term_end [] h
    parse_term_rest-Within (suc f) n (t ∷ ts) h k = elim (Bool-cases (has_any term_ops t)) [
      | inr e ↦ rw e (reads n term_end (t ∷ ts) h)
      | inl e ↦ rw e (
          chain (parse_factor u f ts) _
            (parse_factor-Within f (length ts - 1) ts (omega arith) (omega arith))
            (λ e rest l.
              chain (parse_term_rest u f rest) _
                (parse_term_rest-Within f n rest (omega arith) (omega arith))
                (λ more rest' l'. reads n (term_more t e more) rest' l')))
    ]

    pub parse_comparison-Within : (f : ℕ) → Consumes (parse_comparison u) 5 f
    parse_comparison-Within zero n ts h k = absurd (omega arith)
    parse_comparison-Within (suc f) n ts h k =
        chain (parse_term u f ts) _
          (parse_term-Within f (length ts - 1) ts (omega arith) (omega arith))
          (λ e rest l.
            chain (parse_comparison_rest u f rest) _
              (parse_comparison_rest-Within f n rest (omega arith) (omega arith))
              (λ more rest' l'. reads n (comparison e more) rest' l'))

    pub parse_comparison_rest-Within : (f : ℕ) → Continues (parse_comparison_rest u) f
    parse_comparison_rest-Within zero n ts h k = absurd (omega arith)
    parse_comparison_rest-Within (suc f) n [] h k = reads n comparison_end [] h
    parse_comparison_rest-Within (suc f) n (t ∷ ts) h k =
        elim (Bool-cases (has_any comparison_ops t)) [
          | inr e ↦ rw e (reads n comparison_end (t ∷ ts) h)
          | inl e ↦ rw e (
              chain (parse_term u f ts) _
                (parse_term-Within f (length ts - 1) ts (omega arith) (omega arith))
                (λ e rest l.
                  chain (parse_comparison_rest u f rest) _
                    (parse_comparison_rest-Within f n rest (omega arith) (omega arith))
                    (λ more rest' l'. reads n (comparison_more t e more) rest' l')))
        ]

    pub parse_equals-Within : (f : ℕ) → Consumes (parse_equals u) 6 f
    parse_equals-Within zero n ts h k = absurd (omega arith)
    parse_equals-Within (suc f) n ts h k =
        chain (parse_comparison u f ts) _
          (parse_comparison-Within f (length ts - 1) ts (omega arith) (omega arith))
          (λ e rest l.
            chain (parse_equals_rest u f rest) _
              (parse_equals_rest-Within f n rest (omega arith) (omega arith))
              (λ more rest' l'. reads n (equals e more) rest' l'))

    pub parse_equals_rest-Within : (f : ℕ) → Continues (parse_equals_rest u) f
    parse_equals_rest-Within zero n ts h k = absurd (omega arith)
    parse_equals_rest-Within (suc f) n [] h k = reads n equals_end [] h
    parse_equals_rest-Within (suc f) n (t ∷ ts) h k = elim (Bool-cases (has_any equals_ops t)) [
      | inr e ↦ rw e (reads n equals_end (t ∷ ts) h)
      | inl e ↦ rw e (
          chain (parse_comparison u f ts) _
            (parse_comparison-Within f (length ts - 1) ts (omega arith) (omega arith))
            (λ e rest l.
              chain (parse_equals_rest u f rest) _
                (parse_equals_rest-Within f n rest (omega arith) (omega arith))
                (λ more rest' l'. reads n (equals_more t e more) rest' l')))
    ]

    pub parse_and-Within : (f : ℕ) → Consumes (parse_and u) 7 f
    parse_and-Within zero n ts h k = absurd (omega arith)
    parse_and-Within (suc f) n ts h k =
        chain (parse_equals u f ts) _
          (parse_equals-Within f (length ts - 1) ts (omega arith) (omega arith))
          (λ e rest l.
            chain (parse_and_rest u f rest) _
              (parse_and_rest-Within f n rest (omega arith) (omega arith))
              (λ more rest' l'. reads n (and_all e more) rest' l'))

    pub parse_and_rest-Within : (f : ℕ) → Continues (parse_and_rest u) f
    parse_and_rest-Within zero n ts h k = absurd (omega arith)
    parse_and_rest-Within (suc f) n [] h k = reads n and_end [] h
    parse_and_rest-Within (suc f) n (t ∷ ts) h k = elim (Bool-cases (has op_and t)) [
      | inr e ↦ rw e (reads n and_end (t ∷ ts) h)
      | inl e ↦ rw e (
          chain (parse_equals u f ts) _
            (parse_equals-Within f (length ts - 1) ts (omega arith) (omega arith))
            (λ e rest l.
              chain (parse_and_rest u f rest) _
                (parse_and_rest-Within f n rest (omega arith) (omega arith))
                (λ more rest' l'. reads n (and_more e more) rest' l')))
    ]

    pub parse_or-Within : (f : ℕ) → Consumes (parse_or u) 8 f
    parse_or-Within zero n ts h k = absurd (omega arith)
    parse_or-Within (suc f) n ts h k =
        chain (parse_and u f ts) _
          (parse_and-Within f (length ts - 1) ts (omega arith) (omega arith))
          (λ e rest l.
            chain (parse_or_rest u f rest) _
              (parse_or_rest-Within f n rest (omega arith) (omega arith))
              (λ more rest' l'. reads n (or_all e more) rest' l'))

    pub parse_or_rest-Within : (f : ℕ) → Continues (parse_or_rest u) f
    parse_or_rest-Within zero n ts h k = absurd (omega arith)
    parse_or_rest-Within (suc f) n [] h k = reads n or_end [] h
    parse_or_rest-Within (suc f) n (t ∷ ts) h k = elim (Bool-cases (has op_or t)) [
      | inr e ↦ rw e (reads n or_end (t ∷ ts) h)
      | inl e ↦ rw e (
          chain (parse_and u f ts) _
            (parse_and-Within f (length ts - 1) ts (omega arith) (omega arith))
            (λ e rest l.
              chain (parse_or_rest u f rest) _
                (parse_or_rest-Within f n rest (omega arith) (omega arith))
                (λ more rest' l'. reads n (or_more e more) rest' l')))
    ]

    pub parse_expression-Within : (f : ℕ) → Consumes (parse_expression u) 9 f
    parse_expression-Within zero n ts h k = absurd (omega arith)
    parse_expression-Within (suc f) n ts h k =
        chain (parse_or u f ts) _ (parse_or-Within f n ts (omega arith) (omega arith))
          (λ e rest l. reads n (expression e) rest l)
