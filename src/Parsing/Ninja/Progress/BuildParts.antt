-- ===== src/Parsing/Ninja/Progress/BuildParts.antt =====
-- The fuel of `parse_build` is enough.
use all.Prelude.{
  ℕ, zero, suc, ◌≤◌, ◌<◌, ◌≡◌, ◌≢◌, inl, inr, Bool, true, false, not, ◌||◌, Option, none, some,
  List, [], ◌∷◌, length, arith, ◌==◌, Bool-cases,
}
use all.Prelude.Result.{ok, failed, out_of_fuel}
use all.Prelude.Chars.{codes}
use all.Prelude.Names.{same_name, contains, lookup, insert}
use all.Prelude.Within.{Within, reads}
use all.Parsing.Text.{demand, consume_c, consume_if, consume, lift}
use all.Parsing.Progress.{
  throws, bind, demand-Within, consume_c-Within, consume_if-Within, consume-Within_strict,
  lift-Within,
}
use all.Parsing.Ninja.State.{Name, Variable, Rule, NinjaState}
use all.Parsing.Ninja.Expand.{skip_spaces, parse_identifier, parse_expanded_text}
use all.Parsing.Ninja.Build.{
  Ending, closed, one_bar, two_bars, or_newline, keyword_end, skip_line, outputs_loop,
  implicit_outputs_loop, inputs_loop, implicit_inputs_loop, local_vars_loop, join, vars_of,
  rule_vars, outputs_after, implicit_after, inputs_after, parse_outputs, parse_order_only,
  parse_implicit_inputs, parse_inputs, parse_build,
}
use all.Parsing.Ninja.Progress.Texts.{skip_le, parse_identifier-Within, text-Within}
use all.Parsing.Ninja.Progress.Builds.{
  outputs_loop-Within, implicit_outputs_loop-Within, inputs_loop-Within,
  implicit_inputs_loop-Within, order_only_loop-Within,
}

pub skip_line-Within : (n : ℕ) (file : List ℕ) → length file ≤ suc n → Within n (skip_line file)
unfolding skip_line
skip_line-Within n [] h = throws n
skip_line-Within n (c ∷ file) h = elim (Bool-cases (c == b'\n')) [
  | inl e ↦ rw e (reads n tt file (omega arith))
  | inr e ↦ rw e (skip_line-Within n file (omega arith))
]

newline_end :
    (n : ℕ) (space : Bool) (file : List ℕ) → length file ≤ n → Within n (or_newline space file)
unfolding or_newline
newline_end n true file h = reads n tt file h
newline_end n false file h =
    bind (consume_if (b'$' ∷ b'\n' ∷ []) file) _ (consume_if-Within (b'$' ∷ b'\n' ∷ []) n file h)
      (λ newline rest l. demand-Within newline n rest l)

pub keyword_end-Within : (n : ℕ) (file : List ℕ) → length file ≤ n → Within n (keyword_end file)
unfolding keyword_end
keyword_end-Within n file h =
    bind (consume_if (b' ' ∷ []) file) _ (consume_if-Within (b' ' ∷ []) n file h)
      (λ space rest l. newline_end n space rest l)

module _ (variables : List (Name × Variable)) where
  local_vars_loop-Within :
      (f : ℕ) (locals : List (Name × List ℕ)) (n : ℕ) (file : List ℕ)
      → length file < f
      → length file ≤ n
      → Within n (local_vars_loop variables f locals file)
  unfolding local_vars_loop
  local_vars_loop-Within zero locals n file h k = absurd (omega arith)
  local_vars_loop-Within (suc f) locals n [] h k = reads n locals [] (omega arith)
  local_vars_loop-Within (suc f) locals n (c ∷ file) h k = elim (Bool-cases (c == b'#')) [
    | inl e ↦ rw e (
        bind (skip_line (c ∷ file)) _ (skip_line-Within (length file) (c ∷ file) (omega arith))
          (λ u r l. local_vars_loop-Within f locals n r (omega arith) (omega arith)))
    | inr e ↦ elim (Bool-cases (not (c == b' '))) [
      | inl q ↦ rw (e, q) (reads n locals (c ∷ file) k)
      | inr q ↦
          rw (e, q)
            (bind (parse_identifier (skip_spaces (c ∷ file))) _
              (parse_identifier-Within (suc (length file)) (skip_spaces (c ∷ file))
                (skip_le (suc (length file)) (c ∷ file) (omega arith)))
              (λ var r₁ l₁.
                bind (consume_c b'=' (skip_spaces r₁)) _
                  (consume_c-Within b'=' (length file) (skip_spaces r₁)
                    (skip_le (suc (length file)) r₁ l₁))
                  (λ u r₂ l₂.
                    bind (parse_expanded_text (b'\n' ∷ []) variables (skip_spaces r₂)) _
                      (text-Within (b'\n' ∷ []) variables (length file) (skip_spaces r₂)
                        (skip_le (length file) r₂ l₂))
                      (λ value r₃ l₃.
                        bind (consume_c b'\n' r₃) _
                          (consume_c-Within b'\n' (length file) r₃ (omega arith))
                          (λ u' r₄ l₄.
                            local_vars_loop-Within f (insert var value locals) n r₄ (omega arith)
                              (omega arith))))))
    ]
  ]

  after_outputs :
      (n : ℕ) (outputs : List Name) (ending : Ending) (file : List ℕ)
      → length file ≤ n
      → Within n (outputs_after variables outputs ending file)
  unfolding outputs_after
  after_outputs n outputs closed file h = reads n (outputs, []) file h
  after_outputs n outputs two_bars file h = reads n (outputs, []) file h
  after_outputs n outputs one_bar file h =
      bind (implicit_outputs_loop variables (suc (length (skip_spaces file))) (skip_spaces file)) _
        (implicit_outputs_loop-Within variables (suc (length (skip_spaces file))) n
          (skip_spaces file) (omega arith) (skip_le n file h))
        (λ implicit rest l. reads n (outputs, implicit) rest l)

  parse_outputs-Within :
      (n : ℕ) (file : List ℕ) → length file ≤ n → Within n (parse_outputs variables file)
  unfolding parse_outputs
  parse_outputs-Within n file h =
      bind (outputs_loop variables (suc (length file)) file) _
        (outputs_loop-Within variables (suc (length file)) n file (omega arith) h)
        (λ p rest l. after_outputs n p.0 p.1 rest l)

  parse_order_only-Within :
      (n : ℕ) (file : List ℕ) → length file ≤ n → Within n (parse_order_only variables file)
  unfolding parse_order_only
  parse_order_only-Within n file h =
      order_only_loop-Within variables (suc (length (skip_spaces file))) n (skip_spaces file)
        (omega arith) (skip_le n file h)

  after_implicit :
      (n : ℕ) (implicit : List Name) (ending : Ending) (file : List ℕ)
      → length file ≤ n
      → Within n (implicit_after variables implicit ending file)
  unfolding implicit_after
  after_implicit n implicit closed file h = reads n (implicit, []) file h
  after_implicit n implicit one_bar file h = reads n (implicit, []) file h
  after_implicit n implicit two_bars file h =
      bind (parse_order_only variables file) _ (parse_order_only-Within n file h)
        (λ order_only rest l. reads n (implicit, order_only) rest l)

  parse_implicit_inputs-Within :
      (n : ℕ) (file : List ℕ) → length file ≤ n → Within n (parse_implicit_inputs variables file)
  unfolding parse_implicit_inputs
  parse_implicit_inputs-Within n file h =
      bind (implicit_inputs_loop variables (suc (length (skip_spaces file))) (skip_spaces file)) _
        (implicit_inputs_loop-Within variables (suc (length (skip_spaces file))) n
          (skip_spaces file) (omega arith) (skip_le n file h))
        (λ p rest l. after_implicit n p.0 p.1 rest l)

  after_inputs :
      (n : ℕ) (inputs : List Name) (ending : Ending) (file : List ℕ)
      → length file ≤ n
      → Within n (inputs_after variables inputs ending file)
  unfolding inputs_after
  after_inputs n inputs closed file h = reads n (inputs, [], []) file h
  after_inputs n inputs one_bar file h =
      bind (parse_implicit_inputs variables file) _ (parse_implicit_inputs-Within n file h)
        (λ p rest l. reads n (inputs, p.0, p.1) rest l)
  after_inputs n inputs two_bars file h =
      bind (parse_order_only variables file) _ (parse_order_only-Within n file h)
        (λ order_only rest l. reads n (inputs, [], order_only) rest l)

  parse_inputs-Within :
      (n : ℕ) (file : List ℕ) → length file ≤ n → Within n (parse_inputs variables file)
  unfolding parse_inputs
  parse_inputs-Within n file h =
      bind (inputs_loop variables (suc (length file)) file) _
        (inputs_loop-Within variables (suc (length file)) n file (omega arith) h)
        (λ p rest l. after_inputs n p.0 p.1 rest l)

vars_of-ne-fuel :
    (locals : List (Name × List ℕ)) (variables : List (Name × Variable)) (r : Option Rule)
    → vars_of locals variables r ≢ failed out_of_fuel
unfolding vars_of
vars_of-ne-fuel locals variables none h = cc
vars_of-ne-fuel locals variables (some r) h = cc

rule_vars-ne-fuel :
    (st : NinjaState) (rulename : Name) (locals : List (Name × List ℕ))
    → rule_vars st rulename locals ≢ failed out_of_fuel
unfolding rule_vars
rule_vars-ne-fuel st rulename locals h = elim (Bool-cases (same_name rulename (codes "phony"))) [
  | inl e ↦ let q : ok [] ≡ failed out_of_fuel = rw e at h in cc
  | inr e ↦ vars_of-ne-fuel locals st.variables (lookup rulename st.rules) (rw e at h)
]

pub parse_build-Within :
    (st : NinjaState) (n : ℕ) (file : List ℕ) → length file ≤ suc n → Within n (parse_build st file)
unfolding parse_build
parse_build-Within st n file h =
    bind (consume (codes "build") file) _ (consume-Within_strict b'b' (codes "uild") n file h)
      (λ u₁ r₁ l₁. bind (keyword_end r₁) _ (keyword_end-Within n r₁ l₁) (λ u₂ r₂ l₂.
        bind (parse_outputs st.variables (skip_spaces r₂)) _
          (parse_outputs-Within st.variables n (skip_spaces r₂) (skip_le n r₂ l₂))
          (λ outs r₃ l₃.
            bind (parse_identifier (skip_spaces r₃)) _
              (parse_identifier-Within n (skip_spaces r₃) (skip_le n r₃ l₃))
              (λ rulename r₄ l₄.
                bind (demand (same_name rulename (codes "phony") || contains rulename st.rules) r₄)
                  _
                  (demand-Within (same_name rulename (codes "phony") || contains rulename st.rules)
                    n r₄ l₄)
                  (λ u₅ r₅ l₅.
                    bind (parse_inputs st.variables (skip_spaces r₅)) _
                      (parse_inputs-Within st.variables n (skip_spaces r₅) (skip_le n r₅ l₅))
                      (λ ins r₆ l₆.
                        bind (local_vars_loop st.variables (suc (length r₆)) [] r₆) _
                          (local_vars_loop-Within st.variables (suc (length r₆)) [] n r₆
                            (omega arith) l₆)
                          (λ locals r₇ l₇.
                            let all =
                              insert (codes "in") (join ins.0)
                                (insert (codes "out") (join outs.0) locals) in
                            bind (lift (rule_vars st rulename all) r₇) _
                              (lift-Within (rule_vars st rulename all) n r₇
                                (rule_vars-ne-fuel st rulename all) l₇)
                              (λ vars r₈ l₈.
                                reads n
                                  (record {
                                    outputs = outs.0;
                                    implicit_outputs = outs.1;
                                    inputs = ins.0;
                                    implicit_inputs = ins.1;
                                    order_only_inputs = ins.2;
                                    rule_vars = vars;
                                  })
                                  r₈ l₈))))))))
