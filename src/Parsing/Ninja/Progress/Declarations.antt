-- ===== src/Parsing/Ninja/Progress/Declarations.antt =====
-- The fuel of the other declarations is enough, and that of a whole file.
use all.Prelude.{
  ℕ, zero, suc, ◌+◌, ◌-◌, ◌*◌, ◌≤◌, ◌<◌, ◌≡◌, inl, inr, Bool, true, false, not, ◌&&◌, ◌||◌, List,
  [], ◌∷◌, ◌++◌, length, arith, ◌==◌, Bool-cases, leb, ltb,
}
use all.Prelude.Chars.{codes, isdigit}
use all.Prelude.Names.{elem_code, insert}
use all.Prelude.Within.{Within, reads, fails, choose}
use all.Parsing.Text.{
  demand, contract, current_c, consume_c_nocheck, consume_c, consume_c_if, consume,
}
use all.Parsing.Progress.{
  throws, bind, demand-Within, contract-Within, current_c-Within, nocheck-Within, consume_c-Within,
  consume_c_if-Within, consume-Within, consume-Within_strict, test_c,
}
use all.Parsing.Ninja.State.{Name, Variable, RuleVariable, NinjaState}
use all.Parsing.Ninja.Expand.{
  skip_spaces, parse_identifier, variable_value, reference, parse_rule_variable,
}
use all.Parsing.Ninja.Build.{keyword_end, skip_line}
use all.Parsing.Ninja.Declare.{
  skip_blanks, rule_line_at, rule_loop, parse_rule, default_loop, some_target, parse_default,
  size_max, depth_loop, read_depth, parse_pool, path_dollar, path_loop, end_of_path, parse_include,
}
use all.Parsing.Ninja.Progress.Texts.{
  skip_le, parse_identifier-Within, reference-Within, text-Item, parse_rule_variable-Within,
}
use all.Parsing.Ninja.Progress.BuildParts.{skip_line-Within, keyword_end-Within}

skip_blanks-Within : (n : ℕ) (file : List ℕ) → length file ≤ n → Within n (skip_blanks file)
unfolding skip_blanks
skip_blanks-Within n [] h = reads n tt [] h
skip_blanks-Within n (c ∷ file) h = elim (Bool-cases (c == b' ')) [
  | inl e ↦ rw e (skip_blanks-Within n file (omega arith))
  | inr e ↦ rw e (reads n tt (c ∷ file) h)
]

rule_line :
    (f : ℕ) (vars : List (Name × RuleVariable)) (n c : ℕ) (file : List ℕ)
    → length file ≤ f
    → length file ≤ n
    → ((vars' : List (Name × RuleVariable)) (r : List ℕ)
        → length r < f
        → length r ≤ n
        → Within n (rule_loop f vars' r))
    → Within n (rule_line_at (rule_loop f) vars c file)
unfolding rule_line_at
rule_line f vars n c [] h k ih = elim (Bool-cases (c == b'#')) [
  | inl e ↦ rw e (throws n)
  | inr e ↦ rw e (throws n)
]
rule_line f vars n c (x ∷ file) h k ih = elim (Bool-cases (c == b'#')) [
  | inl e ↦ rw e (
      bind (skip_line (x ∷ file)) _ (skip_line-Within (length file) (x ∷ file) (omega arith))
        (λ u r l. ih vars r (omega arith) (omega arith)))
  | inr e ↦ rw e (
      test_c b'\n' (x ∷ file) _ {n = suc (length file)} (omega arith)
        (λ r l. reads n vars r (omega arith))
        (λ r l.
          bind (parse_rule_variable r) _ (parse_rule_variable-Within (length file) r l)
            (λ var r' l'. ih (insert var.name var vars) r' (omega arith) (omega arith))))
]

rule_loop-Within :
    (f : ℕ) (vars : List (Name × RuleVariable)) (n : ℕ) (file : List ℕ)
    → length file < f
    → length file ≤ n
    → Within n (rule_loop f vars file)
unfolding rule_loop
rule_loop-Within zero vars n file h k = absurd (omega arith)
rule_loop-Within (suc f) vars n [] h k = reads n vars [] k
rule_loop-Within (suc f) vars n (c ∷ file) h k = elim (Bool-cases (c == b'#')) [
  | inl e ↦ rw e (
      bind (skip_line (c ∷ file)) _ (skip_line-Within (length file) (c ∷ file) (omega arith))
        (λ u r l. rule_loop-Within f vars n r (omega arith) (omega arith)))
  | inr e ↦ elim (Bool-cases (not (c == b' '))) [
    | inl q ↦ rw (e, q) (reads n vars (c ∷ file) k)
    | inr q ↦
        rw (e, q)
          (bind (skip_blanks (c ∷ file)) _
            (skip_blanks-Within (suc (length file)) (c ∷ file) (omega arith))
            (λ u r₁ l₁.
              bind (current_c r₁) _ (current_c-Within (suc (length file)) r₁ l₁) (λ c' r₂ l₂.
                rule_line f vars n c' r₂ (omega arith) (omega arith)
                  (λ vars' r' h' k'. rule_loop-Within f vars' n r' h' k'))))
  ]
]

pub parse_rule-Within : (n : ℕ) (file : List ℕ) → length file ≤ suc n → Within n (parse_rule file)
unfolding parse_rule
parse_rule-Within n file h =
    bind (consume (codes "rule") file) _ (consume-Within_strict b'r' (codes "ule") n file h)
      (λ u₁ r₁ l₁. bind (keyword_end r₁) _ (keyword_end-Within n r₁ l₁) (λ u₂ r₂ l₂.
        bind (parse_identifier (skip_spaces r₂)) _
          (parse_identifier-Within n (skip_spaces r₂) (skip_le n r₂ l₂))
          (λ name r₃ l₃.
            let l = skip_le n r₃ l₃ in
            bind (consume_c b'\n' (skip_spaces r₃)) _
              (consume_c-Within b'\n' n (skip_spaces r₃) (omega arith))
              (λ u₄ r₄ l₄.
                bind (rule_loop (suc (length r₄)) [] r₄) _
                  (rule_loop-Within (suc (length r₄)) [] n r₄ (omega arith) l₄)
                  (λ vars r₅ l₅. reads n (record { name = name; variables = vars }) r₅ l₅)))))

depth_loop-Within : (d n : ℕ) (file : List ℕ) → length file ≤ n → Within n (depth_loop d file)
unfolding depth_loop
depth_loop-Within d n [] h = throws n
depth_loop-Within d n (c ∷ file) h = choose (not (isdigit c)) (reads n d (c ∷ file) h) (
    choose (not (ltb (d * 10) size_max)) (throws n) (
      choose (not (ltb (d * 10 + (c - b'0')) size_max)) (throws n)
        (depth_loop-Within (d * 10 + (c - b'0')) n file (omega arith))))

weaken : (n : ℕ) (file : List ℕ) → length file ≤ n → length file ≤ suc n
weaken n file h = omega arith

digits : (name : Name) (n : ℕ) (file : List ℕ) → length file ≤ n → Within n (read_depth name file)
unfolding read_depth
digits name n file h = bind (current_c file) _ (current_c-Within n file h) (λ c r₁ l₁.
    bind (demand (leb b'1' c && leb c b'9') r₁) _ (demand-Within (leb b'1' c && leb c b'9') n r₁ l₁)
      (λ u₂ r₂ l₂. bind (consume_c_nocheck r₂) _ (nocheck-Within n r₂ (omega arith)) (λ u₃ r₃ l₃.
        bind (depth_loop (c - b'0') r₃) _ (depth_loop-Within (c - b'0') n r₃ l₃) (λ depth r₄ l₄.
          bind (consume_c b'\n' (skip_spaces r₄)) _
            (consume_c-Within b'\n' n (skip_spaces r₄)
              (weaken n (skip_spaces r₄) (skip_le n r₄ l₄)))
            (λ u₅ r₅ l₅. reads n (record { name = name; depth = depth }) r₅ l₅)))))

pub parse_pool-Within : (n : ℕ) (file : List ℕ) → length file ≤ suc n → Within n (parse_pool file)
unfolding parse_pool
parse_pool-Within n file h =
    bind (consume (codes "pool") file) _ (consume-Within_strict b'p' (codes "ool") n file h)
      (λ u₁ r₁ l₁. bind (keyword_end r₁) _ (keyword_end-Within n r₁ l₁) (λ u₂ r₂ l₂.
        bind (parse_identifier (skip_spaces r₂)) _
          (parse_identifier-Within n (skip_spaces r₂) (skip_le n r₂ l₂))
          (λ name r₃ l₃.
            bind (consume_c b'\n' (skip_spaces r₃)) _
              (consume_c-Within b'\n' n (skip_spaces r₃)
                (weaken n (skip_spaces r₃) (skip_le n r₃ l₃)))
              (λ u₄ r₄ l₄.
                bind (consume_c b' ' r₄) _ (consume_c-Within b' ' n r₄ (omega arith)) (λ u₅ r₅ l₅.
                  bind (consume (codes "depth") (skip_spaces r₅)) _
                    (consume-Within (codes "depth") n (skip_spaces r₅) (skip_le n r₅ l₅))
                    (λ u₆ r₆ l₆.
                      bind (consume_c b'=' (skip_spaces r₆)) _
                        (consume_c-Within b'=' n (skip_spaces r₆)
                          (weaken n (skip_spaces r₆) (skip_le n r₆ l₆)))
                        (λ u₇ r₇ l₇. digits name n (skip_spaces r₇) (skip_le n r₇ l₇))))))))

abbrev target_ends : List ℕ
target_ends = codes " \n"

no_end :
    (x c : ℕ) (file tail : List ℕ)
    → (x == b'\n') ≡ false
    → x ∷ file ≡ c ∷ tail
    → elem_code c target_ends ≡ true
    → (c == b' ') ≡ false
    → ⊥
no_end x c file tail e same m s =
    let q : x ≡ c = cc in let f : (c == b'\n') ≡ false = rw q at e in ground arith

default_loop-Within :
    (variables : List (Name × Variable)) (f n : ℕ) (file : List ℕ)
    → length file < f
    → length file ≤ n
    → Within n (default_loop variables f file)
unfolding default_loop
default_loop-Within variables zero n file h k = absurd (omega arith)
default_loop-Within variables (suc f) n [] h k = throws n
default_loop-Within variables (suc f) n (x ∷ file) h k = elim (Bool-cases (x == b'\n')) [
  | inl e ↦ rw e (reads n [] file (omega arith))
  | inr e ↦ elim (text-Item target_ends variables (x ∷ file)).cases [
    | inr (fault, q, d) ↦ rw (e, q) (fails n fault d)
    | inl (out, rest, q, le, inl less) ↦
        rw (e, q)
          (bind (default_loop variables f (skip_spaces rest)) _
            (default_loop-Within variables f n (skip_spaces rest) (omega arith) (omega arith))
            (λ more r l. reads n (out ∷ more) r l))
    | inl (out, rest, q, le, inr (c, tail, same, at, skips, m, s)) ↦
        absurd (no_end x c file tail e same m s)
  ]
]

pub parse_default-Within :
    (st : NinjaState) (n : ℕ) (file : List ℕ)
    → length file ≤ suc n
    → Within n (parse_default st file)
unfolding parse_default
parse_default-Within st n file h =
    bind (consume (codes "default") file) _ (consume-Within_strict b'd' (codes "efault") n file h)
      (λ u₁ r₁ l₁. bind (keyword_end r₁) _ (keyword_end-Within n r₁ l₁) (λ u₂ r₂ l₂.
        bind (default_loop st.variables (suc (length (skip_spaces r₂))) (skip_spaces r₂)) _
          (default_loop-Within st.variables (suc (length (skip_spaces r₂))) n (skip_spaces r₂)
            (omega arith) (skip_le n r₂ l₂))
          (λ targets r₃ l₃.
            bind (contract (some_target targets) r₃) _
              (contract-Within (some_target targets) n r₃ l₃) (λ u₄ r₄ l₄. reads n targets r₄ l₄))))

path_dollar-Within :
    (variables : List (Name × Variable)) (n : ℕ) (file : List ℕ)
    → length file ≤ n
    → Within n (path_dollar variables file)
unfolding path_dollar
path_dollar-Within variables n file h =
    test_c b' ' file _ h (λ r l. reads n (b' ' ∷ []) r (omega arith))
      (λ r₁ l₁.
        test_c b'$' r₁ _ l₁ (λ r l. reads n (b'$' ∷ []) r (omega arith))
          (λ r₂ l₂.
            bind (reference r₂) _ (reference-Within n r₂ l₂)
              (λ id r₃ l₃. reads n (variable_value id variables) r₃ l₃)))

path_loop-Within :
    (variables : List (Name × Variable)) (f n : ℕ) (file : List ℕ)
    → length file < f
    → length file ≤ n
    → Within n (path_loop variables f file)
unfolding path_loop
path_loop-Within variables zero n file h k = absurd (omega arith)
path_loop-Within variables (suc f) n [] h k = throws n
path_loop-Within variables (suc f) n (c ∷ file) h k = elim (Bool-cases (c == b' ' || c == b'\n')) [
  | inl e ↦ rw e (reads n [] (c ∷ file) k)
  | inr e ↦ elim (Bool-cases (c == b'$')) [
    | inl q ↦
        rw (e, q)
          (bind (path_dollar variables file) _
            (path_dollar-Within variables (length file) file (omega arith))
            (λ piece r₁ l₁.
              bind (path_loop variables f r₁) _
                (path_loop-Within variables f n r₁ (omega arith) (omega arith))
                (λ more r₂ l₂. reads n (piece ++ more) r₂ l₂)))
    | inr q ↦
        rw (e, q)
          (bind (path_loop variables f file) _
            (path_loop-Within variables f n file (omega arith) (omega arith))
            (λ more r₂ l₂. reads n (c ∷ more) r₂ l₂))
  ]
]

path_end :
    (n : ℕ) (comment : Bool) (file : List ℕ) → length file ≤ n → Within n (end_of_path comment file)
unfolding end_of_path
path_end n true file h = skip_line-Within n file (omega arith)
path_end n false file h = consume_c-Within b'\n' n file (omega arith)

pub parse_include-Within :
    (st : NinjaState) (n : ℕ) (file : List ℕ)
    → length file ≤ suc n
    → Within n (parse_include st file)
unfolding parse_include
parse_include-Within st n file h =
    bind (consume (codes "include") file) _ (consume-Within_strict b'i' (codes "nclude") n file h)
      (λ u₁ r₁ l₁. bind (keyword_end r₁) _ (keyword_end-Within n r₁ l₁) (λ u₂ r₂ l₂.
        bind (path_loop st.variables (suc (length (skip_spaces r₂))) (skip_spaces r₂)) _
          (path_loop-Within st.variables (suc (length (skip_spaces r₂))) n (skip_spaces r₂)
            (omega arith) (skip_le n r₂ l₂))
          (λ path r₃ l₃.
            bind (consume_c_if b'#' (skip_spaces r₃)) _
              (consume_c_if-Within b'#' n (skip_spaces r₃) (skip_le n r₃ l₃))
              (λ comment r₄ l₄.
                bind (end_of_path comment r₄) _ (path_end n comment r₄ l₄)
                  (λ u₅ r₅ l₅. reads n path r₅ l₅)))))
