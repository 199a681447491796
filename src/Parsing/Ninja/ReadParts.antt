-- ===== src/Parsing/Ninja/ReadParts.antt =====
-- What `parse_rule` and `parse_pool` promise of what they read.
use all.Prelude.{
  ℕ, zero, suc, ◌+◌, ◌-◌, ◌*◌, ◌≤◌, ◌<◌, ◌≡◌, subst, inl, inr, true, not, ◌&&◌, List, [], ◌∷◌,
  length, leb, ltb, ◌==◌, Bool-cases, ltb→lt, arith,
}
use all.Prelude.Result.{ok, failed-ne-ok, ok-first}
use all.Prelude.Chars.{codes, isdigit}
use all.Prelude.Names.{elem, insert, All, All-insert}
use all.Parsing.Text.{
  demand, continue-eq-ok, demand-eq-ok, current_c, consume_c, consume_c_if, consume_c_nocheck,
  consume,
}
use all.Parsing.Ninja.State.{Name, RuleVariable, Rule, Pool}
use all.Parsing.Ninja.Expand.{
  settable_rule_variables, with_fuel, skip_spaces, parse_identifier, value_loop,
  parse_rule_variable,
}
use all.Parsing.Ninja.Build.{skip_line, keyword_end}
use all.Parsing.Ninja.Declare.{
  size_max, skip_blanks, rule_loop, parse_rule, depth_loop, read_depth, rule_line_at, parse_pool,
}
use all.Parsing.Ninja.Invariant.{IsSettable}

parse_rule_variable-IsSettable :
    (file : List ℕ) {v : RuleVariable} {rest : List ℕ}
    → parse_rule_variable file ≡ ok (v, rest)
    → IsSettable (v.name, v)
unfolding parse_rule_variable
parse_rule_variable-IsSettable file {v} {rest} h =
    let (name, f₁, e₁, h₁) = continue-eq-ok (parse_identifier file) _ h in
    let (u₂, f₂, e₂, h₂) = continue-eq-ok (demand (elem name settable_rule_variables) f₁) _ h₁ in
    let (u₃, f₃, e₃, h₃) = continue-eq-ok (consume_c b'=' (skip_spaces f₂)) _ h₂ in
    let (pieces, f₄, e₄, h₄) =
      continue-eq-ok (with_fuel (λ f. value_loop f []) (skip_spaces f₃)) _ h₃ in
    subst (λ (w : RuleVariable). elem w.name settable_rule_variables ≡ true) (ok-first h₄)
      (demand-eq-ok (elem name settable_rule_variables) f₁ e₂).0

rule_line-IsSettable :
    (f : ℕ) (vars : List (Name × RuleVariable)) (c : ℕ) (file : List ℕ)
    {vars' : List (Name × RuleVariable)} {rest : List ℕ}
    → All IsSettable vars
    → rule_line_at (rule_loop f) vars c file ≡ ok (vars', rest)
    → ((w : List (Name × RuleVariable)) (file' : List ℕ) (w' : List (Name × RuleVariable))
          (rest' : List ℕ)
        → All IsSettable w
        → rule_loop f w file' ≡ ok (w', rest')
        → All IsSettable w')
    → All IsSettable vars'
unfolding rule_line_at
rule_line-IsSettable f vars c file {vars'} {rest} s h ih = elim (Bool-cases (c == b'#')) [
  | inl q ↦
      let (u, f₁, e₁, h₁) = continue-eq-ok (skip_line file) _ (rw q at h) in
      ih vars f₁ vars' rest s h₁
  | inr q ↦
      let (newline, f₁, e₁, h₁) = continue-eq-ok (consume_c_if b'\n' file) _ (rw q at h) in
      elim (Bool-cases newline) [
        | inl r ↦ subst (All IsSettable) (ok-first (rw r at h₁)) s
        | inr r ↦
            let (var, f₂, e₂, h₂) = continue-eq-ok (parse_rule_variable f₁) _ (rw r at h₁) in
            ih (insert var.name var vars) f₂ vars' rest
              (All-insert IsSettable var.name var vars
                (parse_rule_variable-IsSettable f₁ {v = var} {rest = f₂} e₂) s)
              h₂
      ]
]

rule_loop-IsSettable :
    (f : ℕ) (vars : List (Name × RuleVariable)) (file : List ℕ) {vars' : List (Name × RuleVariable)}
    {rest : List ℕ}
    → All IsSettable vars
    → rule_loop f vars file ≡ ok (vars', rest)
    → All IsSettable vars'
unfolding rule_loop
rule_loop-IsSettable zero vars file s h = absurd (failed-ne-ok h)
rule_loop-IsSettable (suc f) vars [] s h = subst (All IsSettable) (ok-first h) s
rule_loop-IsSettable (suc f) vars (c ∷ file) {vars'} {rest} s h = elim (Bool-cases (c == b'#')) [
  | inl e ↦
      let (u, f₁, e₁, h₁) = continue-eq-ok (skip_line (c ∷ file)) _ (rw e at h) in
      rule_loop-IsSettable f vars f₁ s h₁
  | inr e ↦ elim (Bool-cases (not (c == b' '))) [
    | inl k ↦ subst (All IsSettable) (ok-first (rw (e, k) at h)) s
    | inr k ↦
        let (u, f₁, e₁, h₁) = continue-eq-ok (skip_blanks (c ∷ file)) _ (rw (e, k) at h) in
        let (c', f₂, e₂, h₂) = continue-eq-ok (current_c f₁) _ h₁ in
        rule_line-IsSettable f vars c' f₂ {vars' = vars'} {rest = rest} s h₂
          (λ w file' w' rest' s' h'.
            rule_loop-IsSettable f w file' {vars' = w'} {rest = rest'} s' h')
  ]
]

pub parse_rule-IsSettable :
    (file : List ℕ) {r : Rule} {rest : List ℕ}
    → parse_rule file ≡ ok (r, rest)
    → All IsSettable r.variables
unfolding parse_rule
parse_rule-IsSettable file {r} {rest} h =
    let (u₁, f₁, e₁, h₁) = continue-eq-ok (consume (codes "rule") file) _ h in
    let (u₂, f₂, e₂, h₂) = continue-eq-ok (keyword_end f₁) _ h₁ in
    let (name, f₃, e₃, h₃) = continue-eq-ok (parse_identifier (skip_spaces f₂)) _ h₂ in
    let (u₄, f₄, e₄, h₄) = continue-eq-ok (consume_c b'\n' (skip_spaces f₃)) _ h₃ in
    let (vars, f₅, e₅, h₅) = continue-eq-ok (with_fuel (λ f. rule_loop f []) f₄) _ h₄ in
    subst (λ (r' : Rule). All IsSettable r'.variables) (ok-first h₅)
      (rule_loop-IsSettable (suc (length f₄)) [] f₄ tt e₅)

depth_loop-bounds :
    (n : ℕ) (file : List ℕ) {depth : ℕ} {rest : List ℕ}
    → 1 ≤ n
    → n < size_max
    → depth_loop n file ≡ ok (depth, rest)
    → (1 ≤ depth) × (depth < size_max)
unfolding depth_loop
depth_loop-bounds n [] l b h = absurd (failed-ne-ok h)
depth_loop-bounds n (c ∷ file) {depth} l b h = elim (Bool-cases (isdigit c)) [
  | inr e ↦ let q : n ≡ depth = ok-first (rw e at h) in omega arith
  | inl e ↦ elim (Bool-cases (ltb (n * 10) size_max)) [
    | inr k ↦ absurd (failed-ne-ok (rw (e, k) at h))
    | inl k ↦ elim (Bool-cases (ltb (n * 10 + (c - b'0')) size_max)) [
      | inr q ↦ absurd (failed-ne-ok (rw (e, k, q) at h))
      | inl q ↦
          depth_loop-bounds (n * 10 + (c - b'0')) file (omega arith)
            (ltb→lt (n * 10 + (c - b'0')) size_max q) (rw (e, k, q) at h)
    ]
  ]
]

digit_bounds : (c : ℕ) → (leb b'1' c && leb c b'9') ≡ true → (1 ≤ c - b'0') × (c - b'0' ≤ 9)
digit_bounds c h = (ground arith, ground arith)

pool_digits :
    (file : List ℕ) (name : Name) {p : Pool} {rest : List ℕ}
    → read_depth name file ≡ ok (p, rest)
    → (1 ≤ p.depth) × (p.depth < size_max)
unfolding read_depth
pool_digits file name {p} {rest} h =
    let (c, f₁, e₁, h₁) = continue-eq-ok (current_c file) _ h in
    let (u₂, f₂, e₂, h₂) = continue-eq-ok (demand (leb b'1' c && leb c b'9') f₁) _ h₁ in
    let (low, high) = digit_bounds c (demand-eq-ok (leb b'1' c && leb c b'9') f₁ e₂).0 in
    let (u₃, f₃, e₃, h₃) = continue-eq-ok (consume_c_nocheck f₂) _ h₂ in
    let (depth, f₄, e₄, h₄) = continue-eq-ok (depth_loop (c - b'0') f₃) _ h₃ in
    let (u₅, f₅, e₅, h₅) = continue-eq-ok (consume_c b'\n' (skip_spaces f₄)) _ h₄ in
    subst (λ (q : Pool). (1 ≤ q.depth) × (q.depth < size_max)) (ok-first h₅)
      (depth_loop-bounds (c - b'0') f₃ low (omega arith) e₄)

pub parse_pool-bounds :
    (file : List ℕ) {p : Pool} {rest : List ℕ}
    → parse_pool file ≡ ok (p, rest)
    → (1 ≤ p.depth) × (p.depth < size_max)
unfolding parse_pool
parse_pool-bounds file {p} {rest} h =
    let (u₁, f₁, e₁, h₁) = continue-eq-ok (consume (codes "pool") file) _ h in
    let (u₂, f₂, e₂, h₂) = continue-eq-ok (keyword_end f₁) _ h₁ in
    let (name, f₃, e₃, h₃) = continue-eq-ok (parse_identifier (skip_spaces f₂)) _ h₂ in
    let (u₄, f₄, e₄, h₄) = continue-eq-ok (consume_c b'\n' (skip_spaces f₃)) _ h₃ in
    let (u₅, f₅, e₅, h₅) = continue-eq-ok (consume_c b' ' f₄) _ h₄ in
    let (u₆, f₆, e₆, h₆) = continue-eq-ok (consume (codes "depth") (skip_spaces f₅)) _ h₅ in
    let (u₇, f₇, e₇, h₇) = continue-eq-ok (consume_c b'=' (skip_spaces f₆)) _ h₆ in
    pool_digits (skip_spaces f₇) name h₇
