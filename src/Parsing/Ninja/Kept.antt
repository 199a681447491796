-- ===== src/Parsing/Ninja/Kept.antt =====
-- The declarations keep the state consistent, and so does a file.
use all.Prelude.{
  ℕ, zero, suc, ◌≡◌, refl, subst, inl, inr, not, Option, List, [], ◌∷◌, length, Option-cases,
  Bool-cases,
}
use all.Prelude.Result.{Result, ok, failed, failed-ne-ok, ok-first, ok-injective}
use all.Prelude.Chars.{starts_with}
use all.Parsing.Text.{M, demand, continue, continue-eq-ok, lift-eq-ok, consume_c_if}
use all.Parsing.Ninja.State.{NinjaState}
use all.Parsing.Ninja.Expand.{parse_variable}
use all.Parsing.Ninja.Build.{skip_line, parse_build}
use all.Parsing.Ninja.Declare.{parse_rule, parse_default, parse_pool, parse_include}
use all.Parsing.Ninja.Add.{add_rule, add_pool, add_build, add_defaults}
use all.Parsing.Ninja.File.{
  Kind, rule_decl, pool_decl, build_decl, default_decl, subninja_decl, include_decl, variable_decl,
  declare, kind_of, blank_line, parse_declaration, file_loop, ends_with_newline, final,
  parse_text_into, parse_file_into, parse, empty_state,
}
use all.Parsing.Ninja.Invariant.{
  IsConsistent, empty_state-IsConsistent, add_rule-IsConsistent, add_pool-IsConsistent,
  add_build-IsConsistent, add_variable-IsConsistent, add_defaults-IsConsistent,
}
use all.Parsing.Ninja.ReadParts.{parse_rule-IsSettable, parse_pool-bounds}

final_state :
    (r : Result (NinjaState × List ℕ)) {st : NinjaState}
    → final r ≡ ok st
    → (st' : NinjaState) × (rest : List ℕ) × (r ≡ ok (st', rest)) × (st' ≡ st)
final_state (ok (st', rest)) h = (st', rest, refl, ok-injective h)
final_state (failed e) h = absurd (failed-ne-ok h)

module _ (read_into : List ℕ → NinjaState → Result NinjaState)
    (keeps : (path : List ℕ) (st st' : NinjaState)
      → IsConsistent st
      → read_into path st ≡ ok st'
      → IsConsistent st') where
  declare-IsConsistent :
      (k : Kind) (st : NinjaState) (file : List ℕ) {st' : NinjaState} {rest : List ℕ}
      → IsConsistent st
      → declare read_into k st file ≡ ok (st', rest)
      → IsConsistent st'
  unfolding declare
  declare-IsConsistent rule_decl st file {st'} {rest} v h =
      let (r, f₁, e₁, h₁) = continue-eq-ok (parse_rule file) _ h in
      add_rule-IsConsistent r st v (parse_rule-IsSettable file {r = r} {rest = f₁} e₁)
        (lift-eq-ok (add_rule r st) f₁ {a = st'} {rest = rest} h₁)
  declare-IsConsistent pool_decl st file {st'} {rest} v h =
      let (p, f₁, e₁, h₁) = continue-eq-ok (parse_pool file) _ h in
      add_pool-IsConsistent p st v (parse_pool-bounds file {p = p} {rest = f₁} e₁)
        (lift-eq-ok (add_pool p st) f₁ {a = st'} {rest = rest} h₁)
  declare-IsConsistent build_decl st file {st'} {rest} v h =
      let (b, f₁, e₁, h₁) = continue-eq-ok (parse_build st file) _ h in
      add_build-IsConsistent b st v (lift-eq-ok (add_build b st) f₁ {a = st'} {rest = rest} h₁)
  declare-IsConsistent default_decl st file {st'} {rest} v h =
      let (ts, f₁, e₁, h₁) = continue-eq-ok (parse_default st file) _ h in
      add_defaults-IsConsistent ts st v
        (lift-eq-ok (add_defaults ts st) f₁ {a = st'} {rest = rest} h₁)
  declare-IsConsistent subninja_decl st file v h = absurd (failed-ne-ok h)
  declare-IsConsistent include_decl st file {st'} {rest} v h =
      let (path, f₁, e₁, h₁) = continue-eq-ok (parse_include st file) _ h in
      keeps path st st' v (lift-eq-ok (read_into path st) f₁ {a = st'} {rest = rest} h₁)
  declare-IsConsistent variable_decl st file v h =
      let (x, f₁, e₁, h₁) = continue-eq-ok (parse_variable st.variables file) _ h in
      subst IsConsistent (ok-first h₁) (add_variable-IsConsistent x st v)

  -- A comment or a blank line leaves the state.
  same_state :
      (m : M (Unit {0})) (st : NinjaState) (file : List ℕ) {st' : NinjaState} {rest : List ℕ}
      → IsConsistent st
      → continue (m file) (λ u text. ok (st, text)) ≡ ok (st', rest)
      → IsConsistent st'
  same_state m st file v h =
      let (u, f₁, e₁, h₁) = continue-eq-ok (m file) _ h in subst IsConsistent (ok-first h₁) v

  parse_declaration-IsConsistent :
      (st : NinjaState) (file : List ℕ) {st' : NinjaState} {rest : List ℕ}
      → IsConsistent st
      → parse_declaration read_into st file ≡ ok (st', rest)
      → IsConsistent st'
  unfolding parse_declaration
  parse_declaration-IsConsistent st file {st'} {rest} v h =
      let (newline, f₁, e₁, h₁) = continue-eq-ok (consume_c_if b'\n' file) _ h in
      elim (Bool-cases newline) [
        | inl q ↦ subst IsConsistent (ok-first (rw q at h₁)) v
        | inr q ↦
            let (u, f₂, e₂, h₂) =
              continue-eq-ok (demand (not (starts_with (b'$' ∷ b'\n' ∷ []) f₁)) f₁) _
                (rw q at h₁) in
            let (comment, f₃, e₃, h₃) = continue-eq-ok (consume_c_if b'#' f₂) _ h₂ in
            elim (Bool-cases comment) [
              | inl r ↦ same_state skip_line st f₃ {st' = st'} {rest = rest} v (rw r at h₃)
              | inr r ↦
                  let (space, f₄, e₄, h₄) = continue-eq-ok (consume_c_if b' ' f₃) _ (rw r at h₃) in
                  elim (Bool-cases space) [
                    | inl t ↦ same_state blank_line st f₄ {st' = st'} {rest = rest} v (rw t at h₄)
                    | inr t ↦
                        declare-IsConsistent (kind_of f₄) st f₄ {st' = st'} {rest = rest} v
                          (rw t at h₄)
                  ]
            ]
      ]

  file_loop-IsConsistent :
      (f : ℕ) (st : NinjaState) (file : List ℕ) {st' : NinjaState} {rest : List ℕ}
      → IsConsistent st
      → file_loop read_into f st file ≡ ok (st', rest)
      → IsConsistent st'
  unfolding file_loop
  file_loop-IsConsistent zero st file v h = absurd (failed-ne-ok h)
  file_loop-IsConsistent (suc f) st [] v h = subst IsConsistent (ok-first h) v
  file_loop-IsConsistent (suc f) st (c ∷ file) {st'} {rest} v h =
      let (st₁, f₁, e₁, h₁) = continue-eq-ok (parse_declaration read_into st (c ∷ file)) _ h in
      file_loop-IsConsistent f st₁ f₁ {st' = st'} {rest = rest}
        (parse_declaration-IsConsistent st (c ∷ file) {st' = st₁} {rest = f₁} v e₁) h₁

  pub parse_text_into-IsConsistent :
      (text : List ℕ) (st : NinjaState) {st' : NinjaState}
      → IsConsistent st
      → parse_text_into read_into text st ≡ ok st'
      → IsConsistent st'
  unfolding parse_text_into
  parse_text_into-IsConsistent [] st v h = subst IsConsistent (ok-injective h) v
  parse_text_into-IsConsistent (c ∷ file) st v h =
      elim (Bool-cases (not (ends_with_newline (c ∷ file)))) [
        | inl e ↦ absurd (failed-ne-ok (rw e at h))
        | inr e ↦
            let (st₁, f₁, e₁, q) =
              final_state (file_loop read_into (suc (length (c ∷ file))) st (c ∷ file))
                (rw e at h) in
            subst IsConsistent q
              (file_loop-IsConsistent (suc (length (c ∷ file))) st (c ∷ file) v e₁)
      ]

parse_file_into-IsConsistent :
    (read_file : List ℕ → Option (List ℕ)) (depth : ℕ) (path : List ℕ) (st st' : NinjaState)
    → IsConsistent st
    → parse_file_into read_file depth path st ≡ ok st'
    → IsConsistent st'
unfolding parse_file_into
parse_file_into-IsConsistent read_file zero path st st' v h = absurd (failed-ne-ok h)
parse_file_into-IsConsistent read_file (suc depth) path st st' v h =
    elim (Option-cases (read_file path)) [
      | inl e ↦ absurd (failed-ne-ok (rw e at h))
      | inr (text, e) ↦
          parse_text_into-IsConsistent (parse_file_into read_file depth)
            (parse_file_into-IsConsistent read_file depth) text st {st' = st'} v (rw e at h)
    ]

-- Whatever files there are, where `parse` gives a state, that state is consistent: its targets
-- are the outputs and the implicit outputs of its builds, and no path is an output twice; its
-- defaults are targets, and none of them stands there twice; each rule, pool and variable stands
-- under its name, no rule is called phony, every variable that a rule sets is one of those that
-- can be set, and the depth of each pool is at least 1 and below 2 ^ 64.
pub parse-IsConsistent :
    (read_file : List ℕ → Option (List ℕ)) (depth : ℕ) (path : List ℕ) {st : NinjaState}
    → parse read_file depth path ≡ ok st
    → IsConsistent st
unfolding parse
parse-IsConsistent read_file depth path {st} h =
    parse_file_into-IsConsistent read_file depth path empty_state st empty_state-IsConsistent h
