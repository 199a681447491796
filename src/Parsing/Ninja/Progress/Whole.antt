-- ===== src/Parsing/Ninja/Progress/Whole.antt =====
-- A file is read within the fuel, if the files that it includes are.
use all.Prelude.{
  ℕ, zero, suc, ◌≤◌, ◌<◌, ◌≡◌, ◌≢◌, ◌⊎◌, refl, inl, inr, not, List, [], ◌∷◌, length, arith,
  if◌then◌else◌, Bool-cases,
}
use all.Prelude.Result.{Result, Fault, ok, failed, exception, assertion, out_of_fuel, Result-cases}
use all.Prelude.Chars.{codes, starts_with}
use all.Prelude.Names.{same_name, contains, elem}
use all.Prelude.Within.{Within, reads}
use all.Parsing.Text.{demand, consume_c_if}
use all.Parsing.Progress.{
  throws, bind, demand-Within, consume_c-Within, consume_c_if-Within, lift-Within, test_c,
}
use all.Parsing.Ninja.State.{Name, Rule, Pool, Build, NinjaState}
use all.Parsing.Ninja.Expand.{skip_spaces, parse_variable}
use all.Parsing.Ninja.Build.{skip_line, parse_build}
use all.Parsing.Ninja.Declare.{parse_rule, parse_default, parse_pool, parse_include}
use all.Parsing.Ninja.Add.{add_targets, add_defaults, add_rule, add_pool, add_build, add_variable}
use all.Parsing.Ninja.File.{
  Kind, rule_decl, pool_decl, build_decl, default_decl, subninja_decl, include_decl, variable_decl,
  blank_line, kind_of, declare, parse_declaration, file_loop, ends_with_newline, parse_text_into,
}
use all.Parsing.Ninja.Progress.Texts.{skip_le, parse_variable-Within}
use all.Parsing.Ninja.Progress.BuildParts.{skip_line-Within, parse_build-Within}
use all.Parsing.Ninja.Progress.Declarations.{
  parse_rule-Within, parse_pool-Within, parse_default-Within, parse_include-Within,
}

ok_is_no_fault {ℓ} : {A : Type ℓ} {a : A} {e : Fault} → ok a ≡ failed e → ⊥
ok_is_no_fault h = cc

not_fuel : ◌≡◌ {A = Result NinjaState} (failed assertion) (failed out_of_fuel) → ⊥
not_fuel h = cc

same_fault : {e e' : Fault} → ◌≡◌ {A = Result NinjaState} (failed e) (failed e') → e ≡ e'
same_fault h = cc

add_rule-ne-fuel : (r : Rule) (st : NinjaState) → add_rule r st ≢ failed out_of_fuel
unfolding add_rule
add_rule-ne-fuel r st h = elim (Bool-cases (same_name r.name (codes "phony"))) [
  | inl e ↦
      let q : ◌≡◌ {A = Result NinjaState} (failed exception) (failed out_of_fuel) = rw e at h in cc
  | inr e ↦ elim (Bool-cases (contains r.name st.rules)) [
    | inl k ↦
        let q : ◌≡◌ {A = Result NinjaState} (failed exception) (failed out_of_fuel) =
          rw (e, k) at h in
        cc
    | inr k ↦ ok_is_no_fault (rw (e, k) at h)
  ]
]

add_pool-ne-fuel : (p : Pool) (st : NinjaState) → add_pool p st ≢ failed out_of_fuel
unfolding add_pool
add_pool-ne-fuel p st h = elim (Bool-cases (contains p.name st.pools)) [
  | inl k ↦
      let q : ◌≡◌ {A = Result NinjaState} (failed exception) (failed out_of_fuel) = rw k at h in cc
  | inr k ↦ ok_is_no_fault (rw k at h)
]

add_targets-ne-fuel :
    (outs targets : List Name) (e : Fault)
    → add_targets outs targets ≡ failed e
    → e ≡ out_of_fuel
    → ⊥
unfolding add_targets
add_targets-ne-fuel [] targets e h q = absurd (ok_is_no_fault h)
add_targets-ne-fuel (out ∷ outs) targets e h q = elim (Bool-cases (elem out targets)) [
  | inl k ↦ let p : ◌≡◌ {A = Result (List Name)} (failed assertion) (failed e) = rw k at h in cc
  | inr k ↦ add_targets-ne-fuel outs (out ∷ targets) e (rw k at h) q
]

add_build-ne-fuel : (b : Build) (st : NinjaState) → add_build b st ≢ failed out_of_fuel
unfolding add_build
add_build-ne-fuel b st h = elim (Result-cases (add_targets b.outputs st.targets)) [
  | inr (e, k) ↦ add_targets-ne-fuel b.outputs st.targets e k (same_fault (rw k at h))
  | inl (t, k) ↦ elim (Result-cases (add_targets b.implicit_outputs t)) [
    | inr (e, k') ↦ add_targets-ne-fuel b.implicit_outputs t e k' (same_fault (rw (k, k') at h))
    | inl (t', k') ↦ ok_is_no_fault (rw (k, k') at h)
  ]
]

add_defaults-ne-fuel : (ts : List Name) (st : NinjaState) → add_defaults ts st ≢ failed out_of_fuel
unfolding add_defaults
add_defaults-ne-fuel [] st h = ok_is_no_fault h
add_defaults-ne-fuel (t ∷ ts) st h = elim (Bool-cases (elem t st.targets)) [
  | inr e ↦ not_fuel (rw e at h)
  | inl e ↦
      add_defaults-ne-fuel ts
        (record st { defaults = if elem t st.defaults then st.defaults else t ∷ st.defaults })
        (rw e at h)
]

blank_line-Within : (n : ℕ) (file : List ℕ) → length file ≤ n → Within n (blank_line file)
unfolding blank_line
blank_line-Within n file h =
    bind (consume_c_if b'#' (skip_spaces file)) _
      (consume_c_if-Within b'#' n (skip_spaces file) (skip_le n file h))
      (λ comment r l. elim (Bool-cases comment) [
        | inl e ↦ rw e (skip_line-Within n r (omega arith))
        | inr e ↦ rw e (consume_c-Within b'\n' n r (omega arith))
      ])

module _ (read_into : List ℕ → NinjaState → Result NinjaState)
    (within : (path : List ℕ) (st : NinjaState) → read_into path st ≢ failed out_of_fuel) where
  declare-Within :
      (k : Kind) (st : NinjaState) (n : ℕ) (file : List ℕ)
      → length file ≤ suc n
      → Within n (declare read_into k st file)
  unfolding declare
  declare-Within rule_decl st n file h =
      bind (parse_rule file) _ (parse_rule-Within n file h)
        (λ r rest l. lift-Within (add_rule r st) n rest (add_rule-ne-fuel r st) l)
  declare-Within pool_decl st n file h =
      bind (parse_pool file) _ (parse_pool-Within n file h)
        (λ p rest l. lift-Within (add_pool p st) n rest (add_pool-ne-fuel p st) l)
  declare-Within build_decl st n file h =
      bind (parse_build st file) _ (parse_build-Within st n file h)
        (λ b rest l. lift-Within (add_build b st) n rest (add_build-ne-fuel b st) l)
  declare-Within default_decl st n file h =
      bind (parse_default st file) _ (parse_default-Within st n file h)
        (λ ts rest l. lift-Within (add_defaults ts st) n rest (add_defaults-ne-fuel ts st) l)
  declare-Within subninja_decl st n file h = throws n
  declare-Within include_decl st n file h =
      bind (parse_include st file) _ (parse_include-Within st n file h)
        (λ path rest l. lift-Within (read_into path st) n rest (within path st) l)
  declare-Within variable_decl st n file h =
      bind (parse_variable st.variables file) _ (parse_variable-Within st.variables n file h)
        (λ v rest l. reads n (add_variable v st) rest l)

  parse_declaration-Within :
      (st : NinjaState) (n : ℕ) (file : List ℕ)
      → length file ≤ suc n
      → Within n (parse_declaration read_into st file)
  unfolding parse_declaration
  parse_declaration-Within st n file h =
      test_c b'\n' file _ h (λ r l. reads n st r (omega arith))
        (λ r₁ l₁.
          bind (demand (not (starts_with (b'$' ∷ b'\n' ∷ []) r₁)) r₁) _
            (demand-Within (not (starts_with (b'$' ∷ b'\n' ∷ []) r₁)) (suc n) r₁ l₁)
            (λ u r₂ l₂.
              test_c b'#' r₂ _ l₂
                (λ r l.
                  bind (skip_line r) _ (skip_line-Within n r (omega arith))
                    (λ u' r' l'. reads n st r' l'))
                (λ r₃ l₃.
                  test_c b' ' r₃ _ l₃
                    (λ r l.
                      bind (blank_line r) _ (blank_line-Within n r (omega arith))
                        (λ u' r' l'. reads n st r' l'))
                    (λ r₄ l₄. declare-Within (kind_of r₄) st n r₄ l₄))))

  file_loop-Within :
      (f : ℕ) (st : NinjaState) (n : ℕ) (file : List ℕ)
      → length file < f
      → length file ≤ n
      → Within n (file_loop read_into f st file)
  unfolding file_loop
  file_loop-Within zero st n file h k = absurd (omega arith)
  file_loop-Within (suc f) st n [] h k = reads n st [] k
  file_loop-Within (suc f) st n (c ∷ file) h k =
      bind (parse_declaration read_into st (c ∷ file)) _
        (parse_declaration-Within st (length file) (c ∷ file) (omega arith))
        (λ st' r l. file_loop-Within f st' n r (omega arith) (omega arith))

  -- Where no file that a text includes runs out of its fuel, `parse_text_into` reads the text
  -- within its own: whatever the text and the state before, it gives a state, or fails with a fault
  -- of the program.
  pub parse_text_into-settles :
      (text : List ℕ) (st : NinjaState)
      → ((st' : NinjaState) × (parse_text_into read_into text st ≡ ok st'))
        ⊎ ((e : Fault) × (parse_text_into read_into text st ≡ failed e) × (e ≢ out_of_fuel))
  unfolding parse_text_into
  parse_text_into-settles [] st = inl (st, refl)
  parse_text_into-settles (c ∷ text) st = elim (Bool-cases (not (ends_with_newline (c ∷ text)))) [
    | inl e ↦ inr (exception, rw e, λ q. cc)
    | inr e ↦
        elim (file_loop-Within (suc (length (c ∷ text))) st (length (c ∷ text)) (c ∷ text)
          (omega arith) (omega arith)).cases [
            | inl ((st', rest), q, l) ↦ inl (st', rw (e, q))
            | inr (fault, q, d) ↦ inr (fault, rw (e, q), d)
          ]
  ]
