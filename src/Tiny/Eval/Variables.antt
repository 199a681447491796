-- ===== src/Tiny/Eval/Variables.antt =====
-- The map of variables: what is read after an assignment.
use all.Prelude.{◌≡◌, ◌≢◌, sym, ◌∙◌, false, [], ◌∷◌, Bool-cases, inl, inr}
use all.Prelude.Names.{same_name, same_name_refl, same_name-eq, same_name-ne}
use all.Prelude.Result.{ok}
use all.Tiny.Syntax.{Identifier}
use all.Tiny.Eval.{EvalValue, Variables, at, insert_or_assign}

at-assigned :
    (name : Identifier) (value : EvalValue) (vars : Variables)
    → at (insert_or_assign name value vars) name ≡ ok value
unfolding at insert_or_assign
at-assigned name value [] = rw (same_name_refl name)
at-assigned name value ((x, v) ∷ vars) = elim (Bool-cases (same_name x name)) [
  | inl e ↦ rw e (rw e)
  | inr e ↦ rw e (rw e (at-assigned name value vars))
]

at-other :
    (name other : Identifier) (value : EvalValue) (vars : Variables)
    → name ≢ other
    → at (insert_or_assign name value vars) other ≡ at vars other
unfolding at insert_or_assign
at-other name other value [] d = rw (same_name-ne name other d)
at-other name other value ((x, v) ∷ vars) d = elim (Bool-cases (same_name x name)) [
  | inl e ↦
      let apart : same_name x other ≡ false =
        same_name-ne x other (λ p. d (sym (same_name-eq x name e) ∙ p)) in
      rw (e, apart)
  | inr e ↦ elim (Bool-cases (same_name x other)) [
    | inl f ↦ rw (e, f)
    | inr f ↦ rw (e, f) (at-other name other value vars d)
  ]
]

-- After `insert_or_assign` the variable has the value, and every other name reads as before, also
-- where it throws.
pub insert_or_assign_lem :
    (name : Identifier) (value : EvalValue) (vars : Variables)
    → (at (insert_or_assign name value vars) name ≡ ok value)
      × ((other : Identifier)
          → name ≢ other
          → at (insert_or_assign name value vars) other ≡ at vars other)
insert_or_assign_lem name value vars =
    (at-assigned name value vars, λ other d. at-other name other value vars d)
