-- ===== src/Parsing/Ninja/Invariant.antt =====
-- What holds of the state of the parser after every declaration.
use all.Prelude.{
  ◌≤◌, ◌<◌, ◌≡◌, refl, sym, ap, ◌∙◌, subst, inl, inr, Bool, true, false, ◌||◌, List, [], ◌∷◌, ◌++◌,
  Bool-cases,
}
use all.Prelude.Result.{ok, failed-ne-ok, ok-injective, Result-cases}
use all.Prelude.Chars.{codes}
use all.Prelude.Names.{same_name, elem, contains, All, Distinct, All-insert}
use all.Parsing.Ninja.State.{Name, Variable, RuleVariable, Rule, Pool, Build, NinjaState}
use all.Parsing.Ninja.Expand.{settable_rule_variables}
use all.Parsing.Ninja.Declare.{size_max}
use all.Parsing.Ninja.Add.{add_targets, add_defaults, add_rule, add_pool, add_build, add_variable}
use all.Parsing.Ninja.File.{empty_state}

-- The targets after some outputs, and after some builds: the last in front.
abbrev pub push_all : List Name → List Name → List Name
push_all [] targets = targets
push_all (out ∷ outs) targets = push_all outs (out ∷ targets)

abbrev pub collect : List Build → List Name → List Name
collect [] targets = targets
collect (b ∷ bs) targets = collect bs (push_all b.implicit_outputs (push_all b.outputs targets))

abbrev pub IsSettable : Name × RuleVariable → Type 0
IsSettable p = elem p.0 settable_rule_variables ≡ true

abbrev pub IsRule : Name × Rule → Type 0
IsRule p = (p.1.name ≡ p.0) × (same_name p.0 (codes "phony") ≡ false) × All IsSettable p.1.variables

abbrev pub IsPool : Name × Pool → Type 0
IsPool p = (p.1.name ≡ p.0) × (1 ≤ p.1.depth) × (p.1.depth < size_max)

-- The targets are the outputs of the builds, and no path is an output twice. The defaults are
-- targets, none of them twice. Rules, pools and variables stand under their names; no rule is
-- called phony or sets an unknown variable, and the depth of a pool is a `size_t` and not 0.
pub record IsConsistent (st : NinjaState) : Type 0 where
  pub targets_are : st.targets ≡ collect st.builds []
  pub distinct : Distinct st.targets
  pub defaults_known : All (λ d. elem d st.targets ≡ true) st.defaults
  pub defaults_distinct : Distinct st.defaults
  pub rules : All IsRule st.rules
  pub pools : All IsPool st.pools
  pub variables : All (λ (p : Name × Variable). p.1.name ≡ p.0) st.variables

pub empty_state-IsConsistent : IsConsistent empty_state
empty_state-IsConsistent = record {
  targets_are = refl;
  distinct = tt;
  defaults_known = tt;
  defaults_distinct = tt;
  rules = tt;
  pools = tt;
  variables = tt;
}

add_targets-eq :
    (outs targets : List Name) {targets' : List Name}
    → Distinct targets
    → add_targets outs targets ≡ ok targets'
    → (targets' ≡ push_all outs targets) × Distinct targets'
unfolding add_targets
add_targets-eq [] targets {targets'} d h = let e = ok-injective h in (sym e, subst Distinct e d)
add_targets-eq (out ∷ outs) targets d h = elim (Bool-cases (elem out targets)) [
  | inl e ↦ absurd (failed-ne-ok (rw e at h))
  | inr e ↦ add_targets-eq outs (out ∷ targets) (e, d) (rw e at h)
]

or-true : (a : Bool) {b : Bool} → b ≡ true → (a || b) ≡ true
or-true true h = refl
or-true false h = h

elem-push_all :
    (outs targets : List Name) (d : Name)
    → elem d targets ≡ true
    → elem d (push_all outs targets) ≡ true
elem-push_all [] targets d h = h
elem-push_all (out ∷ outs) targets d h =
    elem-push_all outs (out ∷ targets) d (or-true (same_name out d) h)

All-elem-push_all :
    (outs targets defaults : List Name)
    → All (λ d. elem d targets ≡ true) defaults
    → All (λ d. elem d (push_all outs targets) ≡ true) defaults
All-elem-push_all outs targets [] h = tt
All-elem-push_all outs targets (d ∷ defaults) (k, h) =
    (elem-push_all outs targets d k, All-elem-push_all outs targets defaults h)

collect-append :
    (bs : List Build) (b : Build) (targets : List Name)
    → collect (bs ++ b ∷ []) targets
      ≡ push_all b.implicit_outputs (push_all b.outputs (collect bs targets))
collect-append [] b targets = refl
collect-append (c ∷ bs) b targets =
    collect-append bs b (push_all c.implicit_outputs (push_all c.outputs targets))

pub add_rule-IsConsistent :
    (r : Rule) (st : NinjaState) {st' : NinjaState}
    → IsConsistent st
    → All IsSettable r.variables
    → add_rule r st ≡ ok st'
    → IsConsistent st'
unfolding add_rule
add_rule-IsConsistent r st v s h = elim (Bool-cases (same_name r.name (codes "phony"))) [
  | inl e ↦ absurd (failed-ne-ok (rw e at h))
  | inr e ↦ elim (Bool-cases (contains r.name st.rules)) [
    | inl k ↦ absurd (failed-ne-ok (rw (e, k) at h))
    | inr k ↦ subst IsConsistent (ok-injective (rw (e, k) at h)) (record {
      targets_are = v.targets_are;
      distinct = v.distinct;
      defaults_known = v.defaults_known;
      defaults_distinct = v.defaults_distinct;
      rules = All-insert IsRule r.name r st.rules (refl, e, s) v.rules;
      pools = v.pools;
      variables = v.variables;
    })
  ]
]

pub add_pool-IsConsistent :
    (p : Pool) (st : NinjaState) {st' : NinjaState}
    → IsConsistent st
    → (1 ≤ p.depth) × (p.depth < size_max)
    → add_pool p st ≡ ok st'
    → IsConsistent st'
unfolding add_pool
add_pool-IsConsistent p st v (low, high) h = elim (Bool-cases (contains p.name st.pools)) [
  | inl k ↦ absurd (failed-ne-ok (rw k at h))
  | inr k ↦ subst IsConsistent (ok-injective (rw k at h)) (record {
    targets_are = v.targets_are;
    distinct = v.distinct;
    defaults_known = v.defaults_known;
    defaults_distinct = v.defaults_distinct;
    rules = v.rules;
    pools = All-insert IsPool p.name p st.pools (refl, low, high) v.pools;
    variables = v.variables;
  })
]

pub add_variable-IsConsistent :
    (x : Variable) (st : NinjaState) → IsConsistent st → IsConsistent (add_variable x st)
unfolding add_variable
add_variable-IsConsistent x st v = record {
  targets_are = v.targets_are;
  distinct = v.distinct;
  defaults_known = v.defaults_known;
  defaults_distinct = v.defaults_distinct;
  rules = v.rules;
  pools = v.pools;
  variables =
      All-insert (λ (p : Name × Variable). p.1.name ≡ p.0) x.name x st.variables refl v.variables;
}

with_build :
    (b : Build) (st : NinjaState) (targets' : List Name)
    → IsConsistent st
    → targets' ≡ push_all b.implicit_outputs (push_all b.outputs st.targets)
    → Distinct targets'
    → IsConsistent (record st { targets = targets'; builds = st.builds ++ b ∷ [] })
with_build b st targets' v e d = record {
  targets_are =
      e
      ∙ ap (λ t. push_all b.implicit_outputs (push_all b.outputs t)) v.targets_are
      ∙ sym (collect-append st.builds b []);
  distinct = d;
  defaults_known =
      subst (λ t. All (λ d'. elem d' t ≡ true) st.defaults) (sym e)
        (All-elem-push_all b.implicit_outputs (push_all b.outputs st.targets) st.defaults
          (All-elem-push_all b.outputs st.targets st.defaults v.defaults_known));
  defaults_distinct = v.defaults_distinct;
  rules = v.rules;
  pools = v.pools;
  variables = v.variables;
}

pub add_build-IsConsistent :
    (b : Build) (st : NinjaState) {st' : NinjaState}
    → IsConsistent st
    → add_build b st ≡ ok st'
    → IsConsistent st'
unfolding add_build
add_build-IsConsistent b st v h = elim (Result-cases (add_targets b.outputs st.targets)) [
  | inr (fault, e) ↦ absurd (failed-ne-ok (rw e at h))
  | inl (t, e) ↦ elim (Result-cases (add_targets b.implicit_outputs t)) [
    | inr (fault, k) ↦ absurd (failed-ne-ok (rw (e, k) at h))
    | inl (t', k) ↦
        let (p, d) = add_targets-eq b.outputs st.targets v.distinct e in
        let (q, d') = add_targets-eq b.implicit_outputs t d k in
        subst IsConsistent (ok-injective (rw (e, k) at h))
          (with_build b st t' v (q ∙ ap (push_all b.implicit_outputs) p) d')
  ]
]

with_default :
    (t : Name) (st : NinjaState)
    → IsConsistent st
    → elem t st.targets ≡ true
    → elem t st.defaults ≡ false
    → IsConsistent (record st { defaults = t ∷ st.defaults })
with_default t st v h k = record {
  targets_are = v.targets_are;
  distinct = v.distinct;
  defaults_known = (h, v.defaults_known);
  defaults_distinct = (k, v.defaults_distinct);
  rules = v.rules;
  pools = v.pools;
  variables = v.variables;
}

pub add_defaults-IsConsistent :
    (ts : List Name) (st : NinjaState) {st' : NinjaState}
    → IsConsistent st
    → add_defaults ts st ≡ ok st'
    → IsConsistent st'
unfolding add_defaults
add_defaults-IsConsistent [] st v h = subst IsConsistent (ok-injective h) v
add_defaults-IsConsistent (t ∷ ts) st v h = elim (Bool-cases (elem t st.targets)) [
  | inr e ↦ absurd (failed-ne-ok (rw e at h))
  | inl e ↦ elim (Bool-cases (elem t st.defaults)) [
    | inl k ↦ add_defaults-IsConsistent ts st v (rw (e, k) at h)
    | inr k ↦
        add_defaults-IsConsistent ts (record st { defaults = t ∷ st.defaults })
          (with_default t st v e k) (rw (e, k) at h)
  ]
]
