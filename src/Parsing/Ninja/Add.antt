-- ===== src/Parsing/Ninja/Add.antt =====
-- What `parse_declaration` of ivl/parsing/ninja/default.hpp does to the state once a declaration is
-- read.
use all.Prelude.{not, List, [], ◌∷◌, ◌++◌, if◌then◌else◌}
use all.Prelude.Result.{Result, ok, failed, exception, assertion, ◌>>=◌}
use all.Prelude.Chars.{codes}
use all.Prelude.Names.{same_name, elem, contains, lookup, insert}
use all.Parsing.Ninja.State.{Name, Variable, Rule, Pool, Build, NinjaState}

-- `check`
unfoldable pub add_targets : List Name → List Name → Result (List Name)
add_targets [] targets = ok targets
add_targets (out ∷ outs) targets =
    if elem out targets then failed assertion else add_targets outs (out ∷ targets)

unfoldable pub add_defaults : List Name → NinjaState → Result NinjaState
add_defaults [] st = ok st
add_defaults (target ∷ more) st =
    if not (elem target st.targets)
    then failed assertion
    else add_defaults more (record st {
      defaults = if elem target st.defaults then st.defaults else target ∷ st.defaults;
    })

unfoldable pub add_rule : Rule → NinjaState → Result NinjaState
unfolding lookup insert
add_rule r st =
    if same_name r.name (codes "phony")
    then failed exception
    else if contains r.name st.rules
    then failed exception
    else ok (record st { rules = insert r.name r st.rules })

unfoldable pub add_pool : Pool → NinjaState → Result NinjaState
unfolding lookup insert
add_pool p st =
    if contains p.name st.pools
    then failed exception
    else ok (record st { pools = insert p.name p st.pools })

unfoldable pub add_build : Build → NinjaState → Result NinjaState
unfolding add_targets
add_build b st = do
  targets ← add_targets b.outputs st.targets
  targets' ← add_targets b.implicit_outputs targets
  ok (record st { targets = targets'; builds = st.builds ++ b ∷ [] })

unfoldable pub add_variable : Variable → NinjaState → NinjaState
unfolding insert
add_variable v st = record st { variables = insert v.name v st.variables }
