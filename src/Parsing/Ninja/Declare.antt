-- ===== src/Parsing/Ninja/Declare.antt =====
-- The other declarations, and the file: `parse_rule`, `parse_pool`, `parse_default`,
-- `parse_include`, `parse_declaration`, `parse_text_into` and `parse_file_into`.
use all.Prelude.{
  ℕ, zero, suc, ◌+◌, ◌-◌, ◌*◌, Bool, true, false, not, ◌&&◌, ◌||◌, List, [], ◌∷◌, ◌++◌, ◌==◌, leb,
  ltb, if◌then◌else◌,
}
use all.Prelude.Result.{ok, failed, exception, out_of_fuel}
use all.Prelude.Chars.{codes, isdigit}
use all.Prelude.Names.{insert}
use all.Parsing.Text.{
  M, ◌>>=◌, ◌>>◌, return, demand, contract, finished, current_c, consume_c_nocheck, consume_c,
  consume_c_if, consume,
}
use all.Parsing.Ninja.State.{Name, Variable, RuleVariable, Rule, Pool, NinjaState}
use all.Parsing.Ninja.Expand.{
  with_fuel, consume_spaces, parse_identifier, variable_value, reference, parse_expanded_text,
  parse_rule_variable,
}
use all.Parsing.Ninja.Build.{keyword_end, skip_line}

-- `while (consume_c_if(' '))`
unfoldable pub skip_blanks : M (Unit {0})
skip_blanks [] = ok (tt, [])
skip_blanks (c ∷ file) =
    let more = skip_blanks file in if c == b' ' then more else ok (tt, c ∷ file)

-- A line of a rule behind its blanks, on its first character: a comment, an empty line, which ends
-- the rule, or a variable.
unfoldable pub rule_line_at :
    (List (Name × RuleVariable) → M (List (Name × RuleVariable)))
    → List (Name × RuleVariable)
    → ℕ
    → M (List (Name × RuleVariable))
unfolding skip_line consume_c_if parse_rule_variable insert
rule_line_at rounds vars c = if c == b'#' then skip_line >> rounds vars else do
  newline ← consume_c_if b'\n'
  if newline then return vars else do var ← parse_rule_variable; rounds (insert var.name var vars)

-- The variables of a rule, on the lines that begin with a space.
unfoldable pub rule_loop : ℕ → List (Name × RuleVariable) → M (List (Name × RuleVariable))
unfolding finished current_c skip_line skip_blanks rule_line_at
rule_loop zero vars file = failed out_of_fuel
rule_loop (suc f) vars file =
    (do
      done ← finished
      if done then return vars else do
        c ← current_c
        if c == b'#'
            then skip_line >> rule_loop f vars
            else if not (c == b' ')
            then return vars
            else do skip_blanks; c' ← current_c; rule_line_at (rule_loop f) vars c')
      file

unfoldable pub parse_rule : M Rule
unfolding consume keyword_end consume_spaces parse_identifier consume_c rule_loop
parse_rule = do
  consume (codes "rule")
  keyword_end
  consume_spaces
  name ← parse_identifier
  consume_spaces
  consume_c b'\n'
  vars ← with_fuel (λ f. rule_loop f [])
  return (record { name = name; variables = vars })

-- `while (!consume_c_if('\n'))`
unfoldable pub default_loop : List (Name × Variable) → ℕ → M (List Name)
unfolding consume_c_if parse_expanded_text consume_spaces
default_loop variables zero file = failed out_of_fuel
default_loop variables (suc f) file =
    (do
      newline ← consume_c_if b'\n'
      if newline then return [] else do
        target ← parse_expanded_text (codes " \n") variables
        consume_spaces
        more ← default_loop variables f
        return (target ∷ more))
      file

abbrev pub some_target : List Name → Bool
some_target [] = false
some_target (t ∷ ts) = true

unfoldable pub parse_default : NinjaState → M (List Name)
unfolding consume keyword_end consume_spaces default_loop
parse_default st = do
  consume (codes "default")
  keyword_end
  consume_spaces
  targets ← with_fuel (default_loop st.variables)
  contract (some_target targets)
  return targets

abbrev pub size_max : ℕ
size_max = 18_446_744_073_709_551_616

-- The digits after the first. `__builtin_mul_overflow` and `__builtin_add_overflow` are true where
-- a `size_t` does not hold the result.
unfoldable pub depth_loop : ℕ → M ℕ
depth_loop n [] = failed exception
depth_loop n (c ∷ file) =
    let more = depth_loop (n * 10 + (c - b'0')) file in
    if not (isdigit c)
    then ok (n, c ∷ file)
    else if not (ltb (n * 10) size_max)
    then failed exception
    else if not (ltb (n * 10 + (c - b'0')) size_max)
    then failed exception
    else more

-- From the first digit on.
unfoldable pub read_depth : Name → M Pool
unfolding depth_loop consume_spaces consume_c current_c consume_c_nocheck
read_depth name = do
  c ← current_c
  demand (leb b'1' c && leb c b'9')
  consume_c_nocheck
  depth ← depth_loop (c - b'0')
  consume_spaces
  consume_c b'\n'
  return (record { name = name; depth = depth })

unfoldable pub parse_pool : M Pool
unfolding consume keyword_end consume_spaces parse_identifier consume_c read_depth
parse_pool = do
  consume (codes "pool")
  keyword_end
  consume_spaces
  name ← parse_identifier
  consume_spaces
  consume_c b'\n'
  consume_c b' '
  consume_spaces
  consume (codes "depth")
  consume_spaces
  consume_c b'='
  consume_spaces
  read_depth name

-- After a `$` in the path of an `include`.
unfoldable pub path_dollar : List (Name × Variable) → M (List ℕ)
unfolding consume_c_if reference variable_value
path_dollar variables = do
  space ← consume_c_if b' '
  if space then return (b' ' ∷ []) else do
    dollar ← consume_c_if b'$'
    if dollar then return (b'$' ∷ []) else do id ← reference; return (variable_value id variables)

unfoldable pub path_loop : List (Name × Variable) → ℕ → M (List ℕ)
unfolding current_c consume_c_if consume_c_nocheck path_dollar
path_loop variables zero file = failed out_of_fuel
path_loop variables (suc f) file =
    (do
      c ← current_c
      if c == b' ' || c == b'\n' then return [] else do
        dollar ← consume_c_if b'$'
        piece ← if dollar then path_dollar variables else (do consume_c_nocheck; return (c ∷ []))
        more ← path_loop variables f
        return (piece ++ more))
      file

unfoldable pub end_of_path : Bool → M (Unit {0})
unfolding skip_line consume_c
end_of_path true = skip_line
end_of_path false = consume_c b'\n'

unfoldable pub parse_include : NinjaState → M (List ℕ)
unfolding consume keyword_end consume_spaces path_loop consume_c_if end_of_path
parse_include st = do
  consume (codes "include")
  keyword_end
  consume_spaces
  path ← with_fuel (path_loop st.variables)
  consume_spaces
  comment ← consume_c_if b'#'
  end_of_path comment
  return path

-- `starts_with_and_space`
abbrev pub space_next : List ℕ → Bool
space_next [] = false
space_next (c ∷ file) = c == b' ' || c == b'$'

abbrev pub starts_with_and_space : List ℕ → List ℕ → Bool
starts_with_and_space [] file = space_next file
starts_with_and_space (p ∷ ps) [] = false
starts_with_and_space (p ∷ ps) (c ∷ file) = p == c && starts_with_and_space ps file
