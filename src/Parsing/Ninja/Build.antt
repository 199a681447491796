-- ===== src/Parsing/Ninja/Build.antt =====
-- `parse_build` of ivl/parsing/ninja/default.hpp.
use all.Prelude.{
  Bool, true, false, ℕ, zero, suc, not, Option, none, some, ◌||◌, Option, none, some, List, [], ◌∷◌,
  ◌++◌, ◌==◌, if◌then◌else◌,
}
use all.Prelude.Result.{Result, ok, failed, exception, out_of_fuel}
use all.Prelude.Chars.{codes}
use all.Prelude.Names.{same_name, contains, lookup, insert}
use all.Parsing.Text.{
  M, lift, ◌>>=◌, ◌>>◌, return, demand, finished, current_c, consume_c, consume_c_if, consume,
  consume_if,
}
use all.Parsing.Ninja.State.{
  Name, Variable, Piece, text, identifier, RuleVariable, Rule, Build, NinjaState,
}
use all.Parsing.Ninja.Expand.{
  with_fuel, value_of, consume_spaces, parse_identifier, parse_expanded_text,
}

unfoldable pub or_newline : Bool → M (Unit {0})
unfolding consume_if
or_newline true = return tt
or_newline false = do newline ← consume_if (b'$' ∷ b'\n' ∷ []); demand newline

-- `consume_if(" ") || consume_if("$\n") || panic(...)`
unfoldable pub keyword_end : M (Unit {0})
unfolding consume_if or_newline
keyword_end = do space ← consume_if (b' ' ∷ []); or_newline space

-- `while (current_c() != '\n') consume_c_nocheck(); consume_c('\n');`
unfoldable pub skip_line : M (Unit {0})
skip_line [] = failed exception
skip_line (c ∷ file) = let more = skip_line file in if c == b'\n' then ok (tt, file) else more

-- How a list of paths ends: at its end, at a `|`, or at a `||`.
pub data Ending : Type 0 where
  closed one_bar two_bars : Ending

module _ (variables : List (Name × Variable)) where
  -- The outputs, up to `:` or to `|`.
  unfoldable pub outputs_loop : ℕ → M (List Name × Ending)
  unfolding consume_c_if parse_expanded_text consume_spaces current_c
  outputs_loop zero file = failed out_of_fuel
  outputs_loop (suc f) file =
      (do
        colon ← consume_c_if b':'
        if colon then return ([], closed) else do
          output ← parse_expanded_text (codes " :|\n") variables
          consume_spaces
          c ← current_c
          demand (not (c == b'\n'))
          bar ← consume_c_if b'|'
          if bar
              then return (output ∷ [], one_bar)
              else do (outputs, ending) ← outputs_loop f; return (output ∷ outputs, ending))
        file

  -- The implicit outputs, up to `:`.
  unfoldable pub implicit_outputs_loop : ℕ → M (List Name)
  unfolding consume_c_if parse_expanded_text consume_spaces current_c
  implicit_outputs_loop zero file = failed out_of_fuel
  implicit_outputs_loop (suc f) file =
      (do
        colon ← consume_c_if b':'
        if colon then return [] else do
          output ← parse_expanded_text (codes " :|\n") variables
          consume_spaces
          c ← current_c
          demand (not (c == b'\n'))
          demand (not (c == b'|'))
          outputs ← implicit_outputs_loop f
          return (output ∷ outputs))
        file

  -- The inputs, up to the end of the line, to `|` or to `||`.
  unfoldable pub inputs_loop : ℕ → M (List Name × Ending)
  unfolding consume_c_if parse_expanded_text consume_spaces
  inputs_loop zero file = failed out_of_fuel
  inputs_loop (suc f) file =
      (do
        newline ← consume_c_if b'\n'
        if newline then return ([], closed) else do
          input ← parse_expanded_text (codes " |\n") variables
          consume_spaces
          bar ← consume_c_if b'|'
          if bar
              then (do
                second ← consume_c_if b'|'
                return (input ∷ [], if second then two_bars else one_bar))
              else do (inputs, ending) ← inputs_loop f; return (input ∷ inputs, ending))
        file

  -- The implicit inputs, up to the end of the line or to `||`.
  unfoldable pub implicit_inputs_loop : ℕ → M (List Name × Ending)
  unfolding consume_c_if consume_c parse_expanded_text consume_spaces
  implicit_inputs_loop zero file = failed out_of_fuel
  implicit_inputs_loop (suc f) file =
      (do
        newline ← consume_c_if b'\n'
        if newline then return ([], closed) else do
          input ← parse_expanded_text (codes " |\n") variables
          consume_spaces
          bar ← consume_c_if b'|'
          if bar
              then (do consume_c b'|'; return (input ∷ [], two_bars))
              else do (inputs, ending) ← implicit_inputs_loop f; return (input ∷ inputs, ending))
        file

  -- The order-only inputs, up to the end of the line.
  unfoldable pub order_only_loop : ℕ → M (List Name)
  unfolding consume_c_if parse_expanded_text consume_spaces current_c
  order_only_loop zero file = failed out_of_fuel
  order_only_loop (suc f) file =
      (do
        newline ← consume_c_if b'\n'
        if newline then return [] else do
          input ← parse_expanded_text (codes " |\n") variables
          c ← current_c
          demand (not (c == b'|'))
          consume_spaces
          inputs ← order_only_loop f
          return (input ∷ inputs))
        file

  -- The variables of the declaration, on the lines that begin with a space.
  unfoldable pub local_vars_loop : ℕ → List (Name × List ℕ) → M (List (Name × List ℕ))
  unfolding finished current_c skip_line consume_spaces parse_identifier consume_c
      parse_expanded_text insert
  local_vars_loop zero locals file = failed out_of_fuel
  local_vars_loop (suc f) locals file =
      (do
        done ← finished
        if done then return locals else do
          c ← current_c
          if c == b'#'
              then skip_line >> local_vars_loop f locals
              else if not (c == b' ')
              then return locals
              else do
                consume_spaces
                var ← parse_identifier
                consume_spaces
                consume_c b'='
                consume_spaces
                value ← parse_expanded_text (b'\n' ∷ []) variables
                consume_c b'\n'
                local_vars_loop f (insert var value locals))
        file

-- `join`
unfoldable pub join_more : List Name → List ℕ
join_more [] = []
join_more (x ∷ xs) = b' ' ∷ (x ++ join_more xs)

unfoldable pub join : List Name → List ℕ
unfolding join_more
join [] = []
join (x ∷ xs) = x ++ join_more xs

abbrev pub or_else {ℓ} : {A : Type ℓ} → Option A → A → A
or_else none a = a
or_else (some b) a = b

-- A variable of the declaration counts before one of the file; an unset one is the empty text.
unfoldable pub expand_name : List (Name × List ℕ) → List (Name × Variable) → Name → List ℕ
unfolding lookup
expand_name locals variables id = or_else (lookup id locals) (value_of (lookup id variables))

unfoldable pub expand_pieces : List (Name × List ℕ) → List (Name × Variable) → List Piece → List ℕ
unfolding expand_name
expand_pieces locals variables [] = []
expand_pieces locals variables (text s ∷ pieces) = s ++ expand_pieces locals variables pieces
expand_pieces locals variables (identifier id ∷ pieces) =
    expand_name locals variables id ++ expand_pieces locals variables pieces

-- The loop over the variables of the rule.
unfoldable pub rule_vars_loop :
    List (Name × List ℕ)
    → List (Name × Variable)
    → List (Name × RuleVariable)
    → List (Name × List ℕ)
    → List (Name × List ℕ)
unfolding expand_pieces insert
rule_vars_loop locals variables [] out = out
rule_vars_loop locals variables ((outer, pieced) ∷ vars) out =
    rule_vars_loop locals variables vars
      (insert outer (expand_pieces locals variables pieced.value) out)

-- `rules.at` throws where there is no such rule.
unfoldable pub vars_of :
    List (Name × List ℕ) → List (Name × Variable) → Option Rule → Result (List (Name × List ℕ))
unfolding rule_vars_loop
vars_of locals variables none = failed exception
vars_of locals variables (some r) = ok (rule_vars_loop locals variables r.variables [])

-- `phony` has no variables; any other rule is known here.
unfoldable pub rule_vars : NinjaState → Name → List (Name × List ℕ) → Result (List (Name × List ℕ))
unfolding vars_of lookup
rule_vars st rulename locals =
    if same_name rulename (codes "phony")
    then ok []
    else vars_of locals st.variables (lookup rulename st.rules)

module _ (variables : List (Name × Variable)) where
  -- The implicit outputs, after a `|`.
  unfoldable pub outputs_after : List Name → Ending → M (List Name × List Name)
  unfolding consume_spaces implicit_outputs_loop
  outputs_after outputs closed = return (outputs, [])
  outputs_after outputs two_bars = return (outputs, [])
  outputs_after outputs one_bar = do
    consume_spaces
    implicit ← with_fuel (implicit_outputs_loop variables)
    return (outputs, implicit)

  unfoldable pub parse_outputs : M (List Name × List Name)
  unfolding outputs_loop outputs_after
  parse_outputs = do
    (outputs, ending) ← with_fuel (outputs_loop variables)
    outputs_after outputs ending

  unfoldable pub parse_order_only : M (List Name)
  unfolding consume_spaces order_only_loop
  parse_order_only = do consume_spaces; with_fuel (order_only_loop variables)

  -- The order-only inputs, after a `||`.
  unfoldable pub implicit_after : List Name → Ending → M (List Name × List Name)
  unfolding parse_order_only
  implicit_after implicit closed = return (implicit, [])
  implicit_after implicit one_bar = return (implicit, [])
  implicit_after implicit two_bars = do order_only ← parse_order_only; return (implicit, order_only)

  unfoldable pub parse_implicit_inputs : M (List Name × List Name)
  unfolding consume_spaces implicit_inputs_loop implicit_after
  parse_implicit_inputs = do
    consume_spaces
    (implicit, ending) ← with_fuel (implicit_inputs_loop variables)
    implicit_after implicit ending

  -- The implicit inputs after a `|`, or the order-only ones after a `||`.
  unfoldable pub inputs_after : List Name → Ending → M (List Name × List Name × List Name)
  unfolding parse_implicit_inputs parse_order_only
  inputs_after inputs closed = return (inputs, [], [])
  inputs_after inputs one_bar = do
    (implicit, order_only) ← parse_implicit_inputs
    return (inputs, implicit, order_only)
  inputs_after inputs two_bars = do order_only ← parse_order_only; return (inputs, [], order_only)

  unfoldable pub parse_inputs : M (List Name × List Name × List Name)
  unfolding inputs_loop inputs_after
  parse_inputs = do (inputs, ending) ← with_fuel (inputs_loop variables); inputs_after inputs ending

unfoldable pub parse_build : NinjaState → M Build
unfolding consume keyword_end consume_spaces parse_outputs parse_identifier parse_inputs
    local_vars_loop rule_vars join insert lookup
parse_build st = do
  consume (codes "build")
  keyword_end
  consume_spaces
  (outputs, implicit_outputs) ← parse_outputs st.variables
  consume_spaces
  rulename ← parse_identifier
  demand (same_name rulename (codes "phony") || contains rulename st.rules)
  consume_spaces
  (inputs, implicit_inputs, order_only_inputs) ← parse_inputs st.variables
  locals ← with_fuel (λ f. local_vars_loop st.variables f [])
  vars ← lift (
      rule_vars st rulename
        (insert (codes "in") (join inputs) (insert (codes "out") (join outputs) locals)))
  return (record {
    outputs = outputs;
    implicit_outputs = implicit_outputs;
    inputs = inputs;
    implicit_inputs = implicit_inputs;
    order_only_inputs = order_only_inputs;
    rule_vars = vars;
  })
