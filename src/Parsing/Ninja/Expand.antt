-- ===== src/Parsing/Ninja/Expand.antt =====
-- Texts with variables in them: `parse_identifier`, `parse_expanded_text`, `parse_variable` and
-- `parse_rule_variable`.
use all.Prelude.{
  ℕ, zero, suc, Bool, true, false, ◌&&◌, ◌||◌, Option, none, some, List, [], ◌∷◌, ◌++◌, ◌==◌, leb,
  if◌then◌else◌, length,
}
use all.Prelude.Result.{Result, ok, failed, exception, out_of_fuel}
use all.Prelude.Chars.{codes}
use all.Prelude.Names.{elem, elem_code, lookup}
use all.Parsing.Text.{
  M, ◌>>=◌, ◌>>◌, return, demand, current_c, consume_c_nocheck, consume_c, consume_c_if,
}
use all.Parsing.Ninja.State.{Name, Variable, Piece, text, identifier, RuleVariable}

abbrev pub settable_rule_variables : List Name
settable_rule_variables =
    codes "command"
    ∷ codes "depfile"
    ∷ codes "deps"
    ∷ codes "msvc_deps_prefix"
    ∷ codes "description"
    ∷ codes "dyndep"
    ∷ codes "generator"
    ∷ codes "restat"
    ∷ codes "rspfile"
    ∷ codes "rspfile_content"
    ∷ codes "pool"
    ∷ []

-- A loop over the text takes a unit of fuel for each character, and one more.
abbrev pub with_fuel {ℓ} : {A : Type ℓ} → (ℕ → M A) → M A
with_fuel loop file = loop (suc (length file)) file

-- What is left after `while (consume_c_if(' ') || consume_if("$\n"))`.
unfoldable pub skip_spaces : List ℕ → List ℕ
skip_spaces [] = []
skip_spaces (c ∷ []) = if c == b' ' then [] else c ∷ []
skip_spaces (c ∷ d ∷ file) =
    let one = skip_spaces (d ∷ file) in
    let two = skip_spaces file in
    if c == b' ' then one else if c == b'$' && d == b'\n' then two else c ∷ d ∷ file

unfoldable pub consume_spaces : M (Unit {0})
unfolding skip_spaces
consume_spaces file = ok (tt, skip_spaces file)

abbrev pub is_identifier_c : ℕ → Bool
is_identifier_c c =
    (leb b'a' c && leb c b'z')
    || (leb b'A' c && leb c b'Z')
    || (leb b'0' c && leb c b'9')
    || (c == b'-' || c == b'_')

-- `while (is_identifier_c(current_c()))`: the characters read.
unfoldable pub identifier_loop : M Name
identifier_loop [] = failed exception
identifier_loop (c ∷ file) =
    let more : Result (Name × List ℕ) = elim (identifier_loop file) [
      | ok (id, rest) ↦ ok (c ∷ id, rest)
      | failed e ↦ failed e
    ] in
    if is_identifier_c c then more else ok ([], c ∷ file)

abbrev not_empty : List ℕ → Bool
not_empty [] = false
not_empty (c ∷ cs) = true

unfoldable pub parse_identifier : M Name
unfolding identifier_loop
parse_identifier = do id ← identifier_loop; demand (not_empty id); return id

-- An unset variable is the empty text.
abbrev pub value_of : Option Variable → List ℕ
value_of none = []
value_of (some v) = v.value

unfoldable pub variable_value : Name → List (Name × Variable) → List ℕ
unfolding lookup
variable_value id variables = value_of (lookup id variables)

-- After a `$`: a character that it escapes, if there is one; a newline stands for nothing.
unfoldable pub escape : M (Option (List ℕ))
unfolding consume_c_if
escape = do
  newline ← consume_c_if b'\n'
  if newline then return (some []) else do
    space ← consume_c_if b' '
    if space then return (some (b' ' ∷ [])) else do
      colon ← consume_c_if b':'
      if colon
          then return (some (b':' ∷ []))
          else do dollar ← consume_c_if b'$'; return (if dollar then some (b'$' ∷ []) else none)

-- Otherwise the name of a variable, in braces or not.
unfoldable pub reference : M Name
unfolding consume_c_if parse_identifier consume_c
reference = do
  brace ← consume_c_if b'{'
  if brace then (do id ← parse_identifier; consume_c b'}'; return id) else parse_identifier

unfoldable pub dollar_value : Option (List ℕ) → M Piece
unfolding reference
dollar_value (some s) = return (text s)
dollar_value none = do id ← reference; return (identifier id)

-- What stands at a `$`.
unfoldable pub read_dollar : M Piece
unfolding escape dollar_value
read_dollar = do e ← escape; dollar_value e

-- One piece of a text: a character, or what stands at a `$`.
unfoldable pub read_piece : M Piece
unfolding consume_c_if current_c consume_c_nocheck read_dollar
read_piece = do
  dollar ← consume_c_if b'$'
  if dollar then read_dollar else (do c ← current_c; consume_c_nocheck; return (text (c ∷ [])))

unfoldable pub piece_value : List (Name × Variable) → Piece → List ℕ
unfolding variable_value
piece_value variables (text s) = s
piece_value variables (identifier id) = variable_value id variables

module _ (end_chars : List ℕ) (variables : List (Name × Variable)) where
  -- `while (!fin())`
  unfoldable pub text_loop : ℕ → M (List ℕ)
  unfolding current_c read_piece piece_value
  text_loop zero file = failed out_of_fuel
  text_loop (suc f) file =
      (do
        c ← current_c
        if elem_code c end_chars
            then return []
            else do p ← read_piece; more ← text_loop f; return (piece_value variables p ++ more))
        file

  unfoldable pub parse_expanded_text : M (List ℕ)
  unfolding consume_spaces text_loop
  parse_expanded_text = do consume_spaces; with_fuel text_loop

unfoldable pub parse_variable : List (Name × Variable) → M Variable
unfolding parse_identifier consume_spaces consume_c parse_expanded_text
parse_variable variables = do
  name ← parse_identifier
  consume_spaces
  consume_c b'='
  consume_spaces
  value ← parse_expanded_text (b'\n' ∷ []) variables
  consume_c b'\n'
  return (record { name = name; value = value })

-- `if (!last_text.empty()) ret.value.emplace_back(rule_variable::text(last_text))`
abbrev pub flush : List ℕ → List Piece
flush [] = []
flush (c ∷ cs) = text (c ∷ cs) ∷ []

-- What the loop does with a piece, before the rounds that follow.
abbrev pub value_piece : (List ℕ → M (List Piece)) → List ℕ → Piece → M (List Piece)
value_piece rounds last (text s) = rounds (last ++ s)
value_piece rounds last (identifier id) = do
  more ← rounds []
  return (flush last ++ (identifier id ∷ more))

-- `while (!consume_c_if('\n'))`, with `last_text`.
unfoldable pub value_loop : ℕ → List ℕ → M (List Piece)
unfolding consume_c_if read_piece
value_loop zero last file = failed out_of_fuel
value_loop (suc f) last file =
    (do
      end ← consume_c_if b'\n'
      if end then return (flush last) else do p ← read_piece; value_piece (value_loop f) last p)
      file

unfoldable pub parse_rule_variable : M RuleVariable
unfolding parse_identifier consume_spaces consume_c value_loop
parse_rule_variable = do
  name ← parse_identifier
  demand (elem name settable_rule_variables)
  consume_spaces
  consume_c b'='
  consume_spaces
  value ← with_fuel (λ f. value_loop f [])
  return (record { name = name; value = value })
