-- ===== src/Parsing/Ninja/File.antt =====
-- `parse_declaration`, `parse_text_into`, `parse_file_into` and `parse` of
-- ivl/parsing/ninja/default.hpp. What reads the file of a path is a parameter; `none` is a throw.
use all.Prelude.{
  ℕ, zero, suc, Bool, false, not, Option, none, some, List, [], ◌∷◌, ◌==◌, if◌then◌else◌, length,
}
use all.Prelude.Result.{Result, ok, failed, exception, out_of_fuel}
use all.Prelude.Chars.{codes, starts_with}
use all.Parsing.Text.{
  M, lift, ◌>>=◌, ◌>>◌, return, panic, demand, current_sv, finished, consume_c, consume_c_if,
}
use all.Parsing.Ninja.State.{NinjaState}
use all.Parsing.Ninja.Expand.{consume_spaces, parse_variable}
use all.Parsing.Ninja.Build.{skip_line, parse_build}
use all.Parsing.Ninja.Declare.{
  parse_rule, parse_pool, parse_default, parse_include, starts_with_and_space,
}
use all.Parsing.Ninja.Add.{add_rule, add_pool, add_build, add_variable, add_defaults}

-- A line that begins with a space.
unfoldable pub blank_line : M (Unit {0})
unfolding consume_spaces consume_c_if skip_line consume_c
blank_line = do
  consume_spaces
  comment ← consume_c_if b'#'
  if comment then skip_line else consume_c b'\n'

-- Where `parse_declaration` goes by the text at a declaration.
pub data Kind : Type 0 where
  rule_decl pool_decl build_decl default_decl subninja_decl include_decl variable_decl : Kind

unfoldable pub kind_of : List ℕ → Kind
kind_of file =
    if starts_with_and_space (codes "rule") file
    then rule_decl
    else if starts_with_and_space (codes "pool") file
    then pool_decl
    else if starts_with_and_space (codes "build") file
    then build_decl
    else if starts_with_and_space (codes "default") file
    then default_decl
    else if starts_with_and_space (codes "subninja") file
    then subninja_decl
    else if starts_with_and_space (codes "include") file
    then include_decl
    else variable_decl

abbrev pub ends_with_newline : List ℕ → Bool
ends_with_newline [] = false
ends_with_newline (c ∷ []) = c == b'\n'
ends_with_newline (c ∷ d ∷ file) = ends_with_newline (d ∷ file)

abbrev pub final : Result (NinjaState × List ℕ) → Result NinjaState
final (ok (st, rest)) = ok st
final (failed e) = failed e

module _ (read_into : List ℕ → NinjaState → Result NinjaState) where
  -- The part of `parse_declaration` behind the comments and the blank lines.
  unfoldable pub declare : Kind → NinjaState → M NinjaState
  unfolding parse_rule add_rule parse_pool add_pool parse_build add_build parse_default add_defaults
      parse_include parse_variable add_variable
  declare rule_decl st = do r ← parse_rule; lift (add_rule r st)
  declare pool_decl st = do p ← parse_pool; lift (add_pool p st)
  declare build_decl st = do b ← parse_build st; lift (add_build b st)
  declare default_decl st = do targets ← parse_default st; lift (add_defaults targets st)
  declare subninja_decl st = panic
  declare include_decl st = do path ← parse_include st; lift (read_into path st)
  declare variable_decl st = do v ← parse_variable st.variables; return (add_variable v st)

  unfoldable pub parse_declaration : NinjaState → M NinjaState
  unfolding consume_c_if current_sv skip_line blank_line kind_of declare
  parse_declaration st = do
    newline ← consume_c_if b'\n'
    if newline then return st else do
      before ← current_sv
      demand (not (starts_with (b'$' ∷ b'\n' ∷ []) before))
      comment ← consume_c_if b'#'
      if comment then (do skip_line; return st) else do
        space ← consume_c_if b' '
        if space
            then (do blank_line; return st)
            else do text ← current_sv; declare (kind_of text) st

  -- `while (!parser.finished())`
  unfoldable pub file_loop : ℕ → NinjaState → M NinjaState
  unfolding finished parse_declaration
  file_loop zero st file = failed out_of_fuel
  file_loop (suc f) st file =
      (do
        done ← finished
        if done then return st else do st' ← parse_declaration st; file_loop f st')
        file

  unfoldable pub parse_text_into : List ℕ → NinjaState → Result NinjaState
  unfolding file_loop
  parse_text_into [] st = ok st
  parse_text_into (c ∷ file) st =
      if not (ends_with_newline (c ∷ file))
      then failed exception
      else final (file_loop (suc (length (c ∷ file))) st (c ∷ file))

-- `linux::read_file` throws where there is no such file.
abbrev pub with_contents : Option (List ℕ) → (List ℕ → Result NinjaState) → Result NinjaState
with_contents none f = failed exception
with_contents (some contents) f = f contents

-- `depth` bounds how deep a file may include files.
unfoldable pub parse_file_into :
    (List ℕ → Option (List ℕ)) → ℕ → List ℕ → NinjaState → Result NinjaState
unfolding parse_text_into
parse_file_into read_file zero file st = failed out_of_fuel
parse_file_into read_file (suc depth) file st =
    with_contents (read_file file)
      (λ contents. parse_text_into (parse_file_into read_file depth) contents st)

abbrev pub empty_state : NinjaState
empty_state = record {
  variables = [];
  rules = [];
  pools = [];
  builds = [];
  targets = [];
  defaults = [];
}

unfoldable pub parse : (List ℕ → Option (List ℕ)) → ℕ → List ℕ → Result NinjaState
unfolding parse_file_into
parse read_file depth file = parse_file_into read_file depth file empty_state
