-- ===== src/Tiny/Examples.antt =====
-- The theorems on the language at concrete inputs.
use all.Prelude.{ℕ, ◌≢◌, ◌⊎◌, ◌↔◌, refl, ◌≡◌, List, [], ◌∷◌, ◌++◌, arith}
use all.Prelude.Chars.{codes}
use all.Tiny.Token.{
  kw_print, kw_true, op_paren_open, op_paren_close, op_semicolon, number_start, number_digit,
  number_end, Token, kw_if, op_le,
}
use all.Tiny.Tokenizer.{tokenize}
use all.Tiny.Tokenizer.Lexeme.{Lexeme, plain, numeral, name, spell_all, tokens_of_all}
use all.Tiny.Tokenizer.RoundTrip.{tokenize-spell}
use all.Prelude.Int.{pos}
use all.Prelude.Result.{ok, ◌>>=◌, Fault, failed, out_of_fuel}
use all.Tiny.Syntax.{
  Statements, number, true_literal, unary, factor, factor_end, term, term_end, comparison,
  comparison_end, equals, equals_end, and_all, and_end, or_all, or_end, Expression, expression,
  Primary, print_statement, if_statement, no_branch, done, then_statement,
}
use all.Tiny.Statements.{parse_program}
use all.Tiny.Run.{read_program, read_program_settles}
use all.Tiny.Statements.Grammar.{SpellsProgram}
use all.Tiny.Statements.Sound.{parse_program_sound}
use all.Tiny.Eval.{int64}
use all.Tiny.Exec.{EvalState, execute_program}
use all.Tiny.Exec.BigStep.{RunsAll, empty_state}
use all.Tiny.Exec.Complete.{execute_program-iff-RunsAll}
use all.Tiny.Comments.{strip_comments}
use all.Tiny.Comments.Clean.{
  IsClean, strip_comments-IsClean, strip_comments-line, strip_comments-short_block,
}

strip_comments-IsClean_example :
    (out : List ℕ) × (strip_comments (codes "a/*b*/c//d\ne/f") ≡ ok out)
    × IsClean out
    × (strip_comments out ≡ ok out)
strip_comments-IsClean_example = strip_comments-IsClean (codes "a/*b*/c//d\ne/f")

strip_comments-line_example :
    strip_comments (codes "ab" ++ (codes "//" ++ (codes "x" ++ 10 ∷ codes "y")))
    ≡ (strip_comments (codes "y") >>= λ out. ok (codes "ab" ++ out))
strip_comments-line_example =
    strip_comments-line (codes "ab") (codes "x") (codes "y") (omega arith, (omega arith, tt))
      (omega arith, tt)

strip_comments-short_block_example :
    strip_comments (codes "/*/" ++ codes "x*/y") ≡ strip_comments (codes "x*/y")
strip_comments-short_block_example = strip_comments-short_block (codes "x*/y")

-- `if x<=7` with a space after each lexeme.
abbrev lexemes : List Lexeme
lexemes = plain kw_if ∷ name b'x' (b'1' ∷ []) ∷ plain op_le ∷ numeral 7 (0 ∷ []) ∷ []

tokenize-spell_example : tokenize (spell_all lexemes) ≡ ok (tokens_of_all lexemes)
tokenize-spell_example =
    tokenize-spell lexemes
      (refl, ((refl, (refl, tt), refl), (refl, ((omega arith, (omega arith, tt)), tt))))

read_program_settles_example :
    ((program : Statements) × (read_program (pos 0) (codes "print(1); //") ≡ ok program))
    ⊎ ((e : Fault) × (read_program (pos 0) (codes "print(1); //") ≡ failed e) × (e ≢ out_of_fuel))
read_program_settles_example = read_program_settles (pos 0) (codes "print(1); //")

abbrev alone : Primary → Expression
alone p = expression (
    or_all
      (and_all
        (equals (comparison (term (factor (unary [] p) factor_end) term_end) comparison_end)
          equals_end)
        and_end)
      or_end)

-- `if (true) print(1);`
abbrev conditional : Statements
conditional =
    then_statement
      (if_statement (alone true_literal) (print_statement (alone (number (pos 1)))) no_branch) done

abbrev printed_one : EvalState
printed_one = record { variables = []; printed = int64 (pos 1) ∷ [] }

execute_program-iff-RunsAll_example :
    ((f : ℕ) × (execute_program f conditional ≡ ok printed_one))
    ↔ RunsAll conditional empty_state printed_one
execute_program-iff-RunsAll_example = execute_program-iff-RunsAll conditional printed_one

conditional_runs : execute_program 4 conditional ≡ ok printed_one
unfolding execute_program
conditional_runs = refl

abbrev conditional_tokens : List Token
conditional_tokens =
    kw_if
    ∷ op_paren_open
    ∷ kw_true
    ∷ op_paren_close
    ∷ kw_print
    ∷ op_paren_open
    ∷ number_start
    ∷ number_digit 1
    ∷ number_end
    ∷ op_paren_close
    ∷ op_semicolon
    ∷ []

conditional_parses : parse_program (pos 0) conditional_tokens ≡ ok conditional
unfolding parse_program
conditional_parses = refl

parse_program_sound_example : SpellsProgram (pos 0) conditional conditional_tokens
parse_program_sound_example =
    parse_program_sound (pos 0) conditional_tokens conditional conditional_parses
