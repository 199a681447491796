-- ===== src/Parsing/Examples.antt =====
-- The theorems about the parsers at concrete texts.
use all.Prelude.{
  ◌⊎◌, ◌≢◌, ℕ, arith, ◌≡◌, refl, Option, none, some, List, [], ◌∷◌, ◌++◌, if◌then◌else◌,
}
use all.Prelude.Result.{Result, Fault, failed, exception, out_of_fuel, ok}
use all.Prelude.Chars.{codes}
use all.Prelude.Names.{same_name}
use all.Parsing.Text
use all.Parsing.Basic
use all.Parsing.Basic.{BasicParser}
use all.Parsing.Basic.Position.{IsAt}
use all.Parsing.Basic.Refine.{Agree, basic_parser-Agree}
use all.Parsing.Ninja.State.{Name, Variable, text, identifier, RuleVariable, NinjaState}
use all.Parsing.Ninja.Expand.{parse_variable, parse_rule_variable, parse_expanded_text, with_fuel}
use all.Parsing.Ninja.Build.{expand_pieces, one_bar, two_bars, inputs_loop}
use all.Parsing.Ninja.File.{parse, parse_text_into}
use all.Parsing.Ninja.Progress.Whole.{parse_text_into-settles}
use all.Parsing.Ninja.EmptyInput.{inputs_loop-bar}
use all.Parsing.Ninja.Deferred.{overlay, parse_rule_variable-deferred}
use all.Parsing.Ninja.RoundTrip.{escaped, parse_expanded_text-escaped}
use all.Parsing.Ninja.Invariant.{IsConsistent}
use all.Parsing.Ninja.Kept.{parse-IsConsistent}

abbrev flags : List (Name × Variable)
flags = (codes "flags", record { name = codes "flags"; value = codes "-O2" }) ∷ []

abbrev locals : List (Name × List ℕ)
locals = (codes "out", codes "a.o") ∷ []

abbrev command_text : List ℕ
command_text = codes "command = cc $flags -o ${out}" ++ b'\n' ∷ codes "x"

abbrev command : RuleVariable
command = record {
  name = codes "command";
  value =
      text (codes "cc ")
      ∷ identifier (codes "flags")
      ∷ text (codes " -o ")
      ∷ identifier (codes "out")
      ∷ [];
}

reads_command : parse_rule_variable command_text ≡ ok (command, codes "x")
unfolding parse_rule_variable
reads_command = refl

parse_rule_variable-deferred_example :
    parse_variable (overlay locals flags) command_text
    ≡ ok (
      record { name = codes "command"; value = expand_pieces locals flags command.value },
      codes "x",
    )
parse_rule_variable-deferred_example =
    parse_rule_variable-deferred locals flags command_text {v = command} {rest = codes "x"}
      reads_command

expands : expand_pieces locals flags command.value ≡ codes "cc -O2 -o a.o"
unfolding expand_pieces
expands = refl

abbrev stops : List ℕ
stops = codes " :|" ++ b'\n' ∷ []

parse_expanded_text-escaped_example :
    parse_expanded_text stops flags (escaped (codes "a b:$c") ++ b':' ∷ codes " cc")
    ≡ ok (codes "a b:$c", b':' ∷ codes " cc")
parse_expanded_text-escaped_example =
    parse_expanded_text-escaped stops flags b':' (codes " cc") (codes "a b:$c") refl refl refl
      (refl, refl, (refl, refl, (refl, refl, (refl, refl, (refl, refl, (refl, refl, tt))))))

-- A file that includes another.
abbrev root_text : List ℕ
root_text =
    codes "include other"
    ++ b'\n' ∷ (codes "build all: phony a" ++ b'\n' ∷ (codes "default all" ++ b'\n' ∷ []))

abbrev other_text : List ℕ
other_text = codes "a=A" ++ b'\n' ∷ []

abbrev files : List ℕ → Option (List ℕ)
files path =
    if same_name path (codes "root")
    then some root_text
    else if same_name path (codes "other")
    then some other_text
    else none

abbrev parsed : NinjaState
parsed = record {
  variables = (codes "a", record { name = codes "a"; value = codes "A" }) ∷ [];
  rules = [];
  pools = [];
  builds =
      record {
        outputs = codes "all" ∷ [];
        implicit_outputs = [];
        inputs = codes "a" ∷ [];
        implicit_inputs = [];
        order_only_inputs = [];
        rule_vars = [];
      }
      ∷ [];
  targets = codes "all" ∷ [];
  defaults = codes "all" ∷ [];
}

parses : parse files 2 (codes "root") ≡ ok parsed
unfolding parse
parses = refl

parse-IsConsistent_example : IsConsistent parsed
parse-IsConsistent_example = parse-IsConsistent files 2 (codes "root") parses

-- At the second line of a text.
abbrev second_line : BasicParser
second_line = record {
  contents = codes "ab" ++ b'\n' ∷ codes "cd";
  cursor = 3;
  diag_row = 2;
  diag_col = 1;
}

second_line-IsAt : IsAt second_line
second_line-IsAt = record { inside = omega arith; row = refl; col = refl }

basic_parser-Agree_example :
    Agree second_line (Basic.finished second_line) (Text.finished (codes "cd"))
    × Agree second_line (Basic.current_c second_line) (Text.current_c (codes "cd"))
    × Agree second_line (Basic.consume_c_nocheck second_line) (Text.consume_c_nocheck (codes "cd"))
    × Agree second_line (Basic.consume_c b'x' second_line) (Text.consume_c b'x' (codes "cd"))
    × Agree second_line (Basic.consume_c_if b'x' second_line) (Text.consume_c_if b'x' (codes "cd"))
    × Agree second_line
        (Basic.consume (codes "cd") second_line)
        (Text.consume (codes "cd") (codes "cd"))
    × Agree second_line
        (Basic.consume_if (codes "cd") second_line)
        (Text.consume_if (codes "cd") (codes "cd"))
basic_parser-Agree_example = basic_parser-Agree second_line b'x' (codes "cd") second_line-IsAt

abbrev no_files : List ℕ → NinjaState → Result NinjaState
no_files path st = failed exception

parse_text_into-settles_example :
    ((st' : NinjaState) × (parse_text_into no_files root_text parsed ≡ ok st'))
    ⊎ ((e : Fault) × (parse_text_into no_files root_text parsed ≡ failed e) × (e ≢ out_of_fuel))
parse_text_into-settles_example =
    parse_text_into-settles no_files (λ path st h. cc) root_text parsed

inputs_loop-bar_example :
    (with_fuel (inputs_loop flags) (codes "| d") ≡ ok (([] ∷ [], one_bar), codes " d"))
    × (with_fuel (inputs_loop flags) (b'|' ∷ codes "|d") ≡ ok (([] ∷ [], two_bars), codes "d"))
inputs_loop-bar_example = inputs_loop-bar flags b' ' (codes "d") refl
