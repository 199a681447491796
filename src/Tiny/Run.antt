-- ===== src/Tiny/Run.antt =====
-- The program ivl/langs/tiny/runit.cpp, on the text of a file.
use all.Prelude.{ℕ, List, ◌≡◌, ◌≢◌, refl, ◌⊎◌, inl, inr}
use all.Prelude.Int.{ℤ}
use all.Prelude.Result.{Result, Fault, ok, failed, out_of_fuel, ◌>>=◌}
use all.Tiny.Comments.{strip_comments}
use all.Tiny.Comments.Clean.{strip_comments-IsClean}
use all.Tiny.Tokenizer.{tokenize}
use all.Tiny.Tokenizer.Total.{tokenize-Settles}
use all.Tiny.Syntax.{Statements}
use all.Tiny.Statements.{parse_program}
use all.Tiny.Statements.Progress.{parse_program-Settles}
use all.Tiny.Exec.{EvalState, execute_program}

module _ (uninitialized : ℤ) where
  -- Up to `parse_program`.
  unfoldable pub read_program : List ℕ → Result Statements
  unfolding strip_comments tokenize parse_program
  read_program file = do
    decommented ← strip_comments file
    tokens ← tokenize decommented
    parse_program uninitialized tokens

  unfoldable pub run_file : ℕ → List ℕ → Result EvalState
  unfolding read_program execute_program
  run_file fuel file = read_program file >>= execute_program fuel

  -- For any text the program is read within the fuel of its three passes: they give a program, or
  -- fail with an assertion, an exception or undefined behaviour of the source.
  pub read_program_settles :
      (file : List ℕ)
      → ((program : Statements) × (read_program file ≡ ok program))
        ⊎ ((e : Fault) × (read_program file ≡ failed e) × (e ≢ out_of_fuel))
  unfolding read_program
  read_program_settles file =
      let (decommented, p, _, _) = strip_comments-IsClean file in
      elim (tokenize-Settles decommented) [
        | inr (e, q, d) ↦ rw (p, q) (inr (e, refl, d))
        | inl (tokens, q) ↦ rw (p, q) (parse_program-Settles uninitialized tokens)
      ]
