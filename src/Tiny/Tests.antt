-- ===== src/Tiny/Tests.antt =====
-- Runs on small inputs.
use all.Prelude.{ℕ, List, ◌≡◌, refl, [], ◌∷◌}
use all.Prelude.Int.{ℤ, pos}
use all.Prelude.Result.{Result, ◌>>=◌, ok, failed, exception, assertion}
use all.Prelude.Chars.{codes}
use all.Tiny.Comments.{strip_comments}
use all.Tiny.Token.{
  kw_let, kw_if, op_le, op_lt, number_start, number_digit, number_end, identifier_start,
  identifier_char, identifier_end,
}
use all.Tiny.Tokenizer.{tokenize}
use all.Tiny.Statements.{parse_program}
use all.Tiny.Eval.{EvalValue, int64}
use all.Tiny.Exec.{execute_program}

block : strip_comments (codes "a/*b*/c//d\ne/f") ≡ ok (codes "ace/f")
unfolding strip_comments
block = refl

tokens_if :
    tokenize (codes "if ifx<=7 < let")
    ≡ ok (
        kw_if
        ∷ identifier_start
        ∷ identifier_char b'i'
        ∷ identifier_char b'f'
        ∷ identifier_char b'x'
        ∷ identifier_end
        ∷ op_le
        ∷ number_start
        ∷ number_digit 7
        ∷ number_end
        ∷ op_lt
        ∷ kw_let
        ∷ [])
unfolding tokenize
tokens_if = refl

tokens_bad : tokenize (codes "7a") ≡ failed exception
unfolding tokenize
tokens_bad = refl

tokens_hash : tokenize (codes "#") ≡ failed assertion
unfolding tokenize
tokens_hash = refl

-- The program of example-gcd.tiny, from its text to what it prints.
abbrev gcd_text : List ℕ
gcd_text =
    codes
      "let a = 21;\nlet b = 15;\nwhile (b != 0) {\n  let t = a % b;\n  a = b;\n  b = t;\n}\nprint(a);\n"

abbrev run_text : ℤ → ℕ → List ℕ → Result (List EvalValue)
run_text uninitialized fuel text = do
  stripped ← strip_comments text
  tokens ← tokenize stripped
  program ← parse_program uninitialized tokens
  st ← execute_program fuel program
  ok st.printed

gcd_runs : run_text (pos 0) 40 gcd_text ≡ ok (int64 (pos 3) ∷ [])
unfolding strip_comments tokenize parse_program execute_program
gcd_runs = refl
