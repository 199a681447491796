-- ===== src/Tiny/Tokenizer/RoundTrip.antt =====
-- The tokenizer reads what was spelled.
use all.Prelude.{
  ℕ, zero, suc, ◌<◌, ◌≡◌, refl, ◌∙◌, true, List, [], ◌∷◌, ◌++◌, arith, length, length-append,
}
use all.Prelude.Result.{ok}
use all.Tiny.Token.{Token}
use all.Tiny.Tokenizer.{token_step, tokenize_loop, tokenize}
use all.Tiny.Tokenizer.Lexeme.{
  spelling, Lexeme, plain, numeral, name, filled, IsLexeme, AllLexeme, spell, tokens_of, spell_all,
  tokens_of_all,
}
use all.Tiny.Tokenizer.Step.{step_text, loop_step, step_plain, step_numeral, step_name}

step_lexeme :
    (l : Lexeme) (rest : List ℕ)
    → IsLexeme l
    → step_text (spell l ++ 32 ∷ rest) ≡ ok (tokens_of l, 32 ∷ rest)
step_lexeme (plain t) rest h = step_plain t rest h
step_lexeme (numeral d ds) rest h = step_numeral d ds rest h.0 h.1
step_lexeme (name c cs) rest h = step_name c cs rest h

step_space : (rest : List ℕ) → step_text (32 ∷ rest) ≡ ok ([], rest)
unfolding token_step
step_space rest = refl

filled-length : (xs : List ℕ) → filled xs ≡ true → 0 < length xs
filled-length [] h = cc
filled-length (x ∷ xs) h = omega arith

length-spell : (l : Lexeme) → IsLexeme l → 0 < length (spell l)
length-spell (plain t) h = filled-length (spelling t) h
length-spell (numeral d ds) h = omega arith
length-spell (name c cs) h = omega arith

two_steps :
    (l : Lexeme) (f : ℕ) (rest : List ℕ) (more : List Token)
    → IsLexeme l
    → tokenize_loop f rest ≡ ok more
    → tokenize_loop (suc (suc f)) (spell l ++ 32 ∷ rest) ≡ ok (tokens_of l ++ more)
two_steps l f rest more h e =
    loop_step (suc f) (spell l ++ 32 ∷ rest) (32 ∷ rest) (tokens_of l) (step_lexeme l rest h)
    ∙ rw (loop_step f (32 ∷ rest) rest [] (step_space rest), e)

tokenize_loop-spell :
    (ls : List Lexeme) (f : ℕ)
    → AllLexeme ls
    → length (spell_all ls) < f
    → tokenize_loop f (spell_all ls) ≡ ok (tokens_of_all ls)
unfolding tokenize_loop
tokenize_loop-spell ls zero hs k = absurd (omega arith)
tokenize_loop-spell [] (suc f) hs k = refl
tokenize_loop-spell (l ∷ ls) (suc zero) hs k =
    absurd (omega (arith, length-append (spell l) (32 ∷ spell_all ls)))
tokenize_loop-spell (l ∷ ls) (suc (suc f)) hs k =
    two_steps l f (spell_all ls) (tokens_of_all ls) hs.0 (
      tokenize_loop-spell ls f hs.1
        (omega (arith, length-append (spell l) (32 ∷ spell_all ls), length-spell l hs.0)))

-- The tokens of any sequence of keywords, operators, numbers and words that are no keywords are
-- read back from their text, in which a space follows each of them.
pub tokenize-spell :
    (ls : List Lexeme) → AllLexeme ls → tokenize (spell_all ls) ≡ ok (tokens_of_all ls)
unfolding tokenize
tokenize-spell ls hs = tokenize_loop-spell ls (suc (length (spell_all ls))) hs (omega arith)
