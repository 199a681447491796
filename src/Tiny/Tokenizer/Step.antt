-- ===== src/Tiny/Tokenizer/Step.antt =====
-- One round of the tokenizer on a lexeme that a space follows.
use all.Prelude.{
  ℕ, suc, Bool, ◌+◌, ◌-◌, ◌<◌, ◌≡◌, refl, sym, ◌∙◌, true, false, ◌&&◌, none, List, [], ◌∷◌, ◌++◌,
  arith, length, drop, Bool-cases, inl, inr, if◌then◌else◌, ◌==◌,
}
use all.Prelude.Result.{Result, ok, failed, out_of_fuel, ◌>>=◌}
use all.Prelude.Chars.{isspace, isdigit, isalpha, isalnum, starts_with}
use all.Tiny.Token.{
  Token, kw_let, kw_print, kw_if, kw_else, kw_while, kw_true, kw_false, op_or, op_and, op_eq, op_ne,
  op_le, op_lt, op_ge, op_gt, op_plus, op_minus, op_mul, op_div, op_not, op_paren_open,
  op_paren_close, op_curly_open, op_curly_close, op_semicolon, op_comma, op_mod, op_assign,
}
use all.Tiny.Tokenizer.{
  operators, keywords, match_operator, match_keyword, word_ends, digits_loop, chars_loop,
  number_step, word_step, token_step, tokenize_loop,
}
use all.Tiny.Tokenizer.Lexeme.{
  spelling, numeral, name, filled, same_text, in_table, AllDigit, AllAlnum, IsLexeme, digit_codes,
  spell, digit_tokens, char_tokens, tokens_of,
}

abbrev pub step_text : List ℕ → Result (List Token × List ℕ)
step_text [] = failed out_of_fuel
step_text (c ∷ file) = token_step c file

pub loop_step :
    (f : ℕ) (text rest : List ℕ) (out : List Token)
    → step_text text ≡ ok (out, rest)
    → tokenize_loop (suc f) text ≡ (tokenize_loop f rest >>= λ more. ok (out ++ more))
unfolding tokenize_loop
loop_step f [] rest out h = cc
loop_step f (c ∷ file) rest out h = rw h

pub step_plain :
    (t : Token) (rest : List ℕ)
    → filled (spelling t) ≡ true
    → step_text (spelling t ++ 32 ∷ rest) ≡ ok (t ∷ [], 32 ∷ rest)
unfolding token_step
step_plain kw_let rest h = refl
step_plain kw_print rest h = refl
step_plain kw_if rest h = refl
step_plain kw_else rest h = refl
step_plain kw_while rest h = refl
step_plain kw_true rest h = refl
step_plain kw_false rest h = refl
step_plain op_or rest h = refl
step_plain op_and rest h = refl
step_plain op_eq rest h = refl
step_plain op_ne rest h = refl
step_plain op_le rest h = refl
step_plain op_lt rest h = refl
step_plain op_ge rest h = refl
step_plain op_gt rest h = refl
step_plain op_plus rest h = refl
step_plain op_minus rest h = refl
step_plain op_mul rest h = refl
step_plain op_div rest h = refl
step_plain op_not rest h = refl
step_plain op_paren_open rest h = refl
step_plain op_paren_close rest h = refl
step_plain op_curly_open rest h = refl
step_plain op_curly_close rest h = refl
step_plain op_semicolon rest h = refl
step_plain op_comma rest h = refl
step_plain op_mod rest h = refl
step_plain op_assign rest h = refl
step_plain _ rest h = cc

isdigit-digit : (d : ℕ) → d < 10 → isdigit (d + b'0') ≡ true
isdigit-digit d h = ground arith

digit_value : (d : ℕ) → d + b'0' - b'0' ≡ d
digit_value d = omega arith

digits_loop-spell :
    (ds rest : List ℕ)
    → AllDigit ds
    → digits_loop (digit_codes ds ++ 32 ∷ rest) ≡ (digit_tokens ds, 32 ∷ rest)
unfolding digits_loop
digits_loop-spell [] rest h = refl
digits_loop-spell (d ∷ ds) rest (h, hs) =
    rw (isdigit-digit d h, digits_loop-spell ds rest hs, digit_value d)

chars_loop-spell :
    (cs rest : List ℕ) → AllAlnum cs → chars_loop (cs ++ 32 ∷ rest) ≡ (char_tokens cs, 32 ∷ rest)
unfolding chars_loop
chars_loop-spell [] rest h = refl
chars_loop-spell (c ∷ cs) rest (h, hs) = rw (h, chars_loop-spell cs rest hs)

match_operator-digit :
    (d : ℕ) (rest : List ℕ) → d < 10 → match_operator operators ((d + b'0') ∷ rest) ≡ none
unfolding match_operator
match_operator-digit d rest h = ground arith

match_operator-alpha :
    (c : ℕ) (rest : List ℕ) → isalpha c ≡ true → match_operator operators (c ∷ rest) ≡ none
unfolding match_operator
match_operator-alpha c rest h = ground arith

abbrev AllWord : List (List ℕ × Token) → Type 0
AllWord [] = Unit
AllWord ((kw, t) ∷ table) = AllAlnum kw × AllWord table

-- A word that is not the keyword does not fit its line.
keyword_misses :
    (kw text rest : List ℕ)
    → AllAlnum kw
    → AllAlnum text
    → same_text kw text ≡ false
    → starts_with kw (text ++ 32 ∷ rest) && word_ends (drop (length kw) (text ++ 32 ∷ rest)) ≡ false
keyword_misses [] [] rest hk ht h = cc
keyword_misses [] (c ∷ cs) rest hk ht h = rw (ht.0)
keyword_misses (k ∷ ks) [] rest hk ht h = ground (arith, hk.0)
keyword_misses (k ∷ ks) (c ∷ cs) rest hk ht h = elim (Bool-cases (k == c)) [
  | inl e ↦ rw e (keyword_misses ks cs rest hk.1 ht.1 (rw e at h))
  | inr e ↦ rw e
]

match_keyword-none :
    (table : List (List ℕ × Token)) (text rest : List ℕ)
    → AllWord table
    → AllAlnum text
    → in_table table text ≡ false
    → match_keyword table (text ++ 32 ∷ rest) ≡ none
unfolding match_keyword
match_keyword-none [] text rest hk ht h = refl
match_keyword-none ((kw, t) ∷ table) text rest hk ht h = elim (Bool-cases (same_text kw text)) [
  | inl e ↦ let f : false ≡ true = sym h ∙ rw e in cc
  | inr e ↦
      rw (keyword_misses kw text rest hk.0 ht e)
        (match_keyword-none table text rest hk.1 ht (rw e at h))
]

keywords-AllWord : AllWord keywords
keywords-AllWord = (
  (refl, (refl, (refl, tt))),
  (
    (refl, (refl, (refl, (refl, (refl, tt))))),
    (
      (refl, (refl, tt)),
      (
        (refl, (refl, (refl, (refl, tt)))),
        (
          (refl, (refl, (refl, (refl, (refl, tt))))),
          ((refl, (refl, (refl, (refl, tt)))), ((refl, (refl, (refl, (refl, (refl, tt))))), tt)),
        ),
      ),
    ),
  ),
)

alpha_class :
    (c : ℕ) → isalpha c ≡ true → (isspace c ≡ false) × (isdigit c ≡ false) × (isalnum c ≡ true)
alpha_class c h = (ground arith, ground arith, ground arith)

digit_space : (d : ℕ) → d < 10 → isspace (d + b'0') ≡ false
digit_space d h = ground arith

number_step-spell :
    (d : ℕ) (ds rest : List ℕ)
    → d < 10
    → AllDigit ds
    → number_step (digit_codes (d ∷ ds) ++ 32 ∷ rest) ≡ ok (tokens_of (numeral d ds), 32 ∷ rest)
unfolding number_step
number_step-spell d ds rest h hs = rw (digits_loop-spell (d ∷ ds) rest (h, hs))

if_true {ℓ} : {A : Type ℓ} (b : Bool) (x y : A) → b ≡ true → (if b then x else y) ≡ x
if_true b x y h = rw h

pub step_numeral :
    (d : ℕ) (ds rest : List ℕ)
    → d < 10
    → AllDigit ds
    → step_text (spell (numeral d ds) ++ 32 ∷ rest) ≡ ok (tokens_of (numeral d ds), 32 ∷ rest)
unfolding token_step
step_numeral d ds rest h hs =
    rw (digit_space d h, match_operator-digit d (digit_codes ds ++ 32 ∷ rest) h)
      (if_true (isdigit (d + b'0')) _ _ (isdigit-digit d h) ∙ number_step-spell d ds rest h hs)

word_step-spell :
    (c : ℕ) (cs rest : List ℕ)
    → IsLexeme (name c cs)
    → word_step (c ∷ cs ++ 32 ∷ rest) ≡ ok (tokens_of (name c cs), 32 ∷ rest)
unfolding word_step
word_step-spell c cs rest h =
    let alnum = (alpha_class c h.0).2 in
    rw (
      word_step,
      match_keyword-none keywords (c ∷ cs) rest keywords-AllWord (alnum, h.1) h.2,
      chars_loop-spell (c ∷ cs) rest (alnum, h.1),
    )

pub step_name :
    (c : ℕ) (cs rest : List ℕ)
    → IsLexeme (name c cs)
    → step_text (c ∷ cs ++ 32 ∷ rest) ≡ ok (tokens_of (name c cs), 32 ∷ rest)
unfolding token_step
step_name c cs rest h =
    let (space, digit, alnum) = alpha_class c h.0 in
    rw (space, match_operator-alpha c (cs ++ 32 ∷ rest) h.0, digit, h.0)
      (word_step-spell c cs rest h)
