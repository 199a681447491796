-- ===== src/Tiny/Tokenizer/Total.antt =====
-- `tokenize` never runs out of fuel: each round takes a character of the text.
use all.Prelude.{
  ℕ, zero, suc, ◌≤◌, ◌<◌, ◌≡◌, ◌≢◌, refl, true, not, ◌&&◌, Option, none, some, List, [], ◌∷◌, ◌++◌,
  length, drop, arith, ◌⊎◌, inl, inr, Bool-cases, length-drop,
}
use all.Prelude.Result.{Result, Fault, ok, failed, assertion, exception, out_of_fuel}
use all.Prelude.Chars.{isspace, isdigit, isalpha, isalnum, starts_with}
use all.Tiny.Token.{Token, number_start, number_end, identifier_start, identifier_end}
use all.Tiny.Tokenizer.{
  operators, keywords, match_operator, match_keyword, word_ends, digits_loop, chars_loop,
  alpha_next, number_step, word_step, token_step, tokenize_loop, tokenize,
}
use all.Tiny.Tokenizer.Lexeme.{filled}
use all.Tiny.Progress.{Within, reads, choose, choose_eq, guarded}

abbrev AllFilled : List (List ℕ × Token) → Type 0
AllFilled [] = Unit
AllFilled ((str, t) ∷ table) = (filled str ≡ true) × AllFilled table

length-drop-filled :
    (str : List ℕ) (c : ℕ) (file : List ℕ)
    → filled str ≡ true
    → length (drop (length str) (c ∷ file)) ≤ length file
length-drop-filled [] c file h = cc
length-drop-filled (s ∷ str) c file h = omega (arith, length-drop {0} (length str) file)

-- A line that fits takes a character.
abbrev Fits : List ℕ → Option (Token × List ℕ) → Type 0
Fits file r = ((p : Token × List ℕ) × (r ≡ some p) × (length p.1 ≤ length file)) ⊎ (r ≡ none)

match_operator-Fits :
    (table : List (List ℕ × Token)) (c : ℕ) (file : List ℕ)
    → AllFilled table
    → Fits file (match_operator table (c ∷ file))
unfolding match_operator
match_operator-Fits [] c file h = inr refl
match_operator-Fits ((str, t) ∷ table) c file h = elim (Bool-cases (starts_with str (c ∷ file))) [
  | inl e ↦ rw e (inl ((t, drop (length str) (c ∷ file)), refl, length-drop-filled str c file h.0))
  | inr e ↦ rw e (match_operator-Fits table c file h.1)
]

match_keyword-Fits :
    (table : List (List ℕ × Token)) (c : ℕ) (file : List ℕ)
    → AllFilled table
    → Fits file (match_keyword table (c ∷ file))
unfolding match_keyword
match_keyword-Fits [] c file h = inr refl
match_keyword-Fits ((str, t) ∷ table) c file h =
    elim (Bool-cases (starts_with str (c ∷ file) && word_ends (drop (length str) (c ∷ file)))) [
      | inl e ↦
          rw e (inl ((t, drop (length str) (c ∷ file)), refl, length-drop-filled str c file h.0))
      | inr e ↦ rw e (match_keyword-Fits table c file h.1)
    ]

length-digits_loop : (file : List ℕ) → length (digits_loop file).1 ≤ length file
unfolding digits_loop
length-digits_loop [] = omega arith
length-digits_loop (c ∷ file) = elim (Bool-cases (isdigit c)) [
  | inl e ↦ rw e (omega (arith, length-digits_loop file))
  | inr e ↦ rw e (omega arith)
]

length-chars_loop : (file : List ℕ) → length (chars_loop file).1 ≤ length file
unfolding chars_loop
length-chars_loop [] = omega arith
length-chars_loop (c ∷ file) = elim (Bool-cases (isalnum c)) [
  | inl e ↦ rw e (omega (arith, length-chars_loop file))
  | inr e ↦ rw e (omega arith)
]

digits_shorter :
    (c : ℕ) (file : List ℕ) → isdigit c ≡ true → length (digits_loop (c ∷ file)).1 ≤ length file
unfolding digits_loop
digits_shorter c file h = rw h (length-digits_loop file)

chars_shorter :
    (c : ℕ) (file : List ℕ) → isalpha c ≡ true → length (chars_loop (c ∷ file)).1 ≤ length file
unfolding chars_loop
chars_shorter c file h =
    let alnum : isalnum c ≡ true = ground arith in rw alnum (length-chars_loop file)

operators-AllFilled : AllFilled operators
operators-AllFilled = (
  refl,
  (
    refl,
    (
      refl,
      (
        refl,
        (
          refl,
          (
            refl,
            (
              refl,
              (
                refl,
                (
                  refl,
                  (
                    refl,
                    (
                      refl,
                      (
                        refl,
                        (refl, (refl, (refl, (refl, (refl, (refl, (refl, (refl, (refl, tt))))))))),
                      ),
                    ),
                  ),
                ),
              ),
            ),
          ),
        ),
      ),
    ),
  ),
)

keywords-AllFilled : AllFilled keywords
keywords-AllFilled = (refl, (refl, (refl, (refl, (refl, (refl, (refl, tt)))))))

number_step-Within :
    (c : ℕ) (file : List ℕ) → isdigit c ≡ true → Within (length file) (number_step (c ∷ file))
unfolding number_step
number_step-Within c file h =
    let (ds, rest) = digits_loop (c ∷ file) in
    guarded (not (alpha_next rest)) exception
      {x = ok (number_start ∷ (ds ++ number_end ∷ []), rest)} (λ e. cc)
      (λ _.
        reads (length file) (number_start ∷ (ds ++ number_end ∷ [])) rest (digits_shorter c file h))

word_step-Within :
    (c : ℕ) (file : List ℕ) → isalpha c ≡ true → Within (length file) (word_step (c ∷ file))
unfolding word_step
word_step-Within c file h = elim (match_keyword-Fits keywords c file keywords-AllFilled) [
  | inl ((t, rest), e, l) ↦ rw (word_step, e) (reads (length file) (t ∷ []) rest l)
  | inr e ↦
      rw (word_step, e)
        (reads (length file) (identifier_start ∷ ((chars_loop (c ∷ file)).0 ++ identifier_end ∷ []))
          (chars_loop (c ∷ file)).1 (chars_shorter c file h))
]

token_step-Within : (c : ℕ) (file : List ℕ) → Within (length file) (token_step c file)
unfolding token_step
token_step-Within c file =
    choose (isspace c) (reads (length file) [] file (omega arith))
      (elim (match_operator-Fits operators c file operators-AllFilled) [
        | inl ((t, rest), e, l) ↦ rw e (reads (length file) (t ∷ []) rest l)
        | inr e ↦ rw e (
            choose_eq (isdigit c) (number_step-Within c file)
              (λ _. guarded (isalpha c) assertion (λ e. cc) (word_step-Within c file)))
      ])

-- The tokens of a text, or a fault of the program.
abbrev pub Settles : Result (List Token) → Type 0
Settles r =
    ((tokens : List Token) × (r ≡ ok tokens)) ⊎ ((e : Fault) × (r ≡ failed e) × (e ≢ out_of_fuel))

tokenize_loop-Settles : (f : ℕ) (file : List ℕ) → length file < f → Settles (tokenize_loop f file)
unfolding tokenize_loop
tokenize_loop-Settles zero file k = absurd (omega arith)
tokenize_loop-Settles (suc f) [] k = inl ([], refl)
tokenize_loop-Settles (suc f) (c ∷ file) k = elim (token_step-Within c file).cases [
  | inr (e, q, d) ↦ rw q (inr (e, refl, d))
  | inl ((out, rest), q, l) ↦ elim (tokenize_loop-Settles f rest (omega arith)) [
    | inr (e, q', d) ↦ rw (q, q') (inr (e, refl, d))
    | inl (more, q') ↦ rw (q, q') (inl (out ++ more, refl))
  ]
]

-- For any text `tokenize` ends within its fuel: it gives tokens, or fails with an assertion or an
-- exception of the source.
pub tokenize-Settles : (file : List ℕ) → Settles (tokenize file)
unfolding tokenize
tokenize-Settles file = tokenize_loop-Settles (suc (length file)) file (omega arith)
