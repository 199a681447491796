-- ===== src/Tiny/Parser/Leaves.antt =====
-- Names, numbers and prefix operators: what their loops take.
use all.Prelude.{ℕ, ◌≡◌, refl, ap, ◌∙◌, List, [], ◌∷◌, ◌++◌, true, inl, inr, Bool-cases}
use all.Prelude.Int.{ℤ, pos}
use all.Prelude.Result.{ok, exception, ◌>>=◌, >>=-eq-ok}
use all.Tiny.Int64.{add64, mul64}
use all.Tiny.Token.{Token}
use all.Tiny.Syntax.{Identifier}
use all.Tiny.Parser.{has_any, unary_ops, identifier_loop, number_loop, operators_loop}
use all.Tiny.Parser.Grammar.{name_tokens, digit_tokens, value_of, all_in}
use all.Tiny.Parser.Spelled.{Spelled, yields, faults, after}

abbrev pub SpellsName : Identifier → List Token → Type 0
SpellsName name pre = pre ≡ name_tokens name

pub identifier_loop-Spelled : (ts : List Token) → Spelled SpellsName ts (identifier_loop ts)
unfolding identifier_loop
identifier_loop-Spelled [] = faults SpellsName [] _
identifier_loop-Spelled (Token.identifier_end ∷ ts) =
    yields SpellsName (Token.identifier_end ∷ ts) (Token.identifier_end ∷ []) [] ts refl refl
identifier_loop-Spelled (Token.identifier_char c ∷ ts) =
    after SpellsName SpellsName ts (Token.identifier_char c ∷ ts) (identifier_loop ts) _
      (identifier_loop-Spelled ts)
      (λ name rest pre e s.
        yields SpellsName (Token.identifier_char c ∷ ts) (Token.identifier_char c ∷ pre) (c ∷ name)
          rest (ap (λ r. Token.identifier_char c ∷ r) e) (ap (λ r. Token.identifier_char c ∷ r) s))
identifier_loop-Spelled (t ∷ ts) = faults SpellsName _ exception

abbrev pub SpellsDigits : ℤ → ℤ → List Token → Type 0
SpellsDigits m n pre = (ds : List ℕ) × (pre ≡ digit_tokens ds) × (value_of m ds ≡ ok n)

pub number_loop-Spelled : (m : ℤ) (ts : List Token) → Spelled (SpellsDigits m) ts (number_loop m ts)
unfolding number_loop
number_loop-Spelled m [] = faults (SpellsDigits m) [] _
number_loop-Spelled m (Token.number_end ∷ ts) =
    yields (SpellsDigits m) (Token.number_end ∷ ts) (Token.number_end ∷ []) m ts refl
      ([], refl, refl)
number_loop-Spelled m (Token.number_digit d ∷ ts) = record {
  taken = λ n rest h.
      let (x, p, q) = >>=-eq-ok (mul64 m (pos 10)) _ h in
      let (y, p', q') = >>=-eq-ok (add64 x (pos d)) _ q in
      let (pre, split, (ds, e, v)) = (number_loop-Spelled y ts).taken n rest q' in
      (
        Token.number_digit d ∷ pre,
        ap (λ r. Token.number_digit d ∷ r) split,
        (
          d ∷ ds,
          ap (λ r. Token.number_digit d ∷ r) e,
          ap (λ r. r >>= λ tenfold. add64 tenfold (pos d) >>= λ next. value_of next ds) p
              ∙ ap (λ r. r >>= λ next. value_of next ds) p'
              ∙ v,
        ),
      );
}
number_loop-Spelled m (t ∷ ts) = faults (SpellsDigits m) _ exception

pub operators_loop-split :
    (ts : List Token)
    → (ts ≡ (operators_loop ts).0 ++ (operators_loop ts).1)
      × (all_in unary_ops (operators_loop ts).0 ≡ true)
unfolding operators_loop
operators_loop-split [] = (refl, refl)
operators_loop-split (t ∷ ts) = elim (Bool-cases (has_any unary_ops t)) [
  | inl e ↦ let (p, q) = operators_loop-split ts in rw (e, e) (ap (λ r. t ∷ r) p, q)
  | inr e ↦ rw e (refl, refl)
]
