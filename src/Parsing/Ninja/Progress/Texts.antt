-- ===== src/Parsing/Ninja/Progress/Texts.antt =====
-- The fuel of `parse_expanded_text` and `parse_rule_variable` is enough.
use all.Prelude.{
  ℕ, zero, suc, ◌≤◌, ◌<◌, ◌≡◌, ◌≢◌, refl, sym, ap, ◌∙◌, ◌⊎◌, inl, inr, true, false, ◌&&◌, Option,
  none, some, List, [], ◌∷◌, ◌++◌, length, arith, ◌==◌, Bool-cases,
}
use all.Prelude.Result.{Result, Fault, ok, failed, exception, out_of_fuel}
use all.Prelude.Names.{elem, elem_code}
use all.Prelude.Within.{Within, reads, fails}
use all.Parsing.Text.{demand, current_c, consume_c_nocheck, consume_c, consume_c_if}
use all.Parsing.Progress.{
  throws, bind, demand-Within, current_c-Within, nocheck-Within, consume_c-Within,
  consume_c_if-Within, test_c,
}
use all.Parsing.Ninja.State.{Name, Variable, Piece, text, identifier}
use all.Parsing.Ninja.Expand.{
  skip_spaces, consume_spaces, is_identifier_c, identifier_loop, parse_identifier,
  settable_rule_variables, escape, reference, dollar_value, read_dollar, read_piece, text_loop,
  parse_expanded_text, parse_variable, flush, value_piece, value_loop, parse_rule_variable,
}

pub length-skip_spaces : (file : List ℕ) → length (skip_spaces file) ≤ length file
unfolding skip_spaces
length-skip_spaces [] = omega arith
length-skip_spaces (c ∷ []) = elim (Bool-cases (c == b' ')) [
  | inl e ↦ rw e (omega arith)
  | inr e ↦ rw e (omega arith)
]
length-skip_spaces (c ∷ d ∷ file) = elim (Bool-cases (c == b' ')) [
  | inl e ↦ rw e (omega (arith, length-skip_spaces (d ∷ file)))
  | inr e ↦ elim (Bool-cases (c == b'$' && d == b'\n')) [
    | inl q ↦ rw (e, q) (omega (arith, length-skip_spaces file))
    | inr q ↦ rw (e, q) (omega arith)
  ]
]

same_head :
    (c x : ℕ) (file rest : List ℕ) → c ∷ file ≡ x ∷ rest → (c == b' ') ≡ false → (x == b' ') ≡ false
same_head c x file rest h e = let same : c ≡ x = cc in rw (← same) e

pub skip_le : (n : ℕ) (file : List ℕ) → length file ≤ n → length (skip_spaces file) ≤ n
skip_le n file h = omega (arith, length-skip_spaces file)

-- The loop that skips takes something away, or the text does not begin with a space.
pub skip_spaces-cases :
    (file : List ℕ)
    → (length (skip_spaces file) < length file)
      ⊎ ((skip_spaces file ≡ file)
          × ((c : ℕ) (rest : List ℕ) → file ≡ c ∷ rest → (c == b' ') ≡ false))
unfolding skip_spaces
skip_spaces-cases [] = inr (refl, λ c rest h. cc)
skip_spaces-cases (c ∷ []) = elim (Bool-cases (c == b' ')) [
  | inl e ↦ rw e (inl (omega arith))
  | inr e ↦ rw e (inr (refl, λ x rest h. same_head c x [] rest h e))
]
skip_spaces-cases (c ∷ d ∷ file) = elim (Bool-cases (c == b' ')) [
  | inl e ↦ rw e (inl (omega (arith, length-skip_spaces (d ∷ file))))
  | inr e ↦ elim (Bool-cases (c == b'$' && d == b'\n')) [
    | inl q ↦ rw (e, q) (inl (omega (arith, length-skip_spaces file)))
    | inr q ↦ rw (e, q) (inr (refl, λ x rest h. same_head c x (d ∷ file) rest h e))
  ]
]

pub spaces-Within : (n : ℕ) (file : List ℕ) → length file ≤ n → Within n (consume_spaces file)
unfolding consume_spaces
spaces-Within n file h = reads n tt (skip_spaces file) (omega (arith, length-skip_spaces file))

identifier_loop-Within : (n : ℕ) (file : List ℕ) → length file ≤ n → Within n (identifier_loop file)
unfolding identifier_loop
identifier_loop-Within n [] h = throws n
identifier_loop-Within n (c ∷ file) h = elim (Bool-cases (is_identifier_c c)) [
  | inr e ↦ rw e (reads n [] (c ∷ file) h)
  | inl e ↦ elim (identifier_loop-Within n file (omega arith)).cases [
    | inl ((id, rest), q, l) ↦ rw (e, q) (reads n (c ∷ id) rest l)
    | inr (fault, q, d) ↦ rw (e, q) (fails n fault d)
  ]
]

pub parse_identifier-Within :
    (n : ℕ) (file : List ℕ) → length file ≤ n → Within n (parse_identifier file)
unfolding parse_identifier
parse_identifier-Within n file h =
    bind (identifier_loop file) _ (identifier_loop-Within n file h) (λ id rest l.
      bind (demand _ rest) _ (demand-Within _ n rest l) (λ u rest' l'. reads n id rest' l'))

pub reference-Within : (n : ℕ) (file : List ℕ) → length file ≤ n → Within n (reference file)
unfolding reference
reference-Within n file h =
    test_c b'{' file _ h
      (λ rest l.
        bind (parse_identifier rest) _ (parse_identifier-Within n rest (omega arith))
          (λ id rest' l'.
            bind (consume_c b'}' rest') _ (consume_c-Within b'}' n rest' (omega arith))
              (λ u rest'' l''. reads n id rest'' l'')))
      (λ rest l. parse_identifier-Within n rest l)

escape-Within : (n : ℕ) (file : List ℕ) → length file ≤ n → Within n (escape file)
unfolding escape
escape-Within n file h =
    test_c b'\n' file _ h (λ r l. reads n (some []) r (omega arith))
      (λ r₁ l₁.
        test_c b' ' r₁ _ l₁ (λ r l. reads n (some (b' ' ∷ [])) r (omega arith))
          (λ r₂ l₂.
            test_c b':' r₂ _ l₂ (λ r l. reads n (some (b':' ∷ [])) r (omega arith))
              (λ r₃ l₃.
                bind (consume_c_if b'$' r₃) _ (consume_c_if-Within b'$' n r₃ l₃)
                  (λ dollar r₄ l₄. reads n _ r₄ l₄))))

dollar_piece :
    (n : ℕ) (e : Option (List ℕ)) (file : List ℕ) → length file ≤ n → Within n (dollar_value e file)
unfolding dollar_value
dollar_piece n none file h =
    bind (reference file) _ (reference-Within n file h)
      (λ id rest l. reads n (identifier id) rest l)
dollar_piece n (some s) file h = reads n (text s) file h

read_dollar-Within : (n : ℕ) (file : List ℕ) → length file ≤ n → Within n (read_dollar file)
unfolding read_dollar
read_dollar-Within n file h =
    bind (escape file) _ (escape-Within n file h) (λ e rest l. dollar_piece n e rest l)

-- A piece is not empty.
pub read_piece-Within : (n : ℕ) (file : List ℕ) → length file ≤ suc n → Within n (read_piece file)
unfolding read_piece
read_piece-Within n file h =
    test_c b'$' file _ h (λ rest l. read_dollar-Within n rest (omega arith))
      (λ rest l. bind (current_c rest) _ (current_c-Within (suc n) rest l) (λ c rest' l'.
        bind (consume_c_nocheck rest') _ (nocheck-Within n rest' l')
          (λ u rest'' l''. reads n (text (c ∷ [])) rest'' l'')))

value_piece-Within :
    (f : ℕ) (last : List ℕ) (p : Piece) (n : ℕ) (file : List ℕ)
    → length file < f
    → length file ≤ n
    → ((last' file' : List ℕ)
        → length file' < f
        → length file' ≤ n
        → Within n (value_loop f last' file'))
    → Within n (value_piece (value_loop f) last p file)
value_piece-Within f last (text s) n file h k ih = ih (last ++ s) file h k
value_piece-Within f last (identifier id) n file h k ih =
    bind (value_loop f [] file) _ (ih [] file h k)
      (λ more rest l. reads n (flush last ++ (identifier id ∷ more)) rest l)

pub value_loop-Within :
    (f : ℕ) (last : List ℕ) (n : ℕ) (file : List ℕ)
    → length file < f
    → length file ≤ n
    → Within n (value_loop f last file)
unfolding value_loop
value_loop-Within zero last n file h k = absurd (omega arith)
value_loop-Within (suc f) last n [] h k = throws n
value_loop-Within (suc f) last n (c ∷ file) h k =
    test_c b'\n' (c ∷ file) _ {n = suc (length file)} (omega arith)
      (λ rest l. reads n (flush last) rest (omega arith))
      (λ rest l. bind (read_piece rest) _ (read_piece-Within (length file) rest l) (λ p rest' l'.
        value_piece-Within f last p n rest' (omega arith) (omega arith)
          (λ last' file' h' k'. value_loop-Within f last' n file' h' k')))

-- Where a text ends: at one of its ends, and behind what it takes away; if that is nothing, the
-- text begins with that end, and it is no space.
pub record Stops (end_chars file : List ℕ) (r : Result (List ℕ × List ℕ)) : Type 0 where
  pub cases :
      ((out : List ℕ) × (c : ℕ) × (rest : List ℕ) × (r ≡ ok (out, c ∷ rest))
        × (elem_code c end_chars ≡ true)
        × ((length (c ∷ rest) < length file) ⊎ (file ≡ c ∷ rest)))
      ⊎ ((e : Fault) × (r ≡ failed e) × (e ≢ out_of_fuel))

module _ (end_chars : List ℕ) (variables : List (Name × Variable)) where
  text_loop-Stops :
      (f : ℕ) (file : List ℕ)
      → length file < f
      → Stops end_chars file (text_loop end_chars variables f file)
  unfolding text_loop
  text_loop-Stops zero file h = absurd (omega arith)
  text_loop-Stops (suc f) [] h = record { cases = inr (exception, refl, λ e. cc) }
  text_loop-Stops (suc f) (c ∷ file) h = elim (Bool-cases (elem_code c end_chars)) [
    | inl e ↦ rw e (record { cases = inl ([], c, file, refl, e, inr refl) })
    | inr e ↦ elim (read_piece-Within (length file) (c ∷ file) (omega arith)).cases [
      | inr (fault, q, d) ↦ rw (e, q) (record { cases = inr (fault, refl, d) })
      | inl ((p, rest), q, l) ↦ elim (text_loop-Stops f rest (omega arith)).cases [
        | inr (fault, q', d) ↦ rw (e, q, q') (record { cases = inr (fault, refl, d) })
        | inl (out, x, rest', q', m, inl k) ↦
            rw (e, q, q') (record { cases = inl (_, x, rest', refl, m, inl (omega arith)) })
        | inl (out, x, rest', q', m, inr k) ↦
            let same = ap length k in
            rw (e, q, q') (record { cases = inl (_, x, rest', refl, m, inl (omega arith)) })
      ]
    ]
  ]

  pub parse_expanded_text-Stops :
      (file : List ℕ) → Stops end_chars file (parse_expanded_text end_chars variables file)
  unfolding parse_expanded_text consume_spaces
  parse_expanded_text-Stops file =
      let l = length-skip_spaces file in
      elim (text_loop-Stops (suc (length (skip_spaces file))) (skip_spaces file)
        (omega arith)).cases [
          | inr (fault, q, d) ↦ record { cases = inr (fault, q, d) }
          | inl (out, c, rest, q, m, inl k) ↦ record {
            cases = inl (out, c, rest, q, m, inl (omega arith));
          }
          | inl (out, c, rest, q, m, inr k) ↦ elim (skip_spaces-cases file) [
            | inl less ↦
                let same = ap length k in
                record { cases = inl (out, c, rest, q, m, inl (omega arith)) }
            | inr (e, first) ↦ record { cases = inl (out, c, rest, q, m, inr (sym e ∙ k)) }
          ]
        ]

  -- A text and the spaces behind it: either there is less text then, or as much, which begins
  -- with an end that is no space.
  pub record Item (file : List ℕ) (r : Result (List ℕ × List ℕ)) : Type 0 where
    pub cases :
        ((out : List ℕ) × (rest : List ℕ) × (r ≡ ok (out, rest))
          × (length (skip_spaces rest) ≤ length file)
          × ((length (skip_spaces rest) < length file)
              ⊎ ((c : ℕ) × (tail : List ℕ) × (file ≡ c ∷ tail)
                  × (rest ≡ c ∷ tail)
                  × (skip_spaces rest ≡ c ∷ tail)
                  × (elem_code c end_chars ≡ true)
                  × ((c == b' ') ≡ false))))
        ⊎ ((e : Fault) × (r ≡ failed e) × (e ≢ out_of_fuel))

  pub text-Item : (file : List ℕ) → Item file (parse_expanded_text end_chars variables file)
  text-Item file = elim (parse_expanded_text-Stops file).cases [
    | inr (fault, q, d) ↦ record { cases = inr (fault, q, d) }
    | inl (out, c, rest, q, m, inl k) ↦
        let l = length-skip_spaces (c ∷ rest) in
        record { cases = inl (out, c ∷ rest, q, omega arith, inl (omega arith)) }
    | inl (out, c, rest, q, m, inr k) ↦
        let l = length-skip_spaces (c ∷ rest) in
        let same = ap length k in
        elim (skip_spaces-cases (c ∷ rest)) [
          | inl less ↦ record { cases = inl (out, c ∷ rest, q, omega arith, inl (omega arith)) }
          | inr (e, first) ↦ record {
            cases =
                inl
                  (out, c ∷ rest, q, omega arith, inr (c, rest, k, refl, e, m, first c rest refl));
          }
        ]
  ]

  pub text-Within :
      (n : ℕ) (file : List ℕ)
      → length file ≤ n
      → Within n (parse_expanded_text end_chars variables file)
  text-Within n file h = elim (parse_expanded_text-Stops file).cases [
    | inr (fault, q, d) ↦ rw q (fails n fault d)
    | inl (out, c, rest, q, m, inl k) ↦ rw q (reads n out (c ∷ rest) (omega arith))
    | inl (out, c, rest, q, m, inr k) ↦
        let same = ap length k in rw q (reads n out (c ∷ rest) (omega arith))
  ]

pub parse_variable-Within :
    (variables : List (Name × Variable)) (n : ℕ) (file : List ℕ)
    → length file ≤ suc n
    → Within n (parse_variable variables file)
unfolding parse_variable
parse_variable-Within variables n file h =
    bind (parse_identifier file) _ (parse_identifier-Within (suc n) file h) (λ name r₁ l₁.
      bind (consume_c b'=' (skip_spaces r₁)) _
        (consume_c-Within b'=' n (skip_spaces r₁) (skip_le (suc n) r₁ l₁))
        (λ u₂ r₂ l₂.
          bind (parse_expanded_text (b'\n' ∷ []) variables (skip_spaces r₂)) _
            (text-Within (b'\n' ∷ []) variables n (skip_spaces r₂) (skip_le n r₂ l₂))
            (λ value r₃ l₃.
              bind (consume_c b'\n' r₃) _ (consume_c-Within b'\n' n r₃ (omega arith))
                (λ u₄ r₄ l₄. reads n (record { name = name; value = value }) r₄ l₄))))

pub parse_rule_variable-Within :
    (n : ℕ) (file : List ℕ) → length file ≤ suc n → Within n (parse_rule_variable file)
unfolding parse_rule_variable
parse_rule_variable-Within n file h =
    bind (parse_identifier file) _ (parse_identifier-Within (suc n) file h) (λ name r₁ l₁.
      bind (demand (elem name settable_rule_variables) r₁) _
        (demand-Within (elem name settable_rule_variables) (suc n) r₁ l₁)
        (λ u₂ r₂ l₂.
          bind (consume_c b'=' (skip_spaces r₂)) _
            (consume_c-Within b'=' n (skip_spaces r₂) (skip_le (suc n) r₂ l₂))
            (λ u₃ r₃ l₃.
              bind (value_loop (suc (length (skip_spaces r₃))) [] (skip_spaces r₃)) _
                (value_loop-Within (suc (length (skip_spaces r₃))) [] n (skip_spaces r₃)
                  (omega arith) (skip_le n r₃ l₃))
                (λ value r₄ l₄. reads n (record { name = name; value = value }) r₄ l₄))))
