-- ===== src/Parsing/Ninja/RoundTrip.antt =====
-- A text written with the escapes of a build.ninja file is read back.
use all.Prelude.{
  ℕ, zero, suc, ◌<◌, ◌≤◌, ◌≡◌, inl, inr, Bool, true, false, ◌||◌, List, [], ◌∷◌, ◌++◌, length,
  length-append, ◌==◌, if◌then◌else◌, Bool-cases, arith,
}
use all.Prelude.Result.{Result, ok}
use all.Prelude.Names.{elem_code}
use all.Parsing.Text.{continue, return}
use all.Parsing.Ninja.State.{Name, Variable, text}
use all.Parsing.Ninja.Expand.{skip_spaces, read_piece, text_loop, parse_expanded_text}

-- A space, a colon and a `$` stand behind a `$`.
abbrev pub is_special : ℕ → Bool
is_special c = c == b' ' || c == b':' || c == b'$'

unfoldable pub escaped : List ℕ → List ℕ
escaped [] = []
escaped (c ∷ cs) = if is_special c then b'$' ∷ (c ∷ escaped cs) else c ∷ escaped cs

-- What can be written for a reader that stops at the `end_chars`: no newline, and of the
-- `end_chars` those with an escape.
abbrev pub Writable : List ℕ → List ℕ → Type 0
Writable end_chars [] = Unit
Writable end_chars (c ∷ cs) =
    ((c == b'\n') ≡ false)
    × ((is_special c || elem_code c end_chars) ≡ is_special c)
    × Writable end_chars cs

read-special :
    (c : ℕ) (rest : List ℕ)
    → is_special c ≡ true
    → read_piece (b'$' ∷ (c ∷ rest)) ≡ ok (text (c ∷ []), rest)
unfolding read_piece
read-special c rest h = ground arith

read-plain :
    (c : ℕ) (rest : List ℕ)
    → is_special c ≡ false
    → read_piece (c ∷ rest) ≡ ok (text (c ∷ []), rest)
unfolding read_piece
read-plain c rest h = ground arith

skip_spaces-stop :
    (c : ℕ) (file : List ℕ)
    → (c == b' ') ≡ false
    → (c == b'$') ≡ false
    → skip_spaces (c ∷ file) ≡ c ∷ file
unfolding skip_spaces
skip_spaces-stop c [] h k = rw h
skip_spaces-stop c (d ∷ file) h k = rw (h, k)

skip_spaces-special :
    (c : ℕ) (file : List ℕ)
    → is_special c ≡ true
    → skip_spaces (b'$' ∷ (c ∷ file)) ≡ b'$' ∷ (c ∷ file)
unfolding skip_spaces
skip_spaces-special c file h = let newline : (c == b'\n') ≡ false = ground arith in rw newline

length-le-escaped : (s : List ℕ) → length s ≤ length (escaped s)
unfolding escaped
length-le-escaped [] = omega arith
length-le-escaped (c ∷ s) = elim (Bool-cases (is_special c)) [
  | inl e ↦ rw e (omega (arith, length-le-escaped s))
  | inr e ↦ rw e (omega (arith, length-le-escaped s))
]

cons-ok :
    (r : Result (List ℕ × List ℕ)) (c : ℕ) (s rest : List ℕ)
    → r ≡ ok (s, rest)
    → continue r (λ more. return ((c ∷ []) ++ more)) ≡ ok (c ∷ s, rest)
cons-ok r c s rest h = rw h

not_dollar :
    (end_chars : List ℕ) (e : ℕ)
    → elem_code b'$' end_chars ≡ false
    → elem_code e end_chars ≡ true
    → (e == b'$') ≡ false
not_dollar end_chars e d h = elim (Bool-cases (e == b'$')) [
  | inr q ↦ q
  | inl q ↦
      let same : e ≡ b'$' = ground arith in
      let f : elem_code b'$' end_chars ≡ true = rw same at h in cc
]

module _ (end_chars : List ℕ) (variables : List (Name × Variable)) (e : ℕ) (rest : List ℕ) where
  text_loop-escaped :
      (s : List ℕ) (f : ℕ)
      → elem_code b'$' end_chars ≡ false
      → elem_code e end_chars ≡ true
      → Writable end_chars s
      → length s < f
      → text_loop end_chars variables f (escaped s ++ (e ∷ rest)) ≡ ok (s, e ∷ rest)
  unfolding text_loop escaped
  text_loop-escaped s zero d h w l = absurd (omega arith)
  text_loop-escaped [] (suc f) d h w l = rw h
  text_loop-escaped (c ∷ s) (suc f) d h (n, q, w) l = elim (Bool-cases (is_special c)) [
    | inl p ↦
        rw (p, d, read-special c (escaped s ++ (e ∷ rest)) p)
          (cons-ok (text_loop end_chars variables f (escaped s ++ (e ∷ rest))) c s (e ∷ rest)
            (text_loop-escaped s f d h w (omega arith)))
    | inr p ↦
        let inside : elem_code c end_chars ≡ false = rw p at q in
        rw (p, inside, read-plain c (escaped s ++ (e ∷ rest)) p)
          (cons-ok (text_loop end_chars variables f (escaped s ++ (e ∷ rest))) c s (e ∷ rest)
            (text_loop-escaped s f d h w (omega arith)))
  ]

  skip_spaces-escaped :
      (s : List ℕ)
      → elem_code b'$' end_chars ≡ false
      → elem_code e end_chars ≡ true
      → (e == b' ') ≡ false
      → skip_spaces (escaped s ++ (e ∷ rest)) ≡ escaped s ++ (e ∷ rest)
  unfolding escaped
  skip_spaces-escaped [] d h k = skip_spaces-stop e rest k (not_dollar end_chars e d h)
  skip_spaces-escaped (c ∷ s) d h k = elim (Bool-cases (is_special c)) [
    | inl p ↦ rw p (skip_spaces-special c (escaped s ++ (e ∷ rest)) p)
    | inr p ↦ rw p (skip_spaces-stop c (escaped s ++ (e ∷ rest)) (ground arith) (ground arith))
  ]

  -- A text without newlines, written with a `$` before each space, colon and `$`, is read back by
  -- `parse_expanded_text` whatever the variables are, up to the character e that ends it. The
  -- `$` is not among the characters at which the reader stops, e is one of them and is no space,
  -- and no other character of the text is.
  pub parse_expanded_text-escaped :
      (s : List ℕ)
      → elem_code b'$' end_chars ≡ false
      → elem_code e end_chars ≡ true
      → (e == b' ') ≡ false
      → Writable end_chars s
      → parse_expanded_text end_chars variables (escaped s ++ (e ∷ rest)) ≡ ok (s, e ∷ rest)
  unfolding parse_expanded_text
  parse_expanded_text-escaped s d h k w = rw (skip_spaces-escaped s d h k) (
      text_loop-escaped s (suc (length (escaped s ++ (e ∷ rest)))) d h w
        (omega (arith, length-append (escaped s) (e ∷ rest), length-le-escaped s)))
