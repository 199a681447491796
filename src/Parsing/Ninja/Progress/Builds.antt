-- ===== src/Parsing/Ninja/Progress/Builds.antt =====
-- The fuel of the loops of `parse_build` is enough. Such a loop may read an empty text, but then it
-- stands at a bar or at a newline, and ends.
use all.Prelude.{
  ℕ, zero, suc, ◌≤◌, ◌<◌, ◌≡◌, ap, inl, inr, true, false, not, List, [], ◌∷◌, length, arith, ◌==◌,
  if◌then◌else◌, Bool-cases,
}
use all.Prelude.Result.{ok}
use all.Prelude.Chars.{codes}
use all.Prelude.Names.{elem_code}
use all.Prelude.Within.{Within, reads, fails}
use all.Parsing.Text.{continue, demand, current_c, consume_c, consume_c_if}
use all.Parsing.Progress.{
  throws, bind, demand-Within, current_c-Within, consume_c-Within, consume_c_if-Within, test_c,
}
use all.Parsing.Ninja.State.{Name, Variable}
use all.Parsing.Ninja.Expand.{skip_spaces}
use all.Parsing.Ninja.Build.{
  closed, one_bar, two_bars, outputs_loop, implicit_outputs_loop, inputs_loop, implicit_inputs_loop,
  order_only_loop,
}
use all.Parsing.Ninja.Progress.Texts.{text-Item}

abbrev path_ends : List ℕ
path_ends = codes " :|\n"

abbrev input_ends : List ℕ
input_ends = codes " |\n"

bar_of :
    (x c : ℕ) (file tail : List ℕ)
    → (x == b':') ≡ false
    → x ∷ file ≡ c ∷ tail
    → elem_code c path_ends ≡ true
    → (c == b' ') ≡ false
    → (c == b'\n') ≡ false
    → (c == b'|') ≡ true
bar_of x c file tail e same m s n =
    let q : x ≡ c = cc in let f : (c == b':') ≡ false = rw q at e in ground arith

input_bar :
    (x c : ℕ) (file tail : List ℕ)
    → (x == b'\n') ≡ false
    → x ∷ file ≡ c ∷ tail
    → elem_code c input_ends ≡ true
    → (c == b' ') ≡ false
    → (c == b'|') ≡ true
input_bar x c file tail e same m s =
    let q : x ≡ c = cc in let f : (c == b'\n') ≡ false = rw q at e in ground arith

module _ (variables : List (Name × Variable)) where
  pub outputs_loop-Within :
      (f n : ℕ) (file : List ℕ)
      → length file < f
      → length file ≤ n
      → Within n (outputs_loop variables f file)
  unfolding outputs_loop
  outputs_loop-Within zero n file h k = absurd (omega arith)
  outputs_loop-Within (suc f) n [] h k = throws n
  outputs_loop-Within (suc f) n (x ∷ file) h k = elim (Bool-cases (x == b':')) [
    | inl e ↦ rw e (reads n ([], closed) file (omega arith))
    | inr e ↦ elim (text-Item path_ends variables (x ∷ file)).cases [
      | inr (fault, q, d) ↦ rw (e, q) (fails n fault d)
      | inl (out, rest, q, le, inl less) ↦
          rw (e, q)
            (bind (current_c (skip_spaces rest)) _
              (current_c-Within (length file) (skip_spaces rest) (omega arith))
              (λ c r₁ l₁.
                bind (demand (not (c == b'\n')) r₁) _
                  (demand-Within (not (c == b'\n')) (length file) r₁ l₁)
                  (λ u r₂ l₂.
                    test_c b'|' r₂ _ l₂ (λ r₃ l₃. reads n (out ∷ [], one_bar) r₃ (omega arith))
                      (λ r₃ l₃.
                        bind (outputs_loop variables f r₃) _
                          (outputs_loop-Within f n r₃ (omega arith) (omega arith))
                          (λ more r₄ l₄. reads n (out ∷ more.0, more.1) r₄ l₄)))))
      | inl (out, rest, q, le, inr (c, tail, same, at, skips, m, s)) ↦
          elim (Bool-cases (c == b'\n')) [
            | inl nl ↦ rw (e, q, skips, nl) (throws n)
            | inr nl ↦
                let len = ap length same in
                rw (e, q, skips, nl, bar_of x c file tail e same m s nl)
                  (reads n (out ∷ [], one_bar) tail (omega arith))
          ]
    ]
  ]

  pub implicit_outputs_loop-Within :
      (f n : ℕ) (file : List ℕ)
      → length file < f
      → length file ≤ n
      → Within n (implicit_outputs_loop variables f file)
  unfolding implicit_outputs_loop
  implicit_outputs_loop-Within zero n file h k = absurd (omega arith)
  implicit_outputs_loop-Within (suc f) n [] h k = throws n
  implicit_outputs_loop-Within (suc f) n (x ∷ file) h k = elim (Bool-cases (x == b':')) [
    | inl e ↦ rw e (reads n [] file (omega arith))
    | inr e ↦ elim (text-Item path_ends variables (x ∷ file)).cases [
      | inr (fault, q, d) ↦ rw (e, q) (fails n fault d)
      | inl (out, rest, q, le, inl less) ↦
          rw (e, q)
            (bind (current_c (skip_spaces rest)) _
              (current_c-Within (length file) (skip_spaces rest) (omega arith))
              (λ c r₁ l₁.
                bind (demand (not (c == b'\n')) r₁) _
                  (demand-Within (not (c == b'\n')) (length file) r₁ l₁)
                  (λ u r₂ l₂.
                    bind (demand (not (c == b'|')) r₂) _
                      (demand-Within (not (c == b'|')) (length file) r₂ l₂)
                      (λ u' r₃ l₃.
                        bind (implicit_outputs_loop variables f r₃) _
                          (implicit_outputs_loop-Within f n r₃ (omega arith) (omega arith))
                          (λ more r₄ l₄. reads n (out ∷ more) r₄ l₄)))))
      | inl (out, rest, q, le, inr (c, tail, same, at, skips, m, s)) ↦
          elim (Bool-cases (c == b'\n')) [
            | inl nl ↦ rw (e, q, skips, nl) (throws n)
            | inr nl ↦ rw (e, q, skips, nl, bar_of x c file tail e same m s nl) (throws n)
          ]
    ]
  ]

  pub inputs_loop-Within :
      (f n : ℕ) (file : List ℕ)
      → length file < f
      → length file ≤ n
      → Within n (inputs_loop variables f file)
  unfolding inputs_loop
  inputs_loop-Within zero n file h k = absurd (omega arith)
  inputs_loop-Within (suc f) n [] h k = throws n
  inputs_loop-Within (suc f) n (x ∷ file) h k = elim (Bool-cases (x == b'\n')) [
    | inl e ↦ rw e (reads n ([], closed) file (omega arith))
    | inr e ↦ elim (text-Item input_ends variables (x ∷ file)).cases [
      | inr (fault, q, d) ↦ rw (e, q) (fails n fault d)
      | inl (out, rest, q, le, inl less) ↦
          rw (e, q)
            (test_c b'|' (skip_spaces rest) _ {n = length file} (omega arith)
              (λ r₁ l₁.
                bind (consume_c_if b'|' r₁) _ (consume_c_if-Within b'|' n r₁ (omega arith))
                  (λ second r₂ l₂. reads n (out ∷ [], if second then two_bars else one_bar) r₂ l₂))
              (λ r₁ l₁.
                bind (inputs_loop variables f r₁) _
                  (inputs_loop-Within f n r₁ (omega arith) (omega arith))
                  (λ more r₂ l₂. reads n (out ∷ more.0, more.1) r₂ l₂)))
      | inl (out, rest, q, le, inr (c, tail, same, at, skips, m, s)) ↦
          let len = ap length same in
          rw (e, q, skips, input_bar x c file tail e same m s)
            (bind (consume_c_if b'|' tail) _ (consume_c_if-Within b'|' n tail (omega arith))
              (λ second r₂ l₂. reads n (out ∷ [], if second then two_bars else one_bar) r₂ l₂))
    ]
  ]

  pub implicit_inputs_loop-Within :
      (f n : ℕ) (file : List ℕ)
      → length file < f
      → length file ≤ n
      → Within n (implicit_inputs_loop variables f file)
  unfolding implicit_inputs_loop
  implicit_inputs_loop-Within zero n file h k = absurd (omega arith)
  implicit_inputs_loop-Within (suc f) n [] h k = throws n
  implicit_inputs_loop-Within (suc f) n (x ∷ file) h k = elim (Bool-cases (x == b'\n')) [
    | inl e ↦ rw e (reads n ([], closed) file (omega arith))
    | inr e ↦ elim (text-Item input_ends variables (x ∷ file)).cases [
      | inr (fault, q, d) ↦ rw (e, q) (fails n fault d)
      | inl (out, rest, q, le, inl less) ↦
          rw (e, q)
            (test_c b'|' (skip_spaces rest) _ {n = length file} (omega arith)
              (λ r₁ l₁.
                bind (consume_c b'|' r₁) _ (consume_c-Within b'|' n r₁ (omega arith))
                  (λ u r₂ l₂. reads n (out ∷ [], two_bars) r₂ l₂))
              (λ r₁ l₁.
                bind (implicit_inputs_loop variables f r₁) _
                  (implicit_inputs_loop-Within f n r₁ (omega arith) (omega arith))
                  (λ more r₂ l₂. reads n (out ∷ more.0, more.1) r₂ l₂)))
      | inl (out, rest, q, le, inr (c, tail, same, at, skips, m, s)) ↦
          let len = ap length same in
          rw (e, q, skips, input_bar x c file tail e same m s)
            (bind (consume_c b'|' tail) _ (consume_c-Within b'|' n tail (omega arith))
              (λ u r₂ l₂. reads n (out ∷ [], two_bars) r₂ l₂))
    ]
  ]

  -- After an input that takes something away, `current_c` looks at the text before its spaces.
  order_only_rest :
      (f n : ℕ) (out rest file : List ℕ)
      → length (skip_spaces rest) ≤ length file
      → ((r : List ℕ) → length r < f → length r ≤ n → Within n (order_only_loop variables f r))
      → length file < f
      → length file ≤ n
      → Within n (
          continue (current_c rest) (λ c r₁. continue (demand (not (c == b'|')) r₁) (λ u r₂.
            continue
              (order_only_loop variables f (skip_spaces r₂))
              (λ more r₃. ok (out ∷ more, r₃)))))
  unfolding current_c
  order_only_rest f n out [] file l ih h k = throws n
  order_only_rest f n out (c ∷ rest) file l ih h k = elim (Bool-cases (c == b'|')) [
    | inl e ↦ rw e (throws n)
    | inr e ↦ rw e (
        bind (order_only_loop variables f (skip_spaces (c ∷ rest))) _
          (ih (skip_spaces (c ∷ rest)) (omega arith) (omega arith))
          (λ more r₃ l₃. reads n (out ∷ more) r₃ l₃))
  ]

  pub order_only_loop-Within :
      (f n : ℕ) (file : List ℕ)
      → length file < f
      → length file ≤ n
      → Within n (order_only_loop variables f file)
  unfolding order_only_loop
  order_only_loop-Within zero n file h k = absurd (omega arith)
  order_only_loop-Within (suc f) n [] h k = throws n
  order_only_loop-Within (suc f) n (x ∷ file) h k = elim (Bool-cases (x == b'\n')) [
    | inl e ↦ rw e (reads n [] file (omega arith))
    | inr e ↦ elim (text-Item input_ends variables (x ∷ file)).cases [
      | inr (fault, q, d) ↦ rw (e, q) (fails n fault d)
      | inl (out, rest, q, le, inl less) ↦
          rw (e, q)
            (order_only_rest f n out rest file (omega arith)
              (λ r l k'. order_only_loop-Within f n r l k') (omega arith) (omega arith))
      | inl (out, rest, q, le, inr (c, tail, same, at, skips, m, s)) ↦
          rw (e, q, at, input_bar x c file tail e same m s) (throws n)
    ]
  ]
