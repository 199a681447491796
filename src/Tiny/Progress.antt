-- ===== src/Tiny/Progress.antt =====
-- Parsers that consume tokens, and never run out of fuel.
use all.Prelude.{ℕ, suc, ◌≤◌, ◌≡◌, List, [], ◌∷◌, length, arith, ◌⊎◌, inl, inr, Bool-cases}
use all.Prelude.Result.{Result, ok, failed, assertion, exception, undefined, ◌>>=◌}
use all.Prelude.Int.{ℤ, pos, ◌+ℤ◌, ◌*ℤ◌}
pub use all.Prelude.Within.{Within, reads, fails, choose, choose_eq, guarded}
use all.Tiny.Int64.{in_range, to_int64, add64, mul64}
use all.Tiny.Token.{Token, has}
use all.Tiny.Parser.{
  expect, operators_loop, identifier_loop, parse_identifier, number_loop, has_any, unary_ops,
}

module _ {ℓ κ} {A : Type ℓ} {B : Type κ} where
  pub chain :
      (m : Result (A × List Token)) (f : A × List Token → Result (B × List Token)) {n k : ℕ}
      → Within n m
      → ((a : A) (rest : List Token) → length rest ≤ n → Within k (f (a, rest)))
      → Within k (m >>= f)
  chain m f h next = elim h.cases [
    | inl ((a, rest), e, l) ↦ rw e (next a rest l)
    | inr (e, q, d) ↦ rw q (fails _ e d)
  ]

pub expect-Within :
    (t : Token) (n : ℕ) (ts : List Token) → length ts ≤ suc n → Within n (expect t ts)
unfolding expect
expect-Within t n [] h = fails n assertion (λ e. cc)
expect-Within t n (u ∷ ts) h = elim (Bool-cases (has t u)) [
  | inl e ↦ rw e (reads n tt ts (omega arith))
  | inr e ↦ rw e (fails n assertion (λ e. cc))
]

pub identifier_loop-Within :
    (n : ℕ) (ts : List Token) → length ts ≤ suc n → Within n (identifier_loop ts)
unfolding identifier_loop
identifier_loop-Within n [] h = fails n assertion (λ e. cc)
identifier_loop-Within n (Token.identifier_end ∷ ts) h = reads n [] ts (omega arith)
identifier_loop-Within n (Token.identifier_char c ∷ ts) h =
    chain (identifier_loop ts) _ (identifier_loop-Within n ts (omega arith))
      (λ a rest l. reads n (c ∷ a) rest l)
identifier_loop-Within n (t ∷ ts) h = fails n exception (λ e. cc)

pub parse_identifier-Within :
    (n : ℕ) (ts : List Token) → length ts ≤ suc n → Within n (parse_identifier ts)
unfolding parse_identifier
parse_identifier-Within n ts h =
    chain (expect Token.identifier_start ts) _ (expect-Within Token.identifier_start n ts h)
      (λ a rest l. identifier_loop-Within n rest (omega arith))

-- An operation on `int64_t` has a result, or is undefined.
Defined : Result ℤ → Type 0
Defined r = ((x : ℤ) × (r ≡ ok x)) ⊎ (r ≡ failed undefined)

to_int64-Defined : (a : ℤ) → Defined (to_int64 a)
unfolding Defined to_int64
to_int64-Defined a = elim (Bool-cases (in_range a)) [ inl e ↦ inl (a, rw e) | inr e ↦ inr (rw e) ]

pub number_loop-Within :
    (m : ℤ) (n : ℕ) (ts : List Token) → length ts ≤ suc n → Within n (number_loop m ts)
unfolding number_loop Defined mul64 add64
number_loop-Within m n [] h = fails n assertion (λ e. cc)
number_loop-Within m n (Token.number_end ∷ ts) h = reads n m ts (omega arith)
number_loop-Within m n (Token.number_digit d ∷ ts) h = elim (to_int64-Defined (m *ℤ pos 10)) [
  | inr q ↦ rw q (fails n undefined (λ e. cc))
  | inl (x, e) ↦ elim (to_int64-Defined (x +ℤ pos d)) [
    | inr q ↦ rw (e, q) (fails n undefined (λ e. cc))
    | inl (y, e') ↦ rw (e, e') (number_loop-Within y n ts (omega arith))
  ]
]
number_loop-Within m n (t ∷ ts) h = fails n exception (λ e. cc)

pub length-operators_loop : (ts : List Token) → length (operators_loop ts).1 ≤ length ts
unfolding operators_loop
length-operators_loop [] = omega arith
length-operators_loop (t ∷ ts) = elim (Bool-cases (has_any unary_ops t)) [
  | inl e ↦ rw e (omega (arith, length-operators_loop ts))
  | inr e ↦ rw e (omega arith)
]
