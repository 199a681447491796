-- ===== src/NumberTheory/Examples.antt =====
-- The theorems on numbers at concrete inputs.
use all.Prelude.{
  sym, ◌∙◌, Option, ◌>>=◌, ◌%◌, subst, ℕ, ◌+◌, ◌-◌, ◌*◌, ◌≡◌, ◌↔◌, ◌<◌, ◌≤◌, refl, Bool, true,
  false, some, List, [], ◌∷◌, arith,
}
use native.Mathlib.Nat.{mul_assoc}
use all.Prelude.Int.{pos}
use all.Prelude.Result.{ok, failed, undefined}
use all.NumberTheory.Mint.{rt_add, rt_sub, rt_mul}
use all.NumberTheory.Mint.Runtime.{rt_residues}
use all.NumberTheory.Garner.{
  GarnerTable, modular_inverse, garner_table, convert_representation, apply_digits, reduce,
}
use all.NumberTheory.Garner.Residues.{HasResidues, convert_representation_lem}
use all.NumberTheory.Garner.Inverse.{modular_inverse_lem}
use all.NumberTheory.Gcd.{gcd}
use all.NumberTheory.Gcd.Divisors.{IsGcd}
use all.NumberTheory.Gcd.Laws.{gcd-IsGcd}
use all.NumberTheory.Power.{power}
use all.NumberTheory.Power.Laws.{pow, power-eq-pow, power_wrong}
use all.NumberTheory.Prime.{is_prime, is_prime_unguarded}
use all.NumberTheory.Prime.Laws.{IsPrime, is_prime-decides, is_prime_unguarded-differs}
use all.NumberTheory.Mint.{multi_add, multi_mul, multi_sub, multi_of}
use all.NumberTheory.Mint.Laws.{multi_homomorphism}

gcd-IsGcd_example : (g : ℕ) × (gcd 84 36 ≡ some g) × IsGcd g 84 36
gcd-IsGcd_example = gcd-IsGcd 84 36

gcd_run : gcd 84 36 ≡ some 12
unfolding gcd
gcd_run = refl

abbrev times : ℕ → ℕ → ℕ
times a b = a * b

power-eq-pow_example : power 1 times 3 5 ≡ some (pow 1 times 3 5)
power-eq-pow_example = power-eq-pow 1 times mul_assoc 3 5 (omega arith)

abbrev plus : ℕ → ℕ → ℕ
plus a b = a + b

power_wrong_example :
    power 0 plus 3 4_294_967_297 ≡ some (pow 0 plus 3 (4_294_967_297 + 2_147_483_648))
power_wrong_example =
    power_wrong 0 plus (λ a b c. omega arith) 3 4_294_967_297 (omega arith) (omega arith)

is_prime-decides_example : (b : Bool) × (is_prime 91 ≡ some b) × ((b ≡ true) ↔ IsPrime 91)
is_prime-decides_example = is_prime-decides 91 (omega arith)

is_prime_unguarded-differs_example :
    (1 ≤ 1 → (is_prime_unguarded 1 ≡ some true) × (is_prime 1 ≡ some false))
    × (1 < 1 → is_prime_unguarded 1 ≡ is_prime 1)
is_prime_unguarded-differs_example = is_prime_unguarded-differs 1 (omega arith)

abbrev moduli : List ℕ
moduli = 998_244_353 ∷ 1_000_000_007 ∷ []

multi_homomorphism_example :
    (multi_add moduli (multi_of moduli 5_000_000_000) (multi_of moduli 4_999_999_999)
      ≡ multi_of moduli (5_000_000_000 + 4_999_999_999))
    × (multi_mul moduli (multi_of moduli 5_000_000_000) (multi_of moduli 4_999_999_999)
        ≡ multi_of moduli (5_000_000_000 * 4_999_999_999))
    × (4_999_999_999 ≤ 5_000_000_000
        → multi_sub moduli (multi_of moduli 5_000_000_000) (multi_of moduli 4_999_999_999)
          ≡ multi_of moduli (5_000_000_000 - 4_999_999_999))
multi_homomorphism_example =
    multi_homomorphism moduli 5_000_000_000 4_999_999_999
      ((omega arith, omega arith), ((omega arith, omega arith), tt))

-- The digits of a number from its residues, and the number from its digits.
abbrev round_trip : List ℕ → List ℕ → Option ℕ
round_trip mods input = do
  t ← garner_table mods
  digits ← convert_representation t input
  apply_digits 0 (λ a b. a + b) (λ a b. a * b) t.mods digits

inverse_run : modular_inverse 10 17 ≡ some 12
unfolding modular_inverse
inverse_run = refl

-- The number 12 from its residues.
ascending : round_trip (3 ∷ 7 ∷ []) (0 ∷ 5 ∷ []) ≡ some 12
unfolding garner_table convert_representation apply_digits
ascending = refl

-- With the greater modulus first, the subtraction wraps, and the result is not 12.
descending : round_trip (7 ∷ 3 ∷ []) (5 ∷ 0 ∷ []) ≡ some 19
unfolding garner_table convert_representation apply_digits
descending = refl

IsGcd-one : (a b : ℕ) → gcd a b ≡ some 1 → IsGcd 1 a b
IsGcd-one a b h =
    let (g, e, d) = gcd-IsGcd a b in
    let same : some g ≡ some 1 = sym e ∙ h in let one : g ≡ 1 = cc in subst (λ g. IsGcd g a b) one d

coprime : IsGcd 1 10 7
unfolding gcd
coprime = IsGcd-one 10 7 refl

three_five : IsGcd 1 3 5
unfolding gcd
three_five = IsGcd-one 3 5 refl

modular_inverse_lem_example :
    (r : ℕ) × (modular_inverse 10 7 ≡ some r) × (r < 7) × (10 * r % 7 ≡ 1 % 7)
modular_inverse_lem_example = modular_inverse_lem 10 7 (omega arith) coprime

convert_representation_lem_example :
    (t : GarnerTable) × (digits : List ℕ) × (n : ℕ) × (garner_table (3 ∷ 5 ∷ []) ≡ some t)
    × (convert_representation t (2 ∷ 4 ∷ []) ≡ some digits)
    × (apply_digits 0 (λ a b. a + b) (λ a b. a * b) t.mods digits ≡ some n)
    × HasResidues n (3 ∷ 5 ∷ []) (2 ∷ 4 ∷ [])
convert_representation_lem_example =
    convert_representation_lem 3 (5 ∷ []) (2 ∷ 4 ∷ [])
      (omega arith, omega arith, (omega arith, omega arith, tt))
      (omega arith, tt, (omega arith, (three_five, tt), tt)) (omega arith, (omega arith, tt))

-- The product wraps for a modulus in the upper half of `uint32_t`; the digit that inverts is 2.
reduce_wraps : reduce 4_294_967_291 (0 ∷ []) (4_294_967_290 ∷ []) 4_294_967_289 ≡ some 4_294_967_268
unfolding reduce
reduce_wraps = refl

rt_residues_example :
    (rt_add (pos 3_037_000_500) (pos 3_037_000_499) (pos 2)
      ≡ ok (pos ((3_037_000_499 + 2) % 3_037_000_500)))
    × (rt_sub (pos 3_037_000_500) (pos 3_037_000_499) (pos 2)
        ≡ ok (pos ((3_037_000_499 + 3_037_000_500 - 2) % 3_037_000_500)))
    × (rt_mul (pos 3_037_000_500) (pos 3_037_000_499) (pos 2)
        ≡ ok (pos (3_037_000_499 * 2 % 3_037_000_500)))
rt_residues_example =
    rt_residues 3_037_000_500 3_037_000_499 2 (omega arith) (omega arith) (omega arith)

-- The next modulus, and the product of its greatest residue with itself.
product_overflows :
    rt_mul (pos 3_037_000_501) (pos 3_037_000_500) (pos 3_037_000_500) ≡ failed undefined
unfolding rt_mul
product_overflows = refl
