-- ===== src/NumberTheory/Mint/Runtime.antt =====
-- `RTMint` of ivl/number_theory/rtmint.hpp against arithmetic on residues.
use all.Prelude.{
  ℕ, ◌+◌, ◌-◌, ◌*◌, ◌%◌, ◌≤◌, ◌<◌, ◌≡◌, refl, ◌∙◌, arith, ltb, ◌/◌, ◌==◌, true, false, lt→ltb,
}
use all.Prelude.Int.{pos, ◌+ℤ◌, ◌-ℤ◌, ◌*ℤ◌}
use all.Prelude.Result.{ok}
use native.Mathlib.Decide.{dec_le}
use native.Mathlib.Nat.{mod-eq_of_lt, mod-eq-sub-mod, mul-le-mul, div-le_self, add-zero}
use all.Tiny.Int64.{to_int64, add64, sub64, mul64, div64, mod64}
use all.NumberTheory.Mint.{rt_of, rt_add, rt_sub, rt_mul}

add64-pos : (a b : ℕ) → a + b < 9_223_372_036_854_775_808 → add64 (pos a) (pos b) ≡ ok (pos (a + b))
unfolding add64 to_int64 ◌+ℤ◌
add64-pos a b h = ground arith

sub64-pos :
    (a b : ℕ) → b ≤ a → a < 9_223_372_036_854_775_808 → sub64 (pos a) (pos b) ≡ ok (pos (a - b))
unfolding sub64 to_int64 ◌-ℤ◌
sub64-pos a b h k = ground arith

mod-eq_sub : (p n : ℕ) → p ≤ n → n < p + p → n % p ≡ n - p
mod-eq_sub p n h k = mod-eq-sub-mod h ∙ mod-eq_of_lt (omega arith)

mul64-pos : (a b : ℕ) → a * b < 9_223_372_036_854_775_808 → mul64 (pos a) (pos b) ≡ ok (pos (a * b))
unfolding mul64 to_int64 ◌*ℤ◌
mul64-pos a b h = ground arith

mod64-pos :
    (a p : ℕ) → 0 < p → a < 9_223_372_036_854_775_808 → mod64 (pos a) (pos p) ≡ ok (pos (a % p))
unfolding mod64 div64 to_int64
mod64-pos a p h k =
    let small : a / p ≤ a = div-le_self a p in
    let nonzero : (p == 0) ≡ false = ground arith in
    let fits : ltb (a / p) 9_223_372_036_854_775_808 ≡ true = lt→ltb _ _ (omega arith) in
    rw (add-zero p, add-zero a, nonzero, fits) refl

-- The product of two residues fits in 63 bits.
product_small : (p a b : ℕ) → p ≤ 3_037_000_500 → a < p → b < p → a * b < 9_223_372_036_854_775_808
product_small p a b h k l =
    let below : a * b ≤ 3_037_000_499 * 3_037_000_499 =
      mul-le-mul {n₂ = 3_037_000_499} {m₂ = 3_037_000_499} (omega arith) (omega arith) in
    omega arith

rt_of-pos :
    (p a : ℕ) → 0 < p → a < 9_223_372_036_854_775_808 → rt_of (pos p) (pos a) ≡ ok (pos (a % p))
unfolding rt_of
rt_of-pos p a h k = rw (mod64-pos a p h k) (ground arith)

rt_add-pos :
    (p a b : ℕ)
    → p ≤ 3_037_000_500
    → a < p
    → b < p
    → rt_add (pos p) (pos a) (pos b) ≡ ok (pos ((a + b) % p))
unfolding rt_add
rt_add-pos p a b h k l = elim (dec_le p (a + b)) [
  | yes m ↦
      let residue : (a + b) % p ≡ a + b - p = mod-eq_sub p (a + b) m (omega arith) in
      rw (add64-pos a b (omega arith), residue, sub64-pos (a + b) p m (omega arith)) (ground arith)
  | no m ↦
      let residue : (a + b) % p ≡ a + b = mod-eq_of_lt (omega arith) in
      rw (add64-pos a b (omega arith), residue) (ground arith)
]

rt_sub-pos :
    (p a b : ℕ)
    → p ≤ 3_037_000_500
    → a < p
    → b < p
    → rt_sub (pos p) (pos a) (pos b) ≡ ok (pos ((a + p - b) % p))
unfolding rt_sub sub64 add64 to_int64 ◌+ℤ◌ ◌-ℤ◌
rt_sub-pos p a b h k l = elim (dec_le b a) [
  | yes m ↦
      let same : (a + p - b) % p ≡ a - b =
        mod-eq_sub p (a + p - b) (omega arith) (omega arith) ∙ omega arith in
      rw (same, sub64-pos a b m (omega arith)) (ground arith)
  | no m ↦
      let same : (a + p - b) % p ≡ a + p - b = mod-eq_of_lt (omega arith) in
      rw (same) (ground arith)
]

rt_mul-pos :
    (p a b : ℕ)
    → p ≤ 3_037_000_500
    → a < p
    → b < p
    → rt_mul (pos p) (pos a) (pos b) ≡ ok (pos (a * b % p))
unfolding rt_mul
rt_mul-pos p a b h k l =
    rw (mul64-pos a b (product_small p a b h k l))
      (rt_of-pos p (a * b) (omega arith) (product_small p a b h k l))

-- For a modulus p of at most 3_037_000_500 and two residues below it, the operations `+`, `-` and
-- `*` of `RTMint` overflow nowhere, and give the residues of the sum, of the difference and of the
-- product. The difference is taken from the first residue and p, so it is not negative.
pub rt_residues :
    (p a b : ℕ)
    → p ≤ 3_037_000_500
    → a < p
    → b < p
    → (rt_add (pos p) (pos a) (pos b) ≡ ok (pos ((a + b) % p)))
      × (rt_sub (pos p) (pos a) (pos b) ≡ ok (pos ((a + p - b) % p)))
      × (rt_mul (pos p) (pos a) (pos b) ≡ ok (pos (a * b % p)))
rt_residues p a b h k l = (rt_add-pos p a b h k l, rt_sub-pos p a b h k l, rt_mul-pos p a b h k l)
