-- ===== src/NumberTheory/Garner/Inverse.antt =====
-- `modular_inverse` of ivl/number_theory/util.hpp inverts.
use all.Prelude.{
  ℕ, suc, ◌+◌, ◌-◌, ◌*◌, ◌/◌, ◌%◌, ◌<◌, ◌≡◌, sym, ap, subst, ◌∙◌, some, ◌==◌, ◌⊎◌, inl, inr, arith,
  false, if◌then◌else◌,
}
use all.Prelude.Int.{ℤ, pos, negsuc, pos_part, neg_part, sub_ℕ, ◌+ℤ◌, ltb_ℤ}
use native.Mathlib.Nat.{mod-lt, div-add-mod, add-mul-mod_self_left, dvd_antisymm}
use all.Tiny.Int64.{remainder}
use all.NumberTheory.Gcd.Divisors.{IsGcd}
use all.NumberTheory.Gcd.Laws.{gcd-IsGcd}
use all.NumberTheory.Garner.{modular_inverse}
use all.NumberTheory.Garner.Bezout.{IsComb, extended_euclid-Combined}

pub add_multiple : (u v m s t : ℕ) → u + m * s ≡ v + m * t → u % m ≡ v % m
add_multiple u v m s t h =
    sym (add-mul-mod_self_left u m s) ∙ ap (λ (n : ℕ). n % m) h ∙ add-mul-mod_self_left v m t

-- For a positive coefficient, and for a negative one.
inverse_pos :
    (a m n k r y y' : ℕ) → a * n + m * y ≡ 1 + (a * 0 + m * y') → m * k + r ≡ n → a * r % m ≡ 1 % m
inverse_pos a m n k r y y' h e =
    add_multiple (a * r) 1 m (a * k + y) y' (omega (arith, ap (λ (t : ℕ). a * t) e))

inverse_neg :
    (a m n k r s y y' : ℕ)
    → a * 0 + m * y ≡ 1 + (a * n + m * y')
    → m * k + s ≡ n
    → r + s ≡ m
    → a * r % m ≡ 1 % m
inverse_neg a m n k r s y y' h e e' =
    add_multiple (a * r) 1 m y (a + a * k + y')
      (omega (arith, ap (λ (t : ℕ). a * t) e, ap (λ (t : ℕ). a * t) e'))

inverse_none :
    (a m n k y y' : ℕ) → a * 0 + m * y ≡ 1 + (a * n + m * y') → m * k ≡ n → a * 0 % m ≡ 1 % m
inverse_none a m n k y y' h e =
    add_multiple (a * 0) 1 m y (a * k + y') (omega (arith, ap (λ (t : ℕ). a * t) e))

-- The last two lines of `modular_inverse`.
abbrev reduced : ℤ → ℕ → ℤ
reduced r m = if ltb_ℤ r (pos 0) then r +ℤ pos m else r

reduced-pos : (t m : ℕ) → pos_part (reduced (pos t) m) ≡ t
reduced-pos t m = ground arith

reduced-neg : (t m : ℕ) → 0 < t → t < m → pos_part (reduced (sub_ℕ 0 t) m) ≡ m - t
unfolding ◌+ℤ◌
reduced-neg t m h k = ground arith

reduced-none : (m : ℕ) → pos_part (reduced (sub_ℕ 0 0) m) ≡ 0
reduced-none m = ground arith

right_zero : (n : ℕ) → n + 0 ≡ n
right_zero n = omega arith

left_zero : (n : ℕ) → 0 + n ≡ n
left_zero n = omega arith

remainder-pos : (n m : ℕ) → remainder (pos n) (pos m) ≡ pos (n % m)
remainder-pos n m = rw (right_zero n, right_zero m)

remainder-neg : (n m : ℕ) → remainder (negsuc n) (pos m) ≡ sub_ℕ 0 (suc n % m)
remainder-neg n m = rw (left_zero (suc n), right_zero m)

zero_or_pos : (t : ℕ) → (t ≡ 0) ⊎ (0 < t)
zero_or_pos t = omega arith

-- A number below `m` that inverts `a`.
IsInverse : ℕ → ℕ → ℕ → Type 0
IsInverse a m r = (r < m) × (a * r % m ≡ 1 % m)

reduced-IsInverse :
    (a m : ℕ) (x y : ℤ)
    → 0 < m
    → IsComb a m (x, y) 1
    → IsInverse a m (pos_part (reduced (remainder x (pos m)) m))
unfolding IsInverse
reduced-IsInverse a m (pos n) y h c =
    subst (IsInverse a m)
      (sym (ap (λ z. pos_part (reduced z m)) (remainder-pos n m) ∙ reduced-pos (n % m) m))
      (mod-lt n h, inverse_pos a m n (n / m) (n % m) (pos_part y) (neg_part y) c (div-add-mod n m))
reduced-IsInverse a m (negsuc n) y h c = elim (zero_or_pos (suc n % m)) [
  | inl e ↦
      subst (IsInverse a m)
        (sym
          (ap (λ z. pos_part (reduced z m)) (remainder-neg n m ∙ ap (sub_ℕ 0) e) ∙ reduced-none m))
        (
          h,
          inverse_none a m (suc n) (suc n / m) (pos_part y) (neg_part y) c
              (omega (arith, div-add-mod (suc n) m)),
        )
  | inr e ↦
      let below = mod-lt (suc n) h in
      subst (IsInverse a m)
        (sym (
          ap (λ z. pos_part (reduced z m)) (remainder-neg n m) ∙ reduced-neg (suc n % m) m e below))
        (
          omega arith,
          inverse_neg a m (suc n) (suc n / m) (m - suc n % m) (suc n % m) (pos_part y) (neg_part y)
              c (div-add-mod (suc n) m) (omega arith),
        )
]

pub nonzero : (m : ℕ) → 0 < m → (m == 0) ≡ false
nonzero m h = ground arith

-- For a number that has no factor in common with a positive modulus, `modular_inverse` violates no
-- assertion, and returns a number below the modulus whose product with it is 1 modulo the modulus.
pub modular_inverse_lem :
    (a m : ℕ)
    → 0 < m
    → IsGcd 1 a m
    → (r : ℕ) × (modular_inverse a m ≡ some r) × (r < m) × (a * r % m ≡ 1 % m)
unfolding modular_inverse IsInverse
modular_inverse_lem a m h one =
    let (g, e, d) = gcd-IsGcd a m in
    let i = extended_euclid-Combined a m in
    let same : g ≡ 1 =
      dvd_antisymm (one.greatest g d.left d.right) (d.greatest 1 one.left one.right) in
    let same' : i.gcd_of ≡ 1 =
      dvd_antisymm (one.greatest i.gcd_of i.is_gcd.left i.is_gcd.right)
        (i.is_gcd.greatest 1 one.left one.right) in
    let (low, inverse) = reduced-IsInverse a m i.x i.y h (rw same' at i.comb) in
    (
      pos_part (reduced (remainder i.x (pos m)) m),
      rw (e, same, i.result, nonzero m h),
      low,
      inverse,
    )
