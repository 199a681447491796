-- ===== src/NumberTheory/Gcd/Laws.antt =====
-- `gcd` returns, and what it returns is the greatest common divisor.
use all.Prelude.{
  ℕ, zero, suc, ◌+◌, ◌*◌, ◌/◌, ◌%◌, ◌^◌, ◌≤◌, ◌<◌, ◌≡◌, refl, sym, ap, ◌∙◌, subst, ◌⊎◌, inl, inr,
  arith, min, Option, some, false, ◌==◌,
}
use native.Mathlib.Nat.{
  pow-suc, dvd_of_mod-eq-zero, dvd-mod_iff, mul-div_cancel, dvd-zero, one-le-pow, dvd_refl, mod-lt,
  dvd-mul_right_of_dvd, div-le_self, div-one,
}
use all.NumberTheory.Gcd.{ctz_loop, countr_zero, gcd_loop, gcd}
use Prim.Native.Nat.{◌∣◌}
use all.NumberTheory.Gcd.Divisors.{
  IsGcd, IsOdd, IsGcd-sym, IsGcd-eq, IsGcd-zero, IsGcd-of, IsGcd-pow, dvd_odd_part, IsOdd-of_dvd,
  parity,
}

-- A positive number is an odd one times the power of two that `countr_zero` counts.
pub ctz_split : (f n : ℕ) → 0 < n → n ≤ f → (m : ℕ) × (n ≡ m * 2 ^ ctz_loop f n) × IsOdd m
unfolding ctz_loop
ctz_split zero n h k = absurd (omega arith)
ctz_split (suc f) n h k = elim (parity n) [
  | inl even ↦
      let (m, e, o) = ctz_split f (n / 2) (omega arith) (omega arith) in
      let t : (n % 2 == 1) ≡ false = ground arith in (m, rw (t, pow-suc) (omega arith), o)
  | inr odd ↦ (n, rw odd (omega arith), odd)
]

-- The odd part, by the shift.
IsOdd-part :
    (n : ℕ)
    → 0 < n
    → IsOdd (n / 2 ^ countr_zero n) × (n ≡ n / 2 ^ countr_zero n * 2 ^ countr_zero n)
IsOdd-part n h =
    let (m, e, o) = ctz_split n n h (omega arith) in
    let same : n / 2 ^ countr_zero n ≡ m =
      ap (λ t. t / 2 ^ countr_zero n) e
      ∙ mul-div_cancel m (one-le-pow (countr_zero n) 2 (omega arith)) in
    (subst IsOdd (sym same) o, rw same e)

ctz-odd : (n : ℕ) → IsOdd n → countr_zero n ≡ 0
unfolding ctz_loop
ctz-odd zero o = absurd (omega arith)
ctz-odd (suc n) o = rw o

-- Shifting the remainder of an odd number by another keeps the common divisors.
remainder-odd : (g a b m k : ℕ) → IsOdd a → a % b ≡ m * 2 ^ k → IsGcd g m b → IsGcd g a b
remainder-odd g a b m k o e =
    IsGcd-of g a b m b
      (λ d p q. (
        dvd_odd_part d m k (IsOdd-of_dvd d a p o) (subst (λ t. d ∣ t) e ((dvd-mod_iff d q).1 p)),
        q,
      ))
      (λ d p q.
        ((dvd-mod_iff d q).0 (subst (λ t. d ∣ t) (sym e) (dvd-mul_right_of_dvd d p (2 ^ k))), q))

remainder-right : (g a b : ℕ) → IsGcd g a (b % a) → IsGcd g a b
remainder-right g a b =
    IsGcd-of g a b a (b % a) (λ d p q. (p, (dvd-mod_iff d p).1 q))
      (λ d p q. (p, (dvd-mod_iff d p).0 q))

zero_or_pos : (n : ℕ) → (n ≡ 0) ⊎ (0 < n)
zero_or_pos n = omega arith

ne-zero : (n : ℕ) → 0 < n → (n == 0) ≡ false
ne-zero n h = ground arith

abbrev Gives : ℕ → ℕ → ℕ → Option ℕ → Type 0
Gives a b shift out = (g : ℕ) × (out ≡ some (g * 2 ^ shift)) × IsGcd g a b

-- With fuel above b the loop ends, and gives the greatest common divisor, shifted back.
gcd_loop-Gives :
    (f a b shift : ℕ) → IsOdd a → 0 < b → b < f → Gives a b shift (gcd_loop f a b shift)
unfolding gcd_loop
gcd_loop-Gives zero a b shift o h k = absurd (omega arith)
gcd_loop-Gives (suc f) a b shift o h k = elim (zero_or_pos (a % b)) [
  | inl done ↦ (b, rw done, IsGcd-zero a b (dvd_of_mod-eq-zero b done))
  | inr more ↦
      let a₁ = a % b in
      let a₂ = a₁ / 2 ^ countr_zero a₁ in
      let (o₂, e₂) = IsOdd-part a₁ more in
      let below : a₁ < b = mod-lt a h in
      let small : a₂ ≤ a₁ = div-le_self a₁ (2 ^ countr_zero a₁) in
      let pos₂ : 0 < a₂ = omega arith in
      let lift = λ (g : ℕ) (i : IsGcd g a₂ b). remainder-odd g a b a₂ (countr_zero a₁) o e₂ i in
      elim (zero_or_pos (b % a₂)) [
        | inl done ↦ (
          a₂,
          rw (ne-zero a₁ more, done),
          lift a₂ (IsGcd-sym a₂ b a₂ (IsGcd-zero b a₂ (dvd_of_mod-eq-zero a₂ done))),
        )
        | inr again ↦
            let b₁ = b % a₂ in
            let low : b₁ < a₂ = mod-lt b pos₂ in
            let (g, e, i) = gcd_loop-Gives f a₂ b₁ shift o₂ again (omega arith) in
            (
              g,
              rw (ne-zero a₁ more, ne-zero b₁ again, ctz-odd a₂ o₂, div-one) e,
              lift g (remainder-right g a₂ b i),
            )
      ]
]

IsGcd-add_zero : (a b : ℕ) → (a ≡ 0) ⊎ (b ≡ 0) → IsGcd (a + b) a b
IsGcd-add_zero a b (inl e) = record {
  left = subst (λ t. a + b ∣ t) (sym e) (dvd-zero (a + b));
  right = subst (λ t. t ∣ b) (omega arith) (dvd_refl b);
  greatest = λ d p q. subst (λ t. d ∣ t) (omega arith) q;
}
IsGcd-add_zero a b (inr e) = record {
  left = subst (λ t. t ∣ a) (omega arith) (dvd_refl a);
  right = subst (λ t. a + b ∣ t) (sym e) (dvd-zero (a + b));
  greatest = λ d p q. subst (λ t. d ∣ t) (omega arith) p;
}

gcd_positive : (a b : ℕ) → 0 < a → 0 < b → (g : ℕ) × (gcd a b ≡ some g) × IsGcd g a b
unfolding gcd
gcd_positive a b h k =
    let i = countr_zero a in
    let j = countr_zero b in
    let (oa, ea) = IsOdd-part a h in
    let (ob, eb) = IsOdd-part b k in
    let small : b / 2 ^ j ≤ b = div-le_self b (2 ^ j) in
    let (g, e, d) =
      gcd_loop-Gives (suc b) (a / 2 ^ i) (b / 2 ^ j) (min i j) oa (omega arith) (omega arith) in
    (
      g * 2 ^ min i j,
      rw (ne-zero a h, ne-zero b k) e,
      IsGcd-eq (g * 2 ^ min i j) (g * 2 ^ min i j) (a / 2 ^ i * 2 ^ i) a (b / 2 ^ j * 2 ^ j) b refl
          (sym ea) (sym eb) (IsGcd-pow g (a / 2 ^ i) (b / 2 ^ j) i j oa ob d),
    )

-- For any two numbers `gcd` ends within its fuel, and what it returns divides both and is divided
-- by every common divisor, though the second shift in its loop counts the zeros of the wrong
-- operand.
pub gcd-IsGcd : (a b : ℕ) → (g : ℕ) × (gcd a b ≡ some g) × IsGcd g a b
unfolding gcd
gcd-IsGcd a b = elim (zero_or_pos a) [
  | inl e ↦ (a + b, rw e, IsGcd-add_zero a b (inl e))
  | inr h ↦ elim (zero_or_pos b) [
    | inl e ↦ (a + b, ground arith, IsGcd-add_zero a b (inr e))
    | inr k ↦ gcd_positive a b h k
  ]
]
