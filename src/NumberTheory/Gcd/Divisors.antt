-- ===== src/NumberTheory/Gcd/Divisors.antt =====
-- Greatest common divisors, by divisibility, and what powers of two change about them.
use all.Prelude.{
  ℕ, zero, suc, ◌+◌, ◌-◌, ◌*◌, ◌/◌, ◌%◌, ◌^◌, ◌≡◌, refl, sym, ap, subst, ◌⊎◌, inl, inr, arith, min,
}
use Prim.Native.Nat.{◌∣◌}
use native.Mathlib.Nat.{
  pow-suc, pow-zero, mul-div_cancel', dvd-mul_right, dvd-mul_right_of_dvd, dvd-mul_left_of_dvd,
  mul-dvd-mul_left, dvd_of_mul-dvd-mul_left, dvd_refl,
}

-- `g` divides both, and every common divisor divides `g`.
pub record IsGcd (g a b : ℕ) : Type 0 where
  pub left : g ∣ a
  pub right : g ∣ b
  pub greatest : (d : ℕ) → d ∣ a → d ∣ b → d ∣ g

abbrev pub IsOdd : ℕ → Type 0
IsOdd n = n % 2 ≡ 1

quotient-even : (c q x : ℕ) → (2 * c + 1) * q ≡ 2 * x → q ≡ 2 * (x - c * q)
quotient-even c q x e = omega arith

halved : (d q x y : ℕ) → d * q ≡ 2 * x → q ≡ 2 * y → d * y ≡ x
halved d q x y e h = omega (arith, ap (λ (t : ℕ). d * t) h)

-- An odd divisor of a double divides the half.
dvd_half : (d x : ℕ) → IsOdd d → d ∣ 2 * x → d ∣ x
dvd_half d x o h =
    let q = 2 * x / d in
    let c = d / 2 in
    let e : d * q ≡ 2 * x = mul-div_cancel' d h in
    let e' : (2 * c + 1) * q ≡ 2 * x = subst (λ t. t * q ≡ 2 * x) (omega arith) e in
    subst (λ t. d ∣ t) (halved d q x (x - c * q) e (quotient-even c q x e'))
      (dvd-mul_right d (x - c * q))

pub dvd_odd_part : (d m k : ℕ) → IsOdd d → d ∣ m * 2 ^ k → d ∣ m
dvd_odd_part d m zero o h = subst (λ t. d ∣ t) (rw pow-zero (omega arith)) h
dvd_odd_part d m (suc k) o h =
    dvd_odd_part d m k o
      (dvd_half d (m * 2 ^ k) o (subst (λ t. d ∣ t) (rw pow-suc (omega arith)) h))

pub parity : (n : ℕ) → (n ≡ 2 * (n / 2)) ⊎ IsOdd n
parity n = omega arith

even-product : (c q n : ℕ) → 2 * c * q ≡ n → n ≡ 2 * (c * q)
even-product c q n e = omega arith

product-IsOdd : (d q n : ℕ) → d * q ≡ n → IsOdd n → IsOdd d
product-IsOdd d q n e o = elim (parity d) [
  | inl even ↦
      let doubled = even-product (d / 2) q n (subst (λ t. t * q ≡ n) even e) in absurd (omega arith)
  | inr odd ↦ odd
]

pub IsOdd-of_dvd : (d n : ℕ) → d ∣ n → IsOdd n → IsOdd d
IsOdd-of_dvd d n h o = product-IsOdd d (n / d) n (mul-div_cancel' d h) o

pub IsGcd-zero : (a b : ℕ) → b ∣ a → IsGcd b a b
IsGcd-zero a b h = record { left = h; right = dvd_refl b; greatest = λ d p q. q }

pub IsGcd-sym : (g a b : ℕ) → IsGcd g a b → IsGcd g b a
IsGcd-sym g a b h = record { left = h.right; right = h.left; greatest = λ d p q. h.greatest d q p }

-- Pairs with the same common divisors have the same greatest one.
pub IsGcd-of :
    (g a b a' b' : ℕ)
    → ((d : ℕ) → d ∣ a → d ∣ b → (d ∣ a') × (d ∣ b'))
    → ((d : ℕ) → d ∣ a' → d ∣ b' → (d ∣ a) × (d ∣ b))
    → IsGcd g a' b'
    → IsGcd g a b
IsGcd-of g a b a' b' f h i =
    let back = h g i.left i.right in
    record {
      left = back.0;
      right = back.1;
      greatest = λ d p q. let (p', q') = f d p q in i.greatest d p' q';
    }

dvd-pow : (g m k : ℕ) → g ∣ m → g ∣ m * 2 ^ k
dvd-pow g m k h = dvd-mul_right_of_dvd g h (2 ^ k)

-- Twice a greatest common divisor is one of the doubles.
IsGcd-double : (g a b : ℕ) → IsGcd g a b → IsGcd (2 * g) (2 * a) (2 * b)
IsGcd-double g a b i = record {
  left = mul-dvd-mul_left g 2 i.left;
  right = mul-dvd-mul_left g 2 i.right;
  greatest = λ d p q. elim (parity d) [
    | inl even ↦
        subst (λ t. t ∣ 2 * g) (sym even)
          (mul-dvd-mul_left (d / 2) 2 (
            i.greatest (d / 2)
              (dvd_of_mul-dvd-mul_left {k = 2} (d / 2) (omega arith)
                (subst (λ t. t ∣ 2 * a) even p))
              (dvd_of_mul-dvd-mul_left {k = 2} (d / 2) (omega arith)
                (subst (λ t. t ∣ 2 * b) even q))))
    | inr odd ↦ dvd-mul_left_of_dvd d (i.greatest d (dvd_half d a odd p) (dvd_half d b odd q)) 2
  ];
}

pub IsGcd-eq : (g g' a a' b b' : ℕ) → g ≡ g' → a ≡ a' → b ≡ b' → IsGcd g a b → IsGcd g' a' b'
IsGcd-eq g g' a a' b b' p q r h = rw (← p, ← q, ← r) h

-- A power of two on one side changes nothing, where the other side is odd.
IsGcd-right : (g a b j : ℕ) → IsOdd a → IsGcd g a b → IsGcd g a (b * 2 ^ j)
IsGcd-right g a b j o h = record {
  left = h.left;
  right = dvd-pow g b j h.right;
  greatest = λ d p q. h.greatest d p (dvd_odd_part d b j (IsOdd-of_dvd d a p o) q);
}

IsGcd-left : (g a b i : ℕ) → IsOdd b → IsGcd g a b → IsGcd g (a * 2 ^ i) b
IsGcd-left g a b i o h = record {
  left = dvd-pow g a i h.left;
  right = h.right;
  greatest = λ d p q. h.greatest d (dvd_odd_part d a i (IsOdd-of_dvd d b q o) p) q;
}

times-pow_zero : (a : ℕ) → a ≡ a * 2 ^ 0
times-pow_zero a = omega arith

times-pow_suc : (a i : ℕ) → 2 * (a * 2 ^ i) ≡ a * 2 ^ suc i
times-pow_suc a i = rw pow-suc (omega arith)

min-zero : (g j : ℕ) → g ≡ g * 2 ^ min 0 j
min-zero g j = let e : min 0 j ≡ 0 = omega arith in rw e (omega arith)

min-zero_right : (g i : ℕ) → g ≡ g * 2 ^ min i 0
min-zero_right g i = let e : min i 0 ≡ 0 = omega arith in rw e (omega arith)

min-sucs : (g i j : ℕ) → 2 * (g * 2 ^ min i j) ≡ g * 2 ^ min (suc i) (suc j)
min-sucs g i j =
    let e : min (suc i) (suc j) ≡ suc (min i j) = omega arith in rw e (times-pow_suc g (min i j))

-- The greatest common divisor of two odd numbers times powers of two.
pub IsGcd-pow :
    (g a b i j : ℕ)
    → IsOdd a
    → IsOdd b
    → IsGcd g a b
    → IsGcd (g * 2 ^ min i j) (a * 2 ^ i) (b * 2 ^ j)
IsGcd-pow g a b zero j oa ob h =
    IsGcd-eq g (g * 2 ^ min 0 j) a (a * 2 ^ 0) (b * 2 ^ j) (b * 2 ^ j) (min-zero g j)
      (times-pow_zero a) refl (IsGcd-right g a b j oa h)
IsGcd-pow g a b (suc i) zero oa ob h =
    IsGcd-eq g (g * 2 ^ min (suc i) 0) (a * 2 ^ suc i) (a * 2 ^ suc i) b (b * 2 ^ 0)
      (min-zero_right g (suc i)) refl (times-pow_zero b) (IsGcd-left g a b (suc i) ob h)
IsGcd-pow g a b (suc i) (suc j) oa ob h =
    IsGcd-eq (2 * (g * 2 ^ min i j)) (g * 2 ^ min (suc i) (suc j)) (2 * (a * 2 ^ i)) (a * 2 ^ suc i)
      (2 * (b * 2 ^ j)) (b * 2 ^ suc j) (min-sucs g i j) (times-pow_suc a i) (times-pow_suc b j)
      (IsGcd-double (g * 2 ^ min i j) (a * 2 ^ i) (b * 2 ^ j) (IsGcd-pow g a b i j oa ob h))
