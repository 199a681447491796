-- ===== src/NumberTheory/Garner/Bezout.antt =====
-- The coefficients of `extended_euclid`, and what `modular_inverse` makes of them.
use all.Prelude.{
  ℕ, zero, suc, ◌+◌, ◌-◌, ◌*◌, ◌/◌, ◌<◌, ◌≡◌, ap, subst, ◌∙◌, Option, some, ◌==◌, inl, inr, arith,
  Bool-cases, false, if◌then◌else◌,
}
use all.Prelude.Int.{
  ℤ, pos, pos_part, neg_part, sub_ℕ, ◌+ℤ◌, ◌-ℤ◌, ◌*ℤ◌, +ℤ_parts, -ℤ_parts, eq_of_parts,
}
use Prim.Native.Nat.{◌∣◌}
use native.Mathlib.Nat.{dvd-zero, dvd-sub, dvd-add, dvd-mul_right_of_dvd, mod-lt, div-add-mod}
use all.NumberTheory.Gcd.Divisors.{IsGcd, IsGcd-of, IsGcd-sym, IsGcd-zero}
use all.NumberTheory.Garner.{euclid_loop, extended_euclid}

sub_ℕ_parts : (u v : ℕ) → pos_part (sub_ℕ u v) + v ≡ neg_part (sub_ℕ u v) + u
sub_ℕ_parts u v = ground arith

pub *ℤ_parts :
    (a b : ℤ)
    → pos_part (a *ℤ b) + (pos_part a * neg_part b + neg_part a * pos_part b)
      ≡ neg_part (a *ℤ b) + (pos_part a * pos_part b + neg_part a * neg_part b)
unfolding ◌*ℤ◌
*ℤ_parts a b = sub_ℕ_parts _ _

-- A x + B y = n, over the numbers.
abbrev pub IsComb : ℕ → ℕ → ℤ × ℤ → ℕ → Type 0
IsComb A B (x, y) n = A * pos_part x + B * pos_part y ≡ n + (A * neg_part x + B * neg_part y)

step_arith :
    (A B p1 n1 p2 n2 p3 n3 r1 s1 r2 s2 r3 s3 a b q c : ℕ)
    → A * p1 + B * r1 ≡ a + (A * n1 + B * s1)
    → A * p2 + B * r2 ≡ b + (A * n2 + B * s2)
    → p3 + n1 + p2 * q ≡ n3 + p1 + n2 * q
    → r3 + s1 + r2 * q ≡ s3 + r1 + s2 * q
    → b * q + c ≡ a
    → A * p3 + B * r3 ≡ c + (A * n3 + B * s3)
step_arith A B p1 n1 p2 n2 p3 n3 r1 s1 r2 s2 r3 s3 a b q c h1 h2 h3 h4 h5 =
    omega (arith, ap (λ (t : ℕ). A * t) h3, ap (λ (t : ℕ). B * t) h4, ap (λ (t : ℕ). t * q) h2)

-- The parts of a coefficient after a round.
round_parts :
    (x x' : ℤ) (q : ℕ)
    → pos_part (x -ℤ x' *ℤ pos q) + neg_part x + pos_part x' * q
      ≡ neg_part (x -ℤ x' *ℤ pos q) + pos_part x + neg_part x' * q
round_parts x x' q = omega (arith, -ℤ_parts x (x' *ℤ pos q), *ℤ_parts x' (pos q))

round-IsComb :
    (A B a b : ℕ) (ap bp : ℤ × ℤ)
    → IsComb A B ap a
    → IsComb A B bp b
    → IsComb A B (ap.0 -ℤ bp.0 *ℤ pos (a / b), ap.1 -ℤ bp.1 *ℤ pos (a / b)) (a - b * (a / b))
round-IsComb A B a b (x, y) (x', y') h h' =
    step_arith A B (pos_part x) (neg_part x) (pos_part x') (neg_part x') _ _ (pos_part y)
      (neg_part y) (pos_part y') (neg_part y') _ _ a b (a / b) (a - b * (a / b)) h h'
      (round_parts x x' (a / b)) (round_parts y y' (a / b)) (omega (arith, div-add-mod a b))

-- A common divisor of both is one of the second and the remainder, and back.
IsGcd-round : (g a b : ℕ) → IsGcd g b (a - b * (a / b)) → IsGcd g a b
IsGcd-round g a b =
    IsGcd-of g a b b (a - b * (a / b))
      (λ d p q. (q, dvd-sub d p (dvd-mul_right_of_dvd d q (a / b))))
      (λ d p q. (
        subst (λ t. d ∣ t) (omega (arith, div-add-mod a b))
            (dvd-add d (dvd-mul_right_of_dvd d p (a / b)) q),
        p,
      ))

rest_small : (a b f : ℕ) → b < suc f → (b == 0) ≡ false → a - b * (a / b) < f
rest_small a b f h e =
    let positive : 0 < b = ground arith in omega (arith, mod-lt a positive, div-add-mod a b)

pub record Combined (A B a b : ℕ) (out : Option (ℤ × ℤ)) : Type 0 where
  pub x : ℤ
  pub y : ℤ
  pub gcd_of : ℕ
  pub result : out ≡ some (x, y)
  pub comb : IsComb A B (x, y) gcd_of
  pub is_gcd : IsGcd gcd_of a b

euclid_loop-Combined :
    (A B f a b : ℕ) (p q : ℤ × ℤ)
    → b < f
    → IsComb A B p a
    → IsComb A B q b
    → Combined A B a b (euclid_loop f a b p q)
unfolding euclid_loop
euclid_loop-Combined A B zero a b p q h ca cb = absurd (omega arith)
euclid_loop-Combined A B (suc f) a b (x, y) q h ca cb = elim (Bool-cases (b == 0)) [
  | inl e ↦
      let z : b ≡ 0 = ground arith in
      record {
        x = x;
        y = y;
        gcd_of = a;
        result = rw e;
        comb = ca;
        is_gcd = rw z (IsGcd-sym a 0 a (IsGcd-zero 0 a (dvd-zero a)));
      }
  | inr e ↦
      let i =
        euclid_loop-Combined A B f b (a - b * (a / b)) q _ (rest_small a b f h e) cb
          (round-IsComb A B a b (x, y) q ca cb) in
      record {
        x = i.x;
        y = i.y;
        gcd_of = i.gcd_of;
        result = rw e i.result;
        comb = i.comb;
        is_gcd = IsGcd-round i.gcd_of a b i.is_gcd;
      }
]

past_tests :
    (a b : ℕ) (v w out : Option (ℤ × ℤ))
    → (a == 0) ≡ false
    → (b == 0) ≡ false
    → (if a == 0 then v else if b == 0 then w else out) ≡ out
past_tests a b v w out e e' = rw (e, e')

pub extended_euclid-Combined : (a b : ℕ) → Combined a b a b (extended_euclid a b)
unfolding extended_euclid
extended_euclid-Combined a b = elim (Bool-cases (a == 0)) [
  | inl e ↦
      let z : a ≡ 0 = ground arith in
      record {
        x = pos 0;
        y = pos 1;
        gcd_of = b;
        result = rw e;
        comb = omega arith;
        is_gcd = rw z (IsGcd-zero 0 b (dvd-zero b));
      }
  | inr e ↦ elim (Bool-cases (b == 0)) [
    | inl e' ↦
        let z : b ≡ 0 = ground arith in
        record {
          x = pos 1;
          y = pos 0;
          gcd_of = a;
          result = rw (e, e');
          comb = omega arith;
          is_gcd = rw z (IsGcd-sym a 0 a (IsGcd-zero 0 a (dvd-zero a)));
        }
    | inr e' ↦
        let i =
          euclid_loop-Combined a b (suc b) a b (pos 1, pos 0) (pos 0, pos 1) (omega arith)
            (omega arith) (omega arith) in
        record {
          x = i.x;
          y = i.y;
          gcd_of = i.gcd_of;
          result =
              past_tests a b _ _ (euclid_loop (suc b) a b (pos 1, pos 0) (pos 0, pos 1)) e e'
              ∙ i.result;
          comb = i.comb;
          is_gcd = i.is_gcd;
        }
  ]
]

-- For any two numbers `extended_euclid` ends within its fuel, and the sum of the numbers times the
-- coefficients that it returns is their greatest common divisor.
pub extended_euclid_lem :
    (a b : ℕ)
    → (x y : ℤ) × (g : ℕ) × (extended_euclid a b ≡ some (x, y))
      × (pos a *ℤ x +ℤ pos b *ℤ y ≡ pos g)
      × IsGcd g a b
extended_euclid_lem a b =
    let i = extended_euclid-Combined a b in
    (
      i.x,
      i.y,
      i.gcd_of,
      i.result,
      eq_of_parts _ _ (
          omega (
            arith,
            i.comb,
            +ℤ_parts (pos a *ℤ i.x) (pos b *ℤ i.y),
            *ℤ_parts (pos a) i.x,
            *ℤ_parts (pos b) i.y,
          )),
      i.is_gcd,
    )
