-- ===== src/Permutation/Power.antt =====
-- `power` of a permutation, which squares after it has multiplied, from the lowest bit up.
use all.Prelude.{
  ℕ, zero, suc, ◌+◌, ◌*◌, ◌/◌, ◌%◌, ◌≤◌, ◌<◌, ◌≡◌, refl, ap, ◌∙◌, Option, some, List, [], ◌∷◌,
  length, arith, inl, inr, ◌==◌, Bool-cases, if◌then◌else◌,
}
use all.Permutation.{Permutation, apply, compose, power_loop, power}
use all.Permutation.Compose.{IsBounded, compose-Product}

abbrev pub iterate : ℕ → (ℕ → ℕ) → ℕ → ℕ
iterate zero f x = x
iterate (suc n) f x = f (iterate n f x)

iterate-add : (m n : ℕ) (f : ℕ → ℕ) (x : ℕ) → iterate m f (iterate n f x) ≡ iterate (m + n) f x
iterate-add zero n f x = ap (λ t. iterate t f x) (omega arith)
iterate-add (suc m) n f x =
    let e : suc (m + n) ≡ suc m + n = omega arith in
    ap f (iterate-add m n f x) ∙ ap (λ t. iterate t f x) e

-- The binary digits of a number, the lowest first.
unfoldable pub bits : ℕ → ℕ → List ℕ
bits zero n = []
bits (suc f) n = let rest = bits f (n / 2) in n % 2 ∷ (if n / 2 == 0 then [] else rest)

-- The number whose digits, the highest first, follow those of `acc`.
unfoldable pub of_digits : ℕ → List ℕ → ℕ
of_digits acc [] = acc
of_digits acc (b ∷ bs) = of_digits (2 * acc + b) bs

-- The digits of n, read in the reverse order.
unfoldable pub reversed : ℕ → ℕ
unfolding bits of_digits
reversed n = of_digits 0 (bits (suc n) n)

-- `q` is the k-th power of `p`.
pub record IsPower (p : Permutation) (k : ℕ) (q : Permutation) : Type 0 where
  pub bounded : IsBounded q
  pub short : length q.v ≤ length p.v
  pub values : (i : ℕ) → apply q i ≡ iterate k (apply p) i

abbrev Gives : Permutation → ℕ → Option Permutation → Type 0
Gives p k out = (q : Permutation) × (out ≡ some q) × IsPower p k q

times : (p q : Permutation) (k : ℕ) → IsBounded p → IsPower p k q → Gives p (k + 1) (compose q p)
times p q k b h =
    let c = compose-Product q p h.bounded b h.short in
    (
      c.r,
      c.result,
      record {
        bounded = c.bounded;
        short = omega (arith, c.size);
        values = λ i.
            c.values i
            ∙ ap (apply p) (h.values i)
            ∙ iterate-add 1 k (apply p) i
            ∙ ap (λ t. iterate t (apply p) i) (omega arith);
      },
    )

-- The two products that square: into the empty permutation, and once more.
record Squared (p q : Permutation) (k : ℕ) : Type 0 where
  tmp : Permutation
  r : Permutation
  first : compose (record { v = [] }) q ≡ some tmp
  second : compose tmp q ≡ some r
  is_power : IsPower p k r

square : (p q : Permutation) (k : ℕ) → IsPower p k q → Squared p q (2 * k)
square p q k h =
    let one =
      compose-Product (record { v = [] }) q (λ i l. absurd (omega arith)) h.bounded (omega arith) in
    let two = compose-Product one.r q one.bounded h.bounded (omega (arith, one.size)) in
    record {
      tmp = one.r;
      r = two.r;
      first = one.result;
      second = two.result;
      is_power = record {
        bounded = two.bounded;
        short = omega (arith, two.size, h.short);
        values = λ i.
            two.values i
            ∙ ap (apply q) (one.values i)
            ∙ h.values (apply q i)
            ∙ ap (iterate k (apply p)) (h.values i)
            ∙ iterate-add k k (apply p) i
            ∙ ap (λ t. iterate t (apply p) i) (omega arith);
      };
    }

first_times :
    (p q : Permutation) (k n : ℕ)
    → IsBounded p
    → IsPower p k q
    → Gives p (k + n % 2) (if n % 2 == 1 then compose q p else some q)
first_times p q k n b h = elim (Bool-cases (n % 2 == 1)) [
  | inl odd ↦ let e : k + 1 ≡ k + n % 2 = ground arith in rw (odd, ← e) (times p q k b h)
  | inr even ↦ let e : k ≡ k + n % 2 = ground arith in rw (even, ← e) (q, refl, h)
]

power_loop-Gives :
    (f n k : ℕ) (p q : Permutation)
    → n < f
    → IsBounded p
    → IsPower p (2 * k) q
    → Gives p (of_digits k (bits f n)) (power_loop f p n q)
unfolding power_loop bits of_digits
power_loop-Gives zero n k p q h b i = absurd (omega arith)
power_loop-Gives (suc f) n k p q h b i =
    let (q', e, i') = first_times p q (2 * k) n b i in
    elim (Bool-cases (n / 2 == 0)) [
      | inl last ↦ rw (e, last) (q', refl, i')
      | inr more ↦
          let s = square p q' (2 * k + n % 2) i' in
          rw (e, more, s.first, s.second)
            (power_loop-Gives f (n / 2) (2 * k + n % 2) p s.r (ground arith) b s.is_power)
    ]

-- For a permutation whose entries are positions of its vector, `power(n)` ends within its fuel and
-- stays inside its vectors. The result is the power not by n, but by the number whose binary
-- digits are those of n in the reverse order.
pub power-reversed :
    (p : Permutation) (n : ℕ)
    → IsBounded p
    → (q : Permutation) × (power p n ≡ some q)
      × ((i : ℕ) → apply q i ≡ iterate (reversed n) (apply p) i)
unfolding power reversed
power-reversed p n b =
    let empty : Permutation = record { v = [] } in
    let start : IsPower p 0 empty = record {
      bounded = λ i l. absurd (omega arith);
      short = omega arith;
      values = λ i. refl;
    } in
    let (q, e, i) = power_loop-Gives (suc n) n 0 p empty (omega arith) b start in (q, e, i.values)
