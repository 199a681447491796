-- ===== src/NumberTheory/Prime/Laws.antt =====
-- `is_prime` decides primality.
use all.Prelude.{
  ℕ, zero, suc, ◌+◌, ◌*◌, ◌/◌, ◌%◌, ◌≤◌, ◌<◌, ◌≡◌, ◌≢◌, refl, subst, Bool, true, false, Option,
  some, ◌==◌, leb, arith, inl, inr, ◌⊎◌, ◌↔◌,
}
use Prim.Native.Nat.{◌∣◌}
use native.Mathlib.Decide.{dec_le, dec_lt, ℕ_discrete}
use native.Mathlib.Nat.{
  mod-eq_of_lt, mod-eq-zero_of_dvd, dvd_of_mod-eq-zero, mul-div_cancel', mul-le-mul,
  mul-le-mul_left, mul-le-mul_right, le_trans, dvd-mul_left,
}
use all.NumberTheory.Prime.{trial_loop, is_prime, is_prime_unguarded, u64_mod}

-- A number above 1 without a divisor strictly between 1 and itself.
abbrev pub IsPrime : ℕ → Type 0
IsPrime n = (1 < n) × ((d : ℕ) → 1 < d → d < n → n % d ≢ 0)

-- The greatest number whose trial products stay below 2^64.
abbrev pub limit : ℕ
limit = 18_446_744_065_119_617_025

-- What the loop from p on finds: a divisor with its square in range, or none.
abbrev Finds : ℕ → ℕ → Option Bool → Type 0
Finds n p out =
    (out ≡ some false) × ((d : ℕ) × (p ≤ d) × (d * d ≤ n) × (n % d ≡ 0))
    ⊎ (out ≡ some true) × ((d : ℕ) → p ≤ d → d * d ≤ n → n % d ≢ 0)

le→leb : (a b : ℕ) → a ≤ b → leb a b ≡ true
le→leb a b h = ground arith

gt→leb : (a b : ℕ) → b < a → leb a b ≡ false
gt→leb a b h = ground arith

ne→==-false : (a b : ℕ) → a ≢ b → (a == b) ≡ false
ne→==-false a b h = ground arith

square_below : (p : ℕ) → p ≤ 4_294_967_295 → p * p ≤ limit
square_below p h = mul-le-mul h h

square_below_strict : (p : ℕ) → p ≤ 4_294_967_295 → p * p < limit + 1
square_below_strict p h = let b = square_below p h in omega arith

root_below : (p n : ℕ) → p * p ≤ n → n < limit → p < 4_294_967_295
root_below p n h k = elim (dec_lt p 4_294_967_295) [
  | yes l ↦ l
  | no l ↦
      let bound : 4_294_967_295 ≤ p = omega arith in
      let big : 4_294_967_295 * 4_294_967_295 ≤ p * p = mul-le-mul bound bound in
      absurd (omega arith)
]

square-le : (p n : ℕ) → p * p ≤ n → 0 < p → p ≤ n
square-le p n h l = let self : p * 1 ≤ p * p = mul-le-mul_left p l in omega arith

no_wrap : (p : ℕ) → p ≤ 4_294_967_295 → p * p % u64_mod ≡ p * p
no_wrap p h = mod-eq_of_lt (le_trans (square_below_strict p h) (omega arith))

-- No number from p on has its square in range, where that of p is not.
none_above : (p d n : ℕ) → n < p * p → p ≤ d → d * d ≤ n → ⊥
none_above p d n h k l = let more : p * p ≤ d * d = mul-le-mul k k in absurd (omega arith)

Finds-next : (n p : ℕ) (out : Option Bool) → n % p ≢ 0 → Finds n (p + 1) out → Finds n p out
Finds-next n p out h (inl (e, (d, k, l, m))) = inl (e, (d, omega arith, l, m))
Finds-next n p out h (inr (e, none')) = inr (
  e,
  λ d k l. elim (dec_lt p d) [
    | yes above ↦ none' d (omega arith) l
    | no same ↦ let eq : p ≡ d = omega arith in rw (← eq) h
  ],
)

trial_loop-Finds :
    (f n p : ℕ)
    → n < limit
    → 0 < p
    → p ≤ 4_294_967_295
    → p ≤ n + 1
    → n + 2 ≤ f + p
    → Finds n p (trial_loop f n p)
unfolding trial_loop
trial_loop-Finds zero n p h l m b k = absurd (omega arith)
trial_loop-Finds (suc f) n p h l m b k = elim (dec_le (p * p) n) [
  | no out ↦ inr (
    rw (no_wrap p m, gt→leb (p * p) n (omega arith)),
    λ d low sq. absurd (none_above p d n (omega arith) low sq),
  )
  | yes in_range ↦ elim (ℕ_discrete (n % p) 0) [
    | yes divides ↦
        inl (
          rw (no_wrap p m, le→leb (p * p) n in_range, divides),
          (p, omega arith, in_range, divides),
        )
    | no rest ↦
        let root = root_below p n in_range h in
        let smaller = square-le p n in_range l in
        let step : (p + 1) % u64_mod ≡ p + 1 = mod-eq_of_lt (omega arith) in
        rw (no_wrap p m, le→leb (p * p) n in_range, ne→==-false (n % p) 0 rest, step)
          (Finds-next n p (trial_loop f n (p + 1)) rest (
            trial_loop-Finds f n (p + 1) h (omega arith) (omega arith) (omega arith) (omega arith)))
  ]
]

-- A divisor or its cofactor has its square in range.
cofactor_big : (d q n : ℕ) → d * q ≡ n → d < n → 2 ≤ q
cofactor_big d zero n e h = absurd (omega arith)
cofactor_big d (suc zero) n e h = absurd (omega arith)
cofactor_big d (suc (suc q)) n e h = omega arith

proper : (d n : ℕ) → 2 ≤ d → d * d ≤ n → d < n
proper d n h k = let twice : d * 2 ≤ d * d = mul-le-mul_left d h in omega arith

small_divisor :
    (n d : ℕ) → 1 < d → d < n → n % d ≡ 0 → (c : ℕ) × (2 ≤ c) × (c * c ≤ n) × (n % c ≡ 0)
small_divisor n d h k e =
    let q = n / d in
    let whole : d * q ≡ n = mul-div_cancel' d (dvd_of_mod-eq-zero d e) in
    elim (dec_le d q) [
      | yes le ↦ (d, h, subst (λ t. d * d ≤ t) whole (mul-le-mul_left d le), e)
      | no gt ↦ (
        q,
        cofactor_big d q n whole k,
        subst (λ t. q * q ≤ t) whole (mul-le-mul_right q (omega arith)),
        mod-eq-zero_of_dvd q (subst (λ t. q ∣ t) whole (dvd-mul_left q d)),
      )
    ]

-- For numbers below (2^32 - 1)^2 `is_prime` of util.hpp ends within its fuel, and answers true
-- exactly for the primes.
pub is_prime-decides :
    (n : ℕ) → n < limit → (b : Bool) × (is_prime n ≡ some b) × ((b ≡ true) ↔ IsPrime n)
unfolding is_prime
is_prime-decides n h = elim (dec_le n 1) [
  | yes small ↦ (false, rw (le→leb n 1 small), (λ e. cc, λ prime. absurd (omega arith)))
  | no big ↦
      let start = gt→leb n 1 (omega arith) in
      elim (trial_loop-Finds n n 2 h (omega arith) (omega arith) (omega arith) (omega arith)) [
        | inl (e, (d, k, sq, m)) ↦
            (false, rw start e, (λ f. cc, λ prime. absurd (prime.1 d k (proper d n k sq) m)))
        | inr (e, none') ↦ (
          true,
          rw start e,
          (
            λ _. (
              omega arith,
              λ d k l m. let (c, k', sq, m') = small_divisor n d k l m in none' c k' sq m',
            ),
            λ _. refl,
          ),
        )
      ]
]

small_differ : (n : ℕ) → n ≤ 1 → (is_prime_unguarded n ≡ some true) × (is_prime n ≡ some false)
unfolding is_prime is_prime_unguarded
small_differ zero h = (refl, refl)
small_differ (suc zero) h = (refl, refl)
small_differ (suc (suc n)) h = absurd (omega arith)

-- Two runs of the loop that find the same thing agree.
Finds-unique : (n p : ℕ) (a b : Option Bool) → Finds n p a → Finds n p b → a ≡ b
Finds-unique n p a b (inl (e, _)) (inl (e', _)) = cc
Finds-unique n p a b (inr (e, _)) (inr (e', _)) = cc
Finds-unique n p a b (inl (e, (d, k, l, m))) (inr (e', none')) = absurd (none' d k l m)
Finds-unique n p a b (inr (e, none')) (inl (e', (d, k, l, m))) = absurd (none' d k l m)

loop_fuel : (n : ℕ) → n < limit → 1 < n → trial_loop (suc n) n 2 ≡ trial_loop n n 2
loop_fuel n h k =
    Finds-unique n 2 (trial_loop (suc n) n 2) (trial_loop n n 2)
      (trial_loop-Finds (suc n) n 2 h (omega arith) (omega arith) (omega arith) (omega arith))
      (trial_loop-Finds n n 2 h (omega arith) (omega arith) (omega arith) (omega arith))

-- The `is_prime` of primes.hpp has no test for 0 and 1: it answers true for both, and is that of
-- util.hpp above 1, below (2^32 - 1)^2.
pub is_prime_unguarded-differs :
    (n : ℕ)
    → n < limit
    → (n ≤ 1 → (is_prime_unguarded n ≡ some true) × (is_prime n ≡ some false))
      × (1 < n → is_prime_unguarded n ≡ is_prime n)
unfolding is_prime is_prime_unguarded
is_prime_unguarded-differs n h = (small_differ n, λ k. rw (gt→leb n 1 k) (loop_fuel n h k))
