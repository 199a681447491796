-- ===== src/NumberTheory/Power/Laws.antt =====
-- What `power` computes, and for which exponents.
use all.Prelude.{
  ℕ, zero, suc, ◌+◌, ◌-◌, ◌*◌, ◌/◌, ◌%◌, ◌^◌, ◌≤◌, ◌<◌, ◌≡◌, refl, sym, ap, ◌∙◌, true, false, some,
  ◌==◌, ltb, leb, arith, Bool-cases, inl, inr, lt→ltb,
}
use native.Mathlib.Decide.{dec_lt}
use native.Mathlib.Nat.{
  pow-suc, pow-zero, div-div-eq-div-mul, div-one, one-le-pow, add-mul-div_left, mul_comm, add-zero,
  add-suc, pow-le-pow_right, lt-mul-div-succ,
}
use all.NumberTheory.Power.{top_bit, test_bit, power_loop, power}

module _ {ℓ} {T : Type ℓ} (one : T) (mul : T → T → T) where
  -- The product of n + 1 copies, from the left.
  abbrev pub product : T → ℕ → T
  product a zero = a
  product a (suc n) = mul (product a n) a

  -- The n-th power.
  abbrev pub pow : T → ℕ → T
  pow a zero = one
  pow a (suc n) = product a n

-- The quotient by a power of two is twice the next one and a bit.
quotient_step : (E idx : ℕ) → E / 2 ^ idx ≡ 2 * (E / 2 ^ suc idx) + (E / 2 ^ idx) % 2
quotient_step E idx =
    let next : E / 2 ^ idx / 2 ≡ E / 2 ^ suc idx =
      div-div-eq-div-mul E (2 ^ idx) 2 ∙ ap (λ t. E / t) (sym (pow-suc 2 idx)) in
    omega arith

-- The place of the highest bit.
pub top_bit_lem : (f e : ℕ) → 0 < e → e ≤ f → e / 2 ^ top_bit f e ≡ 1
unfolding top_bit
top_bit_lem zero e h k = absurd (omega arith)
top_bit_lem (suc f) e h k = elim (dec_lt e 2) [
  | yes small ↦ rw (lt→ltb e 2 small, pow-zero, div-one) (omega arith)
  | no big ↦
      let next : e / 2 / 2 ^ top_bit f (e / 2) ≡ 1 =
        top_bit_lem f (e / 2) (omega arith) (omega arith) in
      let t : ltb e 2 ≡ false = ground arith in
      rw (t, pow-suc)
        (ap (λ t. e / t) (mul_comm (2 ^ top_bit f (e / 2)) 2)
          ∙ sym (div-div-eq-div-mul e 2 (2 ^ top_bit f (e / 2)))
          ∙ next)
]

bit-set :
    (q q' m : ℕ)
    → (q % 2 == 1) ≡ true
    → suc m ≡ q'
    → q ≡ 2 * q' + q % 2
    → suc (suc (suc (m + m))) ≡ q
bit-set q q' m b h e = let one : q % 2 ≡ 1 = ground arith in omega arith

bit-clear :
    (q q' m : ℕ) → (q % 2 == 1) ≡ false → suc m ≡ q' → q ≡ 2 * q' + q % 2 → suc (suc (m + m)) ≡ q
bit-clear q q' m b h e = let none : q % 2 ≡ 0 = ground arith in omega arith

test_bit_low : (e i : ℕ) → i < 31 → test_bit e i ≡ some ((e / 2 ^ i) % 2 == 1)
unfolding test_bit
test_bit_low e i h = rw (lt→ltb i 31 h)

below_double : (e k : ℕ) → e / 2 ^ k ≡ 1 → e < 2 ^ suc k
below_double e k h = rw pow-suc (
    omega (
      arith,
      lt-mul-div-succ e {b = 2 ^ k} (one-le-pow k 2 (omega arith)),
      ap (λ t. 2 ^ k * (t + 1)) h,
    ))

top_bit_half :
    (f e k : ℕ)
    → e ≤ suc f
    → e < 2 ^ suc k
    → 2 ≤ e
    → ((k' : ℕ) → e / 2 < 2 ^ suc k' → top_bit f (e / 2) ≤ k')
    → suc (top_bit f (e / 2)) ≤ k
top_bit_half f e zero h p big ih = absurd (omega arith)
top_bit_half f e (suc k) h p big ih =
    let smaller : e < 2 ^ suc k * 2 = rw pow-suc at p in let q = ih k (omega arith) in omega arith

le→leb : (a b : ℕ) → a ≤ b → leb a b ≡ true
le→leb a b h = ground arith

sign_bit :
    (e : ℕ)
    → 4_294_967_296 ≤ e
    → e < 6_442_450_944
    → leb 2_147_483_648 e ≡ (((e + 2_147_483_648) / 2_147_483_648) % 2 == 1)
sign_bit e h k =
    let q : ((e + 2_147_483_648) / 2_147_483_648) % 2 ≡ 1 = omega arith in
    rw q (le→leb 2_147_483_648 e (omega arith))

top_bit-le : (f e k : ℕ) → e ≤ f → e < 2 ^ suc k → top_bit f e ≤ k
unfolding top_bit
top_bit-le zero e k h p = omega arith
top_bit-le (suc f) e k h p = elim (dec_lt e 2) [
  | yes small ↦ rw (lt→ltb e 2 small) (omega arith)
  | no big ↦
      let t : ltb e 2 ≡ false = ground arith in
      rw t (top_bit_half f e k h p (omega arith) (λ k' q. top_bit-le f (e / 2) k' (omega arith) q))
]

top_bit_unique : (e k : ℕ) → 0 < k → 2 ^ k ≤ e → e < 2 ^ suc k → top_bit e e ≡ k
top_bit_unique e k h l p =
    let top = top_bit e e in
    let high : top ≤ k = top_bit-le e e k (omega arith) p in
    let pos_e : 0 < e = omega (arith, one-le-pow k 2 (omega arith)) in
    let low : e < 2 ^ suc top = below_double e top (top_bit_lem e e pos_e (omega arith)) in
    elim (dec_lt top k) [
      | yes less ↦
          absurd (omega (arith, pow-le-pow_right {n = 2} (omega arith) {i = suc top} {j = k} less))
      | no not_less ↦ omega arith
    ]

pub pow-add : (i j : ℕ) → 2 ^ (i + j) ≡ 2 ^ i * 2 ^ j
pow-add i zero = rw add-zero (omega arith)
pow-add i (suc j) = rw (add-suc, pow-suc, pow-suc, pow-add i j) (omega arith)

shift_of_31 : (i j : ℕ) → i + suc j ≡ 31 → 2_147_483_648 ≡ 2 ^ i * (2 ^ j * 2)
shift_of_31 i j h = ap (λ t. 2 ^ t) (sym h) ∙ pow-add i (suc j) ∙ ap (λ t. 2 ^ i * t) (pow-suc 2 j)

bit_kept : (e i j : ℕ) → i + suc j ≡ 31 → ((e + 2_147_483_648) / 2 ^ i) % 2 ≡ (e / 2 ^ i) % 2
bit_kept e i j h =
    let q : (e + 2_147_483_648) / 2 ^ i ≡ e / 2 ^ i + 2 ^ j * 2 =
      ap (λ t. (e + t) / 2 ^ i) (shift_of_31 i j h)
      ∙ add-mul-div_left e (2 ^ j * 2) (one-le-pow i 2 (omega arith)) in
    omega arith

-- The bits that `test_bit` reads from e are those of the larger exponent.
wrong-agrees :
    (e : ℕ)
    → 4_294_967_296 ≤ e
    → e < 6_442_450_944
    → (i : ℕ) → i < 32
    → test_bit e i ≡ some (((e + 2_147_483_648) / 2 ^ i) % 2 == 1)
unfolding test_bit
wrong-agrees e h k i p = elim (dec_lt i 31) [
  | yes less ↦ rw (lt→ltb i 31 less, bit_kept e i (30 - i) (omega arith))
  | no not_less ↦ let at_31 : i ≡ 31 = omega arith in rw at_31 (ap some (sign_bit e h k))
]

module _ {ℓ} {T : Type ℓ} (one : T) (mul : T → T → T)
    (assoc : (a b c : T) → mul (mul a b) c ≡ mul a (mul b c)) where
  mul-product :
      (a : T) (m n : ℕ)
      → mul (product one mul a m) (product one mul a n) ≡ product one mul a (suc (m + n))
  mul-product a m zero = rw add-zero
  mul-product a m (suc n) = rw add-suc (
      sym (assoc (product one mul a m) (product one mul a n) a)
      ∙ ap (λ t. mul t a) (mul-product a m n))

  -- The loop reads the bits of E from the highest down.
  power_loop_lem :
      (a : T) (e E idx m : ℕ)
      → ((i : ℕ) → i < idx → test_bit e i ≡ some ((E / 2 ^ i) % 2 == 1))
      → suc m ≡ E / 2 ^ idx
      → power_loop one mul a e idx (product one mul a m) ≡ some (pow one mul a E)
  unfolding power_loop
  power_loop_lem a e E zero m agree h = let all : suc m ≡ E = h ∙ div-one E in rw (← all)
  power_loop_lem a e E (suc idx) m agree h = elim (Bool-cases ((E / 2 ^ idx) % 2 == 1)) [
    | inl bit ↦
        rw (agree idx (omega arith), bit, mul-product a m m)
          (power_loop_lem a e E idx (suc (suc (m + m))) (λ i p. agree i (omega arith))
            (bit-set (E / 2 ^ idx) (E / 2 ^ suc idx) m bit h (quotient_step E idx)))
    | inr bit ↦
        rw (agree idx (omega arith), bit, mul-product a m m)
          (power_loop_lem a e E idx (suc (m + m)) (λ i p. agree i (omega arith))
            (bit-clear (E / 2 ^ idx) (E / 2 ^ suc idx) m bit h (quotient_step E idx)))
  ]

  -- For exponents below 2^32 `power` is the power: by repeated squaring it gives the product of e
  -- copies of its argument, and `T{1}` for 0, for any associative product.
  pub power-eq-pow :
      (a : T) (e : ℕ) → e < 4_294_967_296 → power one mul a e ≡ some (pow one mul a e)
  unfolding power
  power-eq-pow a zero h = refl
  power-eq-pow a (suc n) h =
      let e = suc n in
      let top = top_bit_lem e e (omega arith) (omega arith) in
      let t : (e == 0) ≡ false = ground arith in
      rw t (
        power_loop_lem a e e (top_bit e e) 0
          (λ i p.
            test_bit_low e i
              (let q : top_bit e e ≤ 31 = top_bit-le e e 31 (omega arith) h in omega arith))
          (sym top))

  -- For exponents from 2^32 up and below 2^32 + 2^31 the mask of bit 31 is negative, and `power`
  -- gives the power of the exponent that is larger by 2^31.
  pub power_wrong :
      (a : T) (e : ℕ)
      → 4_294_967_296 ≤ e
      → e < 6_442_450_944
      → power one mul a e ≡ some (pow one mul a (e + 2_147_483_648))
  unfolding power
  power_wrong a e h k =
      let top : top_bit e e ≡ 32 = top_bit_unique e 32 (omega arith) h (omega arith) in
      let t : (e == 0) ≡ false = ground arith in
      rw (t, top) (power_loop_lem a e (e + 2_147_483_648) 32 0 (wrong-agrees e h k) (omega arith))
