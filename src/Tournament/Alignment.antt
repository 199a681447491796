-- ===== src/Tournament/Alignment.antt =====
-- The block that `find` looks at in a round: its width divides the end of the range that it
-- starts from, and the number of leaves, so that its entry is the sum of just this block.
use all.Prelude.{
  ℕ, zero, suc, ◌+◌, ◌-◌, ◌*◌, ◌/◌, ◌^◌, ◌≤◌, ◌<◌, ◌≡◌, refl, sym, ap, ◌∙◌, subst, min, false, ◌==◌,
  arith,
}
use Prim.Native.Nat.{◌∣◌}
use native.Mathlib.Decide.{dec_lt}
use native.Mathlib.Nat.{
  pow-suc, one-le-pow, pow-le-pow_right, le-div_iff_mul-le, dvd-zero, dvd-mul_right,
  dvd-mul_left_of_dvd, dvd-add, div-mul_cancel, mul-add-div_right, div-eq_of_lt,
}
use all.NumberTheory.Power.{top_bit}
use all.NumberTheory.Power.Laws.{top_bit_lem, pow-add}
use all.NumberTheory.Gcd.{ctz_loop}
use all.NumberTheory.Gcd.Laws.{ctz_split}
use all.Tournament.Search.{trailing_zeros}

-- The width of a block in a round.
pub width-le :
    (a span : ℕ)
    → 0 < span
    → (1 ≤ 2 ^ min a (top_bit span span)) × (2 ^ min a (top_bit span span) ≤ span)
width-le a span h =
    let k = top_bit span span in
    let w = min a k in
    let low : w ≤ k = omega arith in
    let one : 1 ≤ 2 ^ k = one-le-pow k 2 (omega arith) in
    let quotient : span / 2 ^ k ≡ 1 = top_bit_lem span span h (omega arith) in
    let top : 1 * 2 ^ k ≤ span = (le-div_iff_mul-le one).0 (omega arith) in
    let grow : 2 ^ w ≤ 2 ^ k = pow-le-pow_right (omega arith) low in
    (one-le-pow w 2 (omega arith), omega arith)

pow-dvd : (b c : ℕ) → b ≤ c → 2 ^ b ∣ 2 ^ c
pow-dvd b c h =
    let e : b + (c - b) ≡ c = omega arith in
    subst (λ k. 2 ^ b ∣ 2 ^ k) e
      (subst (λ t. 2 ^ b ∣ t) (sym (pow-add b (c - b))) (dvd-mul_right (2 ^ b) (2 ^ (c - b))))

trailing_zeros-suc : (n : ℕ) → trailing_zeros (suc n) ≡ ctz_loop (suc n) (suc n)
unfolding trailing_zeros
trailing_zeros-suc n = let t : (suc n == 0) ≡ false = ground arith in rw t refl

trailing_zeros-dvd : (n b : ℕ) → b ≤ trailing_zeros n → 2 ^ b ∣ n
trailing_zeros-dvd zero b h = dvd-zero (2 ^ b)
trailing_zeros-dvd (suc n) b h =
    let (m, e, o) = ctz_split (suc n) (suc n) (omega arith) (omega arith) in
    subst (λ t. 2 ^ b ∣ t) (sym e)
      (dvd-mul_left_of_dvd (2 ^ b)
        (pow-dvd b (ctz_loop (suc n) (suc n)) (subst (λ t. b ≤ t) (trailing_zeros-suc n) h)) m)

-- A power of two that is at most another divides it.
small-dvd : (b m n : ℕ) → n ≡ 2 ^ m → 2 ^ b ≤ n → 2 ^ b ∣ n
small-dvd b m n e h = elim (dec_lt m b) [
  | yes more ↦
      let big : 2 ^ suc m ≤ 2 ^ b = pow-le-pow_right (omega arith) more in
      let one : 1 ≤ 2 ^ m = one-le-pow m 2 (omega arith) in
      let twice : 2 ^ suc m ≡ 2 ^ m * 2 = pow-suc 2 m in absurd (omega arith)
  | no not_more ↦ rw e (pow-dvd b m (omega arith))
]

-- The block starts at an end of the range, over the number of leaves.
pub edge-aligned :
    (a span edge m n : ℕ)
    → 0 < span
    → span ≤ n
    → n ≡ 2 ^ m
    → a ≤ trailing_zeros edge
    → (edge + n) / 2 ^ min a (top_bit span span) * 2 ^ min a (top_bit span span) ≡ edge + n
edge-aligned a span edge m n h k e l =
    let b = min a (top_bit span span) in
    let (one, low) = width-le a span h in
    let below : b ≤ trailing_zeros edge = omega arith in
    div-mul_cancel (2 ^ b)
      (dvd-add (2 ^ b) (trailing_zeros-dvd edge b below) (small-dvd b m n e (omega arith)))

one_less : (q w x : ℕ) → 1 ≤ w → 0 < x → q * w ≡ x → x - 1 ≡ (q - 1) * w + (w - 1)
one_less zero w x h k e = absurd (omega arith)
one_less (suc q) w x h k e = let p : suc q - 1 ≡ q = omega arith in rw p (omega arith)

one_more : (q w x : ℕ) → 0 < x → q * w ≡ x → (q - 1) * w + w ≡ x
one_more zero w x k e = absurd (omega arith)
one_more (suc q) w x k e = let p : suc q - 1 ≡ q = omega arith in rw p (omega arith)

-- One before the end of a block is in this block.
pub before-aligned : (x w : ℕ) → 1 ≤ w → 0 < x → x / w * w ≡ x → (x - 1) / w * w + w ≡ x
before-aligned x w h k e =
    let quotient : (x - 1) / w ≡ x / w - 1 =
      ap (λ t. t / w) (one_less (x / w) w x h k e)
      ∙ mul-add-div_right h (x / w - 1) (w - 1)
      ∙ ap (λ t. x / w - 1 + t) (div-eq_of_lt (omega arith))
      ∙ omega arith in
    ap (λ t. t * w + w) quotient ∙ one_more (x / w) w x k e
