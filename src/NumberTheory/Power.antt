-- ===== src/NumberTheory/Power.antt =====
-- `power` of ivl/number_theory/util.hpp, for any type with a product.
pub mod Laws
use all.Prelude.{
  ℕ, zero, suc, ◌+◌, ◌*◌, ◌/◌, ◌%◌, ◌^◌, Bool, true, false, Option, none, some, ◌>>=◌, ltb, leb,
  ◌==◌, if◌then◌else◌,
}

-- `63 - std::countl_zero(e)` for e > 0: the place of the highest bit.
unfoldable pub top_bit : ℕ → ℕ → ℕ
top_bit zero e = 0
top_bit (suc f) e = let rest = suc (top_bit f (e / 2)) in if ltb e 2 then 0 else rest

-- `e & (1 << idx)`, where 1 is an `int` of 32 bits: at 31 the mask is negative, and its sign
-- extends over the high bits of e; a shift by 32 or more is undefined.
unfoldable pub test_bit : ℕ → ℕ → Option Bool
test_bit e idx =
    if ltb idx 31
    then some ((e / 2 ^ idx) % 2 == 1)
    else if idx == 31
    then some (leb 2_147_483_648 e)
    else none

module _ {ℓ} {T : Type ℓ} (one : T) (mul : T → T → T) where
  -- The rounds for the indices below `k`, from the highest down.
  unfoldable pub power_loop : T → ℕ → ℕ → T → Option T
  unfolding test_bit
  power_loop a e zero r = some r
  power_loop a e (suc idx) r = do
    bit ← test_bit e idx
    power_loop a e idx (if bit then mul (mul r r) a else mul r r)

  unfoldable pub power : T → ℕ → Option T
  unfolding power_loop top_bit
  power a e = if e == 0 then some one else power_loop a e (top_bit e e) a
