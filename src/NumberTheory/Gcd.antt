-- ===== src/NumberTheory/Gcd.antt =====
-- `gcd` of ivl/number_theory/util.hpp: Euclid's algorithm on odd parts. The result is a divisor of
-- an argument, or the other argument if one is 0, so nothing exceeds `uint64_t`.
pub mod Divisors
pub mod Laws
use all.Prelude.{
  ℕ, zero, suc, ◌+◌, ◌*◌, ◌/◌, ◌%◌, ◌^◌, Bool, true, false, ◌||◌, Option, none, some, min, ◌==◌,
  if◌then◌else◌,
}

-- `std::countr_zero(n)` for n > 0, with fuel.
unfoldable pub ctz_loop : ℕ → ℕ → ℕ
ctz_loop zero n = 0
ctz_loop (suc f) n = let rest = suc (ctz_loop f (n / 2)) in if n % 2 == 1 then 0 else rest

abbrev pub countr_zero : ℕ → ℕ
countr_zero n = ctz_loop n n

-- The `while (true)` loop. `none`: out of fuel. The last shift is by `countr_zero(a)`.
unfoldable pub gcd_loop : ℕ → ℕ → ℕ → ℕ → Option ℕ
unfolding ctz_loop
gcd_loop zero a b shift = none
gcd_loop (suc f) a b shift =
    let a₁ = a % b in
    let a₂ = a₁ / 2 ^ countr_zero a₁ in
    let b₁ = b % a₂ in
    let b₂ = b₁ / 2 ^ countr_zero a₂ in
    let rest = gcd_loop f a₂ b₂ shift in
    if a₁ == 0 then some (b * 2 ^ shift) else if b₁ == 0 then some (a₂ * 2 ^ shift) else rest

unfoldable pub gcd : ℕ → ℕ → Option ℕ
unfolding gcd_loop ctz_loop
gcd a b =
    let shift = min (countr_zero a) (countr_zero b) in
    let a' = a / 2 ^ countr_zero a in
    let b' = b / 2 ^ countr_zero b in
    if a == 0 || b == 0 then some (a + b) else gcd_loop (suc b) a' b' shift
