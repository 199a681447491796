-- ===== src/NumberTheory/Prime.antt =====
-- `is_prime` of ivl/number_theory/util.hpp and of ivl/number_theory/primes.hpp, on `uint64_t`.
pub mod Laws
use all.Prelude.{
  ℕ, zero, suc, ◌+◌, ◌*◌, ◌%◌, ◌^◌, Bool, true, false, Option, none, some, leb, ◌==◌, if◌then◌else◌,
}

abbrev pub u64_mod : ℕ
u64_mod = 18_446_744_073_709_551_616

-- `for (uint64_t p = 2; p * p <= n; ++p) if (n % p == 0) return false; return true;` from p on.
-- The product wraps. `none`: out of fuel.
unfoldable pub trial_loop : ℕ → ℕ → ℕ → Option Bool
trial_loop zero n p = none
trial_loop (suc f) n p =
    let rest = trial_loop f n ((p + 1) % u64_mod) in
    if leb (p * p % u64_mod) n then (if n % p == 0 then some false else rest) else some true

-- util.hpp.
unfoldable pub is_prime : ℕ → Option Bool
unfolding trial_loop
is_prime n = if leb n 1 then some false else trial_loop n n 2

-- primes.hpp, which has no test for 0 and 1.
unfoldable pub is_prime_unguarded : ℕ → Option Bool
unfolding trial_loop
is_prime_unguarded n = trial_loop (suc n) n 2
