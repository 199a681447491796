-- ===== src/NumberTheory.antt =====
-- ivl/number_theory: primality, powers, the binary gcd, and modular integers.
pub mod Prime
pub mod Power
pub mod Gcd
pub mod Garner
pub mod Mint
mod Examples
