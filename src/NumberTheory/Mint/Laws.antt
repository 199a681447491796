-- ===== src/NumberTheory/Mint/Laws.antt =====
-- The modular operations against arithmetic on the numbers that they stand for.
use all.Prelude.{
  ℕ, ◌+◌, ◌-◌, ◌*◌, ◌/◌, ◌%◌, ◌≤◌, ◌<◌, ◌≡◌, refl, sym, ap, ◌∙◌, List, [], ◌∷◌, arith, inl, inr,
  ◌⊎◌,
}
use native.Mathlib.Decide.{dec_le}
use native.Mathlib.Nat.{
  mod-lt, mod-eq_of_lt, add-mod, mod-eq-sub-mod, mul-add-mod_self_left, div-add-mod, mul_comm,
}
use all.NumberTheory.Mint.{add32, sub32, multi_add, multi_sub, multi_mul, multi_of}

-- `MultiMint` asserts that twice a modulus fits in 32 bits.
abbrev pub IsModulus : ℕ → Type 0
IsModulus m = (0 < m) × (m < 2_147_483_648)

add32_value :
    (m a b : ℕ)
    → IsModulus m
    → a < m
    → b < m
    → (a + b < m) × (add32 m a b ≡ a + b) ⊎ (m ≤ a + b) × (add32 m a b ≡ a + b - m)
unfolding add32
add32_value m a b h p q = elim (dec_le m (a + b)) [
  | yes k ↦ inr (k, ground arith)
  | no k ↦ inl (omega arith, ground arith)
]

add32_lem : (m a b : ℕ) → IsModulus m → a < m → b < m → add32 m a b ≡ (a + b) % m
add32_lem m a b h p q = elim (add32_value m a b h p q) [
  | inl (k, e) ↦ e ∙ sym (mod-eq_of_lt k)
  | inr (k, e) ↦ e ∙ sym (mod-eq-sub-mod k ∙ mod-eq_of_lt (omega arith))
]

sub32_value :
    (m a b : ℕ)
    → IsModulus m
    → a < m
    → b < m
    → sub32 m a b + b ≡ a ⊎ (sub32 m a b + b ≡ a + m) × (a < b)
unfolding sub32
sub32_value m a b h p q = elim (dec_le b a) [
  | yes k ↦ inl (ground arith)
  | no k ↦ inr (ground arith, omega arith)
]

mod_cases : (m n : ℕ) → 0 < m → n < m + m → (n % m ≡ n) × (n < m) ⊎ (n % m ≡ n - m) × (m ≤ n)
mod_cases m n h k = elim (dec_le m n) [
  | yes p ↦ inr (mod-eq-sub-mod p ∙ mod-eq_of_lt (omega arith), p)
  | no p ↦ inl (mod-eq_of_lt (omega arith), omega arith)
]

-- A residue is determined by its sum with another.
residue_unique : (m s d t : ℕ) → 0 < m → s < m → d < m → t < m → (s + t) % m ≡ (d + t) % m → s ≡ d
residue_unique m s d t h hs hd ht e =
    omega (arith, mod_cases m (s + t) h (omega arith), mod_cases m (d + t) h (omega arith))

-- A number that is a residue, or a residue and the modulus more, has that residue.
sub32_total : (m a n : ℕ) → 0 < m → a < m → (n ≡ a) ⊎ (n ≡ a + m) → n % m ≡ a
sub32_total m a n h k c = omega (arith, mod_cases m n h (omega arith))

sub32_lem : (m x y : ℕ) → IsModulus m → y ≤ x → sub32 m (x % m) (y % m) ≡ (x - y) % m
sub32_lem m x y h k =
    let hx : x % m < m = mod-lt x h.0 in
    let hy : y % m < m = mod-lt y h.0 in
    let hd : (x - y) % m < m = mod-lt (x - y) h.0 in
    let total : ((x - y) % m + y % m) % m ≡ x % m =
      sym (add-mod (x - y) y m) ∙ ap (λ t. t % m) (omega arith) in
    let v = sub32_value m (x % m) (y % m) h hx hy in
    residue_unique m (sub32 m (x % m) (y % m)) ((x - y) % m) (y % m) h.0 (omega arith) hd hy
      (sub32_total m (x % m) (sub32 m (x % m) (y % m) + y % m) h.0 hx (omega arith) ∙ sym total)

product_mod : (m r b q : ℕ) → (m * q + r) * b % m ≡ r * b % m
product_mod m r b q = ap (λ t. t % m) (omega arith) ∙ mul-add-mod_self_left m (q * b) (r * b)

mod-mul-mod : (m a b : ℕ) → a % m * b % m ≡ a * b % m
mod-mul-mod m a b = sym (product_mod m (a % m) b (a / m)) ∙ ap (λ t. t * b % m) (div-add-mod a m)

mul-mod : (m a b : ℕ) → a % m * (b % m) % m ≡ a * b % m
mul-mod m a b =
    mod-mul-mod m a (b % m)
    ∙ ap (λ t. t % m) (mul_comm a (b % m))
    ∙ mod-mul-mod m b a
    ∙ ap (λ t. t % m) (mul_comm b a)

cons-eq : {a b : ℕ} {xs ys : List ℕ} → a ≡ b → xs ≡ ys → a ∷ xs ≡ b ∷ ys
cons-eq p q = cc

add32_mod : (m x y : ℕ) → IsModulus m → add32 m (x % m) (y % m) ≡ (x + y) % m
add32_mod m x y h =
    add32_lem m (x % m) (y % m) h (mod-lt x h.0) (mod-lt y h.0) ∙ sym (add-mod x y m)

abbrev pub AllModulus : List ℕ → Type 0
AllModulus [] = Unit
AllModulus (m ∷ mods) = IsModulus m × AllModulus mods

-- For moduli that `MultiMint` accepts, its `+`, `*` and `-` on the residues of two numbers give the
-- residues of their sum, of their product and, where the first is not the smaller, of their
-- difference: the 32-bit intermediate results never wrap to a wrong value.
pub multi_homomorphism :
    (mods : List ℕ) (x y : ℕ)
    → AllModulus mods
    → (multi_add mods (multi_of mods x) (multi_of mods y) ≡ multi_of mods (x + y))
      × (multi_mul mods (multi_of mods x) (multi_of mods y) ≡ multi_of mods (x * y))
      × (y ≤ x → multi_sub mods (multi_of mods x) (multi_of mods y) ≡ multi_of mods (x - y))
unfolding multi_of multi_add multi_sub multi_mul
multi_homomorphism [] x y h = (refl, refl, λ _. refl)
multi_homomorphism (m ∷ mods) x y h =
    let (add, mul, sub) = multi_homomorphism mods x y h.1 in
    (
      cons-eq (add32_mod m x y h.0) add,
      cons-eq (mul-mod m x y) mul,
      λ k. cons-eq (sub32_lem m x y h.0 k) (sub k),
    )
