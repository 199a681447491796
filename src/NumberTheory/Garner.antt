-- ===== src/NumberTheory/Garner.antt =====
-- The extended Euclidean algorithm, modular inverses and the Garner table of
-- ivl/number_theory/util.hpp. The coefficients of Bézout stay below the arguments, so their
-- `int64_t` is unbounded here. `none` is a failed assertion, a division by zero, an access outside a
-- vector, or no fuel left.
pub mod Bezout
pub mod Inverse
pub mod Digits
pub mod Table
pub mod Residues
use all.Prelude.{
  ℕ, zero, suc, ◌+◌, ◌-◌, ◌*◌, ◌/◌, ◌%◌, not, Option, none, some, ◌>>=◌, ◌>>◌, assert, List, [],
  ◌∷◌, ◌++◌, ◌==◌, if◌then◌else◌,
}
use all.Prelude.Int.{ℤ, pos, pos_part, ◌+ℤ◌, ◌-ℤ◌, ◌*ℤ◌, ltb_ℤ}
use all.Tiny.Int64.{remainder}
use all.NumberTheory.Gcd.{gcd}

abbrev pub word_mod : ℕ
word_mod = 18_446_744_073_709_551_616

-- `while (b)`, with the pairs `ap` and `bp`.
unfoldable pub euclid_loop : ℕ → ℕ → ℕ → ℤ × ℤ → ℤ × ℤ → Option (ℤ × ℤ)
unfolding ◌-ℤ◌ ◌*ℤ◌
euclid_loop zero a b ap bp = none
euclid_loop (suc f) a b ap bp =
    let ratio = a / b in
    let rest =
      euclid_loop f b (a - b * ratio) bp (ap.0 -ℤ bp.0 *ℤ pos ratio, ap.1 -ℤ bp.1 *ℤ pos ratio) in
    if b == 0 then some ap else rest

unfoldable pub extended_euclid : ℕ → ℕ → Option (ℤ × ℤ)
unfolding euclid_loop
extended_euclid a b =
    if a == 0
    then some (pos 0, pos 1)
    else if b == 0
    then some (pos 1, pos 0)
    else euclid_loop (suc b) a b (pos 1, pos 0) (pos 0, pos 1)

unfoldable pub modular_inverse : ℕ → ℕ → Option ℕ
unfolding gcd extended_euclid ◌+ℤ◌
modular_inverse a m = do
  g ← gcd a m
  assert (g == 1)
  (ac, mc) ← extended_euclid a m
  assert (not (m == 0))
  let r = remainder ac (pos m)
  some (pos_part (if ltb_ℤ r (pos 0) then r +ℤ pos m else r))

-- `struct GarnerTable`.
pub record GarnerTable : Type 0 where
  pub mods : List ℕ
  pub invs : List (List ℕ)

-- The inner loop of the constructor, over the moduli before `m`.
unfoldable pub inverses : List ℕ → ℕ → Option (List ℕ)
unfolding modular_inverse
inverses [] m = some []
inverses (p ∷ before) m = do inv ← modular_inverse p m; more ← inverses before m; some (inv ∷ more)

-- The outer loop: `before` are the moduli up to here.
unfoldable pub rows : List ℕ → List ℕ → Option (List (List ℕ))
unfolding inverses
rows before [] = some []
rows before (m ∷ mods) = do
  row ← inverses before m
  more ← rows (before ++ m ∷ []) mods
  some (row ∷ more)

unfoldable pub garner_table : List ℕ → Option GarnerTable
unfolding rows
garner_table arg = rows [] arg >>= λ invs. some (record { mods = arg; invs = invs })

-- `val = (val - out[j] + mods[i]) * invs[i][j] % mods[i]` for each j, on `uint64_t`, which wraps.
unfoldable pub reduce : ℕ → List ℕ → List ℕ → ℕ → Option ℕ
reduce m [] row val = some val
reduce m (o ∷ out) [] val = none
reduce m (o ∷ out) (inv ∷ row) val =
    assert (not (m == 0))
    >> reduce m out row ((val + (word_mod - o) + m) % word_mod * inv % word_mod % m)

-- The loop over i; `out` is what it wrote so far.
unfoldable pub convert_loop : List ℕ → List (List ℕ) → List ℕ → List ℕ → Option (List ℕ)
unfolding reduce
convert_loop [] invs input out = some out
convert_loop (m ∷ mods) (row ∷ invs) (x ∷ input) out = do
  val ← reduce m out row x
  convert_loop mods invs input (out ++ val ∷ [])
convert_loop (m ∷ mods) _ _ out = none

unfoldable pub convert_representation : GarnerTable → List ℕ → Option (List ℕ)
unfolding convert_loop
convert_representation t input = convert_loop t.mods t.invs input []

-- `apply`, for a type with a zero, a sum and a product with `uint32_t`: from the last digit down.
unfoldable pub apply_digits {ℓ} :
    {T : Type ℓ} → T → (T → ℕ → T) → (T → ℕ → T) → List ℕ → List ℕ → Option T
apply_digits start add mul mods [] = none
apply_digits start add mul mods (g ∷ []) = some (add start g)
apply_digits start add mul [] (g ∷ g' ∷ gs) = none
apply_digits start add mul (m ∷ mods) (g ∷ g' ∷ gs) =
    apply_digits start add mul mods (g' ∷ gs) >>= λ out. some (add (mul out m) g)
