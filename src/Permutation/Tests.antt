-- ===== src/Permutation/Tests.antt =====
-- Runs on small permutations.
use all.Prelude.{ℕ, List, ◌≡◌, refl, [], ◌∷◌, some, none, false}
use all.Permutation.{Permutation, equal, inverse, compose, power, cycle, cycle_decomp}

abbrev of : List ℕ → Permutation
of v = record { v = v }

inverse-cycle : inverse (cycle 4) ≡ some (of (3 ∷ 0 ∷ 1 ∷ 2 ∷ []))
unfolding inverse cycle
inverse-cycle = refl

decomp : cycle_decomp (of (1 ∷ 0 ∷ 2 ∷ 4 ∷ 3 ∷ [])) ≡ some ((0 ∷ 1 ∷ []) ∷ (3 ∷ 4 ∷ []) ∷ [])
unfolding cycle_decomp
decomp = refl

-- The square of a cycle of three is not what `power` gives.
power_two : power (cycle 3) 2 ≡ some (cycle 3)
unfolding power cycle
power_two = refl

trailing : equal (of (1 ∷ 0 ∷ 2 ∷ [])) (of (1 ∷ 0 ∷ [])) ≡ false
unfolding equal
trailing = refl

outside : compose (of (2 ∷ 1 ∷ 0 ∷ [])) (of (1 ∷ 0 ∷ [])) ≡ none
unfolding compose
outside = refl
