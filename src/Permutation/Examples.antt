-- ===== src/Permutation/Examples.antt =====
-- The theorems on permutations at concrete inputs.
use all.Prelude.{ℕ, zero, suc, ◌≡◌, ◌≤◌, refl, true, false, some, none, [], ◌∷◌, arith, length}
use all.Permutation.{Permutation, apply, compose, inverse, power, equal}
use all.Permutation.Compose.{IsBounded, compose_lem, compose_outside}
use all.Permutation.Inverse.{IsInjective, inverse_lem}
use all.Permutation.Power.{iterate, reversed, power-reversed}
use all.Permutation.Equality.{longer, equal-longer}

-- 0 to 1, 1 to 2, 2 to 0.
abbrev turn : Permutation
turn = record { v = 1 ∷ 2 ∷ 0 ∷ [] }

abbrev swap : Permutation
swap = record { v = 1 ∷ 0 ∷ [] }

turn-IsBounded : IsBounded turn
turn-IsBounded zero h = omega arith
turn-IsBounded (suc zero) h = omega arith
turn-IsBounded (suc (suc zero)) h = omega arith
turn-IsBounded (suc (suc (suc i))) h = absurd (omega arith)

turn-high : (i : ℕ) → 3 ≤ i → 3 ≤ apply turn i
turn-high zero h = absurd (omega arith)
turn-high (suc zero) h = absurd (omega arith)
turn-high (suc (suc zero)) h = absurd (omega arith)
turn-high (suc (suc (suc i))) h = omega arith

turn-IsInjective : IsInjective turn
turn-IsInjective zero zero h k e = refl
turn-IsInjective zero (suc zero) h k e = absurd (omega arith)
turn-IsInjective zero (suc (suc zero)) h k e = absurd (omega arith)
turn-IsInjective (suc zero) zero h k e = absurd (omega arith)
turn-IsInjective (suc zero) (suc zero) h k e = refl
turn-IsInjective (suc zero) (suc (suc zero)) h k e = absurd (omega arith)
turn-IsInjective (suc (suc zero)) zero h k e = absurd (omega arith)
turn-IsInjective (suc (suc zero)) (suc zero) h k e = absurd (omega arith)
turn-IsInjective (suc (suc zero)) (suc (suc zero)) h k e = refl
turn-IsInjective i (suc (suc (suc j))) h k e = absurd (omega arith)
turn-IsInjective (suc (suc (suc i))) j h k e = absurd (omega arith)

compose_lem_example :
    (r : Permutation) × (compose turn turn ≡ some r)
    × ((i : ℕ) → apply r i ≡ apply turn (apply turn i))
compose_lem_example = compose_lem turn turn turn-IsBounded turn-high

inverse_lem_example :
    (q : Permutation) × (inverse turn ≡ some q)
    × (length q.v ≡ length turn.v)
    × ((i : ℕ) → apply q (apply turn i) ≡ i)
inverse_lem_example = inverse_lem turn turn-IsBounded turn-IsInjective

power-reversed_example :
    (q : Permutation) × (power turn 6 ≡ some q)
    × ((i : ℕ) → apply q i ≡ iterate (reversed 6) (apply turn) i)
power-reversed_example = power-reversed turn 6 turn-IsBounded

abbrev short_identity : Permutation
short_identity = record { v = 0 ∷ [] }

abbrev long_identity : Permutation
long_identity = record { v = 0 ∷ 1 ∷ 2 ∷ [] }

identities : equal long_identity short_identity ≡ true
unfolding equal
identities = refl

equal-longer_example :
    ((i : ℕ) → apply (longer turn) i ≡ apply turn i) × (equal (longer turn) turn ≡ false)
equal-longer_example = equal-longer turn 0 (omega arith) (omega arith)

abbrev reversal : Permutation
reversal = record { v = 2 ∷ 1 ∷ 0 ∷ [] }

compose_outside_example : compose reversal swap ≡ none
compose_outside_example = compose_outside reversal swap 0 (omega arith) (omega arith)
