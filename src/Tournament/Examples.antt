-- ===== src/Tournament/Examples.antt =====
-- The tournament over three numbers.
use all.Prelude.{
  Bool, true, false, ◌||◌, ltb, Option, none, ℕ, zero, suc, ◌+◌, ◌≤◌, ◌<◌, ◌≡◌, ◌≢◌, refl, some,
  List, [], ◌∷◌, get_elem?, arith,
}
use all.Tournament.{Turnament, make, set_leaf, leaf}
use all.Tournament.Search.{left, right, find}
use all.Tournament.Laws.{IsValid, set_leaf_lem}
use all.Tournament.Build.{make_lem}
use all.Tournament.Round.{IsAnswer}
use all.Tournament.Finding.{find_lem}
use all.Tournament.Root.{block_sum, set_leaf_root}

abbrev plus : ℕ → ℕ → ℕ
plus a b = a + b

abbrev numbers : List ℕ
numbers = 5 ∷ 7 ∷ 9 ∷ []

abbrev built : Turnament ℕ
built = record { leaves = 4; data' = 0 ∷ 21 ∷ 12 ∷ 9 ∷ 5 ∷ 7 ∷ 9 ∷ 0 ∷ [] }

builds : make plus 0 numbers ≡ some built
unfolding make
builds = refl

built-IsValid : IsValid plus 0 built
built-IsValid = record {
  positive = omega arith;
  size = refl;
  sums = elim [
    | zero ↦ λ h k. absurd (omega arith)
    | suc zero ↦ λ h k. refl
    | suc (suc zero) ↦ λ h k. refl
    | suc (suc (suc zero)) ↦ λ h k. refl
    | suc (suc (suc (suc i))) ↦ λ h k. absurd (omega arith)
  ];
}

make_lem_example :
    (t : Turnament ℕ) × (make plus 0 numbers ≡ some t)
    × IsValid plus 0 t
    × (3 ≤ t.leaves)
    × ((pos : ℕ) → pos < 3 → leaf t pos ≡ get_elem? numbers pos)
    × ((pos : ℕ) → 3 ≤ pos → pos < t.leaves → leaf t pos ≡ some 0)
make_lem_example = make_lem plus 0 numbers

set_leaf_lem_example :
    (t' : Turnament ℕ) × (set_leaf plus built 2 40 ≡ some t')
    × IsValid plus 0 t'
    × (t'.leaves ≡ 4)
    × (leaf t' 2 ≡ some 40)
    × ((q : ℕ) → q < 4 → q ≢ 2 → leaf t' q ≡ leaf built q)
set_leaf_lem_example = set_leaf_lem plus 0 built 2 40 built-IsValid (omega arith)

set_leaf_root_example :
    (t' : Turnament ℕ) × (set_leaf plus built 2 40 ≡ some t')
    × (get_elem? t'.data' 1 ≡ some (block_sum plus 0 t'.data' 4 3))
set_leaf_root_example =
    set_leaf_root plus 0 (λ a b c. omega arith) built 2 40 2 built-IsValid refl (omega arith)

-- Greatest values in place of sums.
abbrev greatest : Turnament ℕ
greatest = record { leaves = 4; data' = 0 ∷ 9 ∷ 7 ∷ 9 ∷ 5 ∷ 7 ∷ 9 ∷ 2 ∷ [] }

first_large : find left (λ x. ltb 6 x) greatest 0 4 ≡ some (some 1)
unfolding find
first_large = refl

last_large : find right (λ x. ltb 6 x) greatest 0 4 ≡ some (some 2)
unfolding find
last_large = refl

first_large_from : find left (λ x. ltb 6 x) greatest 2 4 ≡ some (some 2)
unfolding find
first_large_from = refl

no_large : find left (λ x. ltb 10 x) greatest 1 4 ≡ some none
unfolding find
no_large = refl

last_before : find right (λ x. ltb 8 x) greatest 0 2 ≡ some none
unfolding find
last_before = refl

-- Whether there is a number other than 0.
abbrev positive : ℕ → Bool
positive zero = false
positive (suc n) = true

positive-plus : (a b : ℕ) → positive (plus a b) ≡ (positive a || positive b)
positive-plus a b = grind arith

find_lem_example :
    (r : Option ℕ) × (find right positive built 1 3 ≡ some r)
    × IsAnswer plus 0 positive right built 5 7 r
find_lem_example =
    find_lem plus 0 positive right built 1 3 2 positive-plus built-IsValid refl (omega arith)
      (omega arith) (omega arith)
