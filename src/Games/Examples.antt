-- ===== src/Games/Examples.antt =====
-- The one heap of ivl/game-theory/impartial_example.cpp, with a list of pairs as the cache.
use all.Prelude.{
  ℕ, zero, suc, ◌<◌, ◌≡◌, ◌≢◌, refl, Option, none, some, List, [], ◌∷◌, ◌↔◌, ◌==◌, arith,
  if◌then◌else◌,
}
use native.Mathlib.Decide.{ℕ_discrete}
use all.Prelude.Result.{ok}
use all.Games.{ImpartialGame, FlatMap, grundify}
use all.Games.Cache.{IsMap}
use all.Games.Positions.{HasGrundy, Lost}
use all.Games.Laws.{AllBelow, IsSound, grundify_lem}

-- `iota(0, x)`, from its end on.
abbrev below : ℕ → List ℕ
below zero = []
below (suc x) = x ∷ below x

instance abbrev nim : ImpartialGame ℕ
nim = record { moves = below }

abbrev Pairs : Type 0
Pairs = List (ℕ × ℕ)

abbrev empty_cache : Pairs
empty_cache = []

abbrev find_pair : Pairs → ℕ → Option ℕ
find_pair [] x = none
find_pair ((y, n) ∷ pairs) x = if y == x then some n else find_pair pairs x

abbrev append_pair : Pairs → ℕ → ℕ → Pairs
append_pair [] x n = (x, n) ∷ []
append_pair ((y, k) ∷ pairs) x n = (y, k) ∷ append_pair pairs x n

instance abbrev pairs : FlatMap ℕ Pairs
pairs = record { find = find_pair; emplace = append_pair }

find-absent :
    (m : Pairs) (x n : ℕ) → find_pair m x ≡ none → find_pair (append_pair m x n) x ≡ some n
find-absent [] x n h = ground arith
find-absent ((y, k) ∷ m) x n h = ground (arith, find-absent m x n)

find-present :
    (m : Pairs) (x n k : ℕ) → find_pair m x ≡ some k → find_pair (append_pair m x n) x ≡ some k
find-present [] x n k h = cc
find-present ((y, j) ∷ m) x n k h = ground (arith, find-present m x n k)

find-other : (m : Pairs) (x y n : ℕ) → x ≢ y → find_pair (append_pair m x n) y ≡ find_pair m y
find-other [] x y n d = ground arith
find-other ((z, k) ∷ m) x y n d = ground (arith, find-other m x y n)

pairs-IsMap : IsMap pairs
pairs-IsMap = record {
  same = λ x y. ℕ_discrete x y;
  find_absent = find-absent;
  find_present = find-present;
  find_other = find-other;
}

below-AllBelow : (x n : ℕ) → x < suc n → AllBelow (λ y. y) n (below x)
below-AllBelow zero n h = tt
below-AllBelow (suc x) n h = (omega arith, below-AllBelow x n (omega arith))

nothing_known : IsSound ℕ empty_cache
nothing_known x n h = cc

three_left : grundify {G = ℕ} 4 empty_cache 3 ≡ ok (3, (0, 0) ∷ (1, 1) ∷ (2, 2) ∷ (3, 3) ∷ [])
unfolding grundify
three_left = refl

grundify_lem_example :
    (n : ℕ) × (cache' : Pairs) × (grundify {G = ℕ} 4 empty_cache 3 ≡ ok (n, cache'))
    × HasGrundy {G = ℕ} 3 n
    × ((n ≡ 0) ↔ Lost {G = ℕ} 3)
    × IsSound ℕ cache'
grundify_lem_example =
    grundify_lem 4 (λ x. x) empty_cache 3 pairs-IsMap (λ x. below-AllBelow x x (omega arith))
      nothing_known (omega arith)
