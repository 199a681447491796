-- ===== src/Games/Cache.antt =====
-- What a cache promises: `find` gives what was put in first, and other positions are left alone.
use all.Prelude.{ℕ, ◌≡◌, ◌≢◌, none, some}
use all.Games.{FlatMap}

pub record IsMap {ℓ} {G M : Type ℓ} (c : FlatMap G M) : Type ℓ where
  -- Positions are compared by `==`.
  pub same : (x y : G) → Dec (x ≡ y)
  pub find_absent :
      (m : M) (x : G) (n : ℕ) → c.find m x ≡ none → c.find (c.emplace m x n) x ≡ some n
  -- `emplace` writes over nothing.
  pub find_present :
      (m : M) (x : G) (n k : ℕ) → c.find m x ≡ some k → c.find (c.emplace m x n) x ≡ some k
  pub find_other : (m : M) (x y : G) (n : ℕ) → x ≢ y → c.find (c.emplace m x n) y ≡ c.find m y
