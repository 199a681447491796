-- ===== src/Tournament/Sums.antt =====
-- The sums above the leaves, and what one round does to them.
use all.Prelude.{ℕ, ◌+◌, ◌*◌, ◌<◌, ◌≡◌, ◌≢◌, some, List, length, get_or, set, lt→ltb, arith}
use all.Permutation.Lookup.{get_elem?-get_or, get_or-set_self, get_or-set_ne}
use all.Tournament.{store, combine}

module _ {ℓ} {T : Type ℓ} (plus : T → T → T) (d : T) where
  -- The entry at i is the sum of its two children.
  abbrev pub IsSummed : List T → ℕ → Type ℓ
  IsSummed row i = get_or row i d ≡ plus (get_or row (i * 2) d) (get_or row (i * 2 + 1) d)

  abbrev pub summed : ℕ → List T → T
  summed i row = plus (get_or row (i * 2) d) (get_or row (i * 2 + 1) d)

  pub store-eq :
      (row : List T) (i : ℕ) (val : T) → i < length row → store row i val ≡ some (set row i val)
  unfolding store
  store-eq row i val h = rw (lt→ltb i (length row) h)

  pub combine-eq :
      (i : ℕ) (row : List T)
      → i * 2 + 1 < length row
      → combine plus i row ≡ some (set row i (summed i row))
  unfolding combine
  combine-eq i row h =
      rw (get_elem?-get_or row (i * 2) d (omega arith), get_elem?-get_or row (i * 2 + 1) d h)
        (store-eq row i (summed i row) (omega arith))

  -- A round makes the entry a sum, and changes no other but that of the parent.
  pub set-IsSummed :
      (row : List T) (i : ℕ) → 0 < i → i < length row → IsSummed (set row i (summed i row)) i
  set-IsSummed row i h l = rw (
    get_or-set_self row i (summed i row) d l,
    get_or-set_ne row i (i * 2) (summed i row) d (omega arith),
    get_or-set_ne row i (i * 2 + 1) (summed i row) d (omega arith),
  )

  pub set-IsSummed_other :
      (row : List T) (i j : ℕ) (x : T)
      → i ≢ j
      → i ≢ j * 2
      → i ≢ j * 2 + 1
      → IsSummed row j
      → IsSummed (set row i x) j
  set-IsSummed_other row i j x a b c h =
      rw
        (
          get_or-set_ne row i j x d a,
          get_or-set_ne row i (j * 2) x d b,
          get_or-set_ne row i (j * 2 + 1) x d c,
        )
        h

  -- Everything but the entries from `n` on, which are leaves, is a sum.
  abbrev pub AllSummed : ℕ → List T → Type ℓ
  AllSummed n row = (i : ℕ) → 0 < i → i < n → IsSummed row i
