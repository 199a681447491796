-- ===== src/Tournament.antt =====
-- ivl/structs/turnament.hpp: a vector in which the entry i is the sum of the entries 2 i and
-- 2 i + 1, over a row of leaves. `none` is an access outside the vector, or no fuel left.
pub mod Sums
pub mod Laws
pub mod Build
pub mod Root
pub mod Search
pub mod Blocks
pub mod Descent
pub mod Alignment
pub mod Round
pub mod Finding
mod Examples
use all.Prelude.{
  ℕ, zero, suc, ◌+◌, ◌-◌, ◌*◌, ◌/◌, Option, none, some, ◌>>=◌, List, [], ◌∷◌, length, get_elem?,
  set, replicate, ltb, leb, ◌==◌, if◌then◌else◌,
}

-- `Turnament<T, Plus>`: `length` and `data`.
pub record Turnament {ℓ} (T : Type ℓ) : Type ℓ where
  pub leaves : ℕ
  pub data' : List T

-- `std::bit_ceil(n)`: the least power of two from `p` on that is not below n.
unfoldable pub bit_ceil_loop : ℕ → ℕ → ℕ → ℕ
bit_ceil_loop zero p n = p
bit_ceil_loop (suc f) p n = let rest = bit_ceil_loop f (2 * p) n in if leb n p then p else rest

unfoldable pub bit_ceil : ℕ → ℕ
unfolding bit_ceil_loop
bit_ceil n = bit_ceil_loop n 1 n

module _ {ℓ} {T : Type ℓ} where
  -- `data[idx] = val`
  unfoldable pub store : List T → ℕ → T → Option (List T)
  store row idx val = if ltb idx (length row) then some (set row idx val) else none

  -- The loop over the range: `data[length + idx++] = el`, from the place `idx` on.
  unfoldable pub fill : List T → ℕ → List T → Option (List T)
  unfolding store
  fill [] idx row = some row
  fill (el ∷ rg) idx row = store row idx el >>= fill rg (idx + 1)

  unfoldable pub leaf : Turnament T → ℕ → Option T
  leaf t pos = get_elem? t.data' (pos + t.leaves)

module _ {ℓ} {T : Type ℓ} (plus : T → T → T) where
  -- `data[idx] = plus(data[idx * 2], data[idx * 2 + 1])`
  unfoldable pub combine : ℕ → List T → Option (List T)
  unfolding store
  combine idx row = do
    x ← get_elem? row (idx * 2)
    y ← get_elem? row (idx * 2 + 1)
    store row idx (plus x y)

  -- `for (idx = length - 1; idx; --idx)`
  unfoldable pub build_loop : ℕ → List T → Option (List T)
  unfolding combine
  build_loop zero row = some row
  build_loop (suc idx) row = combine (suc idx) row >>= build_loop idx

  -- The constructor; `value` is what `std::vector` fills its entries with.
  unfoldable pub make : T → List T → Option (Turnament T)
  unfolding bit_ceil fill build_loop
  make value rg =
      let n = bit_ceil (length rg) in
      do
        filled ← fill rg n (replicate (n * 2) value)
        row ← build_loop (n - 1) filled
        some (record { leaves = n; data' = row })

  -- `for (idx = (pos + length) / 2; idx; idx /= 2)`
  unfoldable pub set_loop : ℕ → ℕ → List T → Option (List T)
  unfolding combine
  set_loop zero idx row = none
  set_loop (suc f) zero row = some row
  set_loop (suc f) (suc idx) row = combine (suc idx) row >>= set_loop f (suc idx / 2)

  unfoldable pub set_leaf : Turnament T → ℕ → T → Option (Turnament T)
  unfolding store set_loop
  set_leaf t pos val = do
    row ← store t.data' (pos + t.leaves) val
    row' ← set_loop (suc (pos + t.leaves)) ((pos + t.leaves) / 2) row
    some (record t { data' = row' })
