-- ===== src/Permutation.antt =====
-- ivl/permutation/default.hpp: permutations of the numbers from 0 up, as the vector of their first
-- images; every number from the vector's size up stands for itself. `size_t` is unbounded here:
-- the entries are positions in a vector. `none` is an access outside a vector.
use all.Prelude.{
  ℕ, zero, suc, ◌+◌, ◌-◌, ◌/◌, ◌%◌, Bool, true, false, not, ◌&&◌, ◌||◌, Option, none, some, ◌>>=◌,
  ◌>>◌, assert, List, [], ◌∷◌, ◌++◌, length, get_elem?, get_or, set, replicate, ltb, leb, ◌==◌,
  if◌then◌else◌, min,
}
pub mod Lookup
pub mod Compose
pub mod Inverse
pub mod Power
pub mod Equality
pub mod Order
mod Examples
mod Tests
use Prim.Native.Nat.{compare, Ordering}

-- `struct permutation`, with its field `v`.
pub record Permutation : Type 0 where
  pub v : List ℕ

-- The first position, from `i` on and in `n` positions, at which the two functions differ, as the
-- order there.
unfoldable pub first_difference : (ℕ → ℕ) → (ℕ → ℕ) → ℕ → ℕ → Ordering
first_difference f g zero i = Ordering.eq
first_difference f g (suc n) i =
    let rest = first_difference f g n (i + 1) in
    elim (compare (f i) (g i)) [ Ordering.eq ↦ rest | c ↦ c ]

-- `operator()(i)` and `operator[](i)`.
abbrev pub apply : Permutation → ℕ → ℕ
apply p i = get_or p.v i i

abbrev pub is_eq : Ordering → Bool
is_eq Ordering.eq = true
is_eq c = false

-- `operator<=>`: the common part, then the longer vector as a whole against the identity.
unfoldable pub three_way : Permutation → Permutation → Ordering
unfolding first_difference
three_way p o =
    let common = min (length p.v) (length o.v) in
    let front = first_difference (apply p) (apply o) common 0 in
    let mine = first_difference (apply p) (λ i. i) (length p.v) 0 in
    let theirs = first_difference (λ i. i) (apply o) (length o.v) 0 in
    if not (is_eq front)
    then front
    else if ltb common (length p.v) && not (is_eq mine)
    then mine
    else if ltb common (length o.v)
    then theirs
    else Ordering.eq

unfoldable pub all_equal : (ℕ → ℕ) → (ℕ → ℕ) → ℕ → ℕ → Bool
all_equal f g zero i = true
all_equal f g (suc n) i = f i == g i && all_equal f g n (i + 1)

-- `operator==`, with the same three loops.
unfoldable pub equal : Permutation → Permutation → Bool
unfolding all_equal
equal p o =
    let common = min (length p.v) (length o.v) in
    all_equal (apply p) (apply o) common 0
    && (not (ltb common (length p.v)) || all_equal (apply p) (λ i. i) (length p.v) 0)
    && (not (ltb common (length o.v)) || all_equal (apply o) (λ i. i) (length o.v) 0)

abbrev pub back : ℕ → List ℕ → ℕ
back d [] = d
back d (x ∷ xs) = back x xs

abbrev pub pop_back : List ℕ → List ℕ
pop_back [] = []
pop_back (x ∷ []) = []
pop_back (x ∷ y ∷ xs) = x ∷ pop_back (y ∷ xs)

abbrev pub is_empty : List ℕ → Bool
is_empty [] = true
is_empty (x ∷ xs) = false

-- `while (!v.empty() && v.back() + 1 == v.size()) v.pop_back();`
unfoldable pub shrink_loop : ℕ → List ℕ → List ℕ
shrink_loop zero v = v
shrink_loop (suc f) v =
    let rest = shrink_loop f (pop_back v) in
    if not (is_empty v) && back 0 v + 1 == length v then rest else v

unfoldable pub shrink : Permutation → Permutation
unfolding shrink_loop
shrink p = record { v = shrink_loop (length p.v) p.v }

-- `k` rounds of `v.push_back(v.size())`.
unfoldable pub push_sizes : ℕ → List ℕ → List ℕ
push_sizes zero v = v
push_sizes (suc k) v = push_sizes k (v ++ length v ∷ [])

-- `while (v.size() < n) v.push_back(v.size());`
unfoldable pub extend : ℕ → Permutation → Permutation
unfolding push_sizes
extend n p = record { v = push_sizes (n - length p.v) p.v }

-- `p[i] = x` through the reference that `operator[]` returns.
unfoldable pub write : ℕ → ℕ → Permutation → Permutation
unfolding extend
write i x p = record { v = set (extend (i + 1) p).v i x }

-- `q.v[j] = x`, inside the vector.
abbrev pub store : List ℕ → ℕ → ℕ → Option (List ℕ)
store q j x = if ltb j (length q) then some (set q j x) else none

-- `for (size_t i = 0; i < v.size(); ++i) q.v[v[i]] = i;`
unfoldable pub inverse_loop : List ℕ → ℕ → List ℕ → Option (List ℕ)
inverse_loop [] i q = some q
inverse_loop (j ∷ v) i q = store q j i >>= inverse_loop v (i + 1)

unfoldable pub inverse : Permutation → Option Permutation
unfolding inverse_loop
inverse p = inverse_loop p.v 0 (replicate (length p.v) 0) >>= λ q. some (record { v = q })

-- `n` consecutive numbers from `i` up.
unfoldable pub count_up : ℕ → ℕ → List ℕ
count_up zero i = []
count_up (suc n) i = i ∷ count_up n (i + 1)

-- `cycle(n)`: i goes to i + 1, and the last to 0.
unfoldable pub cycle : ℕ → Permutation
unfolding count_up
cycle n = if leb n 1 then record { v = [] } else record { v = set (count_up n 1) (n - 1) 0 }

-- `cycle(lo, hi)`.
unfoldable pub cycle_between : ℕ → ℕ → Option Permutation
unfolding count_up
cycle_between lo hi =
    if hi == lo || hi == lo + 1
    then some (record { v = [] })
    else (assert (ltb lo hi)
        >> some (record { v = count_up lo 0 ++ (count_up (hi - 1 - lo) (lo + 1) ++ lo ∷ []) }))

-- `for (size_t i = 0; i < o.v.size(); ++i) v[i] = o.v[v[i]];` in `k` rounds.
unfoldable pub compose_loop : List ℕ → ℕ → ℕ → List ℕ → Option (List ℕ)
compose_loop o zero i v = some v
compose_loop o (suc k) i v = do
  j ← get_elem? v i
  x ← get_elem? o j
  compose_loop o k (i + 1) (set v i x)

-- `operator*=`, for an argument that is another object, and `operator*`.
unfoldable pub compose : Permutation → Permutation → Option Permutation
unfolding compose_loop extend
compose p o =
    compose_loop o.v (length o.v) 0 (extend (length o.v) p).v >>= λ v'. some (record { v = v' })

-- The loop of `power`. `tmp` is empty at the start of each round.
unfoldable pub power_loop : ℕ → Permutation → ℕ → Permutation → Option Permutation
unfolding compose
power_loop zero p n ret = none
power_loop (suc f) p n ret =
    let rounds = λ (ret' : Permutation). do
      tmp ← compose (record { v = [] }) ret'
      tmp' ← compose tmp ret'
      power_loop f p (n / 2) tmp'
    in let stop = λ (ret' : Permutation). some ret' in
      let multiplied = if n % 2 == 1 then compose ret p else some ret in
      multiplied >>= λ ret'. elim (n / 2 == 0) [ true ↦ stop ret' | false ↦ rounds ret' ]

-- `power(n)`: the loop halves n, and n + 1 rounds are enough.
unfoldable pub power : Permutation → ℕ → Option Permutation
unfolding power_loop
power p n = power_loop (suc n) p n (record { v = [] })

-- The inner loop of `cycle_decomp`: `for (size_t j = i; !seen[j]; j = v[j])`.
unfoldable pub walk : ℕ → List ℕ → ℕ → List Bool → Option (List ℕ × List Bool)
walk zero v j seen = none
walk (suc f) v j seen =
    let next = do
      j' ← get_elem? v j
      (more, seen') ← walk f v j' (set seen j true)
      some (j ∷ more, seen')
    in get_elem? seen j >>= λ done. elim done [ true ↦ some ([], seen) | false ↦ next ]

-- The outer loop, over the positions from `i` on.
unfoldable pub decomp_loop : List ℕ → ℕ → ℕ → List Bool → Option (List (List ℕ))
unfolding walk
decomp_loop v zero i seen = some []
decomp_loop v (suc k) i seen =
    let skip = decomp_loop v k (i + 1) seen in
    let walked = do
      (curr, seen') ← walk (suc (length v)) v i seen
      rest ← decomp_loop v k (i + 1) seen'
      some (curr ∷ rest)
    in do
      done ← get_elem? seen i
      image ← get_elem? v i
      elim (done || image == i) [ true ↦ skip | false ↦ walked ]

unfoldable pub cycle_decomp : Permutation → Option (List (List ℕ))
unfolding decomp_loop
cycle_decomp p = decomp_loop p.v (length p.v) 0 (replicate (length p.v) false)
