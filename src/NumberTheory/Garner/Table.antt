-- ===== src/NumberTheory/Garner/Table.antt =====
-- The constructor of `GarnerTable`: each modulus has the inverses of those before it.
use all.Prelude.{ℕ, ◌*◌, ◌%◌, ◌<◌, ◌≡◌, refl, some, List, [], ◌∷◌, ◌++◌}
use all.NumberTheory.Gcd.Divisors.{IsGcd}
use all.NumberTheory.Garner.{inverses, rows}
use all.NumberTheory.Garner.Inverse.{modular_inverse_lem}

abbrev pub AllCoprime : ℕ → List ℕ → Type 0
AllCoprime m [] = Unit
AllCoprime m (p ∷ before) = IsGcd 1 p m × AllCoprime m before

-- No modulus is 0, and none has a factor in common with one before it.
abbrev pub AreCoprime : List ℕ → List ℕ → Type 0
AreCoprime before [] = Unit
AreCoprime before (m ∷ mods) = (0 < m) × AllCoprime m before × AreCoprime (before ++ m ∷ []) mods

-- The inverses modulo `m` of the moduli before it.
abbrev pub IsRow : ℕ → List ℕ → List ℕ → Type 0
IsRow m [] [] = Unit
IsRow m (p ∷ before) (inv ∷ row) = (inv < m) × (p * inv % m ≡ 1 % m) × IsRow m before row
IsRow m _ _ = ⊥

abbrev pub AreRows : List ℕ → List ℕ → List (List ℕ) → Type 0
AreRows before [] invs = Unit
AreRows before (m ∷ mods) (row ∷ invs) = IsRow m before row × AreRows (before ++ m ∷ []) mods invs
AreRows before (m ∷ mods) [] = ⊥

inverses-IsRow :
    (before : List ℕ) (m : ℕ)
    → 0 < m
    → AllCoprime m before
    → (row : List ℕ) × (inverses before m ≡ some row) × IsRow m before row
unfolding inverses
inverses-IsRow [] m h c = ([], refl, tt)
inverses-IsRow (p ∷ before) m h (g, c) =
    let (inv, e, low, one) = modular_inverse_lem p m h g in
    let (row, e', r) = inverses-IsRow before m h c in (inv ∷ row, rw (e, e'), (low, one, r))

pub rows-AreRows :
    (before mods : List ℕ)
    → AreCoprime before mods
    → (invs : List (List ℕ)) × (rows before mods ≡ some invs) × AreRows before mods invs
unfolding rows
rows-AreRows before [] c = ([], refl, tt)
rows-AreRows before (m ∷ mods) (h, c, cs) =
    let (row, e, r) = inverses-IsRow before m h c in
    let (invs, e', rs) = rows-AreRows (before ++ m ∷ []) mods cs in
    (row ∷ invs, rw (e, e'), (r, rs))
