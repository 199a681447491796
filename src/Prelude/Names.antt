-- ===== src/Prelude/Names.antt =====
-- Texts as keys: their equality, and maps from texts kept as association lists. The order of such a
-- list stands for nothing: a map is only asked for one key, or walked into another map.
use all.Prelude.{
  ℕ, subst, ◌≡◌, ◌≢◌, refl, sym, Bool, true, false, ◌&&◌, ◌||◌, Option, none, some, List, [], ◌∷◌,
  ◌==◌, if◌then◌else◌, arith, Bool-cases, inl, inr,
}

abbrev pub same_name : List ℕ → List ℕ → Bool
same_name [] [] = true
same_name (a ∷ as') (b ∷ bs) = a == b && same_name as' bs
same_name _ _ = false

pub same_name_refl : (name : List ℕ) → same_name name name ≡ true
same_name_refl [] = refl
same_name_refl (c ∷ name) = ground (arith, same_name_refl name)

cons-eq : (a b : ℕ) (xs ys : List ℕ) → a ≡ b → xs ≡ ys → a ∷ xs ≡ b ∷ ys
cons-eq a b xs ys p q = cc

pub same_name-eq : (a b : List ℕ) → same_name a b ≡ true → a ≡ b
same_name-eq [] [] h = refl
same_name-eq [] (b ∷ bs) h = cc
same_name-eq (a ∷ as') [] h = cc
same_name-eq (a ∷ as') (b ∷ bs) h = elim (Bool-cases (a == b)) [
  | inl e ↦ cons-eq a b as' bs (ground arith) (same_name-eq as' bs (rw e at h))
  | inr e ↦ let f : false ≡ true = rw e at h in cc
]

pub same_name-ne : (a b : List ℕ) → a ≢ b → same_name a b ≡ false
same_name-ne a b d = elim (Bool-cases (same_name a b)) [
  | inl e ↦ absurd (d (same_name-eq a b e))
  | inr e ↦ e
]

-- `contains` of a set of texts.
abbrev pub elem : List ℕ → List (List ℕ) → Bool
elem name [] = false
elem name (x ∷ xs) = same_name x name || elem name xs

abbrev pub elem_code : ℕ → List ℕ → Bool
elem_code c [] = false
elem_code c (x ∷ xs) = c == x || elem_code c xs

module _ {ℓ} {V : Type ℓ} where
  -- `find`
  unfoldable pub lookup : List ℕ → List (List ℕ × V) → Option V
  lookup name [] = none
  lookup name ((x, v) ∷ m) = if same_name x name then some v else lookup name m

  -- `m[name] = v`
  unfoldable pub insert : List ℕ → V → List (List ℕ × V) → List (List ℕ × V)
  insert name v [] = (name, v) ∷ []
  insert name v ((x, w) ∷ m) = if same_name x name then (x, v) ∷ m else (x, w) ∷ insert name v m

  abbrev pub contains : List ℕ → List (List ℕ × V) → Bool
  unfolding lookup
  contains name m = elim (lookup name m) [ some v ↦ true | none ↦ false ]

abbrev pub All {ℓ κ} : {A : Type ℓ} → (A → Type κ) → List A → Type κ
All P [] = Unit
All P (x ∷ xs) = P x × All P xs

abbrev pub Distinct : List (List ℕ) → Type 0
Distinct [] = Unit
Distinct (x ∷ xs) = (elem x xs ≡ false) × Distinct xs

module _ {ℓ κ} {V : Type ℓ} (P : List ℕ × V → Type κ) where
  pub All-insert :
      (name : List ℕ) (v : V) (m : List (List ℕ × V))
      → P (name, v)
      → All P m
      → All P (insert name v m)
  unfolding insert
  All-insert name v [] p h = (p, tt)
  All-insert name v ((x, w) ∷ m) p (q, h) = elim (Bool-cases (same_name x name)) [
    | inl e ↦
        let same : name ≡ x = sym (same_name-eq x name e) in
        rw e (subst (λ (n : List ℕ). P (n, v)) same p, h)
    | inr e ↦ rw e (q, All-insert name v m p h)
  ]
