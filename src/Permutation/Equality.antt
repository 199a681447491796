-- ===== src/Permutation/Equality.antt =====
-- `operator==`, and the two forms of one permutation: with and without fixed points at the end.
use all.Prelude.{
  ℕ, zero, suc, ◌+◌, ◌≤◌, ◌<◌, ◌≡◌, ◌≢◌, refl, sym, ap, ◌∙◌, Bool, true, false, not, ◌&&◌, ◌||◌,
  List, [], ◌∷◌, ◌++◌, length, length-append, get_or, arith, inl, inr, ltb, ◌==◌, Bool-cases, min,
  lt→ltb,
}
use native.Mathlib.Decide.{dec_lt, ℕ_discrete}
use all.Permutation.{
  Permutation, apply, all_equal, equal, shrink, shrink_loop, pop_back, back, is_empty,
}
use all.Permutation.Lookup.{get_or-beyond, get_or-append}

all_equal-true :
    (f g : ℕ → ℕ) (n i j : ℕ) → all_equal f g n i ≡ true → i ≤ j → j < i + n → f j ≡ g j
unfolding all_equal
all_equal-true f g zero i j e h k = absurd (omega arith)
all_equal-true f g (suc n) i j e h k = elim (ℕ_discrete i j) [
  | yes same ↦ let first : f i ≡ g i = ground arith in rw (← same) first
  | no other ↦ all_equal-true f g n (i + 1) j (ground arith) (omega arith) (omega arith)
]

all_equal-false :
    (f g : ℕ → ℕ) (n i j : ℕ) → i ≤ j → j < i + n → f j ≢ g j → all_equal f g n i ≡ false
unfolding all_equal
all_equal-false f g zero i j h k d = absurd (omega arith)
all_equal-false f g (suc n) i j h k d = elim (ℕ_discrete i j) [
  | yes same ↦ let first : f i ≢ g i = rw same d in ground arith
  | no other ↦ ground (arith, all_equal-false f g n (i + 1) j)
]

-- What the three loops of `operator==` say together.
equal_parts :
    (p o : Permutation)
    → equal p o ≡ true
    → (all_equal (apply p) (apply o) (min (length p.v) (length o.v)) 0 ≡ true)
      × (min (length p.v) (length o.v) < length p.v
          → all_equal (apply p) (λ i. i) (length p.v) 0 ≡ true)
      × (min (length p.v) (length o.v) < length o.v
          → all_equal (apply o) (λ i. i) (length o.v) 0 ≡ true)
unfolding equal
equal_parts p o h = (ground arith, λ k. ground arith, λ k. ground arith)

-- Vectors that `operator==` accepts stand for the same permutation.
pub equal_sound : (p o : Permutation) → equal p o ≡ true → (i : ℕ) → apply p i ≡ apply o i
equal_sound p o h i =
    let (front, mine, theirs) = equal_parts p o h in
    elim (dec_lt i (length p.v)) [
      | yes in_p ↦ elim (dec_lt i (length o.v)) [
        | yes in_o ↦
            all_equal-true (apply p) (apply o) (min (length p.v) (length o.v)) 0 i front
              (omega arith) (omega arith)
        | no out_o ↦
            all_equal-true (apply p) (λ j. j) (length p.v) 0 i (mine (omega arith)) (omega arith)
              (omega arith)
            ∙ sym (get_or-beyond o.v i i (omega arith))
      ]
      | no out_p ↦ elim (dec_lt i (length o.v)) [
        | yes in_o ↦
            get_or-beyond p.v i i (omega arith)
            ∙ sym (
                all_equal-true (apply o) (λ j. j) (length o.v) 0 i (theirs (omega arith))
                  (omega arith) (omega arith))
        | no out_o ↦ get_or-beyond p.v i i (omega arith) ∙ sym (get_or-beyond o.v i i (omega arith))
      ]
    ]

rejects : (a b c d : Bool) → b ≡ true → c ≡ false → a && (not b || c) && d ≡ false
rejects true b c d h k = rw (h, k)
rejects false b c d h k = refl

equal-false :
    (p o : Permutation)
    → ltb (min (length p.v) (length o.v)) (length p.v) ≡ true
    → all_equal (apply p) (λ i. i) (length p.v) 0 ≡ false
    → equal p o ≡ false
unfolding equal
equal-false p o h k =
    let common = min (length p.v) (length o.v) in
    rejects (all_equal (apply p) (apply o) common 0) (ltb common (length p.v))
      (all_equal (apply p) (λ i. i) (length p.v) 0)
      (not (ltb common (length o.v)) || all_equal (apply o) (λ i. i) (length o.v) 0) h k

-- The permutation with one fixed point more in its vector.
abbrev pub longer : Permutation → Permutation
longer p = record { v = p.v ++ length p.v ∷ [] }

-- A fixed point at the end, which `shrink` would trim, changes no image. Yet, unless the
-- permutation is the identity, `operator==` tells the two forms apart.
pub equal-longer :
    (p : Permutation) (j : ℕ)
    → j < length p.v
    → apply p j ≢ j
    → ((i : ℕ) → apply (longer p) i ≡ apply p i) × (equal (longer p) p ≡ false)
equal-longer p j h d =
    let same = λ (i : ℕ). get_or-append p.v (length p.v) i i sym in
    let size : length (longer p).v ≡ length p.v + 1 =
      length-append p.v (length p.v ∷ []) ∙ omega arith in
    let differs : all_equal (apply (longer p)) (λ i. i) (length (longer p).v) 0 ≡ false =
      all_equal-false (apply (longer p)) (λ i. i) (length (longer p).v) 0 j (omega arith)
        (omega arith) (λ e. d (sym (same j) ∙ e)) in
    let bigger : ltb (min (length (longer p).v) (length p.v)) (length (longer p).v) ≡ true =
      lt→ltb _ _ (omega arith) in
    (same, equal-false (longer p) p bigger differs)

split_back : (x : ℕ) (v : List ℕ) → x ∷ v ≡ pop_back (x ∷ v) ++ back 0 (x ∷ v) ∷ []
split_back x [] = refl
split_back x (y ∷ v) = ap (λ t. x ∷ t) (split_back y v)

-- Nothing at the end of the vector is trimmable.
abbrev pub IsShrunk : List ℕ → Type 0
IsShrunk v = not (is_empty v) && (back 0 v + 1 == length v) ≡ false

shrink_loop_lem :
    (f : ℕ) (v : List ℕ)
    → length v ≤ f
    → IsShrunk (shrink_loop f v)
      × (length (shrink_loop f v) ≤ length v)
      × ((i : ℕ) → get_or (shrink_loop f v) i i ≡ get_or v i i)
unfolding shrink_loop
shrink_loop_lem zero [] h = (refl, omega arith, λ i. refl)
shrink_loop_lem zero (x ∷ v) h = absurd (omega arith)
shrink_loop_lem (suc f) [] h = (refl, omega arith, λ i. refl)
shrink_loop_lem (suc f) (x ∷ v) h = elim (Bool-cases (back 0 (x ∷ v) + 1 == length (x ∷ v))) [
  | inr stop ↦ rw stop (stop, omega arith, λ i. refl)
  | inl more ↦
      let w = pop_back (x ∷ v) in
      let b = back 0 (x ∷ v) in
      let size : length (x ∷ v) ≡ length w + 1 =
        ap length (split_back x v) ∙ length-append w (b ∷ []) ∙ omega arith in
      let last : b + 1 ≡ length (x ∷ v) = ground arith in
      let (shrunk, shorter, same) = shrink_loop_lem f w (omega arith) in
      rw more (
        shrunk,
        omega arith,
        λ i.
            same i
            ∙ sym (get_or-append w b i i (λ e. omega arith))
            ∙ sym (ap (λ t. get_or t i i) (split_back x v)),
      )
]

-- `shrink` changes no image, makes the vector no longer, and leaves no trailing fixed point.
pub shrink_lem :
    (p : Permutation)
    → IsShrunk (shrink p).v
      × (length (shrink p).v ≤ length p.v)
      × ((i : ℕ) → apply (shrink p) i ≡ apply p i)
unfolding shrink
shrink_lem p = shrink_loop_lem (length p.v) p.v (omega arith)
