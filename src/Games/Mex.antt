-- ===== src/Games/Mex.antt =====
-- The two loops over the flags find the least number that is not among the values.
use all.Prelude.{
  ℕ, zero, suc, ◌+◌, ◌≤◌, ◌<◌, ◌≡◌, ◌≢◌, ◌⊎◌, inl, inr, refl, sym, ◌∙◌, ap, Bool, true, false,
  Option, some, List, [], ◌∷◌, ltb, lt→ltb, length, set, replicate, get_elem?, length-set,
  get_elem?-set_self, length-replicate, Bool-cases, arith, if◌then◌else◌,
}
use all.Games.{mark, first_unset, mex_of}

abbrev pub In : ℕ → List ℕ → Type 0
In n [] = ⊥
In n (x ∷ xs) = (n ≡ x) ⊎ In n xs

-- The minimum excluded number.
pub record IsMex (values : List ℕ) (n : ℕ) : Type 0 where
  pub excluded : ¬ In n values
  pub least : (m : ℕ) → m < n → In m values

-- The flags that are set.
abbrev count : List Bool → ℕ
count [] = 0
count (true ∷ mex) = suc (count mex)
count (false ∷ mex) = count mex

count-set : (mex : List Bool) (i : ℕ) → count (set mex i true) ≤ suc (count mex)
count-set [] i = omega arith
count-set (true ∷ mex) zero = omega arith
count-set (false ∷ mex) zero = omega arith
count-set (true ∷ mex) (suc i) = omega (arith, count-set mex i)
count-set (false ∷ mex) (suc i) = omega (arith, count-set mex i)

count-replicate : (n : ℕ) → count (replicate n false) ≡ 0
count-replicate zero = refl
count-replicate (suc n) = count-replicate n

-- One round of the first loop.
abbrev flag : ℕ → List Bool → List Bool
flag mg mex = if ltb mg (length mex) then set mex mg true else mex

length-flag : (mg : ℕ) (mex : List Bool) → length (flag mg mex) ≡ length mex
length-flag mg mex = elim (Bool-cases (ltb mg (length mex))) [
  | inl e ↦ rw e (length-set mex mg true)
  | inr e ↦ rw e
]

count-flag : (mg : ℕ) (mex : List Bool) → count (flag mg mex) ≤ suc (count mex)
count-flag mg mex = elim (Bool-cases (ltb mg (length mex))) [
  | inl e ↦ rw e (count-set mex mg)
  | inr e ↦ rw e (omega arith)
]

length-mark : (mgs : List ℕ) (mex : List Bool) → length (mark mgs mex) ≡ length mex
unfolding mark
length-mark [] mex = refl
length-mark (mg ∷ mgs) mex = length-mark mgs (flag mg mex) ∙ length-flag mg mex

count-mark : (mgs : List ℕ) (mex : List Bool) → count (mark mgs mex) ≤ length mgs + count mex
unfolding mark
count-mark [] mex = omega arith
count-mark (mg ∷ mgs) mex = omega (arith, count-mark mgs (flag mg mex), count-flag mg mex)

-- The flags that are set afterwards are those that were, and those of the values.
set_keeps :
    (mex : List Bool) (i j : ℕ)
    → get_elem? mex j ≡ some true
    → get_elem? (set mex i true) j ≡ some true
set_keeps [] i j h = h
set_keeps (b ∷ mex) zero zero h = refl
set_keeps (b ∷ mex) zero (suc j) h = h
set_keeps (b ∷ mex) (suc i) zero h = h
set_keeps (b ∷ mex) (suc i) (suc j) h = set_keeps mex i j h

set_only :
    (mex : List Bool) (i j : ℕ)
    → get_elem? (set mex i true) j ≡ some true
    → (j ≡ i) ⊎ (get_elem? mex j ≡ some true)
set_only [] i j h = inr h
set_only (b ∷ mex) zero zero h = inl refl
set_only (b ∷ mex) zero (suc j) h = inr h
set_only (b ∷ mex) (suc i) zero h = inr h
set_only (b ∷ mex) (suc i) (suc j) h = elim (set_only mex i j h) [
  | inl e ↦ inl (ap suc e)
  | inr e ↦ inr e
]

flag_self : (mg : ℕ) (mex : List Bool) → mg < length mex → get_elem? (flag mg mex) mg ≡ some true
flag_self mg mex h = rw (lt→ltb mg (length mex) h) (get_elem?-set_self mex mg true h)

flag_keeps :
    (mg : ℕ) (mex : List Bool) (j : ℕ)
    → get_elem? mex j ≡ some true
    → get_elem? (flag mg mex) j ≡ some true
flag_keeps mg mex j h = elim (Bool-cases (ltb mg (length mex))) [
  | inl e ↦ rw e (set_keeps mex mg j h)
  | inr e ↦ rw e h
]

flag_only :
    (mg : ℕ) (mex : List Bool) (j : ℕ)
    → get_elem? (flag mg mex) j ≡ some true
    → (j ≡ mg) ⊎ (get_elem? mex j ≡ some true)
flag_only mg mex j h = elim (Bool-cases (ltb mg (length mex))) [
  | inl e ↦ set_only mex mg j (rw e at h)
  | inr e ↦ inr (rw e at h)
]

mark_keeps :
    (mgs : List ℕ) (mex : List Bool) (j : ℕ)
    → get_elem? mex j ≡ some true
    → get_elem? (mark mgs mex) j ≡ some true
unfolding mark
mark_keeps [] mex j h = h
mark_keeps (mg ∷ mgs) mex j h = mark_keeps mgs (flag mg mex) j (flag_keeps mg mex j h)

mark_sets :
    (mgs : List ℕ) (mex : List Bool) (j : ℕ)
    → In j mgs
    → j < length mex
    → get_elem? (mark mgs mex) j ≡ some true
unfolding mark
mark_sets [] mex j i h = elim i [ ]
mark_sets (mg ∷ mgs) mex j (inl e) h = mark_keeps mgs (flag mg mex) j (rw (← e) (flag_self j mex h))
mark_sets (mg ∷ mgs) mex j (inr i) h =
    mark_sets mgs (flag mg mex) j i (omega (arith, length-flag mg mex))

mark_only :
    (mgs : List ℕ) (mex : List Bool) (j : ℕ)
    → get_elem? (mark mgs mex) j ≡ some true
    → In j mgs ⊎ (get_elem? mex j ≡ some true)
unfolding mark
mark_only [] mex j h = inr h
mark_only (mg ∷ mgs) mex j h = elim (mark_only mgs (flag mg mex) j h) [
  | inl i ↦ inl (inr i)
  | inr k ↦ elim (flag_only mg mex j k) [ inl e ↦ inl (inl e) | inr e ↦ inr e ]
]

replicate-unset : (n j : ℕ) → ¬ (get_elem? (replicate n false) j ≡ some true)
replicate-unset zero j h = cc
replicate-unset (suc n) zero h = cc
replicate-unset (suc n) (suc j) h = replicate-unset n j h

false-ne-true : ◌≢◌ {A = Option Bool} (some false) (some true)
false-ne-true h = cc

-- The last loop ends at a flag that is not set, where there is one.
record Ends (mex : List Bool) (idx : ℕ) : Type 0 where
  place : ℕ
  result : first_unset mex idx ≡ some (idx + place)
  within : place < length mex
  unset : get_elem? mex place ≡ some false
  before : (m : ℕ) → m < place → get_elem? mex m ≡ some true

set_before :
    (mex : List Bool) (place : ℕ)
    → ((m : ℕ) → m < place → get_elem? mex m ≡ some true)
    → (m : ℕ) → m < suc place
    → get_elem? (true ∷ mex) m ≡ some true
set_before mex place f zero h = refl
set_before mex place f (suc m) h = f m (omega arith)

first_unset-Ends : (mex : List Bool) (idx : ℕ) → count mex < length mex → Ends mex idx
unfolding first_unset
first_unset-Ends [] idx h = elim h [ ]
first_unset-Ends (false ∷ mex) idx h = record {
  place = 0;
  result = ap some (omega arith);
  within = omega arith;
  unset = refl;
  before = λ m k. absurd (omega arith);
}
first_unset-Ends (true ∷ mex) idx h =
    let f = first_unset-Ends mex (suc idx) (omega arith) in
    record {
      place = suc f.place;
      result = f.result ∙ ap some (omega arith);
      within = omega (arith, f.within);
      unset = f.unset;
      before = set_before mex f.place f.before;
    }

-- There is a flag more than there are values, so that one stays unset.
pub mex_of-IsMex : (mgs : List ℕ) → (n : ℕ) × (mex_of mgs ≡ some n) × IsMex mgs n
unfolding mex_of
mex_of-IsMex mgs =
    let mex = replicate (length mgs + 1) false in
    let size : length mex ≡ length mgs + 1 = length-replicate (length mgs + 1) false in
    let f = first_unset-Ends (mark mgs mex) 0 (
      omega
        (arith, count-mark mgs mex, count-replicate (length mgs + 1), length-mark mgs mex, size)) in
    (
      f.place,
      f.result ∙ ap some (omega arith),
      record {
        excluded = λ i. false-ne-true (
            sym f.unset
            ∙ mark_sets mgs mex f.place i (omega (arith, f.within, length-mark mgs mex)));
        least = λ m h. elim (mark_only mgs mex m (f.before m h)) [
          | inl i ↦ i
          | inr e ↦ absurd (replicate-unset (length mgs + 1) m e)
        ];
      },
    )
