-- ===== src/Tournament/Descent.antt =====
-- The inner loop of `find`: from a sum that the predicate holds of, down to a leaf.
use all.Prelude.{
  ℕ, zero, suc, ◌+◌, ◌*◌, ◌^◌, ◌≤◌, ◌<◌, ◌≡◌, refl, sym, ap, ◌∙◌, subst, ◌⊎◌, inl, inr, Bool, true,
  false, ◌||◌, some, length, get_or, ltb, lt→ltb, if◌then◌else◌, Bool-cases, arith,
}
use native.Mathlib.Nat.{pow-suc}
use native.Mathlib.Decide.{ℕ_discrete}
use all.Permutation.Lookup.{get_elem?-get_or}
use all.Tournament.{Turnament}
use all.Tournament.Laws.{IsValid}
use all.Tournament.Blocks.{
  inner, HasNone, HasNone-join, IsOutermost, IsOutermost-alone, IsFirst, child-sum, block-HasNone,
}
use all.Tournament.Search.{Side, left, right, first_child, other_child, descend}

le→not_ltb : (a b : ℕ) → b ≤ a → ltb a b ≡ false
le→not_ltb a b h = ground arith

first_child-bounds :
    (side : Side) (idx : ℕ)
    → (idx * 2 ≤ first_child side idx) × (first_child side idx ≤ idx * 2 + 1)
first_child-bounds left idx = (omega arith, omega arith)
first_child-bounds right idx = (omega arith, omega arith)

other_child-bounds :
    (side : Side) (idx : ℕ)
    → (idx * 2 ≤ other_child side idx) × (other_child side idx ≤ idx * 2 + 1)
other_child-bounds left idx = (omega arith, omega arith)
other_child-bounds right idx = (omega arith, omega arith)

or-first : (a b : Bool) → (a || b) ≡ true → a ≡ false → b ≡ true
or-first true b h e = cc
or-first false b h e = h

or-second : (a b : Bool) → (a || b) ≡ true → b ≡ false → a ≡ true
or-second true b h e = refl
or-second false b h e = sym e ∙ h

module _ {ℓ} {T : Type ℓ} (plus : T → T → T) (d : T) (side : Side) (pred : T → Bool) where
  -- One of the two children of a sum that the predicate holds of is like it.
  child-holds :
      (t : Turnament T) (i : ℕ)
      → ((a b : T) → pred (plus a b) ≡ (pred a || pred b))
      → IsValid plus d t
      → 0 < i
      → i < t.leaves
      → pred (get_or t.data' i d) ≡ true
      → (pred (get_or t.data' (i * 2) d) || pred (get_or t.data' (i * 2 + 1) d)) ≡ true
  child-holds t i add v h k e =
      sym (add (get_or t.data' (i * 2) d) (get_or t.data' (i * 2 + 1) d))
      ∙ ap pred (sym (v.sums i h k))
      ∙ e

  other_holds :
      (s : Side) (t : Turnament T) (i : ℕ)
      → (pred (get_or t.data' (i * 2) d) || pred (get_or t.data' (i * 2 + 1) d)) ≡ true
      → pred (get_or t.data' (first_child s i) d) ≡ false
      → pred (get_or t.data' (other_child s i) d) ≡ true
  other_holds left t i h e = or-first (pred (get_or t.data' (i * 2) d)) _ h e
  other_holds right t i h e = or-second (pred (get_or t.data' (i * 2) d)) _ h e

  first_child-inside :
      (s : Side) (t : Turnament T) (i : ℕ)
      → i < t.leaves
      → length t.data' ≡ t.leaves * 2
      → first_child s i < length t.data'
  first_child-inside s t i h e = let b = first_child-bounds s i in omega arith

  -- The entry that the inner loop goes to.
  abbrev next : Turnament T → ℕ → ℕ
  next t i =
      if pred (get_or t.data' (first_child side i) d)
      then first_child side i
      else other_child side i

  -- What is found in the block of the next entry is outermost in that of the entry itself: the
  -- sibling comes after it from the side, or has nothing.
  next-IsOutermost :
      (s : Side) (t : Turnament T) (i w r : ℕ)
      → (x : ℕ)
      → ((x ≡ first_child s i)
          ⊎ ((x ≡ other_child s i)
              × HasNone d pred t (first_child s i * w) (first_child s i * w + w)))
      → IsOutermost d pred s t (x * w) (x * w + w) r
      → IsOutermost d pred s t (i * (w * 2)) (i * (w * 2) + w * 2) r
  next-IsOutermost left t i w r x (inl e) o = λ q l m. o q (rw e (omega arith)) m
  next-IsOutermost left t i w r x (inr (e, none)) o =
      HasNone-join d pred t (i * (w * 2)) (i * 2 * w + w) r (λ q l m. none q (omega arith) m)
        (λ q l m. o q (rw e (omega arith)) m)
  next-IsOutermost right t i w r x (inl e) o = λ q l m. o q l (rw e (omega arith))
  next-IsOutermost right t i w r x (inr (e, none)) o =
      HasNone-join d pred t (suc r) ((i * 2 + 1) * w) (i * (w * 2) + w * 2)
        (λ q l m. o q l (rw e (omega arith))) (λ q l m. none q l (omega arith))

  first_child-block :
      (s : Side) (i w n : ℕ) → i * (w * 2) + w * 2 ≤ n * 2 → first_child s i * w + w ≤ n * 2
  first_child-block left i w n h = omega arith
  first_child-block right i w n h = omega arith

  next-bounds : (t : Turnament T) (i : ℕ) → (i * 2 ≤ next t i) × (next t i ≤ i * 2 + 1)
  next-bounds t i = elim (Bool-cases (pred (get_or t.data' (first_child side i) d))) [
    | inl e ↦ rw e (first_child-bounds side i)
    | inr e ↦ rw e (other_child-bounds side i)
  ]

  child-block :
      (n i w x : ℕ)
      → n ≤ i * (w * 2)
      → i * (w * 2) + w * 2 ≤ n * 2
      → (x ≡ i * 2) ⊎ (x ≡ i * 2 + 1)
      → (n ≤ x * w)
        × (x * w + w ≤ n * 2)
        × (i * (w * 2) ≤ x * w)
        × (x * w + w ≤ i * (w * 2) + w * 2)
  child-block n i w x h k (inl e) = rw e (omega arith, omega arith, omega arith, omega arith)
  child-block n i w x h k (inr e) = rw e (omega arith, omega arith, omega arith, omega arith)

  next-inside :
      (t : Turnament T) (i w : ℕ)
      → t.leaves ≤ i * (w * 2)
      → i * (w * 2) + w * 2 ≤ t.leaves * 2
      → (t.leaves ≤ next t i * w)
        × (next t i * w + w ≤ t.leaves * 2)
        × (i * (w * 2) ≤ next t i * w)
        × (next t i * w + w ≤ i * (w * 2) + w * 2)
  next-inside t i w h k =
      let b = next-bounds t i in
      child-block t.leaves i w (next t i) h k
        (elim (ℕ_discrete (next t i) (i * 2)) [ yes e ↦ inl e | no other ↦ inr (omega arith) ])

  -- The next entry: inside, with a sum that the predicate holds of, and nothing skipped.
  record IsNext (t : Turnament T) (i w x : ℕ) : Type 0 where
    which :
        (x ≡ first_child side i)
        ⊎ ((x ≡ other_child side i)
            × HasNone d pred t (first_child side i * w) (first_child side i * w + w))
    holds : pred (get_or t.data' x d) ≡ true

  next-IsNext :
      (t : Turnament T) (j i : ℕ)
      → ((a b : T) → pred (plus a b) ≡ (pred a || pred b))
      → IsValid plus d t
      → 0 < i
      → i < t.leaves
      → first_child side i * 2 ^ j + 2 ^ j ≤ t.leaves * 2
      → pred (get_or t.data' i d) ≡ true
      → IsNext t i (2 ^ j) (next t i)
  next-IsNext t j i add v h k l e =
      let b = first_child-bounds side i in
      elim (Bool-cases (pred (get_or t.data' (first_child side i) d))) [
        | inl yes_first ↦ rw (yes_first) (record { which = inl refl; holds = yes_first })
        | inr no_first ↦ rw (no_first) (record {
          which = inr (
            refl,
            block-HasNone plus d pred t j (first_child side i) add v (omega arith) l no_first,
          );
          holds = other_holds side t i (child-sum plus d pred t i add v h k ∙ e) no_first;
        })
      ]

  IsFirst-up :
      (t : Turnament T) (i w x r : ℕ)
      → IsNext t i w x
      → IsFirst d pred side t (x * w) (x * w + w) r
      → (i * (w * 2) ≤ x * w)
      → (x * w + w ≤ i * (w * 2) + w * 2)
      → IsFirst d pred side t (i * (w * 2)) (i * (w * 2) + w * 2) r
  IsFirst-up t i w x r n f h k =
      let low = f.low in
      let high = f.high in
      record {
        low = omega arith;
        high = omega arith;
        holds = f.holds;
        outermost = next-IsOutermost side t i w r x n.which f.outermost;
      }

  -- The inner loop of `find`, started at a sum of 2 ^ j leaves that the predicate holds of, ends
  -- at the first of these leaves from the side that the predicate holds of.
  pub descend_lem :
      (t : Turnament T) (j i f : ℕ)
      → ((a b : T) → pred (plus a b) ≡ (pred a || pred b))
      → IsValid plus d t
      → 0 < i
      → t.leaves ≤ i * 2 ^ j
      → i * 2 ^ j + 2 ^ j ≤ t.leaves * 2
      → j < f
      → pred (get_or t.data' i d) ≡ true
      → (r : ℕ) × (descend side pred f t i ≡ some r)
        × IsFirst d pred side t (i * 2 ^ j) (i * 2 ^ j + 2 ^ j) r
  unfolding descend
  descend_lem t j i zero add v h k l m e = absurd (omega arith)
  descend_lem t zero i (suc f) add v h k l m e = (
    i,
    rw (le→not_ltb i t.leaves (omega arith)) refl,
    record {
      low = omega arith;
      high = omega arith;
      holds = e;
      outermost = IsOutermost-alone d pred side t (i * 1) (i * 1 + 1) i (omega arith) (omega arith);
    },
  )
  descend_lem t (suc j) i (suc f) add v h k l m e =
      let w = 2 ^ j in
      let p : 2 ^ suc j ≡ w * 2 = pow-suc 2 j in
      let below : i < t.leaves = inner i j t.leaves l in
      let k' : t.leaves ≤ i * (w * 2) = subst (λ u. t.leaves ≤ i * u) p k in
      let l' : i * (w * 2) + w * 2 ≤ t.leaves * 2 = subst (λ u. i * u + u ≤ t.leaves * 2) p l in
      let n = next-IsNext t j i add v h below (first_child-block side i w t.leaves l') e in
      let b = next-bounds t i in
      let (c0, c1, c2, c3) = next-inside t i w k' l' in
      let (r, ran, first) =
        descend_lem t j (next t i) f add v (omega arith) c0 c1 (omega arith) n.holds in
      (
        r,
        rw
            (
              lt→ltb i t.leaves below,
              get_elem?-get_or t.data' (first_child side i) d
                  (first_child-inside side t i below v.size),
            )
            ran,
        subst (λ u. IsFirst d pred side t (i * u) (i * u + u) r) (sym p)
            (IsFirst-up t i w (next t i) r n first c2 c3),
      )
