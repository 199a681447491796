-- ===== src/Tournament/Blocks.antt =====
-- Blocks of leaves in a tournament, and a predicate that holds of a sum exactly when it holds of
-- one of the two summands: an entry that stands j levels over the leaves is the sum of 2 ^ j.
use all.Prelude.{
  ℕ, zero, suc, ◌+◌, ◌*◌, ◌^◌, ◌≤◌, ◌<◌, ◌≡◌, refl, sym, ap, ◌∙◌, subst, Bool, true, false, ◌||◌,
  get_or, arith,
}
use native.Mathlib.Decide.{dec_lt}
use native.Mathlib.Nat.{pow-suc, one-le-pow, mul-le-mul_left}
use all.Tournament.{Turnament}
use all.Tournament.Laws.{IsValid}
use all.Tournament.Search.{Side, left, right}

or-false_left : (a b : Bool) → (a || b) ≡ false → a ≡ false
or-false_left true b h = h
or-false_left false b h = refl

or-false_right : (a b : Bool) → (a || b) ≡ false → b ≡ false
or-false_right true b h = cc
or-false_right false b h = h

-- The entry i, which stands suc j levels over the leaves, is not a leaf.
pub inner : (i j n : ℕ) → i * 2 ^ suc j + 2 ^ suc j ≤ n * 2 → i < n
inner i j n h =
    let one : 1 ≤ 2 ^ j = one-le-pow j 2 (omega arith) in
    let e : 2 ^ suc j ≡ 2 ^ j * 2 = pow-suc 2 j in
    let h' : i * (2 ^ j * 2) + 2 ^ j * 2 ≤ n * 2 = subst (λ p. i * p + p ≤ n * 2) e h in
    let far : i * 1 ≤ i * 2 ^ j = mul-le-mul_left i one in omega arith

module _ {ℓ} {T : Type ℓ} (d : T) (pred : T → Bool) where
  -- The predicate holds of no entry from a to before b.
  abbrev pub HasNone : Turnament T → ℕ → ℕ → Type 0
  HasNone t a b = (q : ℕ) → a ≤ q → q < b → pred (get_or t.data' q d) ≡ false

  pub HasNone-join : (t : Turnament T) (a b c : ℕ) → HasNone t a b → HasNone t b c → HasNone t a c
  HasNone-join t a b c g h q k l = elim (dec_lt q b) [
    | yes low ↦ g q k low
    | no high ↦ h q (omega arith) l
  ]

  -- Nothing that the predicate holds of comes before r from the side.
  abbrev pub IsOutermost : Side → Turnament T → ℕ → ℕ → ℕ → Type 0
  IsOutermost left t a b r = HasNone t a r
  IsOutermost right t a b r = HasNone t (suc r) b

  -- The entry r is the outermost one from the side that the predicate holds of, among those from a
  -- to before b.
  pub record IsFirst (s : Side) (t : Turnament T) (a b r : ℕ) : Type 0 where
    pub low : a ≤ r
    pub high : r < b
    pub holds : pred (get_or t.data' r d) ≡ true
    pub outermost : IsOutermost s t a b r

  pub IsOutermost-alone :
      (s : Side) (t : Turnament T) (a b r : ℕ) → r ≤ a → b ≤ suc r → IsOutermost s t a b r
  IsOutermost-alone left t a b r h k = λ q l m. absurd (omega arith)
  IsOutermost-alone right t a b r h k = λ q l m. absurd (omega arith)

module _ {ℓ} {T : Type ℓ} (plus : T → T → T) (d : T) (pred : T → Bool) where
  pub child-sum :
      (t : Turnament T) (i : ℕ)
      → ((a b : T) → pred (plus a b) ≡ (pred a || pred b))
      → IsValid plus d t
      → 0 < i
      → i < t.leaves
      → (pred (get_or t.data' (i * 2) d) || pred (get_or t.data' (i * 2 + 1) d))
        ≡ pred (get_or t.data' i d)
  child-sum t i add v h k =
      sym (add (get_or t.data' (i * 2) d) (get_or t.data' (i * 2 + 1) d))
      ∙ ap pred (sym (v.sums i h k))

  -- A sum that the predicate does not hold of has no leaf that it holds of.
  pub block-HasNone :
      (t : Turnament T) (j i : ℕ)
      → ((a b : T) → pred (plus a b) ≡ (pred a || pred b))
      → IsValid plus d t
      → 0 < i
      → i * 2 ^ j + 2 ^ j ≤ t.leaves * 2
      → pred (get_or t.data' i d) ≡ false
      → HasNone d pred t (i * 2 ^ j) (i * 2 ^ j + 2 ^ j)
  block-HasNone t zero i add v h k e = λ q l m. let same : q ≡ i = omega arith in rw same e
  block-HasNone t (suc j) i add v h k e =
      let below : i < t.leaves = inner i j t.leaves k in
      let p : 2 ^ suc j ≡ 2 ^ j * 2 = pow-suc 2 j in
      let k' : i * (2 ^ j * 2) + 2 ^ j * 2 ≤ t.leaves * 2 =
        subst (λ w. i * w + w ≤ t.leaves * 2) p k in
      let both = child-sum t i add v h below ∙ e in
      let low =
        block-HasNone t j (i * 2) add v (omega arith) (omega arith)
          (or-false_left (pred (get_or t.data' (i * 2) d)) _ both) in
      let high =
        block-HasNone t j (i * 2 + 1) add v (omega arith) (omega arith)
          (or-false_right (pred (get_or t.data' (i * 2) d)) _ both) in
      subst (λ w. HasNone d pred t (i * w) (i * w + w)) (sym p)
        (HasNone-join d pred t (i * (2 ^ j * 2)) ((i * 2 + 1) * 2 ^ j) (i * (2 ^ j * 2) + 2 ^ j * 2)
          (λ q l m. low q (omega arith) (omega arith))
          (λ q l m. high q (omega arith) (omega arith)))
