-- ===== src/Tournament/Laws.antt =====
-- What the constructor and `set` promise.
use all.Prelude.{
  ℕ, zero, suc, ◌+◌, ◌*◌, ◌/◌, ◌≤◌, ◌<◌, ◌≡◌, ◌≢◌, refl, sym, ap, ◌∙◌, ◌⊎◌, inl, inr, Option, some,
  List, length, length-set, get_or, set, arith,
}
use native.Mathlib.Decide.{ℕ_discrete}
use all.Permutation.Lookup.{get_elem?-get_or, get_or-set_self, get_or-set_ne}
use all.Tournament.{Turnament, leaf, set_loop, set_leaf}
use all.Tournament.Sums.{
  IsSummed, summed, store-eq, combine-eq, set-IsSummed, set-IsSummed_other, AllSummed,
}

-- The entry i is `idx` or one of those that the loop visits after it.
abbrev OnPath : ℕ → ℕ → ℕ → Type 0
OnPath zero idx i = ⊥
OnPath (suc f) idx i = (i ≡ idx) ⊎ OnPath f (idx / 2) i

OnPath-start : (f idx : ℕ) → 0 < f → OnPath f idx idx
OnPath-start zero idx h = absurd (omega arith)
OnPath-start (suc f) idx h = inl refl

OnPath-zero : (f i : ℕ) → OnPath f 0 i → i ≡ 0
OnPath-zero zero i h = absurd h
OnPath-zero (suc f) i (inl e) = e
OnPath-zero (suc f) i (inr h) = OnPath-zero f i h

module _ {ℓ} {T : Type ℓ} (plus : T → T → T) (d : T) where
  -- A tournament over n leaves.
  pub record IsValid (t : Turnament T) : Type ℓ where
    pub positive : 0 < t.leaves
    pub size : length t.data' ≡ t.leaves * 2
    pub sums : AllSummed plus d t.leaves t.data'

  -- The row after a loop: sums everywhere, and the leaves as before.
  pub record Rebuilt (n : ℕ) (row : List T) (out : Option (List T)) : Type ℓ where
    pub row' : List T
    pub result : out ≡ some row'
    pub size : length row' ≡ length row
    pub sums : AllSummed plus d n row'
    pub kept : (j : ℕ) → n ≤ j → get_or row' j d ≡ get_or row j d

  still_pending :
      (f idx : ℕ) (row : List T) (i : ℕ)
      → 0 < idx
      → idx < suc f
      → idx < length row
      → OnPath (suc f) idx i ⊎ IsSummed plus d row i
      → OnPath f (idx / 2) i ⊎ IsSummed plus d (set row idx (summed plus d idx row)) i
  still_pending f idx row i h k l (inl (inl e)) = inr (rw e (set-IsSummed plus d row idx h l))
  still_pending f idx row i h k l (inl (inr p)) = inl p
  still_pending f idx row i h k l (inr s) = elim (ℕ_discrete i idx) [
    | yes e ↦ inr (rw e (set-IsSummed plus d row idx h l))
    | no other ↦ elim (ℕ_discrete i (idx / 2)) [
      | yes e ↦ inl (rw e (OnPath-start f (idx / 2) (omega arith)))
      | no apart ↦ inr (
          set-IsSummed_other plus d row idx i (summed plus d idx row) (omega arith) (omega arith)
            (omega arith) s)
    ]
  ]

  finished :
      (f n : ℕ) (row : List T)
      → ((i : ℕ) → 0 < i → i < n → OnPath f 0 i ⊎ IsSummed plus d row i)
      → AllSummed plus d n row
  finished f n row h i k l = elim (h i k l) [
    | inl p ↦ let e = OnPath-zero f i p in absurd (omega arith)
    | inr s ↦ s
  ]

  set_loop-Rebuilt :
      (f idx n : ℕ) (row : List T)
      → idx < f
      → idx < n
      → length row ≡ n * 2
      → ((i : ℕ) → 0 < i → i < n → OnPath f idx i ⊎ IsSummed plus d row i)
      → Rebuilt n row (set_loop plus f idx row)
  unfolding set_loop
  set_loop-Rebuilt zero idx n row h k l p = absurd (omega arith)
  set_loop-Rebuilt (suc f) zero n row h k l p = record {
    row' = row;
    result = refl;
    size = refl;
    sums = finished (suc f) n row p;
    kept = λ j m. refl;
  }
  set_loop-Rebuilt (suc f) (suc m) n row h k l p =
      let idx = suc m in
      let row₁ = set row idx (summed plus d idx row) in
      let size₁ = length-set row idx (summed plus d idx row) in
      let rest =
        set_loop-Rebuilt f (idx / 2) n row₁ (omega arith) (omega arith) (omega arith)
          (λ i a b. still_pending f idx row i (omega arith) h (omega arith) (p i a b)) in
      record {
        row' = rest.row';
        result = rw (combine-eq plus d idx row (omega arith)) rest.result;
        size = rest.size ∙ size₁;
        sums = rest.sums;
        kept =
            λ j a. rest.kept j a ∙ get_or-set_ne row idx j (summed plus d idx row) d (omega arith);
      }

  -- `set` at a position below the number of leaves stays inside the vector. It leaves a tournament
  -- with as many leaves, whose sums are right, with the new value at the position and the other
  -- leaves as before.
  pub set_leaf_lem :
      (t : Turnament T) (pos : ℕ) (val : T)
      → IsValid t
      → pos < t.leaves
      → (t' : Turnament T) × (set_leaf plus t pos val ≡ some t')
        × IsValid t'
        × (t'.leaves ≡ t.leaves)
        × (leaf t' pos ≡ some val)
        × ((q : ℕ) → q < t.leaves → q ≢ pos → leaf t' q ≡ leaf t q)
  unfolding set_leaf leaf
  set_leaf_lem t pos val v h =
      let n = t.leaves in
      let size = v.size in
      let row = set t.data' (pos + n) val in
      let size₁ = length-set t.data' (pos + n) val in
      let r =
        set_loop-Rebuilt (suc (pos + n)) ((pos + n) / 2) n row (omega arith) (omega arith)
          (omega arith)
          (λ i a b. elim (ℕ_discrete i ((pos + n) / 2)) [
            | yes e ↦ inl (inl e)
            | no apart ↦ inr (
                set-IsSummed_other plus d t.data' (pos + n) i val (omega arith) (omega arith)
                  (omega arith) (v.sums i a b))
          ]) in
      let size₂ = r.size in
      (
        record { leaves = n; data' = r.row' },
        rw (store-eq plus d t.data' (pos + n) val (omega arith), r.result),
        record { positive = v.positive; size = omega arith; sums = r.sums },
        refl,
        get_elem?-get_or r.row' (pos + n) d (omega arith)
            ∙ ap some (
                r.kept (pos + n) (omega arith)
                ∙ get_or-set_self t.data' (pos + n) val d (omega arith)),
        λ q l a.
            get_elem?-get_or r.row' (q + n) d (omega arith)
            ∙ ap some (
                r.kept (q + n) (omega arith)
                ∙ get_or-set_ne t.data' (pos + n) (q + n) val d (omega arith))
            ∙ sym (get_elem?-get_or t.data' (q + n) d (omega arith)),
      )
