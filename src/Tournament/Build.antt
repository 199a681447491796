-- ===== src/Tournament/Build.antt =====
-- What the constructor promises.
use all.Prelude.{
  ℕ, zero, suc, ◌+◌, ◌-◌, ◌*◌, ◌≤◌, ◌<◌, ◌≡◌, refl, sym, ap, ◌∙◌, ◌⊎◌, inl, inr, Option, some, List,
  [], ◌∷◌, length, length-set, length-replicate, replicate, get_elem?, get_or, set, leb, arith,
  Bool-cases,
}
use native.Mathlib.Decide.{ℕ_discrete}
use all.Permutation.Lookup.{get_elem?-get_or, get_or-set_self, get_or-set_ne}
use all.Tournament.{Turnament, bit_ceil_loop, bit_ceil, fill, leaf, build_loop, make}
use all.Tournament.Sums.{IsSummed, summed, store-eq, combine-eq, set-IsSummed, set-IsSummed_other}
use all.Tournament.Laws.{IsValid, Rebuilt}

bit_ceil_loop-le :
    (f p n : ℕ) → 0 < p → n ≤ f + p → (n ≤ bit_ceil_loop f p n) × (0 < bit_ceil_loop f p n)
unfolding bit_ceil_loop
bit_ceil_loop-le zero p n h k = (omega arith, h)
bit_ceil_loop-le (suc f) p n h k = elim (Bool-cases (leb n p)) [
  | inl e ↦ let l : n ≤ p = ground arith in rw e (l, h)
  | inr e ↦ rw e (bit_ceil_loop-le f (2 * p) n (omega arith) (omega arith))
]

bit_ceil-le : (n : ℕ) → (n ≤ bit_ceil n) × (0 < bit_ceil n)
unfolding bit_ceil
bit_ceil-le n = bit_ceil_loop-le n 1 n (omega arith) (omega arith)

get_or-replicate {ℓ} : {T : Type ℓ} (n i : ℕ) (x : T) → get_or (replicate n x) i x ≡ x
get_or-replicate zero i x = refl
get_or-replicate (suc n) zero x = refl
get_or-replicate (suc n) (suc i) x = get_or-replicate n i x

module _ {ℓ} {T : Type ℓ} (plus : T → T → T) (d : T) where
  -- The row with the elements from the place `idx` on.
  record Filled (rg : List T) (idx : ℕ) (row : List T) (out : Option (List T)) : Type ℓ where
    row' : List T
    result : out ≡ some row'
    size : length row' ≡ length row
    written : (j : ℕ) → j < length rg → get_or row' (j + idx) d ≡ get_or rg j d
    kept : (j : ℕ) → (j < idx) ⊎ (idx + length rg ≤ j) → get_or row' j d ≡ get_or row j d

  fill-Filled :
      (rg : List T) (idx : ℕ) (row : List T)
      → idx + length rg ≤ length row
      → Filled rg idx row (fill rg idx row)
  unfolding fill
  fill-Filled [] idx row h = record {
    row' = row;
    result = refl;
    size = refl;
    written = λ j l. absurd (omega arith);
    kept = λ j l. refl;
  }
  fill-Filled (el ∷ rg) idx row h =
      let size₁ = length-set row idx el in
      let rest = fill-Filled rg (idx + 1) (set row idx el) (omega arith) in
      let first : get_or rest.row' (0 + idx) d ≡ el =
        ap (λ i. get_or rest.row' i d) (omega arith)
        ∙ rest.kept idx (inl (omega arith))
        ∙ get_or-set_self row idx el d (omega arith) in
      record {
        row' = rest.row';
        result = rw (store-eq plus d row idx el (omega arith)) rest.result;
        size = rest.size ∙ size₁;
        written = elim [
          | zero ↦ λ l. first
          | suc j ↦ λ l. ap (λ i. get_or rest.row' i d) (omega arith) ∙ rest.written j (omega arith)
        ];
        kept = λ j l. rest.kept j (omega arith) ∙ get_or-set_ne row idx j el d (omega arith);
      }

  sums_above :
      (idx n : ℕ) (row : List T)
      → suc idx < length row
      → ((i : ℕ) → suc idx < i → i < n → IsSummed plus d row i)
      → (i : ℕ) → idx < i
      → i < n
      → IsSummed plus d (set row (suc idx) (summed plus d (suc idx) row)) i
  sums_above idx n row h above i k l = elim (ℕ_discrete i (suc idx)) [
    | yes e ↦ rw e (set-IsSummed plus d row (suc idx) (omega arith) h)
    | no other ↦
        set-IsSummed_other plus d row (suc idx) i (summed plus d (suc idx) row) (omega arith)
          (omega arith) (omega arith) (above i (omega arith) l)
  ]

  build_loop-Rebuilt :
      (k n : ℕ) (row : List T)
      → k < n
      → length row ≡ n * 2
      → ((i : ℕ) → k < i → i < n → IsSummed plus d row i)
      → Rebuilt plus d n row (build_loop plus k row)
  unfolding build_loop
  build_loop-Rebuilt zero n row h l above = record {
    row' = row;
    result = refl;
    size = refl;
    sums = above;
    kept = λ j m. refl;
  }
  build_loop-Rebuilt (suc idx) n row h l above =
      let x = summed plus d (suc idx) row in
      let size₁ = length-set row (suc idx) x in
      let rest =
        build_loop-Rebuilt idx n (set row (suc idx) x) (omega arith) (omega arith)
          (sums_above idx n row (omega arith) above) in
      record {
        row' = rest.row';
        result = rw (combine-eq plus d (suc idx) row (omega arith)) rest.result;
        size = rest.size ∙ size₁;
        sums = rest.sums;
        kept = λ j a. rest.kept j a ∙ get_or-set_ne row (suc idx) j x d (omega arith);
      }

  -- For any range the constructor stays inside the vector. It gives a tournament whose sums are
  -- right, with at least as many leaves as the range has elements; the leaves are these elements, in
  -- their order, and then the default value.
  pub make_lem :
      (rg : List T)
      → (t : Turnament T) × (make plus d rg ≡ some t)
        × IsValid plus d t
        × (length rg ≤ t.leaves)
        × ((pos : ℕ) → pos < length rg → leaf t pos ≡ get_elem? rg pos)
        × ((pos : ℕ) → length rg ≤ pos → pos < t.leaves → leaf t pos ≡ some d)
  unfolding make leaf
  make_lem rg =
      let n = bit_ceil (length rg) in
      let (enough, positive) = bit_ceil-le (length rg) in
      let row = replicate (n * 2) d in
      let size₀ = length-replicate {ℓ} {A = T} (n * 2) d in
      let f = fill-Filled rg n row (omega arith) in
      let size₁ = f.size in
      let r =
        build_loop-Rebuilt (n - 1) n f.row' (omega arith) (omega arith)
          (λ i a b. absurd (omega arith)) in
      let size₂ = r.size in
      (
        record { leaves = n; data' = r.row' },
        rw (f.result, r.result),
        record { positive = positive; size = omega arith; sums = r.sums },
        enough,
        λ pos l.
            get_elem?-get_or r.row' (pos + n) d (omega arith)
            ∙ ap some (r.kept (pos + n) (omega arith) ∙ f.written pos l)
            ∙ sym (get_elem?-get_or rg pos d l),
        λ pos l m.
            get_elem?-get_or r.row' (pos + n) d (omega arith)
            ∙ ap some (
                r.kept (pos + n) (omega arith)
                ∙ f.kept (pos + n) (inr (omega arith))
                ∙ get_or-replicate (n * 2) (pos + n) d),
      )
