-- ===== src/Permutation/Inverse.antt =====
-- `inverse` of a permutation.
use all.Prelude.{
  ℕ, zero, suc, ◌+◌, ◌<◌, ◌≡◌, ◌≢◌, refl, sym, ap, ◌∙◌, Option, some, List, [], ◌∷◌, length,
  length-set, length-replicate, replicate, get_or, set, arith, lt→ltb,
}
use native.Mathlib.Decide.{dec_lt}
use all.Permutation.{Permutation, apply, inverse_loop, inverse}
use all.Permutation.Lookup.{get_or-set_self, get_or-set_ne, get_or-beyond, get_or-default}
use all.Permutation.Compose.{IsBounded}

-- No two positions have one image.
abbrev pub IsInjective : Permutation → Type 0
IsInjective p = (i j : ℕ) → i < length p.v → j < length p.v → apply p i ≡ apply p j → i ≡ j

-- The rounds for the images `w`, the first of them that of position i.
record Inverted (w : List ℕ) (i : ℕ) (q : List ℕ) (out : Option (List ℕ)) : Type 0 where
  q' : List ℕ
  result : out ≡ some q'
  size : length q' ≡ length q
  written : (j : ℕ) → j < length w → get_or q' (get_or w j 0) (get_or w j 0) ≡ i + j
  kept : (x : ℕ) → ((j : ℕ) → j < length w → get_or w j 0 ≢ x) → get_or q' x x ≡ get_or q x x

suc-ne : {j : ℕ} → suc j ≡ 0 → ⊥
suc-ne e = omega arith

sucs : (j k : ℕ) → suc j ≡ suc k → j ≡ k
sucs j k e = omega arith

written_at :
    (y : ℕ) (w : List ℕ) (i : ℕ) (q q' : List ℕ)
    → ((j k : ℕ)
        → j < suc (length w)
        → k < suc (length w)
        → get_or (y ∷ w) j 0 ≡ get_or (y ∷ w) k 0
        → j ≡ k)
    → y < length q
    → ((x : ℕ)
        → ((j : ℕ) → j < length w → get_or w j 0 ≢ x)
        → get_or q' x x ≡ get_or (set q y i) x x)
    → ((j : ℕ) → j < length w → get_or q' (get_or w j 0) (get_or w j 0) ≡ i + 1 + j)
    → (j : ℕ) → j < suc (length w)
    → get_or q' (get_or (y ∷ w) j 0) (get_or (y ∷ w) j 0) ≡ i + j
written_at y w i q q' n inside kept written zero l =
    kept y (λ j m e. suc-ne (n (suc j) 0 (omega arith) (omega arith) e))
    ∙ get_or-set_self q y i y inside
    ∙ omega arith
written_at y w i q q' n inside kept written (suc j) l =
    let e = written j (omega arith) in e ∙ omega arith

inverse_loop-Inverted :
    (w : List ℕ) (i : ℕ) (q : List ℕ)
    → ((j : ℕ) → j < length w → get_or w j 0 < length q)
    → ((j k : ℕ) → j < length w → k < length w → get_or w j 0 ≡ get_or w k 0 → j ≡ k)
    → Inverted w i q (inverse_loop w i q)
unfolding inverse_loop
inverse_loop-Inverted [] i q b n = record {
  q' = q;
  result = refl;
  size = refl;
  written = λ j l. absurd (omega arith);
  kept = λ x l. refl;
}
inverse_loop-Inverted (y ∷ w) i q b n =
    let inside : y < length q = b 0 (omega arith) in
    let rest =
      inverse_loop-Inverted w (i + 1) (set q y i)
        (λ j l. let c = b (suc j) (omega arith) in omega (arith, length-set q y i))
        (λ j k l m e. sucs j k (n (suc j) (suc k) (omega arith) (omega arith) e)) in
    record {
      q' = rest.q';
      result = rw (lt→ltb y (length q) inside) rest.result;
      size = rest.size ∙ length-set q y i;
      written = λ j l. written_at y w i q rest.q' n inside rest.kept rest.written j l;
      kept = λ x l.
          rest.kept x (λ j m. l (suc j) (omega arith))
          ∙ get_or-set_ne q y x i x (l 0 (omega arith));
    }

-- For a permutation whose entries are different positions of its vector, `inverse` stays inside
-- its vectors, and takes the image of every number back to the number.
pub inverse_lem :
    (p : Permutation)
    → IsBounded p
    → IsInjective p
    → (q : Permutation) × (inverse p ≡ some q)
      × (length q.v ≡ length p.v)
      × ((i : ℕ) → apply q (apply p i) ≡ i)
unfolding inverse
inverse_lem p b n =
    let zeros : List ℕ = replicate (length p.v) 0 in
    let same = λ (i : ℕ) (l : i < length p.v). get_or-default p.v i 0 i l in
    let c =
      inverse_loop-Inverted p.v 0 zeros
        (λ j l.
          let d = b j l in omega (arith, same j l, length-replicate {0} {A = ℕ} (length p.v) 0))
        (λ j k l m e. n j k l m (sym (same j l) ∙ e ∙ same k m)) in
    let size : length c.q' ≡ length p.v = c.size ∙ length-replicate {0} {A = ℕ} (length p.v) 0 in
    (
      record { v = c.q' },
      rw c.result,
      size,
      λ i. elim (dec_lt i (length p.v)) [
        | yes inside ↦
            ap (λ t. get_or c.q' t t) (sym (same i inside)) ∙ c.written i inside ∙ omega arith
        | no outside ↦
            ap (λ t. get_or c.q' t t) (get_or-beyond p.v i i (omega arith))
            ∙ get_or-beyond c.q' i i (omega arith)
      ],
    )
