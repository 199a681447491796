-- ===== src/Tournament/Root.antt =====
-- The root is the sum of all leaves.
use all.Prelude.{
  ℕ, zero, suc, ◌+◌, ◌-◌, ◌*◌, ◌^◌, ◌≤◌, ◌<◌, ◌≡◌, sym, ap, ◌∙◌, subst, some, List, get_elem?,
  get_or, arith,
}
use native.Mathlib.Nat.{pow-suc, one-le-pow, mul-le-mul_left}
use all.Permutation.Lookup.{get_elem?-get_or}
use all.Tournament.{Turnament, set_leaf}
use all.Tournament.Sums.{AllSummed}
use all.Tournament.Laws.{IsValid, set_leaf_lem}

module _ {ℓ} {T : Type ℓ} (plus : T → T → T) (d : T) where
  -- The sum of count + 1 entries from `start` on, from the left.
  abbrev pub block_sum : List T → ℕ → ℕ → T
  block_sum row start zero = get_or row start d
  block_sum row start (suc count) =
      plus (block_sum row start count) (get_or row (start + suc count) d)

  module _ (assoc : (a b c : T) → plus (plus a b) c ≡ plus a (plus b c)) where
    block_sum-append :
        (row : List T) (start a b : ℕ)
        → plus (block_sum row start a) (block_sum row (start + suc a) b)
          ≡ block_sum row start (a + suc b)
    block_sum-append row start a zero =
        let e : suc a ≡ a + 1 = omega arith in ap (block_sum row start) e
    block_sum-append row start a (suc b) =
        let e : suc (a + suc b) ≡ a + suc (suc b) = omega arith in
        sym (
          assoc (block_sum row start a) (block_sum row (start + suc a) b)
            (get_or row (start + suc a + suc b) d))
        ∙ ap (λ x. plus x (get_or row (start + suc a + suc b) d)) (block_sum-append row start a b)
        ∙ ap (λ j. plus (block_sum row start (a + suc b)) (get_or row j d)) (omega arith)
        ∙ ap (block_sum row start) e

    -- Two halves of a block of 2 m entries.
    halves :
        (row : List T) (i m : ℕ)
        → 0 < m
        → plus (block_sum row (i * 2 * m) (m - 1)) (block_sum row ((i * 2 + 1) * m) (m - 1))
          ≡ block_sum row (i * (m * 2)) (m * 2 - 1)
    halves row i m h =
        ap (λ j. plus (block_sum row (i * 2 * m) (m - 1)) (block_sum row j (m - 1))) (omega arith)
        ∙ block_sum-append row (i * 2 * m) (m - 1) (m - 1)
        ∙ ap (λ j. block_sum row j (m - 1 + suc (m - 1))) (omega arith)
        ∙ ap (block_sum row (i * (m * 2))) (omega arith)

    node_sum :
        (row : List T) (n h i : ℕ)
        → AllSummed plus d n row
        → 0 < i
        → i * 2 ^ h + 2 ^ h ≤ n * 2
        → get_or row i d ≡ block_sum row (i * 2 ^ h) (2 ^ h - 1)
    node_sum row n zero i s k l = ap (λ j. get_or row j d) (omega arith)
    node_sum row n (suc h) i s k l =
        let m = 2 ^ h in
        let pos : 1 ≤ m = one-le-pow h 2 (omega arith) in
        let e : 2 ^ suc h ≡ m * 2 = pow-suc 2 h in
        let l' : i * (m * 2) + m * 2 ≤ n * 2 = subst (λ p. i * p + p ≤ n * 2) e l in
        let far : i * 1 ≤ i * m = mul-le-mul_left i pos in
        s i k (omega arith)
        ∙ ap (λ x. plus x (get_or row (i * 2 + 1) d))
            (node_sum row n h (i * 2) s (omega arith) (omega arith))
        ∙ ap (plus (block_sum row (i * 2 * m) (m - 1)))
            (node_sum row n h (i * 2 + 1) s (omega arith) (omega arith))
        ∙ halves row i m pos
        ∙ ap (λ p. block_sum row (i * p) (p - 1)) (sym e)

    pub root_sum :
        (t : Turnament T) (k : ℕ)
        → IsValid plus d t
        → t.leaves ≡ 2 ^ k
        → get_elem? t.data' 1 ≡ some (block_sum t.data' t.leaves (t.leaves - 1))
    root_sum t k v e =
        let size = v.size in
        let positive = v.positive in
        get_elem?-get_or t.data' 1 d (omega arith)
        ∙ ap some (
            node_sum t.data' t.leaves k 1 v.sums (omega arith) (omega arith)
            ∙ ap (λ p. block_sum t.data' p (2 ^ k - 1)) (omega arith)
            ∙ ap (λ p. block_sum t.data' t.leaves (p - 1)) (sym e))

    -- After `set` on a tournament over 2^k leaves the entry 1 is the sum of all leaves, from the first
    -- to the last, if the sum is associative.
    pub set_leaf_root :
        (t : Turnament T) (pos : ℕ) (val : T) (k : ℕ)
        → IsValid plus d t
        → t.leaves ≡ 2 ^ k
        → pos < t.leaves
        → (t' : Turnament T) × (set_leaf plus t pos val ≡ some t')
          × (get_elem? t'.data' 1 ≡ some (block_sum t'.data' t.leaves (t.leaves - 1)))
    set_leaf_root t pos val k v e h =
        let (t', result, valid, same, _, _) = set_leaf_lem plus d t pos val v h in
        (
          t',
          result,
          root_sum t' k valid (same ∙ e) ∙ ap (λ n. some (block_sum t'.data' n (n - 1))) same,
        )
