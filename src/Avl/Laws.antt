-- ===== src/Avl/Laws.antt =====
-- What `insert` and `erase` of the tree promise, and how deep a valid tree can be.
use all.Prelude.{
  ℕ, zero, suc, ◌+◌, ◌*◌, ◌^◌, ◌≤◌, ◌<◌, ◌⊎◌, inl, inr, ◌≡◌, refl, Option, some, List, [], ◌∷◌,
  arith, length, length-append, ◌>>=◌,
}
use native.Mathlib.Nat.{pow-suc}
use native.Mathlib.Decide.{dec_le}
use all.Avl.{Node, null, node, depth, insert, erase, Tree, tree_insert, tree_erase}
use all.Avl.Compare.{Ordered}
use all.Avl.Balance.{IsAvl, to_list}
use all.Avl.Sorted.{IsSorted, insert_list, erase_list, insert_list-IsSorted, erase_list-IsSorted}
use all.Avl.Insert.{insert-Inserted}
use all.Avl.Erase.{erase-Erased}

module _ {ℓ} {T : Type ℓ} ⦃o : Ordered T⦄ where
  -- A tree that is balanced, with exact depths, and a search tree.
  pub record IsValid (t : Node T) : Type 0 where
    pub balanced : IsAvl t
    pub sorted : IsSorted (to_list t)

  -- On a valid tree `insert` violates no contract assertion and dereferences no null pointer. It
  -- leaves a valid tree, as deep as before or one level deeper, whose values are those of the
  -- sorted list with the value inserted.
  pub insert_refines :
      (t : Node T) (v : T)
      → IsValid t
      → (t' : Node T) × (insert t v ≡ some t')
        × IsValid t'
        × (to_list t' ≡ insert_list v (to_list t))
        × (depth t ≤ depth t')
        × (depth t' ≤ depth t + 1)
  insert_refines t v h =
      let i = insert-Inserted t v h.balanced h.sorted in
      let sorted' : IsSorted (to_list i.t') =
        rw i.values (insert_list-IsSorted v (to_list t) h.sorted) in
      (i.t', i.result, record { balanced = i.valid; sorted = sorted' }, i.values, i.low, i.high)

  -- On a valid tree `erase` violates no contract assertion and dereferences no null pointer. It
  -- leaves a valid tree, as deep as before or one level less deep, whose values are those of the
  -- sorted list with the value removed.
  pub erase_refines :
      (t : Node T) (v : T)
      → IsValid t
      → (t' : Node T) × (erase t v ≡ some t')
        × IsValid t'
        × (to_list t' ≡ erase_list v (to_list t))
        × (depth t' ≤ depth t)
        × (depth t ≤ depth t' + 1)
  erase_refines t v h =
      let i = erase-Erased t v h.balanced h.sorted in
      let sorted' : IsSorted (to_list i.t') =
        rw i.values (erase_list-IsSorted v (to_list t) h.sorted) in
      (i.t', i.result, record { balanced = i.valid; sorted = sorted' }, i.values, i.high, i.low)

module _ {ℓ} {T : Type ℓ} where
  -- A valid tree of n values is at most about 2 log2 (n + 1) levels deep: at depth 2k - 1 or more
  -- it holds 2^k - 1 values or more.
  depth_log : (t : Node T) (k : ℕ) → IsAvl t → 2 * k ≤ depth t + 1 → 2 ^ k ≤ length (to_list t) + 1
  depth_log t zero a h = omega arith
  depth_log null (suc k) a h = absurd (omega arith)
  depth_log (node v d l r) (suc k) a h =
      rw (pow-suc, length-append)
        (omega (arith, depth_log l k a.3 (omega arith), depth_log r k a.4 (omega arith)))

-- One call of a client.
pub data Op {ℓ} (T : Type ℓ) : Type ℓ where
  insert_op : T → Op T
  erase_op : T → Op T

module _ {ℓ} {T : Type ℓ} ⦃o : Ordered T⦄ where
  -- Any sequence of calls, on the tree and on the sorted list.
  unfoldable pub run : List (Op T) → Tree T → Option (Tree T)
  run [] t = some t
  run (insert_op v ∷ ops) t = tree_insert t v >>= run ops
  run (erase_op v ∷ ops) t = tree_erase t v >>= run ops

  unfoldable pub replay : List (Op T) → List T → List T
  replay [] xs = xs
  replay (insert_op v ∷ ops) xs = replay ops (insert_list v xs)
  replay (erase_op v ∷ ops) xs = replay ops (erase_list v xs)

  -- From a valid tree any sequence of calls of `insert` and `erase` violates no assertion, and
  -- ends in a valid tree whose values are those of the same calls on the sorted list.
  pub run_refines :
      (ops : List (Op T)) (t : Tree T)
      → IsValid t.root
      → (t' : Tree T) × (run ops t ≡ some t')
        × IsValid t'.root
        × (to_list t'.root ≡ replay ops (to_list t.root))
  unfolding run replay tree_insert tree_erase
  run_refines [] t h = (t, refl, h, refl)
  run_refines (insert_op v ∷ ops) t h =
      let (r, e, ok, same, _, _) = insert_refines t.root v h in
      let (t', e', ok', same') = run_refines ops (record { root = r }) ok in
      (t', rw e e', ok', rw (← same) same')
  run_refines (erase_op v ∷ ops) t h =
      let (r, e, ok, same, _, _) = erase_refines t.root v h in
      let (t', e', ok', same') = run_refines ops (record { root = r }) ok in
      (t', rw e e', ok', rw (← same) same')

  -- From a valid tree any sequence of calls of `insert` and `erase` violates no assertion and ends in
  -- a tree that is at most about 2 log2 (n + 1) levels deep, where n is the number of values that the
  -- same calls leave in the sorted list: it is less than 2k - 1 levels deep, or n is 2^k - 1 or more.
  pub run_depth :
      (ops : List (Op T)) (t : Tree T) (k : ℕ)
      → IsValid t.root
      → (t' : Tree T) × (run ops t ≡ some t')
        × ((depth t'.root + 1 < 2 * k) ⊎ (2 ^ k ≤ length (replay ops (to_list t.root)) + 1))
  run_depth ops t k h =
      let (t', e, ok, same) = run_refines ops t h in
      (
        t',
        e,
        elim (dec_le (2 * k) (depth t'.root + 1)) [
          | yes deep ↦ inr (rw (← same) (depth_log t'.root k ok.balanced deep))
          | no shallow ↦ inl (omega arith)
        ],
      )
