-- ===== src/Avl.antt =====
-- ivl/avl_tree/default.hpp: the AVL tree with a stored depth in each node. Owning pointers and
-- moves leave no trace: a function that takes a `node&` returns the node that it leaves there.
-- `none` is a violated `contract_assert`, or a null pointer that is dereferenced.
pub mod Compare
pub mod Balance
pub mod Repair
pub mod Sorted
pub mod Insert
pub mod Erase
pub mod Laws
mod Examples
use Prim.Native.Nat.Ordering.{lt, eq, gt}
use all.Prelude.{
  ℕ, zero, suc, ◌+◌, max, Bool, true, false, not, ◌&&◌, Option, none, some, ◌>>=◌, ◌>>◌, assert,
  leb, ltb, ◌==◌, if◌then◌else◌,
}
use Compare.{Ordered}

pub data Child : Type 0 where
  left right : Child

-- `node<T>`: null, or a `node_struct<T>` with its value, depth, left and right.
pub data Node {ℓ} (T : Type ℓ) : Type ℓ where
  null : Node T
  node : T → ℕ → Node T → Node T → Node T

module _ {ℓ} {T : Type ℓ} where
  abbrev pub depth : Node T → ℕ
  depth null = 0
  depth (node v d l r) = d

  abbrev pub empty : Node T → Bool
  empty null = true
  empty (node v d l r) = false

  abbrev pub leaf : Node T → Bool
  leaf null = false
  leaf (node v d l r) = empty l && empty r

  -- `root(c)`, read.
  abbrev pub child : Child → Node T → Option (Node T)
  child c null = none
  child left (node v d l r) = some l
  child right (node v d l r) = some r

  -- `root(c) = t`.
  abbrev pub set_child : Child → Node T → Node T → Option (Node T)
  set_child c null t = none
  set_child left (node v d l r) t = some (node v d t r)
  set_child right (node v d l r) t = some (node v d l t)

  unfoldable pub update_depth : Node T → Option (Node T)
  update_depth null = none
  update_depth (node v d l r) = some (node v (1 + max (depth l) (depth r)) l r)

  -- `p` is the old root, `q` its child A, which becomes the root.
  unfoldable pub rotate : Node T → Child → Child → Option (Node T)
  unfolding update_depth
  rotate root A B = do
    q ← child A root
    assert (not (empty q))
    moved ← child B q
    p ← set_child A root moved
    p' ← update_depth p
    set_child B q p' >>= update_depth

  unfoldable pub check_invariant : Node T → ℕ → Bool
  check_invariant null n = true
  check_invariant (node v d l r) zero = leb (depth l) (depth r + 1) && leb (depth r) (depth l + 1)
  check_invariant (node v d l r) (suc n) =
      (d == 1 + max (depth l) (depth r))
      && (leb (depth l) (depth r + 1) && leb (depth r) (depth l + 1))
      && (check_invariant l n && check_invariant r n)

  -- The part of `fix_invariant` below its early return.
  unfoldable pub restore : Node T → Child → Child → Option (Node T)
  unfolding rotate check_invariant
  restore root A B = do
    heavy ← child A root
    outer ← child A heavy
    inner ← child B heavy
    root' ←
        (if ltb (depth outer) (depth inner)
          then (rotate heavy B A >>= λ t. set_child A root t)
          else some root)
    out ← rotate root' A B
    assert (check_invariant out 2)
    some out

  unfoldable pub fix_invariant : Node T → Option (Node T)
  unfolding restore
  fix_invariant null = some null
  fix_invariant (node v d l r) =
      let root = node v d l r in
      if check_invariant root 0
      then some root
      else if ltb (depth r) (depth l)
      then restore root left right
      else restore root right left

  -- The two calls that end `insert`, `steal_first` and `erase`.
  unfoldable pub rebalance : Node T → Option (Node T)
  unfolding fix_invariant
  rebalance root = update_depth root >>= fix_invariant

  -- The least value, and the tree without it.
  unfoldable pub steal_first : Node T → Option (T × Node T)
  unfolding rebalance
  steal_first null = none
  steal_first (node v d null r) = some (v, r)
  steal_first (node v d (node lv ld ll lr) r) = do
    (out, l') ← steal_first (node lv ld ll lr)
    root ← rebalance (node v d l' r)
    some (out, root)

  -- The branch of `erase` at the value itself.
  unfoldable pub erase_root : Node T → Option (Node T)
  unfolding steal_first rebalance
  erase_root null = none
  erase_root (node v d null null) = some null
  erase_root (node v d null (node rv rd rl rr)) = some (node rv rd rl rr)
  erase_root (node v d (node lv ld ll lr) null) = some (node lv ld ll lr)
  erase_root (node v d (node lv ld ll lr) (node rv rd rl rr)) = do
    (first, r') ← steal_first (node rv rd rl rr)
    rebalance (node first d (node lv ld ll lr) r')

module _ {ℓ} {T : Type ℓ} ⦃o : Ordered T⦄ where
  unfoldable pub insert : Node T → T → Option (Node T)
  unfolding rebalance
  insert null value = some (node value 1 null null)
  insert (node v d l r) value = elim (o.cmp v value) [
    | eq ↦ some (node v d l r)
    | gt ↦ insert l value >>= λ l'. rebalance (node v d l' r)
    | lt ↦ insert r value >>= λ r'. rebalance (node v d l r')
  ]

  unfoldable pub erase : Node T → T → Option (Node T)
  unfolding erase_root
  erase null value = some null
  erase (node v d l r) value = elim (o.cmp v value) [
    | eq ↦ erase_root (node v d l r)
    | gt ↦ erase l value >>= λ l'. rebalance (node v d l' r)
    | lt ↦ erase r value >>= λ r'. rebalance (node v d l r')
  ]

-- `tree<T>`.
pub record Tree {ℓ} (T : Type ℓ) : Type ℓ where
  pub root : Node T

module _ {ℓ} {T : Type ℓ} ⦃o : Ordered T⦄ where
  -- The members `insert` and `erase` of `tree<T>`.
  unfoldable pub tree_insert : Tree T → T → Option (Tree T)
  tree_insert t value = insert t.root value >>= λ root'. some (record { root = root' })

  unfoldable pub tree_erase : Tree T → T → Option (Tree T)
  tree_erase t value = erase t.root value >>= λ root'. some (record { root = root' })
