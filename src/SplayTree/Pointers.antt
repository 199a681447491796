-- ===== src/SplayTree/Pointers.antt =====
-- When the pointers of a tree are right, and what `fixup` makes of them.
use all.Prelude.{ℕ, ◌≡◌, refl, true, Option, some, ◌==◌, arith}
use all.SplayTree.{
  Side, left, right, Address, object, slot, same_side, same_address, SplayTree, null, node,
  set_parent, fixup, value_ptr,
}

pub same_number : (n : ℕ) → (n == n) ≡ true
same_number n = ground arith

pub same_side_refl : (s : Side) → same_side s s ≡ true
same_side_refl left = refl
same_side_refl right = refl

pub same_address_refl : (a : Address) → same_address a a ≡ true
same_address_refl (object n) = same_number n
same_address_refl (slot n s) = rw (same_number n, same_side_refl s)

module _ {ℓ} {T : Type ℓ} where
  -- The parent of the tree, where it is not empty.
  abbrev pub HasParent : Option Address → SplayTree T → Type 0
  HasParent q null = Unit
  HasParent q (node id v p l r) = p ≡ q

  -- In a tree at the address `this` the pointers below its root are right.
  abbrev pub IsLinked : Address → SplayTree T → Type 0
  IsLinked this null = Unit
  IsLinked this (node id v p l r) =
      HasParent (some this) l
      × HasParent (some this) r
      × IsLinked (slot id left) l
      × IsLinked (slot id right) r

  pub set_parent-HasParent : (q : Option Address) (t : SplayTree T) → HasParent q (set_parent q t)
  set_parent-HasParent q null = tt
  set_parent-HasParent q (node id v p l r) = refl

  pub set_parent-IsLinked :
      (this : Address) (q : Option Address) (t : SplayTree T)
      → IsLinked this t
      → IsLinked this (set_parent q t)
  set_parent-IsLinked this q null h = tt
  set_parent-IsLinked this q (node id v p l r) h = h

  pub fixup-IsLinked :
      (this old : Address) (t : SplayTree T) → IsLinked old t → IsLinked this (fixup this t)
  fixup-IsLinked this old null h = tt
  fixup-IsLinked this old (node id v p l r) h = (
    set_parent-HasParent (some this) l,
    set_parent-HasParent (some this) r,
    set_parent-IsLinked (slot id left) (some this) l h.2,
    set_parent-IsLinked (slot id right) (some this) r h.3,
  )

  -- The last assignment stands.
  pub set_parent_twice :
      (q q' : Option Address) (t : SplayTree T) → set_parent q (set_parent q' t) ≡ set_parent q t
  set_parent_twice q q' null = refl
  set_parent_twice q q' (node id v p l r) = refl

  pub fixup-set_parent :
      (this : Address) (q : Option Address) (t : SplayTree T)
      → fixup this (set_parent q t) ≡ fixup this t
  fixup-set_parent this q null = refl
  fixup-set_parent this q (node id v p l r) = refl

  pub fixup_twice : (this old : Address) (t : SplayTree T) → fixup this (fixup old t) ≡ fixup this t
  fixup_twice this old null = refl
  fixup_twice this old (node id v p l r) =
      rw (set_parent_twice (some this) (some old) l, set_parent_twice (some this) (some old) r)

  pub value_ptr-set_parent :
      (q : Option Address) (t : SplayTree T) → value_ptr (set_parent q t) ≡ value_ptr t
  value_ptr-set_parent q null = refl
  value_ptr-set_parent q (node id v p l r) = refl

  pub value_ptr-fixup : (this : Address) (t : SplayTree T) → value_ptr (fixup this t) ≡ value_ptr t
  value_ptr-fixup this null = refl
  value_ptr-fixup this (node id v p l r) = refl

  pub ruleset relinking =
      (set_parent_twice, fixup-set_parent, fixup_twice, value_ptr-set_parent, value_ptr-fixup)
