-- ===== src/SplayTree/Rotate.antt =====
-- The rotations: what they keep, and the state and the pointers that they leave.
use all.Prelude.{ℕ, ◌≡◌, refl, Option, some, List, [], ◌∷◌, ◌++◌, append_assoc}
use all.Avl.Compare.{Ordered}
use all.SplayTree.{
  Side, left, right, Address, slot, SplayTree, null, node, value_ptr, sibling, empty, child,
  set_child, child_address, parent, set_parent, fixup, refresh_state, cut, link, rotate,
}
use all.SplayTree.Values.{Element, Lawful}
use all.SplayTree.Pointers.{
  IsLinked, set_parent-HasParent, set_parent-IsLinked, fixup-IsLinked, relinking,
  value_ptr-set_parent,
}
use all.SplayTree.Context.{fill_side}

module _ {ℓ} {T K : Type ℓ} ⦃e : Element T⦄ ⦃o : Ordered K⦄ (w : Lawful e K) where
  -- The keys from left to right.
  abbrev pub keys : SplayTree T → List K
  keys null = []
  keys (node id v p l r) = keys l ++ w.key v ∷ keys r

  -- No call of `refresh_state` in the tree would change it.
  abbrev pub IsFresh : SplayTree T → Type ℓ
  IsFresh null = ◌≡◌ {A = SplayTree T} null null
  IsFresh (node id v p l r) = (e.refresh v (value_ptr l) (value_ptr r) ≡ v) × IsFresh l × IsFresh r

  pub keys-set_parent : (q : Option Address) (t : SplayTree T) → keys (set_parent q t) ≡ keys t
  keys-set_parent q null = refl
  keys-set_parent q (node id v p l r) = refl

  pub keys-fixup : (this : Address) (t : SplayTree T) → keys (fixup this t) ≡ keys t
  keys-fixup this null = refl
  keys-fixup this (node id v p l r) =
      rw (keys-set_parent (some this) l, keys-set_parent (some this) r)

  pub set_parent-IsFresh :
      (q : Option Address) (t : SplayTree T) → IsFresh t → IsFresh (set_parent q t)
  set_parent-IsFresh q null h = h
  set_parent-IsFresh q (node id v p l r) h = h

  fixup-IsFresh : (this : Address) (t : SplayTree T) → IsFresh t → IsFresh (fixup this t)
  fixup-IsFresh this null h = h
  fixup-IsFresh this (node id v p l r) h = (
    rw (value_ptr-set_parent (some this) l, value_ptr-set_parent (some this) r) h.0,
    set_parent-IsFresh (some this) l h.1,
    set_parent-IsFresh (some this) r h.2,
  )

  -- What hangs at the address `place`, and the one that moved to it.
  abbrev pub moved : Address → Address → SplayTree T → SplayTree T
  moved above place x = set_parent (some above) (fixup place x)

  -- The old root `p` below the new one `c`, with the subtree `x` that moved to it.
  abbrev pub lowered : Side → Address → ℕ → ℕ → T → SplayTree T → SplayTree T → SplayTree T
  lowered left this cid pid p d x =
      node pid (e.refresh p (value_ptr x) (value_ptr d)) (some this)
        (moved (slot cid right) (slot pid left) x) (set_parent (some (slot cid right)) d)
  lowered right this cid pid p d x =
      node pid (e.refresh p (value_ptr d) (value_ptr x)) (some this)
        (set_parent (some (slot cid left)) d) (moved (slot cid left) (slot pid right) x)

  -- What `rotate` leaves of `p`, its other subtree `d`, and its child `c` with subtrees `a`, `b`.
  abbrev pub turned :
      Side
      → Address
      → ℕ
      → T
      → Option Address
      → SplayTree T
      → ℕ
      → T
      → SplayTree T
      → SplayTree T
      → SplayTree T
  turned left this pid p pp d cid c a b =
      node cid (e.refresh c (value_ptr a) (value_ptr (lowered left this cid pid p d b))) pp
        (set_parent (some this) a) (lowered left this cid pid p d b)
  turned right this pid p pp d cid c a b =
      node cid (e.refresh c (value_ptr (lowered right this cid pid p d a)) (value_ptr b)) pp
        (lowered right this cid pid p d a) (set_parent (some this) b)

  pub rotate-turned :
      (s : Side) (this : Address) (pid : ℕ) (p : T) (pp : Option Address) (d : SplayTree T)
      (cid : ℕ) (c : T) (cp : Option Address) (a b : SplayTree T)
      → rotate s this (fill_side s pid p pp d (node cid c cp a b))
        ≡ some (turned s this pid p pp d cid c a b)
  unfolding rotate sibling empty child set_child child_address parent refresh_state cut link
  rotate-turned left this pid p pp d cid c cp a b = simp (w.refresh_refresh, relinking)
  rotate-turned right this pid p pp d cid c cp a b = simp (w.refresh_refresh, relinking)

  pub keys-turned :
      (s : Side) (this : Address) (pid : ℕ) (p : T) (pp : Option Address) (d : SplayTree T)
      (cid : ℕ) (c : T) (cp : Option Address) (a b : SplayTree T)
      → keys (turned s this pid p pp d cid c a b)
        ≡ keys (fill_side s pid p pp d (node cid c cp a b))
  keys-turned left this pid p pp d cid c cp a b =
      simp (append_assoc, w.key_refresh, keys-set_parent, keys-fixup)
  keys-turned right this pid p pp d cid c cp a b =
      simp (append_assoc, w.key_refresh, keys-set_parent, keys-fixup)

  pub lowered-IsFresh :
      (s : Side) (this : Address) (cid pid : ℕ) (p : T) (d x : SplayTree T)
      → IsFresh d
      → IsFresh x
      → IsFresh (lowered s this cid pid p d x)
  lowered-IsFresh left this cid pid p d x hd hx = (
    simp relinking (w.refresh_refresh _ _ _ _ _),
    set_parent-IsFresh _ (fixup _ x) (fixup-IsFresh _ x hx),
    set_parent-IsFresh _ d hd,
  )
  lowered-IsFresh right this cid pid p d x hd hx = (
    simp relinking (w.refresh_refresh _ _ _ _ _),
    set_parent-IsFresh _ d hd,
    set_parent-IsFresh _ (fixup _ x) (fixup-IsFresh _ x hx),
  )

  pub turned-IsFresh :
      (s : Side) (this : Address) (pid : ℕ) (p : T) (pp : Option Address) (d : SplayTree T)
      (cid : ℕ) (c : T) (a b : SplayTree T)
      → IsFresh d
      → IsFresh a
      → IsFresh b
      → IsFresh (turned s this pid p pp d cid c a b)
  turned-IsFresh left this pid p pp d cid c a b hd ha hb = (
    rw (value_ptr-set_parent (some this) a) (w.refresh_refresh _ _ _ _ _),
    set_parent-IsFresh _ a ha,
    lowered-IsFresh left this cid pid p d b hd hb,
  )
  turned-IsFresh right this pid p pp d cid c a b hd ha hb = (
    rw (value_ptr-set_parent (some this) b) (w.refresh_refresh _ _ _ _ _),
    lowered-IsFresh right this cid pid p d a hd ha,
    set_parent-IsFresh _ b hb,
  )

  moved-IsLinked :
      (above place old : Address) (x : SplayTree T)
      → IsLinked old x
      → IsLinked place (moved above place x)
  moved-IsLinked above place old x h =
      set_parent-IsLinked place (some above) (fixup place x) (fixup-IsLinked place old x h)

  pub lowered-IsLinked :
      (s : Side) (this old : Address) (cid pid : ℕ) (p : T) (d x : SplayTree T)
      → IsLinked (slot pid (sibling s)) d
      → IsLinked old x
      → IsLinked (slot cid (sibling s)) (lowered s this cid pid p d x)
  unfolding sibling
  lowered-IsLinked left this old cid pid p d x hd hx = (
    set_parent-HasParent _ (fixup _ x),
    set_parent-HasParent _ d,
    moved-IsLinked _ _ old x hx,
    set_parent-IsLinked _ _ d hd,
  )
  lowered-IsLinked right this old cid pid p d x hd hx = (
    set_parent-HasParent _ d,
    set_parent-HasParent _ (fixup _ x),
    set_parent-IsLinked _ _ d hd,
    moved-IsLinked _ _ old x hx,
  )

  pub turned-IsLinked :
      (s : Side) (this : Address) (pid : ℕ) (p : T) (pp : Option Address) (d : SplayTree T)
      (cid : ℕ) (c : T) (a b : SplayTree T)
      → IsLinked (slot pid (sibling s)) d
      → IsLinked (slot cid left) a
      → IsLinked (slot cid right) b
      → IsLinked this (turned s this pid p pp d cid c a b)
  unfolding sibling
  turned-IsLinked left this pid p pp d cid c a b hd ha hb = (
    set_parent-HasParent _ a,
    refl,
    set_parent-IsLinked _ _ a ha,
    lowered-IsLinked left this (slot cid right) cid pid p d b hd hb,
  )
  turned-IsLinked right this pid p pp d cid c a b hd ha hb = (
    refl,
    set_parent-HasParent _ b,
    lowered-IsLinked right this (slot cid left) cid pid p d a hd ha,
    set_parent-IsLinked _ _ b hb,
  )
