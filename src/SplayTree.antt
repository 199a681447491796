-- ===== src/SplayTree.antt =====
-- ivl/structs/splay_tree.hpp: the splay tree whose values keep a state that depends on the values
-- below. A `unique_ptr<Node>` owns its node, so what it leads to is a tree. A node has an address,
-- which is a number, and a `parent`, a pointer that is stored and read as in the program. The model
-- knows where a pointer leads that a loop follows, as the way up from there, nearest side first. It
-- follows a stored `parent` only if that is the address of the place one side up; elsewhere, as for a
-- violated `IVL_DBG_ASSERT`, the outcome is `none`.
pub mod Values
pub mod Pointers
pub mod Context
pub mod Rotate
pub mod Raise
pub mod Splay
pub mod Place
pub mod Laws
mod Examples
use Prim.Native.Nat.Ordering.{lt, eq, gt}
use all.Prelude.{
  ℕ, ◌+◌, max, Bool, true, false, not, ◌&&◌, Option, none, some, ◌>>=◌, ◌>>◌, assert, List, [], ◌∷◌,
  ◌==◌, if◌then◌else◌,
}
use Values.{Element}

pub data Side : Type 0 where
  left right : Side

unfoldable pub sibling : Side → Side
sibling left = right
sibling right = left

abbrev pub same_side : Side → Side → Bool
same_side left left = true
same_side right right = true
same_side _ _ = false

-- A `SplayTree*`: to a variable or a member of another object, or to `children[side]` of a node.
pub data Address : Type 0 where
  object : ℕ → Address
  slot : ℕ → Side → Address

abbrev pub same_address : Address → Address → Bool
same_address (object a) (object b) = a == b
same_address (slot a s) (slot b s') = a == b && same_side s s'
same_address _ _ = false

-- `nullptr` is `none`.
abbrev pub same_pointer : Option Address → Option Address → Bool
same_pointer none none = true
same_pointer (some a) (some b) = same_address a b
same_pointer _ _ = false

-- A node has its address, its value, its parent and its two children.
pub data SplayTree {ℓ} (T : Type ℓ) : Type ℓ where
  null : SplayTree T
  node : ℕ → T → Option Address → SplayTree T → SplayTree T → SplayTree T

module _ {ℓ} {T : Type ℓ} where
  unfoldable pub empty : SplayTree T → Bool
  empty null = true
  empty (node id v p l r) = false

  -- `child(side)`, read.
  unfoldable pub child : SplayTree T → Side → Option (SplayTree T)
  child null s = none
  child (node id v p l r) left = some l
  child (node id v p l r) right = some r

  -- `child(side) = c`, without what the assignment does to `c`.
  unfoldable pub set_child : SplayTree T → Side → SplayTree T → Option (SplayTree T)
  set_child null s c = none
  set_child (node id v p l r) left c = some (node id v p c r)
  set_child (node id v p l r) right c = some (node id v p l c)

  -- `&child(side)`.
  unfoldable pub child_address : SplayTree T → Side → Option Address
  child_address null s = none
  child_address (node id v p l r) s = some (slot id s)

  -- `parent()`, read.
  unfoldable pub parent : SplayTree T → Option (Option Address)
  parent null = none
  parent (node id v p l r) = some p

  -- `if (t) t.parent() = q`.
  abbrev pub set_parent : Option Address → SplayTree T → SplayTree T
  set_parent q null = null
  set_parent q (node id v p l r) = node id v q l r

  -- What a move to the address `this` leaves there, by the constructor or the assignment.
  abbrev pub fixup : Address → SplayTree T → SplayTree T
  fixup this null = null
  fixup this (node id v p l r) =
      node id v none (set_parent (some this) l) (set_parent (some this) r)

  -- The side whose child is at this address, which must be one of the two.
  unfoldable pub child_side : SplayTree T → Address → Option Side
  child_side null c = none
  child_side (node id v p l r) c =
      if same_address (slot id left) c
      then some left
      else if same_address (slot id right) c
      then some right
      else none

  abbrev pub value_ptr : SplayTree T → Option T
  value_ptr null = none
  value_ptr (node id v p l r) = some v

  unfoldable pub max_depth : SplayTree T → ℕ
  max_depth null = 0
  max_depth (node id v p l r) = 1 + max (max_depth l) (max_depth r)

  -- What a call on a tree at an address leaves there: on the child of a tree, and on the tree that a
  -- way leads to from the whole tree at `this`.
  unfoldable pub modify_child :
      Side
      → (Address → SplayTree T → Option (SplayTree T))
      → Address
      → SplayTree T
      → Option (SplayTree T)
  modify_child s f this null = none
  modify_child left f this (node id v p l r) = f (slot id left) l >>= λ l'. some (node id v p l' r)
  modify_child right f this (node id v p l r) =
      f (slot id right) r >>= λ r'. some (node id v p l r')

  unfoldable pub modify_at :
      List Side
      → (Address → SplayTree T → Option (SplayTree T))
      → Address
      → SplayTree T
      → Option (SplayTree T)
  unfolding modify_child
  modify_at [] f this t = f this t
  modify_at (s ∷ up) f this t = modify_at up (modify_child s f) this t

  -- The tree that a way leads to, and its address.
  unfoldable pub tree_at : List Side → SplayTree T → Option (SplayTree T)
  unfolding child
  tree_at [] t = some t
  tree_at (s ∷ up) t = tree_at up t >>= λ p. child p s

  unfoldable pub address_at : List Side → Address → SplayTree T → Option Address
  unfolding tree_at child_address
  address_at [] this t = some this
  address_at (s ∷ up) this t = tree_at up t >>= λ p. child_address p s

  -- Reads the `parent()` of the tree at a place.
  unfoldable pub parent_at : List Side → SplayTree T → Option (Option Address)
  unfolding tree_at parent
  parent_at up t = tree_at up t >>= parent

  -- The step to a pointer, which has to lead to the place at the end of this way.
  unfoldable pub follow : List Side → Option Address → Address → SplayTree T → Option (Unit {0})
  unfolding address_at
  follow up q this t = address_at up this t >>= λ place. assert (same_pointer q (some place))

module _ {ℓ} {T : Type ℓ} ⦃e : Element T⦄ where
  unfoldable pub refresh_state : SplayTree T → Option (SplayTree T)
  refresh_state null = none
  refresh_state (node id v p l r) = some (node id (e.refresh v (value_ptr l) (value_ptr r)) p l r)

  -- The child that is cut off, moved to the address `ret`, and the tree without it.
  unfoldable pub cut : Address → SplayTree T → Side → Option (SplayTree T × SplayTree T)
  unfolding child set_child refresh_state
  cut ret t s = do
    c ← child t s
    moved ← set_child t s null
    t' ← refresh_state moved
    some (fixup ret c, t')

  unfoldable pub link : Address → SplayTree T → SplayTree T → Side → Option (SplayTree T)
  unfolding set_child child_address refresh_state
  link this t new_child s = do
    place ← child_address t s
    t' ← set_child t s (set_parent (some this) (fixup place new_child))
    refresh_state t'

  -- The local variables `c` and `gc`.
  unfoldable pub rotate : Side → Address → SplayTree T → Option (SplayTree T)
  unfolding sibling empty child parent cut link
  rotate s this t = do
    assert (not (empty t))
    heavy ← child t s
    assert (not (empty heavy))
    p ← parent t
    (c, t1) ← cut (object 0) t s
    (gc, c1) ← cut (object 1) c (sibling s)
    t2 ← link this t1 gc s
    c2 ← link (object 0) c1 t2 (sibling s)
    some (set_parent p (fixup this c2))

  -- `parent->rotate(parent->child_side(*current))`, for `current` at this address.
  unfoldable pub rotate_up : Address → Address → SplayTree T → Option (SplayTree T)
  unfolding child_side rotate
  rotate_up current this t = child_side t current >>= λ s. rotate s this t

  -- The two rotations of a round, at the grandparent.
  unfoldable pub splay_step : Side → Side → Address → SplayTree T → Option (SplayTree T)
  unfolding rotate modify_child
  splay_step ps gps this t =
      if same_side ps gps
      then (rotate ps this t >>= rotate ps this)
      else (modify_child gps (rotate ps) this t >>= rotate gps this)

  -- A round with a grandparent, for `parent` and `current` at these addresses.
  unfoldable pub splay_round : Address → Address → Address → SplayTree T → Option (SplayTree T)
  unfolding child child_side splay_step
  splay_round at_parent current this t = do
    gps ← child_side t at_parent
    parent_tree ← child t gps
    ps ← child_side parent_tree current
    splay_step ps gps this t

  -- The round with no grandparent, and the pointer to the parent.
  unfoldable pub last_round :
      Side → List Side → Address → SplayTree T → Option (List Side × SplayTree T)
  unfolding address_at modify_at rotate_up
  last_round s up this t = do
    current ← address_at (s ∷ up) this t
    t' ← modify_at up (rotate_up current) this t
    some (up, t')

  unfoldable pub full_round : Side → Side → List Side → Address → SplayTree T → Option (SplayTree T)
  unfolding address_at modify_at splay_round
  full_round s s' up this t = do
    current ← address_at (s ∷ s' ∷ up) this t
    at_parent ← address_at (s' ∷ up) this t
    modify_at up (splay_round at_parent current) this t

  -- `splay(target_parent)`: where the pointer that it returns leads, and what is left of the tree.
  unfoldable pub splay :
      Option Address → List Side → Address → SplayTree T → Option (List Side × SplayTree T)
  unfolding parent_at follow last_round full_round
  splay target [] this t =
      parent_at [] t >>= λ q. if same_pointer q target then some ([], t) else none
  splay target (s ∷ []) this t =
      let at_target =
        parent_at [] t >>= λ gq. if same_pointer gq target then last_round s [] this t else none in
      parent_at (s ∷ []) t >>= λ q.
      if same_pointer q target then some (s ∷ [], t) else (follow [] q this t >> at_target)
  splay target (s ∷ s' ∷ up) this t =
      let rest = full_round s s' up this t >>= splay target up this in
      let at_target = parent_at (s' ∷ up) t >>= λ gq.
      if same_pointer gq target
      then last_round s (s' ∷ up) this t
      else (follow up gq this t >> rest) in
      parent_at (s ∷ s' ∷ up) t >>= λ q.
      if same_pointer q target
      then some (s ∷ s' ∷ up, t)
      else (follow (s' ∷ up) q this t >> at_target)

  -- The loop of `insert`: whether the value is there, the way to `current`, and `parent`, from the tree
  -- at the address `this` on.
  unfoldable pub place :
      T → SplayTree T → Address → List Side → Option Address → Bool × List Side × Option Address
  place value null this up p = (false, up, p)
  place value (node id v q l r) this up p = elim (e.cmp v value) [
    | eq ↦ (true, up, p)
    | gt ↦ place value l (slot id left) (left ∷ up) (some this)
    | lt ↦ place value r (slot id right) (right ∷ up) (some this)
  ]

  unfoldable pub insert_at :
      Option Address
      → ℕ
      → T
      → Bool × List Side × Option Address
      → Address
      → SplayTree T
      → Option (List Side × Bool × SplayTree T)
  unfolding modify_at splay
  insert_at target id value (true, up, p) this t = do
    (way, t') ← splay target up this t
    some (way, false, t')
  insert_at target id value (false, up, p) this t = do
    t1 ← modify_at up (λ _ _. some (node id value p null null)) this t
    (way, t2) ← splay target up this t1
    some (way, true, t2)

  -- `insert(value, target_parent)` on the tree at `this`, with the address of the node that
  -- `make_unique` would give: where the pointer that it returns leads, whether the value is new, and
  -- what is left of the tree.
  unfoldable pub insert :
      Option Address → ℕ → T → Address → SplayTree T → Option (List Side × Bool × SplayTree T)
  unfolding place insert_at
  insert target id value this t = insert_at target id value (place value t this [] target) this t
