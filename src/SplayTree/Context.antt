-- ===== src/SplayTree/Context.antt =====
-- The part of a tree above a place: the way up with the nodes and the other subtrees along it.
use all.Prelude.{ℕ, ◌≡◌, refl, Option, none, some, List, [], ◌∷◌}
use all.SplayTree.{
  Side, left, right, Address, slot, SplayTree, node, modify_child, modify_at, tree_at, address_at,
  child, child_address, sibling,
}
use all.SplayTree.Pointers.{HasParent, IsLinked}

-- A parent, and its other subtree.
pub record Frame {ℓ} (T : Type ℓ) : Type ℓ where
  pub side : Side
  pub id : ℕ
  pub value : T
  pub parent : Option Address
  pub other : SplayTree T

module _ {ℓ} {T : Type ℓ} where
  abbrev pub frame : Side → ℕ → T → Option Address → SplayTree T → Frame T
  frame s id v p t = record { side = s; id = id; value = v; parent = p; other = t }

  abbrev pub fill_side : Side → ℕ → T → Option Address → SplayTree T → SplayTree T → SplayTree T
  fill_side left id v p o t = node id v p t o
  fill_side right id v p o t = node id v p o t

  abbrev pub fill : Frame T → SplayTree T → SplayTree T
  fill f t = fill_side f.side f.id f.value f.parent f.other t

  abbrev pub plug : List (Frame T) → SplayTree T → SplayTree T
  plug [] t = t
  plug (f ∷ k) t = plug k (fill f t)

  abbrev pub sides : List (Frame T) → List Side
  sides [] = []
  sides (f ∷ k) = f.side ∷ sides k

  -- The address of the place, in a tree at `this`, and what its `parent` has to be.
  abbrev pub address : Address → List (Frame T) → Address
  address this [] = this
  address this (f ∷ k) = slot f.id f.side

  abbrev pub up_pointer : Address → List (Frame T) → Option Address
  up_pointer this [] = none
  up_pointer this (f ∷ k) = some (address this k)

  -- The pointers along the way and beside it are right, and the first of them is `nullptr`.
  abbrev pub AreLinked : Address → List (Frame T) → Type 0
  AreLinked this [] = Unit
  AreLinked this (f ∷ k) =
      (f.parent ≡ up_pointer this k)
      × HasParent (some (address this k)) f.other
      × IsLinked (slot f.id (sibling f.side)) f.other
      × AreLinked this k

  pub modify_child-fill :
      (s : Side) (id : ℕ) (v : T) (p : Option Address) (o : SplayTree T) (this : Address)
      (g : Address → SplayTree T → Option (SplayTree T)) (t t' : SplayTree T)
      → g (slot id s) t ≡ some t'
      → modify_child s g this (fill_side s id v p o t) ≡ some (fill_side s id v p o t')
  unfolding modify_child
  modify_child-fill left id v p o this g t t' e = rw e
  modify_child-fill right id v p o this g t t' e = rw e

  -- A call through a pointer changes the place it leads to, and nothing above it.
  pub modify_at-plug :
      (k : List (Frame T)) (this : Address) (g : Address → SplayTree T → Option (SplayTree T))
      (t t' : SplayTree T)
      → g (address this k) t ≡ some t'
      → modify_at (sides k) g this (plug k t) ≡ some (plug k t')
  unfolding modify_at modify_child
  modify_at-plug [] this g t t' e = e
  modify_at-plug (f ∷ k) this g t t' e =
      modify_at-plug k this (modify_child f.side g) (fill f t) (fill f t')
        (modify_child-fill f.side f.id f.value f.parent f.other (address this k) g t t' e)

  pub child-fill :
      (s : Side) (id : ℕ) (v : T) (p : Option Address) (o t : SplayTree T)
      → child (fill_side s id v p o t) s ≡ some t
  unfolding child
  child-fill left id v p o t = refl
  child-fill right id v p o t = refl

  child_address-fill :
      (s : Side) (id : ℕ) (v : T) (p : Option Address) (o t : SplayTree T)
      → child_address (fill_side s id v p o t) s ≡ some (slot id s)
  unfolding child_address
  child_address-fill left id v p o t = refl
  child_address-fill right id v p o t = refl

  -- Reading through a pointer.
  pub tree_at-plug : (k : List (Frame T)) (t : SplayTree T) → tree_at (sides k) (plug k t) ≡ some t
  unfolding tree_at
  tree_at-plug [] t = refl
  tree_at-plug (f ∷ k) t =
      rw (tree_at-plug k (fill f t)) (child-fill f.side f.id f.value f.parent f.other t)

  pub address_at-plug :
      (k : List (Frame T)) (this : Address) (t : SplayTree T)
      → address_at (sides k) this (plug k t) ≡ some (address this k)
  unfolding address_at
  address_at-plug [] this t = refl
  address_at-plug (f ∷ k) this t =
      rw (tree_at-plug k (fill f t)) (child_address-fill f.side f.id f.value f.parent f.other t)
