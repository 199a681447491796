-- ===== src/SplayTree/Laws.antt =====
-- What `insert` and `splay` promise to a client: the tree as a sorted list of keys, the value on
-- top, and the states all up to date.
use all.Prelude.{
  ℕ, ◌+◌, ◌≡◌, refl, sym, ◌∙◌, Bool, true, false, Option, none, some, List, [], ◌∷◌, ◌++◌, length,
  append_assoc, arith, if◌then◌else◌, length-append,
}
use all.Avl.Compare.{Ordered, ◌≺◌}
use all.Avl.Sorted.{
  All, IsSorted, IsSorted-below, insert_list, insert_list-IsSorted, insert_list-append_below,
}
use all.SplayTree.{Side, Address, SplayTree, null, node, splay, insert, insert_at, place}
use all.SplayTree.Values.{Element, Lawful}
use all.SplayTree.Pointers.{HasParent, IsLinked}
use all.SplayTree.Context.{Frame, plug, sides, address, up_pointer, AreLinked, modify_at-plug}
use all.SplayTree.Rotate.{keys, IsFresh}
use all.SplayTree.Splay.{before_keys, after_keys, AreFresh, keys-plug, Splayed, splay-Splayed}
use all.SplayTree.Place.{Placed, found, vacant, place-Placed}

module _ {ℓ} {K : Type ℓ} ⦃o : Ordered K⦄ where
  insert_list-above : (v : K) (ys : List K) → All (λ y. v ≺ y) ys → insert_list v ys ≡ v ∷ ys
  insert_list-above v [] h = refl
  insert_list-above v (y ∷ ys) h = rw (insert_list, o.gt_of_lt v y h.0)

  -- A list takes a new value between those below it and those above it.
  insert_list-between :
      (v : K) (xs ys : List K)
      → All (λ y. y ≺ v) xs
      → All (λ y. v ≺ y) ys
      → insert_list v (xs ++ ys) ≡ xs ++ v ∷ ys
  insert_list-between v xs ys h h' =
      insert_list-append_below v xs ys h ∙ rw (insert_list-above v ys h')

  insert_list-member :
      (v : K) (xs ys : List K)
      → IsSorted (xs ++ v ∷ ys)
      → insert_list v (xs ++ v ∷ ys) ≡ xs ++ v ∷ ys
  insert_list-member v xs ys s =
      insert_list-append_below v xs (v ∷ ys) (IsSorted-below xs v ys s)
      ∙ rw (insert_list, o.cmp_refl v)

module _ {ℓ} {T K : Type ℓ} ⦃e : Element T⦄ ⦃o : Ordered K⦄ (w : Lawful e K) where
  -- In a tree at the address `this` the keys increase from left to right, every state is up to date,
  -- the parent of the root is `nullptr`, and that of any other node is the place of the one above.
  pub record IsValid (this : Address) (t : SplayTree T) : Type ℓ where
    pub sorted : IsSorted (keys w t)
    pub fresh : IsFresh w t
    pub top : HasParent none t
    pub linked : IsLinked this t

  record Inserted (this : Address) (v : T) (t : SplayTree T)
      (out : Option (List Side × Bool × SplayTree T)) : Type ℓ where
    id : ℕ
    top : T
    l' : SplayTree T
    r' : SplayTree T
    is_new : Bool
    result : out ≡ some ([], is_new, node id top none l' r')
    same_key : w.key top ≡ w.key v
    fresh : IsFresh w (node id top none l' r')
    linked : IsLinked this (node id top none l' r')
    inserted : keys w (node id top none l' r') ≡ insert_list (w.key v) (keys w t)
    count : length (keys w (node id top none l' r')) ≡ (if is_new then 1 else 0) + length (keys w t)

  -- The keys around a value that is equal.
  keys-member :
      (v : T) (k : List (Frame T)) (id : ℕ) (x : T) (p : Option Address) (l r : SplayTree T)
      → w.key x ≡ w.key v
      → keys w (plug k (node id x p l r))
        ≡ (before_keys w k ++ keys w l) ++ w.key v ∷ (keys w r ++ after_keys w k)
  keys-member v k id x p l r h = keys-plug w k (node id x p l r) ∙ rw h (simp append_assoc)

  keys-leaf :
      (id : ℕ) (v : T) (p : Option Address) (k : List (Frame T))
      → keys w (plug k (node id v p null null)) ≡ before_keys w k ++ w.key v ∷ after_keys w k
  keys-leaf id v p k = keys-plug w k (node id v p null null) ∙ simp append_assoc

  keys-hole : (k : List (Frame T)) → keys w (plug k null) ≡ before_keys w k ++ after_keys w k
  keys-hole k = keys-plug w k null ∙ simp append_assoc

  found-Inserted :
      (this : Address) (new : ℕ) (v : T) (k : List (Frame T)) (id : ℕ) (x : T) (p : Option Address)
      (l r : SplayTree T)
      → w.key x ≡ w.key v
      → IsSorted (keys w (plug k (node id x p l r)))
      → Splayed w this x
          (plug k (node id x p l r))
          (splay none (sides k) this (plug k (node id x p l r)))
      → Inserted this v
          (plug k (node id x p l r))
          (insert_at none new v (true, sides k, p) this (plug k (node id x p l r)))
  unfolding insert_at
  found-Inserted this new v k id x p l r h s i =
      let whole = keys-member v k id x p l r h in
      record {
        id = i.id;
        top = i.top;
        l' = i.l';
        r' = i.r';
        is_new = false;
        result = rw i.result;
        same_key = i.same_key ∙ h;
        fresh = i.fresh;
        linked = i.linked;
        inserted =
            i.same ∙ whole ∙ sym (insert_list-member (w.key v) _ _ (rw whole at s)) ∙ rw whole;
        count = rw i.same (omega arith);
      }

  vacant-Inserted :
      (this : Address) (new : ℕ) (v : T) (p : Option Address) (k : List (Frame T))
      → All (λ y. y ≺ w.key v) (before_keys w k)
      → All (λ y. w.key v ≺ y) (after_keys w k)
      → Splayed w this v
          (plug k (node new v p null null))
          (splay none (sides k) this (plug k (node new v p null null)))
      → Inserted this v (plug k null) (insert_at none new v (false, sides k, p) this (plug k null))
  unfolding insert_at
  vacant-Inserted this new v p k below above i =
      let same : keys w (node i.id i.top none i.l' i.r')
          ≡ before_keys w k ++ w.key v ∷ after_keys w k =
        i.same ∙ keys-leaf new v p k in
      record {
        id = i.id;
        top = i.top;
        l' = i.l';
        r' = i.r';
        is_new = true;
        result = rw (
          modify_at-plug k this (λ _ _. some (node new v p null null)) null (node new v p null null)
              refl,
          i.result,
        );
        same_key = i.same_key;
        fresh = i.fresh;
        linked = i.linked;
        inserted =
            same
            ∙ sym (insert_list-between (w.key v) (before_keys w k) (after_keys w k) below above)
            ∙ rw (keys-hole k);
        count = rw (same, keys-hole k, length-append, length-append) (omega arith);
      }

  Placed-Inserted :
      (this : Address) (new : ℕ) (v : T) (t : SplayTree T) (out : Bool × List Side × Option Address)
      → e.refresh v none none ≡ v
      → IsSorted (keys w t)
      → Placed w this v t out
      → Inserted this v t (insert_at none new v out this t)
  Placed-Inserted this new v t out hv s (found k id x l r whole h hk lk ht lt') = rw (← whole) (
      found-Inserted this new v k id x (up_pointer this k) l r h (rw (← whole) at s)
        (splay-Splayed w k this id x l r hk lk ht lt'))
  Placed-Inserted this new v t out hv s (vacant k whole hk lk below above) = rw (← whole) (
      vacant-Inserted this new v (up_pointer this k) k below above
        (splay-Splayed w k this new v null null hk lk (hv, refl, refl) (tt, tt, tt, tt)))

  -- Where values are ordered by a key that `refresh_state` leaves alone, and what `refresh_state` sets
  -- does not depend on the state before it: in a valid tree, for a value whose own state is up to date
  -- and any address of the new node, `insert` with the default `target_parent` violates no assertion.
  -- It leaves a valid tree with a value of that key on top, to which it returns a pointer, and whose
  -- keys are those of the sorted list with the key inserted; and it says that the value is new where
  -- the tree has one key more.
  pub insert_lem :
      (this : Address) (new : ℕ) (v : T) (t : SplayTree T)
      → IsValid this t
      → e.refresh v none none ≡ v
      → (id : ℕ) × (top : T) × (l r : SplayTree T) × (is_new : Bool) × (insert none new v this t
          ≡ some ([], is_new, node id top none l r))
        × (w.key top ≡ w.key v)
        × IsValid this (node id top none l r)
        × (keys w (node id top none l r) ≡ insert_list (w.key v) (keys w t))
        × (length (keys w (node id top none l r)) ≡ (if is_new then 1 else 0) + length (keys w t))
  unfolding insert
  insert_lem this new v t h hv =
      let i =
        Placed-Inserted this new v t (place v t this [] none) hv h.sorted
          (place-Placed w this v t [] (refl, tt) h.fresh h.top h.linked h.sorted tt tt) in
      let sorted' : IsSorted (keys w (node i.id i.top none i.l' i.r')) =
        rw i.inserted (insert_list-IsSorted (w.key v) (keys w t) h.sorted) in
      (
        i.id,
        i.top,
        i.l',
        i.r',
        i.is_new,
        i.result,
        i.same_key,
        record { sorted = sorted'; fresh = i.fresh; top = refl; linked = i.linked },
        i.inserted,
        i.count,
      )

  -- Where values are ordered by a key that `refresh_state` leaves alone, and what `refresh_state` sets
  -- does not depend on the state before it: in a tree with right pointers, from a node that is up to date
  -- with all below it, and where all subtrees beside the way up are up to date, `splay` with the default
  -- `target_parent` violates no assertion and returns a pointer to the top. It leaves a tree with the
  -- key of the node on top, the keys in the order they had, right pointers, and every state up to date,
  -- also those on the way up, which need not have been.
  pub splay_lem :
      (k : List (Frame T)) (this : Address) (id : ℕ) (v : T) (l r : SplayTree T)
      → AreFresh w k
      → AreLinked this k
      → IsFresh w (node id v (up_pointer this k) l r)
      → IsLinked (address this k) (node id v (up_pointer this k) l r)
      → (id' : ℕ) × (top : T) × (l' r' : SplayTree T) × (splay none
            (sides k)
            this
            (plug k (node id v (up_pointer this k) l r))
          ≡ some ([], node id' top none l' r'))
        × (w.key top ≡ w.key v)
        × (keys w (node id' top none l' r') ≡ keys w (plug k (node id v (up_pointer this k) l r)))
        × IsFresh w (node id' top none l' r')
        × IsLinked this (node id' top none l' r')
  splay_lem k this id v l r hk lk h lh =
      let i = splay-Splayed w k this id v l r hk lk h lh in
      (i.id, i.top, i.l', i.r', i.result, i.same_key, i.same, i.fresh, i.linked)
