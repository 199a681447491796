-- ===== src/SplayTree/Place.antt =====
-- The loop of `insert`: it ends at the value that is equal, or at the place of a new one.
use all.Prelude.{ℕ, ap, Option, ◌≡◌, refl, sym, ◌∙◌, Bool, true, false, List, [], ◌∷◌, inl, inr}
use all.Avl.Compare.{Ordered, Ordering-cases, ◌≺◌}
use all.Avl.Sorted.{
  All, All-append, IsSorted, IsSorted-append_left, IsSorted-append_right, IsSorted-below, All-below,
  All-above,
}
use all.SplayTree.{Address, sibling, Side, left, right, SplayTree, null, node, place}
use all.SplayTree.Pointers.{HasParent, IsLinked}
use all.SplayTree.Values.{Element, Lawful}
use all.SplayTree.Context.{address, up_pointer, AreLinked, Frame, frame, plug, sides}
use all.SplayTree.Rotate.{keys, IsFresh}
use all.SplayTree.Splay.{before_keys, after_keys, AreFresh}

module _ {ℓ} {T K : Type ℓ} ⦃e : Element T⦄ ⦃o : Ordered K⦄ (w : Lawful e K) where
  -- The place in the tree at `root` is that of an equal value, or it is empty, and all keys before it are
  -- below and all behind it above. The pointers around it are right, and the last is that to its parent.
  pub data Placed (root : Address) (v : T) (whole : SplayTree T)
      : Bool × List Side × Option Address → Type ℓ where
    found :
        (k : List (Frame T)) (id : ℕ) (x : T) (l r : SplayTree T)
        → plug k (node id x (up_pointer root k) l r) ≡ whole
        → w.key x ≡ w.key v
        → AreFresh w k
        → AreLinked root k
        → IsFresh w (node id x (up_pointer root k) l r)
        → IsLinked (address root k) (node id x (up_pointer root k) l r)
        → Placed root v whole (true, sides k, up_pointer root k)
    vacant :
        (k : List (Frame T))
        → plug k null ≡ whole
        → AreFresh w k
        → AreLinked root k
        → All (λ y. y ≺ w.key v) (before_keys w k)
        → All (λ y. w.key v ≺ y) (after_keys w k)
        → Placed root v whole (false, sides k, up_pointer root k)

  pub place-Placed :
      (root : Address) (v : T) (t : SplayTree T) (k : List (Frame T))
      → (AreFresh w k × AreLinked root k)
      → IsFresh w t
      → HasParent (up_pointer root k) t
      → IsLinked (address root k) t
      → IsSorted (keys w t)
      → All (λ y. y ≺ w.key v) (before_keys w k)
      → All (λ y. w.key v ≺ y) (after_keys w k)
      → Placed root v (plug k t) (place v t (address root k) (sides k) (up_pointer root k))
  unfolding place sibling
  place-Placed root v null k (hk, lk) ht hp lt' s below above = vacant k refl hk lk below above
  place-Placed root v (node id x q l r) k (hk, lk) ht hp lt' s below above =
      let sl = IsSorted-append_left (keys w l) (w.key x ∷ keys w r) s in
      let sr = IsSorted-append_right (keys w l) (w.key x ∷ keys w r) s in
      let under = IsSorted-below (keys w l) (w.key x) (keys w r) s in
      elim (Ordering-cases (e.cmp x v)) [
        | inl h ↦
            rw (place, h)
              (found k id x l r (ap (λ p. plug k (node id x p l r)) (sym hp))
                (o.eq_of_cmp _ _ (sym (w.cmp_key x v) ∙ h)) hk lk ht lt')
        | inr (inl h) ↦
            let p = o.lt_of_gt _ _ (sym (w.cmp_key x v) ∙ h) in
            rw (place, h)
              (place-Placed root v l (frame left id x q r ∷ k) ((ht.2, hk), (hp, lt'.1, lt'.3, lk))
                ht.1 lt'.0 lt'.2 sl (All-append _ (before_keys w k) [] below tt)
                (p, All-append _ (keys w r) (after_keys w k) (All-above _ _ _ p sr.0) above))
        | inr (inr h) ↦
            let p = sym (w.cmp_key x v) ∙ h in
            rw (place, h)
              (place-Placed root v r (frame right id x q l ∷ k) ((ht.1, hk), (hp, lt'.0, lt'.2, lk))
                ht.2 lt'.1 lt'.3 sr.1
                (All-append _ (before_keys w k) _ below
                  (All-append _ (keys w l) (w.key x ∷ []) (All-below _ _ _ p under) (p, tt)))
                above)
      ]
