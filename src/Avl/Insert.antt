-- ===== src/Avl/Insert.antt =====
-- `insert` keeps a valid tree valid, and inserts into the sorted list of its values.
use Prim.Native.Nat.Ordering.{lt, eq, gt}
use all.Prelude.{ℕ, ◌+◌, ◌≤◌, ◌≡◌, refl, sym, ◌∙◌, Option, some, ◌∷◌, ◌++◌, arith, inl, inr}
use all.Avl.{Node, null, node, depth, insert, rebalance}
use all.Avl.Compare.{Ordered, Ordering-cases}
use all.Avl.Balance.{IsAvl, to_list}
use all.Avl.Repair.{Repaired, rebalance-Repaired}
use all.Avl.Sorted.{
  All-below, IsSorted, insert_list, IsSorted-append_left, IsSorted-append_right, IsSorted-below,
  insert_list-append_below, insert_list-append_above,
}

module _ {ℓ} {T : Type ℓ} ⦃o : Ordered T⦄ where
  pub record Inserted (value : T) (t : Node T) (out : Option (Node T)) : Type ℓ where
    pub t' : Node T
    pub result : out ≡ some t'
    pub valid : IsAvl t'
    pub low : depth t ≤ depth t'
    pub high : depth t' ≤ depth t + 1
    pub values : to_list t' ≡ insert_list value (to_list t)

  -- The list of a tree takes the value on the side that the comparison shows.
  insert_list_root :
      (v w : T) (l r : Node T)
      → o.cmp w v ≡ eq
      → IsSorted (to_list l ++ w ∷ to_list r)
      → insert_list v (to_list l ++ w ∷ to_list r) ≡ to_list l ++ w ∷ to_list r
  insert_list_root v w l r e s =
      let same : w ≡ v = o.eq_of_cmp w v e in
      insert_list-append_below v (to_list l) (w ∷ to_list r)
        (rw same at (IsSorted-below (to_list l) w (to_list r) s))
      ∙ rw (e, insert_list)

  insert_list_left :
      (v w : T) (l r : Node T)
      → o.cmp w v ≡ gt
      → insert_list v (to_list l ++ w ∷ to_list r) ≡ insert_list v (to_list l) ++ w ∷ to_list r
  insert_list_left v w l r e =
      insert_list-append_above v w (to_list l) (to_list r) (o.lt_of_gt w v e)

  insert_list_right :
      (v w : T) (l r : Node T)
      → o.cmp w v ≡ lt
      → IsSorted (to_list l ++ w ∷ to_list r)
      → insert_list v (to_list l ++ w ∷ to_list r) ≡ to_list l ++ w ∷ insert_list v (to_list r)
  insert_list_right v w l r e s =
      insert_list-append_below v (to_list l) (w ∷ to_list r)
        (All-below w v (to_list l) e (IsSorted-below (to_list l) w (to_list r) s))
      ∙ rw (e, insert_list)

  insert_left :
      (v w : T) (d : ℕ) (l r : Node T)
      → IsAvl (node w d l r)
      → o.cmp w v ≡ gt
      → (i : Inserted v l (insert l v)) → Repaired w i.t' r (rebalance (node w d i.t' r))
      → Inserted v (node w d l r) (insert (node w d l r) v)
  unfolding insert
  insert_left v w d l r a e i fixed = record {
    t' = fixed.t;
    result = rw (insert, e, i.result) fixed.result;
    valid = fixed.valid;
    low = omega arith;
    high = omega arith;
    values = fixed.same ∙ rw i.values (sym (insert_list_left v w l r e));
  }

  insert_right :
      (v w : T) (d : ℕ) (l r : Node T)
      → IsAvl (node w d l r)
      → o.cmp w v ≡ lt
      → IsSorted (to_list l ++ w ∷ to_list r)
      → (i : Inserted v r (insert r v)) → Repaired w l i.t' (rebalance (node w d l i.t'))
      → Inserted v (node w d l r) (insert (node w d l r) v)
  unfolding insert
  insert_right v w d l r a e s i fixed = record {
    t' = fixed.t;
    result = rw (insert, e, i.result) fixed.result;
    valid = fixed.valid;
    low = omega arith;
    high = omega arith;
    values = fixed.same ∙ rw i.values (sym (insert_list_right v w l r e s));
  }

  -- On a valid tree of sorted values `insert` violates no assertion, gives a valid tree that is at
  -- most one level deeper, and its values are those of the sorted list with the value put in.
  pub insert-Inserted :
      (t : Node T) (v : T) → IsAvl t → IsSorted (to_list t) → Inserted v t (insert t v)
  unfolding insert
  insert-Inserted null v a s = record {
    t' = node v 1 null null;
    result = refl;
    valid = omega arith;
    low = omega arith;
    high = omega arith;
    values = refl;
  }
  insert-Inserted (node w d l r) v a s = elim (Ordering-cases (o.cmp w v)) [
    | inl e ↦ record {
      t' = node w d l r;
      result = rw (insert, e);
      valid = a;
      low = omega arith;
      high = omega arith;
      values = sym (insert_list_root v w l r e s);
    }
    | inr (inl e) ↦
        let i = insert-Inserted l v a.3 (IsSorted-append_left (to_list l) (w ∷ to_list r) s) in
        insert_left v w d l r a e i
          (rebalance-Repaired w d i.t' r i.valid a.4 (omega arith) (omega arith))
    | inr (inr e) ↦
        let i = insert-Inserted r v a.4 (IsSorted-append_right (to_list l) (w ∷ to_list r) s).1 in
        insert_right v w d l r a e s i
          (rebalance-Repaired w d l i.t' a.3 i.valid (omega arith) (omega arith))
  ]
