-- ===== src/Avl/Erase.antt =====
-- `steal_first` and `erase` keep a valid tree valid, and remove from the sorted list of its values.
use Prim.Native.Nat.Ordering.{lt, eq, gt}
use all.Prelude.{
  ℕ, ◌+◌, ◌≤◌, ◌≡◌, refl, sym, ◌∙◌, ap, Option, some, ◌∷◌, ◌++◌, arith, inl, inr, append-nil, List,
}
use all.Avl.{Node, null, node, depth, steal_first, erase_root, erase, rebalance}
use all.Avl.Compare.{Ordered, Ordering-cases}
use all.Avl.Balance.{IsAvl, to_list}
use all.Avl.Repair.{Repaired, rebalance-Repaired}
use all.Avl.Sorted.{
  All-below, IsSorted, erase_list, IsSorted-append_left, IsSorted-append_right, IsSorted-below,
  erase_list-append_below, erase_list-append_above,
}

module _ {ℓ} {T : Type ℓ} where
  pub record Stolen (t : Node T) (out : Option (T × Node T)) : Type ℓ where
    pub first : T
    pub t' : Node T
    pub result : out ≡ some (first, t')
    pub valid : IsAvl t'
    pub low : depth t ≤ depth t' + 1
    pub high : depth t' ≤ depth t
    pub values : to_list t ≡ first ∷ to_list t'

  steal_left :
      (v : T) (d : ℕ) (l r : Node T)
      → IsAvl (node v d l r)
      → (s : Stolen l (steal_first l)) → Repaired v s.t' r (rebalance (node v d s.t' r))
      → Stolen (node v d l r) (steal_first (node v d l r))
  unfolding steal_first
  steal_left v d null r a s fixed = absurd (cc s.values)
  steal_left v d (node lv ld ll lr) r a s fixed = record {
    first = s.first;
    t' = fixed.t;
    result = rw (s.result, fixed.result);
    valid = fixed.valid;
    low = omega arith;
    high = omega arith;
    values = rw s.values (ap (λ xs. s.first ∷ xs) (sym fixed.same));
  }

  -- On a valid tree that is not empty `steal_first` violates no assertion: it gives the first
  -- value of the list, and a valid tree of the others.
  pub steal_first-Stolen :
      (v : T) (d : ℕ) (l r : Node T)
      → IsAvl (node v d l r)
      → Stolen (node v d l r) (steal_first (node v d l r))
  steal_first-Stolen v d null r a = record {
    first = v;
    t' = r;
    result = unfold steal_first in refl;
    valid = a.4;
    low = omega arith;
    high = omega arith;
    values = refl;
  }
  steal_first-Stolen v d (node lv ld ll lr) r a =
      let s = steal_first-Stolen lv ld ll lr a.3 in
      steal_left v d (node lv ld ll lr) r a s
        (rebalance-Repaired v d s.t' r s.valid a.4 (omega arith) (omega arith))

  -- A tree without its root's value.
  pub record Emptied (t : Node T) (xs : List T) (out : Option (Node T)) : Type ℓ where
    pub t' : Node T
    pub result : out ≡ some t'
    pub valid : IsAvl t'
    pub low : depth t ≤ depth t' + 1
    pub high : depth t' ≤ depth t
    pub values : to_list t' ≡ xs

  erase_root_two :
      (v : T) (d : ℕ) (lv : T) (ld : ℕ) (ll lr : Node T) (rv : T) (rd : ℕ) (rl rr : Node T)
      → let l = node lv ld ll lr in
        let r = node rv rd rl rr in
        IsAvl (node v d l r)
        → (s : Stolen r (steal_first r))
        → Repaired s.first l s.t' (rebalance (node s.first d l s.t'))
        → Emptied (node v d l r) (to_list l ++ to_list r) (erase_root (node v d l r))
  unfolding erase_root
  erase_root_two v d lv ld ll lr rv rd rl rr a s fixed = record {
    t' = fixed.t;
    result = rw s.result fixed.result;
    valid = fixed.valid;
    low = omega arith;
    high = omega arith;
    values = fixed.same ∙ ap (λ xs. to_list (node lv ld ll lr) ++ xs) (sym s.values);
  }

  pub erase_root-Emptied :
      (v : T) (d : ℕ) (l r : Node T)
      → IsAvl (node v d l r)
      → Emptied (node v d l r) (to_list l ++ to_list r) (erase_root (node v d l r))
  erase_root-Emptied v d null null a = record {
    t' = null;
    result = unfold erase_root in refl;
    valid = tt;
    low = omega arith;
    high = omega arith;
    values = refl;
  }
  erase_root-Emptied v d null (node rv rd rl rr) a = record {
    t' = node rv rd rl rr;
    result = unfold erase_root in refl;
    valid = a.4;
    low = omega arith;
    high = omega arith;
    values = refl;
  }
  erase_root-Emptied v d (node lv ld ll lr) null a = record {
    t' = node lv ld ll lr;
    result = unfold erase_root in refl;
    valid = a.3;
    low = omega arith;
    high = omega arith;
    values = sym (append-nil (to_list (node lv ld ll lr)));
  }
  erase_root-Emptied v d (node lv ld ll lr) (node rv rd rl rr) a =
      let s = steal_first-Stolen rv rd rl rr a.4 in
      erase_root_two v d lv ld ll lr rv rd rl rr a s (
        rebalance-Repaired s.first d (node lv ld ll lr) s.t' a.3 s.valid (omega arith)
          (omega arith))

module _ {ℓ} {T : Type ℓ} ⦃o : Ordered T⦄ where
  abbrev pub Erased : T → Node T → Option (Node T) → Type ℓ
  Erased v t out = Emptied t (erase_list v (to_list t)) out

  erase_list_root :
      (v w : T) (l r : Node T)
      → o.cmp w v ≡ eq
      → IsSorted (to_list l ++ w ∷ to_list r)
      → erase_list v (to_list l ++ w ∷ to_list r) ≡ to_list l ++ to_list r
  erase_list_root v w l r e s =
      let same : w ≡ v = o.eq_of_cmp w v e in
      erase_list-append_below v (to_list l) (w ∷ to_list r)
        (rw same at (IsSorted-below (to_list l) w (to_list r) s))
      ∙ rw (e, erase_list)

  erase_list_left :
      (v w : T) (l r : Node T)
      → o.cmp w v ≡ gt
      → erase_list v (to_list l ++ w ∷ to_list r) ≡ erase_list v (to_list l) ++ w ∷ to_list r
  erase_list_left v w l r e = erase_list-append_above v w (to_list l) (to_list r) (o.lt_of_gt w v e)

  erase_list_right :
      (v w : T) (l r : Node T)
      → o.cmp w v ≡ lt
      → IsSorted (to_list l ++ w ∷ to_list r)
      → erase_list v (to_list l ++ w ∷ to_list r) ≡ to_list l ++ w ∷ erase_list v (to_list r)
  erase_list_right v w l r e s =
      erase_list-append_below v (to_list l) (w ∷ to_list r)
        (All-below w v (to_list l) e (IsSorted-below (to_list l) w (to_list r) s))
      ∙ rw (e, erase_list)

  erase_left :
      (v w : T) (d : ℕ) (l r : Node T)
      → IsAvl (node w d l r)
      → o.cmp w v ≡ gt
      → (i : Erased v l (erase l v)) → Repaired w i.t' r (rebalance (node w d i.t' r))
      → Erased v (node w d l r) (erase (node w d l r) v)
  unfolding erase
  erase_left v w d l r a e i fixed = record {
    t' = fixed.t;
    result = rw (erase, e, i.result) fixed.result;
    valid = fixed.valid;
    low = omega arith;
    high = omega arith;
    values = fixed.same ∙ rw i.values (sym (erase_list_left v w l r e));
  }

  erase_right :
      (v w : T) (d : ℕ) (l r : Node T)
      → IsAvl (node w d l r)
      → o.cmp w v ≡ lt
      → IsSorted (to_list l ++ w ∷ to_list r)
      → (i : Erased v r (erase r v)) → Repaired w l i.t' (rebalance (node w d l i.t'))
      → Erased v (node w d l r) (erase (node w d l r) v)
  unfolding erase
  erase_right v w d l r a e s i fixed = record {
    t' = fixed.t;
    result = rw (erase, e, i.result) fixed.result;
    valid = fixed.valid;
    low = omega arith;
    high = omega arith;
    values = fixed.same ∙ rw i.values (sym (erase_list_right v w l r e s));
  }

  -- On a valid tree of sorted values `erase` violates no assertion, gives a valid tree that is at
  -- most one level less deep, and its values are those of the sorted list without the value.
  pub erase-Erased : (t : Node T) (v : T) → IsAvl t → IsSorted (to_list t) → Erased v t (erase t v)
  unfolding erase
  erase-Erased null v a s = record {
    t' = null;
    result = refl;
    valid = tt;
    low = omega arith;
    high = omega arith;
    values = refl;
  }
  erase-Erased (node w d l r) v a s = elim (Ordering-cases (o.cmp w v)) [
    | inl e ↦
        let i = erase_root-Emptied w d l r a in
        record {
          t' = i.t';
          result = rw (erase, e) i.result;
          valid = i.valid;
          low = i.low;
          high = i.high;
          values = i.values ∙ sym (erase_list_root v w l r e s);
        }
    | inr (inl e) ↦
        let i = erase-Erased l v a.3 (IsSorted-append_left (to_list l) (w ∷ to_list r) s) in
        erase_left v w d l r a e i
          (rebalance-Repaired w d i.t' r i.valid a.4 (omega arith) (omega arith))
    | inr (inr e) ↦
        let i = erase-Erased r v a.4 (IsSorted-append_right (to_list l) (w ∷ to_list r) s).1 in
        erase_right v w d l r a e s i
          (rebalance-Repaired w d l i.t' a.3 i.valid (omega arith) (omega arith))
  ]
