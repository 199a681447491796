-- ===== src/SplayTree/Raise.antt =====
-- One round of `splay`: it takes a value two places up.
use all.Prelude.{ℕ, ◌≡◌, refl, ◌∙◌, Option, some, ◌>>=◌, append_assoc}
use all.Avl.Compare.{Ordered}
use all.SplayTree.{
  Side, left, right, Address, slot, SplayTree, node, value_ptr, sibling, set_parent, child_side,
  rotate, rotate_up, splay_step, splay_round, modify_child,
}
use all.SplayTree.Values.{Element, Lawful}
use all.SplayTree.Pointers.{IsLinked, set_parent-IsLinked, same_number}
use all.SplayTree.Context.{fill_side, modify_child-fill, child-fill}
use all.SplayTree.Rotate.{
  keys, IsFresh, keys-set_parent, keys-fixup, set_parent-IsFresh, lowered, lowered-IsFresh,
  lowered-IsLinked, turned, rotate-turned, keys-turned, turned-IsFresh, turned-IsLinked,
}

child_side-fill {ℓ} :
    {T : Type ℓ} (s : Side) (id : ℕ) (v : T) (p : Option Address) (o t : SplayTree T)
    → child_side (fill_side s id v p o t) (slot id s) ≡ some s
unfolding child_side
child_side-fill left id v p o t = rw (same_number id)
child_side-fill right id v p o t = rw (same_number id)

module _ {ℓ} {T K : Type ℓ} ⦃e : Element T⦄ ⦃o : Ordered K⦄ (w : Lawful e K) where
  -- The tree that a call leaves at the address `this`: the same keys as before, `v` on top, and the
  -- pointer `up` as its parent.
  pub record Raised (this : Address) (v : T) (up : Option Address) (before : SplayTree T)
      (out : Option (SplayTree T)) : Type ℓ where
    pub id : ℕ
    pub top : T
    pub l' : SplayTree T
    pub r' : SplayTree T
    pub result : out ≡ some (node id top up l' r')
    pub same_key : w.key top ≡ w.key v
    pub same : keys w (node id top up l' r') ≡ keys w before
    pub fresh : IsFresh w (node id top up l' r')
    pub linked : IsLinked this (node id top up l' r')

  chain :
      (f g : SplayTree T → Option (SplayTree T)) (t t' t'' : SplayTree T)
      → f t ≡ some t'
      → g t' ≡ some t''
      → (f t >>= g) ≡ some t''
  chain f g t t' t'' h h' = rw h h'

  pub turned-Raised :
      (s : Side) (this : Address) (pid : ℕ) (p : T) (pp : Option Address) (d : SplayTree T)
      (cid : ℕ) (c : T) (cp : Option Address) (a b : SplayTree T) (v : T) (before : SplayTree T)
      (out : Option (SplayTree T))
      → out ≡ some (turned w s this pid p pp d cid c a b)
      → w.key c ≡ w.key v
      → keys w (fill_side s pid p pp d (node cid c cp a b)) ≡ keys w before
      → (IsFresh w d × IsFresh w a × IsFresh w b)
      → (IsLinked (slot pid (sibling s)) d
          × IsLinked (slot cid left) a
          × IsLinked (slot cid right) b)
      → Raised this v pp before out
  turned-Raised left this pid p pp d cid c cp a b v before out e' kc same (hd, ha, hb)
        (ld, la, lb) =
      record {
        id = cid;
        top = _;
        l' = _;
        r' = _;
        result = e';
        same_key = w.key_refresh _ _ _ ∙ kc;
        same = keys-turned w left this pid p pp d cid c cp a b ∙ same;
        fresh = turned-IsFresh w left this pid p pp d cid c a b hd ha hb;
        linked = turned-IsLinked w left this pid p pp d cid c a b ld la lb;
      }
  turned-Raised right this pid p pp d cid c cp a b v before out e' kc same (hd, ha, hb)
        (ld, la, lb) =
      record {
        id = cid;
        top = _;
        l' = _;
        r' = _;
        result = e';
        same_key = w.key_refresh _ _ _ ∙ kc;
        same = keys-turned w right this pid p pp d cid c cp a b ∙ same;
        fresh = turned-IsFresh w right this pid p pp d cid c a b hd ha hb;
        linked = turned-IsLinked w right this pid p pp d cid c a b ld la lb;
      }

  pub rotate_up-Raised :
      (s : Side) (this old : Address) (pid : ℕ) (p : T) (pp : Option Address) (d : SplayTree T)
      (cid : ℕ) (c : T) (cp : Option Address) (a b : SplayTree T)
      → IsFresh w d
      → IsFresh w (node cid c cp a b)
      → IsLinked (slot pid (sibling s)) d
      → IsLinked old (node cid c cp a b)
      → Raised this c pp
          (fill_side s pid p pp d (node cid c cp a b))
          (rotate_up (slot pid s) this (fill_side s pid p pp d (node cid c cp a b)))
  unfolding rotate_up
  rotate_up-Raised s this old pid p pp d cid c cp a b hd h ld l =
      turned-Raised s this pid p pp d cid c cp a b c _ _
        (rw (child_side-fill s pid p pp d (node cid c cp a b))
          (rotate-turned w s this pid p pp d cid c cp a b))
        refl refl (hd, h.1, h.2) (ld, l.2, l.3)

  pub splay_step-Raised :
      (s s' : Side) (this old : Address) (pid : ℕ) (p : T) (pp : Option Address) (d : SplayTree T)
      (qid : ℕ) (q : T) (qp : Option Address) (b : SplayTree T) (id : ℕ) (v : T)
      (vp : Option Address) (l r : SplayTree T)
      → IsFresh w d
      → IsFresh w b
      → IsFresh w (node id v vp l r)
      → IsLinked (slot pid (sibling s)) d
      → IsLinked (slot qid (sibling s')) b
      → IsLinked old (node id v vp l r)
      → Raised this v qp (fill_side s' qid q qp b (fill_side s pid p pp d (node id v vp l r))) (
          splay_step s s' this
            (fill_side s' qid q qp b (fill_side s pid p pp d (node id v vp l r))))
  unfolding splay_step sibling
  splay_step-Raised left left this old pid p pp d qid q qp b id v vp l r hd hb h ld lb lv =
      let low = lowered w left this pid qid q b d in
      let top = e.refresh p (some v) (value_ptr low) in
      turned-Raised left this pid top qp low id v (some this) l r v _ _
        (chain (rotate left this) (rotate left this)
          (fill_side left qid q qp b (fill_side left pid p pp d (node id v vp l r))) _ _
          (rotate-turned w left this qid q qp b pid p pp (node id v vp l r) d)
          (rotate-turned w left this pid top qp low id v (some this) l r))
        refl (simp (append_assoc, w.key_refresh, keys-set_parent w, keys-fixup w))
        (lowered-IsFresh w left this pid qid q b d hb hd, h.1, h.2)
        (lowered-IsLinked w left this (slot pid right) pid qid q b d lb ld, lv.2, lv.3)
  splay_step-Raised right right this old pid p pp d qid q qp b id v vp l r hd hb h ld lb lv =
      let low = lowered w right this pid qid q b d in
      let top = e.refresh p (value_ptr low) (some v) in
      turned-Raised right this pid top qp low id v (some this) l r v _ _
        (chain (rotate right this) (rotate right this)
          (fill_side right qid q qp b (fill_side right pid p pp d (node id v vp l r))) _ _
          (rotate-turned w right this qid q qp b pid p pp d (node id v vp l r))
          (rotate-turned w right this pid top qp low id v (some this) l r))
        refl (simp (append_assoc, w.key_refresh, keys-set_parent w, keys-fixup w))
        (lowered-IsFresh w right this pid qid q b d hb hd, h.1, h.2)
        (lowered-IsLinked w right this (slot pid left) pid qid q b d lb ld, lv.2, lv.3)
  splay_step-Raised left right this old pid p pp d qid q qp b id v vp l r hd hb h ld lb lv =
      let inner = slot qid right in
      let low = lowered w left inner id pid p d r in
      let top = e.refresh v (value_ptr l) (value_ptr low) in
      let lowF = lowered-IsFresh w left inner id pid p d r hd h.2 in
      let lowL = lowered-IsLinked w left inner (slot id right) id pid p d r ld lv.3 in
      turned-Raised right this qid q qp b id top pp (set_parent (some inner) l) low v _ _
        (chain (modify_child right (rotate left) this) (rotate right this)
          (fill_side right qid q qp b (fill_side left pid p pp d (node id v vp l r))) _ _
          (modify_child-fill right qid q qp b this (rotate left)
            (fill_side left pid p pp d (node id v vp l r)) _
            (rotate-turned w left inner pid p pp d id v vp l r))
          (rotate-turned w right this qid q qp b id top pp (set_parent (some inner) l) low))
        (w.key_refresh _ _ _) (simp (append_assoc, w.key_refresh, keys-set_parent w, keys-fixup w))
        (hb, set_parent-IsFresh w (some inner) l h.1, lowF)
        (lb, set_parent-IsLinked (slot id left) (some inner) l lv.2, lowL)
  splay_step-Raised right left this old pid p pp d qid q qp b id v vp l r hd hb h ld lb lv =
      let inner = slot qid left in
      let low = lowered w right inner id pid p d l in
      let top = e.refresh v (value_ptr low) (value_ptr r) in
      let lowF = lowered-IsFresh w right inner id pid p d l hd h.1 in
      let lowL = lowered-IsLinked w right inner (slot id left) id pid p d l ld lv.2 in
      turned-Raised left this qid q qp b id top pp low (set_parent (some inner) r) v _ _
        (chain (modify_child left (rotate right) this) (rotate left this)
          (fill_side left qid q qp b (fill_side right pid p pp d (node id v vp l r))) _ _
          (modify_child-fill left qid q qp b this (rotate right)
            (fill_side right pid p pp d (node id v vp l r)) _
            (rotate-turned w right inner pid p pp d id v vp l r))
          (rotate-turned w left this qid q qp b id top pp low (set_parent (some inner) r)))
        (w.key_refresh _ _ _) (simp (append_assoc, w.key_refresh, keys-set_parent w, keys-fixup w))
        (hb, lowF, set_parent-IsFresh w (some inner) r h.2)
        (lb, lowL, set_parent-IsLinked (slot id right) (some inner) r lv.3)

  -- The two calls of `child_side` give the sides of the way.
  pub splay_round-step :
      (s s' : Side) (this : Address) (pid : ℕ) (p : T) (pp : Option Address) (d : SplayTree T)
      (qid : ℕ) (q : T) (qp : Option Address) (b : SplayTree T) (t : SplayTree T)
      → splay_round
          (slot qid s')
          (slot pid s)
          this
          (fill_side s' qid q qp b (fill_side s pid p pp d t))
        ≡ splay_step s s' this (fill_side s' qid q qp b (fill_side s pid p pp d t))
  unfolding splay_round
  splay_round-step s s' this pid p pp d qid q qp b t = rw (
    child_side-fill s' qid q qp b (fill_side s pid p pp d t),
    child-fill s' qid q qp b (fill_side s pid p pp d t),
    child_side-fill s pid p pp d t,
  )
