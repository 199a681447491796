-- ===== src/SplayTree/Splay.antt =====
-- The loop of `splay`: it takes a value to the top, and keeps the keys in their order.
use all.Prelude.{
  ℕ, ◌≡◌, refl, ap, ◌∙◌, Option, none, some, ◌>>=◌, ◌>>◌, List, [], ◌∷◌, ◌++◌, append_assoc,
  append-nil, if◌then◌else◌,
}
use all.Avl.Compare.{Ordered}
use all.SplayTree.{
  Side, left, right, Address, slot, SplayTree, node, parent, parent_at, follow, last_round,
  full_round, splay, splay_round, rotate_up, same_pointer,
}
use all.SplayTree.Values.{Element, Lawful}
use all.SplayTree.Pointers.{IsLinked, same_address_refl}
use all.SplayTree.Context.{
  Frame, fill, fill_side, plug, sides, address, up_pointer, AreLinked, modify_at-plug, tree_at-plug,
  address_at-plug,
}
use all.SplayTree.Rotate.{keys, IsFresh}
use all.SplayTree.Raise.{rotate_up-Raised, splay_step-Raised, splay_round-step}

module _ {ℓ} {T : Type ℓ} where
  parent_at-node :
      (k : List (Frame T)) (id : ℕ) (v : T) (p : Option Address) (l r : SplayTree T)
      → parent_at (sides k) (plug k (node id v p l r)) ≡ some p
  unfolding parent_at parent
  parent_at-node k id v p l r = rw (tree_at-plug k (node id v p l r))

  parent_at-fill :
      (k : List (Frame T)) (s : Side) (id : ℕ) (v : T) (p : Option Address) (o t : SplayTree T)
      → parent_at (sides k) (plug k (fill_side s id v p o t)) ≡ some p
  parent_at-fill k left id v p o t = parent_at-node k id v p t o
  parent_at-fill k right id v p o t = parent_at-node k id v p o t

  -- A pointer that is right leads to the place one side up.
  follow-plug :
      (k : List (Frame T)) (this : Address) (t : SplayTree T)
      → follow (sides k) (some (address this k)) this (plug k t) ≡ some tt
  unfolding follow
  follow-plug k this t = rw (address_at-plug k this t, same_address_refl (address this k))

-- The branches that the loop takes where the pointers are right.
one_branch {ℓ} :
    {R : Type ℓ} (stop : R) (q gq : Option (Option Address)) (last : Option R)
    (steps : Option Address → Option (Unit {0})) (a : Address) (r : R)
    → q ≡ some (some a)
    → steps (some a) ≡ some tt
    → gq ≡ some none
    → last ≡ some r
    → (q >>= λ q.
        if same_pointer q none
        then some stop
        else (steps q >> (gq >>= λ gq. if same_pointer gq none then last else none)))
      ≡ some r
one_branch stop q gq last steps a r h1 h2 h3 h4 = rw (h1, h2, h3) h4

two_branch {ℓ κ} :
    {R : Type ℓ} {S : Type κ} (stop : R) (q gq : Option (Option Address))
    (steps steps' : Option Address → Option (Unit {0})) (last : Option R) (round : Option S)
    (next : S → Option R) (a b : Address) (t : S) (r : R)
    → q ≡ some (some a)
    → steps (some a) ≡ some tt
    → gq ≡ some (some b)
    → steps' (some b) ≡ some tt
    → round ≡ some t
    → next t ≡ some r
    → (q >>= λ q.
        if same_pointer q none
        then some stop
        else (steps q
            >> (gq >>= λ gq.
                if same_pointer gq none then last else (steps' gq >> (round >>= next)))))
      ≡ some r
two_branch stop q gq steps steps' last round next a b t r h1 h2 h3 h4 h5 h6 =
    rw (h1, h2, h3, h4, h5) h6

module _ {ℓ} {T : Type ℓ} ⦃e : Element T⦄ where
  -- The loop where the parent is at the top, and where it is not.
  splay_one :
      (s : Side) (this a : Address) (t : SplayTree T) (r : List Side × SplayTree T)
      → parent_at (s ∷ []) t ≡ some (some a)
      → follow [] (some a) this t ≡ some tt
      → parent_at [] t ≡ some none
      → last_round s [] this t ≡ some r
      → splay none (s ∷ []) this t ≡ some r
  unfolding splay
  splay_one s this a t r h1 h2 h3 h4 =
      one_branch (s ∷ [], t) (parent_at (s ∷ []) t) (parent_at [] t) (last_round s [] this t)
        (λ q. follow [] q this t) a r h1 h2 h3 h4

  splay-none :
      (this : Address) (id : ℕ) (v : T) (l r : SplayTree T)
      → splay none [] this (node id v none l r) ≡ some ([], node id v none l r)
  unfolding splay parent_at parent
  splay-none this id v l r = refl

  splay_two :
      (s s' : Side) (up : List Side) (this a b : Address) (t t' : SplayTree T)
      (r : List Side × SplayTree T)
      → parent_at (s ∷ s' ∷ up) t ≡ some (some a)
      → follow (s' ∷ up) (some a) this t ≡ some tt
      → parent_at (s' ∷ up) t ≡ some (some b)
      → follow up (some b) this t ≡ some tt
      → full_round s s' up this t ≡ some t'
      → splay none up this t' ≡ some r
      → splay none (s ∷ s' ∷ up) this t ≡ some r
  unfolding splay
  splay_two s s' up this a b t t' r h1 h2 h3 h4 h5 h6 =
      two_branch (s ∷ s' ∷ up, t) (parent_at (s ∷ s' ∷ up) t) (parent_at (s' ∷ up) t)
        (λ q. follow (s' ∷ up) q this t) (λ q. follow up q this t) (last_round s (s' ∷ up) this t)
        (full_round s s' up this t) (splay none up this) a b t' r h1 h2 h3 h4 h5 h6

module _ {ℓ} {T K : Type ℓ} ⦃e : Element T⦄ ⦃o : Ordered K⦄ (w : Lawful e K) where
  -- The keys that a frame adds on either side, and those before and after a place.
  abbrev pub keys_left : Side → T → SplayTree T → List K
  keys_left left v t = []
  keys_left right v t = keys w t ++ w.key v ∷ []

  abbrev pub keys_right : Side → T → SplayTree T → List K
  keys_right left v t = w.key v ∷ keys w t
  keys_right right v t = []

  abbrev pub before_keys : List (Frame T) → List K
  before_keys [] = []
  before_keys (f ∷ k) = before_keys k ++ keys_left f.side f.value f.other

  abbrev pub after_keys : List (Frame T) → List K
  after_keys [] = []
  after_keys (f ∷ k) = keys_right f.side f.value f.other ++ after_keys k

  keys-fill :
      (s : Side) (id : ℕ) (v : T) (p : Option Address) (d t : SplayTree T)
      → keys w (fill_side s id v p d t) ≡ keys_left s v d ++ keys w t ++ keys_right s v d
  keys-fill left id v p d t = refl
  keys-fill right id v p d t = simp (append_assoc, append-nil)

  pub keys-plug :
      (k : List (Frame T)) (t : SplayTree T)
      → keys w (plug k t) ≡ before_keys k ++ keys w t ++ after_keys k
  keys-plug [] t = simp append-nil
  keys-plug (f ∷ k) t =
      keys-plug k (fill f t)
      ∙ rw (keys-fill f.side f.id f.value f.parent f.other t) (simp append_assoc)

  plug-same :
      (k : List (Frame T)) (t t' : SplayTree T)
      → keys w t ≡ keys w t'
      → keys w (plug k t) ≡ keys w (plug k t')
  plug-same k t t' h = rw (keys-plug k t, keys-plug k t', h)

  -- The other subtrees along the way.
  abbrev pub AreFresh : List (Frame T) → Type ℓ
  AreFresh [] = ◌≡◌ {A = List (Frame T)} [] []
  AreFresh (f ∷ k) = IsFresh w f.other × AreFresh k

  -- The pointer that is returned leads to the top of the tree.
  pub record Splayed (this : Address) (v : T) (before : SplayTree T)
      (out : Option (List Side × SplayTree T)) : Type ℓ where
    pub id : ℕ
    pub top : T
    pub l' : SplayTree T
    pub r' : SplayTree T
    pub result : out ≡ some ([], node id top none l' r')
    pub same_key : w.key top ≡ w.key v
    pub same : keys w (node id top none l' r') ≡ keys w before
    pub fresh : IsFresh w (node id top none l' r')
    pub linked : IsLinked this (node id top none l' r')

  last_round-eq :
      (f : Frame T) (this : Address) (t t' : SplayTree T)
      → rotate_up (slot f.id f.side) this (fill f t) ≡ some t'
      → last_round f.side [] this (fill f t) ≡ some ([], t')
  unfolding last_round
  last_round-eq f this t t' h = rw (
    address_at-plug (f ∷ []) this t,
    modify_at-plug [] this (rotate_up (slot f.id f.side)) (fill f t) t' h,
  )

  full_round-eq :
      (f g : Frame T) (k : List (Frame T)) (this : Address) (t t' : SplayTree T)
      → splay_round (slot g.id g.side) (slot f.id f.side) (address this k) (fill g (fill f t))
        ≡ some t'
      → full_round f.side g.side (sides k) this (plug k (fill g (fill f t))) ≡ some (plug k t')
  unfolding full_round
  full_round-eq f g k this t t' h =
      rw (address_at-plug (f ∷ g ∷ k) this t, address_at-plug (g ∷ k) this (fill f t))
        (modify_at-plug k this (splay_round (slot g.id g.side) (slot f.id f.side))
          (fill g (fill f t)) t' h)

  -- From any place `splay` takes its value to the top.
  pub splay-Splayed :
      (k : List (Frame T)) (this : Address) (id : ℕ) (v : T) (l r : SplayTree T)
      → AreFresh k
      → AreLinked this k
      → IsFresh w (node id v (up_pointer this k) l r)
      → IsLinked (address this k) (node id v (up_pointer this k) l r)
      → Splayed this v
          (plug k (node id v (up_pointer this k) l r))
          (splay none (sides k) this (plug k (node id v (up_pointer this k) l r)))
  unfolding splay
  splay-Splayed [] this id v l r hk lk h lh = record {
    id = id;
    top = v;
    l' = l;
    r' = r;
    result = splay-none this id v l r;
    same_key = refl;
    same = refl;
    fresh = h;
    linked = lh;
  }
  splay-Splayed (f ∷ []) this id v l r (hf, _) (lp, _, lo, _) h lh =
      let n = node id v (some this) l r in
      let i =
        rotate_up-Raised w f.side this (slot f.id f.side) f.id f.value f.parent f.other id v
          (some this) l r hf h lo lh in
      record {
        id = i.id;
        top = i.top;
        l' = i.l';
        r' = i.r';
        result =
            splay_one f.side this this (fill f n) ([], node i.id i.top none i.l' i.r')
              (parent_at-node (f ∷ []) id v (some this) l r) (follow-plug [] this (fill f n))
              (parent_at-fill [] f.side f.id f.value f.parent f.other n ∙ ap some lp)
              (last_round-eq f this n (node i.id i.top none i.l' i.r')
                (i.result ∙ ap (λ q. some (node i.id i.top q i.l' i.r')) lp));
        same_key = i.same_key;
        same = i.same;
        fresh = i.fresh;
        linked = i.linked;
      }
  splay-Splayed (f ∷ g ∷ k) this id v l r (hf, (hg, hk)) (lp, _, lo, (gp, _, go, lk)) h lh =
      let n = node id v (up_pointer this (f ∷ g ∷ k)) l r in
      let i =
        splay_step-Raised w f.side g.side (address this k) (slot f.id f.side) f.id f.value f.parent
          f.other g.id g.value g.parent g.other id v (up_pointer this (f ∷ g ∷ k)) l r hf hg h lo go
          lh in
      let j = splay-Splayed k this i.id i.top i.l' i.r' hk lk i.fresh i.linked in
      let after = node i.id i.top (up_pointer this k) i.l' i.r' in
      record {
        id = j.id;
        top = j.top;
        l' = j.l';
        r' = j.r';
        result =
            splay_two f.side g.side (sides k) this (address this (g ∷ k)) (address this k)
              (plug k (fill g (fill f n))) (plug k after) ([], node j.id j.top none j.l' j.r')
              (parent_at-node (f ∷ g ∷ k) id v (up_pointer this (f ∷ g ∷ k)) l r)
              (follow-plug (g ∷ k) this (fill f n))
              (parent_at-fill (g ∷ k) f.side f.id f.value f.parent f.other n ∙ ap some lp)
              (follow-plug k this (fill g (fill f n)))
              (full_round-eq f g k this n after (
                splay_round-step w f.side g.side (address this k) f.id f.value f.parent f.other g.id
                  g.value g.parent g.other n
                ∙ i.result
                ∙ ap (λ q. some (node i.id i.top q i.l' i.r')) gp))
              j.result;
        same_key = j.same_key ∙ i.same_key;
        same = j.same ∙ plug-same k after (fill g (fill f n)) i.same;
        fresh = j.fresh;
        linked = j.linked;
      }
