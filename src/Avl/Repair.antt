-- ===== src/Avl/Repair.antt =====
-- `rebalance` on two valid trees whose depths differ by two levels at most.
use all.Prelude.{
  ℕ, ◌+◌, ◌≤◌, ◌<◌, max, ◌≡◌, refl, sym, ◌∙◌, true, false, Option, some, ◌⊎◌, inl, inr, arith, ◌∷◌,
  ◌++◌, append_assoc, Bool-cases, ltb→lt, ltb,
}
use native.Mathlib.Decide.{dec_le}
use all.Avl.{Node, null, node, depth, rebalance}
use all.Avl.Balance.{
  IsAvl, to_list, up, up-IsAvl, restore_left_single, restore_left_double, restore_right_single,
  restore_right_double, rebalance_light, rebalance_left, rebalance_right, not-ltb, ltb-false,
}

module _ {ℓ} {T : Type ℓ} where
  -- `rebalance` gave a valid tree with the same values, whose depth is that of the unbalanced
  -- one or one less, and the same where nothing was to be done.
  pub record Repaired (v : T) (l r : Node T) (out : Option (Node T)) : Type ℓ where
    pub t : Node T
    pub result : out ≡ some t
    pub valid : IsAvl t
    pub low : max (depth l) (depth r) ≤ depth t
    pub high : depth t ≤ 1 + max (depth l) (depth r)
    pub kept :
        (depth t ≡ 1 + max (depth l) (depth r)) ⊎ (depth l ≡ depth r + 2) ⊎ (depth r ≡ depth l + 2)
    pub same : to_list t ≡ to_list l ++ v ∷ to_list r

  to_list_left :
      (v w : T) (a b r : Node T)
      → to_list a ++ w ∷ (to_list b ++ v ∷ to_list r)
        ≡ (to_list a ++ w ∷ to_list b) ++ v ∷ to_list r
  to_list_left v w a b r = simp append_assoc

  to_list_double :
      (v w m : T) (a b c r : Node T)
      → (to_list a ++ w ∷ to_list b) ++ m ∷ (to_list c ++ v ∷ to_list r)
        ≡ (to_list a ++ w ∷ (to_list b ++ m ∷ to_list c)) ++ v ∷ to_list r
  to_list_double v w m a b c r = simp append_assoc

  -- `rebalance` where the left tree is two levels deeper.
  left_single :
      (v w : T) (d e : ℕ) (a b r : Node T)
      → IsAvl (node w e a b)
      → IsAvl r
      → e ≡ depth r + 2
      → ltb (depth a) (depth b) ≡ false
      → Repaired v (node w e a b) r (rebalance (node v d (node w e a b) r))
  left_single v w d e a b r al ar h k =
      let ge : depth b ≤ depth a = ltb-false (depth a) (depth b) k in
      let good : IsAvl (up w a (up v b r)) =
        up-IsAvl w a (up v b r) (omega arith) (omega arith) al.3
          (up-IsAvl v b r (omega arith) (omega arith) al.4 ar) in
      record {
        t = up w a (up v b r);
        result =
            rebalance_left v d (node w e a b) r (omega arith)
            ∙ restore_left_single v w _ e a b r k good;
        valid = good;
        low = omega arith;
        high = omega arith;
        kept = omega arith;
        same = to_list_left v w a b r;
      }

  left_double :
      (v w m : T) (d e f : ℕ) (a b c r : Node T)
      → IsAvl (node w e a (node m f b c))
      → IsAvl r
      → e ≡ depth r + 2
      → ltb (depth a) f ≡ true
      → let l = node w e a (node m f b c) in Repaired v l r (rebalance (node v d l r))
  left_double v w m d e f a b c r al ar h k =
      let less : depth a < f = ltb→lt (depth a) f k in
      let good : IsAvl (up m (up w a b) (up v c r)) =
        up-IsAvl m (up w a b) (up v c r) (omega arith) (omega arith)
          (up-IsAvl w a b (omega arith) (omega arith) al.3 al.4.3)
          (up-IsAvl v c r (omega arith) (omega arith) al.4.4 ar) in
      record {
        t = up m (up w a b) (up v c r);
        result =
            rebalance_left v d (node w e a (node m f b c)) r (omega arith)
            ∙ restore_left_double v w m _ e f a b c r k good;
        valid = good;
        low = omega arith;
        high = omega arith;
        kept = omega arith;
        same = to_list_double v w m a b c r;
      }

  Repaired-left :
      (v : T) (d : ℕ) (l r : Node T)
      → IsAvl l
      → IsAvl r
      → depth l ≡ depth r + 2
      → Repaired v l r (rebalance (node v d l r))
  Repaired-left v d null r al ar h = absurd (omega arith)
  Repaired-left v d (node w e a null) r al ar h =
      left_single v w d e a null r al ar h (not-ltb (depth a) 0 (omega arith))
  Repaired-left v d (node w e a (node m f b c)) r al ar h = elim (Bool-cases (ltb (depth a) f)) [
    | inl double ↦ left_double v w m d e f a b c r al ar h double
    | inr single ↦ left_single v w d e a (node m f b c) r al ar h single
  ]

  -- `rebalance` where the right tree is two levels deeper.
  right_single :
      (v w : T) (d e : ℕ) (l a b : Node T)
      → IsAvl l
      → IsAvl (node w e a b)
      → e ≡ depth l + 2
      → ltb (depth b) (depth a) ≡ false
      → Repaired v l (node w e a b) (rebalance (node v d l (node w e a b)))
  right_single v w d e l a b al ar h k =
      let ge : depth a ≤ depth b = ltb-false (depth b) (depth a) k in
      let good : IsAvl (up w (up v l a) b) =
        up-IsAvl w (up v l a) b (omega arith) (omega arith)
          (up-IsAvl v l a (omega arith) (omega arith) al ar.3) ar.4 in
      record {
        t = up w (up v l a) b;
        result =
            rebalance_right v d l (node w e a b) (omega arith)
            ∙ restore_right_single v w _ e l a b k good;
        valid = good;
        low = omega arith;
        high = omega arith;
        kept = omega arith;
        same = sym (to_list_left w v l a b);
      }

  right_double :
      (v w m : T) (d e f : ℕ) (l a b c : Node T)
      → IsAvl l
      → IsAvl (node w e (node m f a b) c)
      → e ≡ depth l + 2
      → ltb (depth c) f ≡ true
      → let r = node w e (node m f a b) c in Repaired v l r (rebalance (node v d l r))
  right_double v w m d e f l a b c al ar h k =
      let less : depth c < f = ltb→lt (depth c) f k in
      let good : IsAvl (up m (up v l a) (up w b c)) =
        up-IsAvl m (up v l a) (up w b c) (omega arith) (omega arith)
          (up-IsAvl v l a (omega arith) (omega arith) al ar.3.3)
          (up-IsAvl w b c (omega arith) (omega arith) ar.3.4 ar.4) in
      record {
        t = up m (up v l a) (up w b c);
        result =
            rebalance_right v d l (node w e (node m f a b) c) (omega arith)
            ∙ restore_right_double v w m _ e f l a b c k good;
        valid = good;
        low = omega arith;
        high = omega arith;
        kept = omega arith;
        same = simp append_assoc;
      }

  Repaired-right :
      (v : T) (d : ℕ) (l r : Node T)
      → IsAvl l
      → IsAvl r
      → depth r ≡ depth l + 2
      → Repaired v l r (rebalance (node v d l r))
  Repaired-right v d l null al ar h = absurd (omega arith)
  Repaired-right v d l (node w e null c) al ar h =
      right_single v w d e l null c al ar h (not-ltb (depth c) 0 (omega arith))
  Repaired-right v d l (node w e (node m f a b) c) al ar h = elim (Bool-cases (ltb (depth c) f)) [
    | inl double ↦ right_double v w m d e f l a b c al ar h double
    | inr single ↦ right_single v w d e l (node m f a b) c al ar h single
  ]

  -- Two valid trees whose depths differ by two levels at most are repaired, with no assertion
  -- violated on the way.
  pub rebalance-Repaired :
      (v : T) (d : ℕ) (l r : Node T)
      → IsAvl l
      → IsAvl r
      → depth l ≤ depth r + 2
      → depth r ≤ depth l + 2
      → Repaired v l r (rebalance (node v d l r))
  rebalance-Repaired v d l r al ar hl hr = elim (dec_le (depth l) (depth r + 1)) [
    | no deep ↦ Repaired-left v d l r al ar (omega arith)
    | yes p ↦ elim (dec_le (depth r) (depth l + 1)) [
      | no deep ↦ Repaired-right v d l r al ar (omega arith)
      | yes q ↦ record {
        t = up v l r;
        result = rebalance_light v d l r p q;
        valid = (refl, p, q, al, ar);
        low = omega arith;
        high = omega arith;
        kept = omega arith;
        same = refl;
      }
    ]
  ]
