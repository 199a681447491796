-- ===== src/Avl/Balance.antt =====
-- The balance invariant: stored depths are exact and siblings differ by one level at most.
use all.Prelude.{
  ℕ, zero, suc, ◌+◌, ◌≤◌, ◌<◌, max, ◌≡◌, refl, true, false, some, arith, List, [], ◌∷◌, ◌++◌,
  lt→ltb, leb, ltb, ◌==◌, ◌&&◌,
}
use all.Avl.{Node, null, node, depth, left, right, check_invariant, restore, rebalance}

siblings-true : (a b : ℕ) → a ≤ b + 1 → b ≤ a + 1 → leb a (b + 1) && leb b (a + 1) ≡ true
siblings-true a b h k = ground arith

left-heavy : (a b : ℕ) → b + 1 < a → leb a (b + 1) && leb b (a + 1) ≡ false
left-heavy a b h = ground arith

right-heavy : (a b : ℕ) → a + 1 < b → leb a (b + 1) && leb b (a + 1) ≡ false
right-heavy a b h = ground arith

pub ltb-false : (a b : ℕ) → ltb a b ≡ false → b ≤ a
ltb-false a b h = ground arith

pub not-ltb : (a b : ℕ) → b ≤ a → ltb a b ≡ false
not-ltb a b h = ground arith

local-true :
    (d a b : ℕ)
    → d ≡ 1 + max a b
    → a ≤ b + 1
    → b ≤ a + 1
    → (d == 1 + max a b) && (leb a (b + 1) && leb b (a + 1)) ≡ true
local-true d a b e h k = ground arith

module _ {ℓ} {T : Type ℓ} where
  abbrev pub IsAvl : Node T → Type 0
  IsAvl null = Unit
  IsAvl (node v d l r) =
      (d ≡ 1 + max (depth l) (depth r))
      × (depth l ≤ depth r + 1)
      × (depth r ≤ depth l + 1)
      × IsAvl l
      × IsAvl r

  pub check_invariant-IsAvl : (t : Node T) (n : ℕ) → IsAvl t → check_invariant t n ≡ true
  unfolding check_invariant
  check_invariant-IsAvl null n h = refl
  check_invariant-IsAvl (node v d l r) zero h = siblings-true (depth l) (depth r) h.1 h.2
  check_invariant-IsAvl (node v d l r) (suc n) h = rw (
    local-true d (depth l) (depth r) h.0 h.1 h.2,
    check_invariant-IsAvl l n h.3,
    check_invariant-IsAvl r n h.4,
  )

  -- The values from left to right.
  abbrev pub to_list : Node T → List T
  to_list null = []
  to_list (node v d l r) = to_list l ++ v ∷ to_list r

  -- The tree with its depth set by `update_depth`.
  abbrev pub up : T → Node T → Node T → Node T
  up v l r = node v (1 + max (depth l) (depth r)) l r

  pub up-IsAvl :
      (v : T) (l r : Node T)
      → depth l ≤ depth r + 1
      → depth r ≤ depth l + 1
      → IsAvl l
      → IsAvl r
      → IsAvl (up v l r)
  up-IsAvl v l r h k al ar = (refl, h, k, al, ar)

  pub restore_left_single :
      (v w : T) (d e : ℕ) (a b r : Node T)
      → ltb (depth a) (depth b) ≡ false
      → IsAvl (up w a (up v b r))
      → restore (node v d (node w e a b) r) left right ≡ some (up w a (up v b r))
  unfolding restore
  restore_left_single v w d e a b r h k = rw (h, check_invariant-IsAvl (up w a (up v b r)) 2 k)

  pub restore_left_double :
      (v w m : T) (d e f : ℕ) (a b c r : Node T)
      → ltb (depth a) f ≡ true
      → IsAvl (up m (up w a b) (up v c r))
      → restore (node v d (node w e a (node m f b c)) r) left right
        ≡ some (up m (up w a b) (up v c r))
  unfolding restore
  restore_left_double v w m d e f a b c r h k =
      rw (h, check_invariant-IsAvl (up m (up w a b) (up v c r)) 2 k)

  pub restore_right_single :
      (v w : T) (d e : ℕ) (l a b : Node T)
      → ltb (depth b) (depth a) ≡ false
      → IsAvl (up w (up v l a) b)
      → restore (node v d l (node w e a b)) right left ≡ some (up w (up v l a) b)
  unfolding restore
  restore_right_single v w d e l a b h k = rw (h, check_invariant-IsAvl (up w (up v l a) b) 2 k)

  pub restore_right_double :
      (v w m : T) (d e f : ℕ) (l a b c : Node T)
      → ltb (depth c) f ≡ true
      → IsAvl (up m (up v l a) (up w b c))
      → restore (node v d l (node w e (node m f a b) c)) right left
        ≡ some (up m (up v l a) (up w b c))
  unfolding restore
  restore_right_double v w m d e f l a b c h k =
      rw (h, check_invariant-IsAvl (up m (up v l a) (up w b c)) 2 k)

  pub rebalance_light :
      (v : T) (d : ℕ) (l r : Node T)
      → depth l ≤ depth r + 1
      → depth r ≤ depth l + 1
      → rebalance (node v d l r) ≡ some (up v l r)
  unfolding rebalance
  rebalance_light v d l r h k = rw (siblings-true (depth l) (depth r) h k)

  pub rebalance_left :
      (v : T) (d : ℕ) (l r : Node T)
      → depth r + 1 < depth l
      → rebalance (node v d l r) ≡ restore (up v l r) left right
  unfolding rebalance
  rebalance_left v d l r h =
      rw (left-heavy (depth l) (depth r) h, lt→ltb (depth r) (depth l) (omega arith))

  pub rebalance_right :
      (v : T) (d : ℕ) (l r : Node T)
      → depth l + 1 < depth r
      → rebalance (node v d l r) ≡ restore (up v l r) right left
  unfolding rebalance
  rebalance_right v d l r h =
      rw (right-heavy (depth l) (depth r) h, not-ltb (depth r) (depth l) (omega arith))
