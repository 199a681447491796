-- ===== src/Avl/Sorted.antt =====
-- The abstract view of a tree: a strictly increasing list, with insertion and removal.
use Prim.Native.Nat.Ordering.{lt, eq, gt}
use all.Prelude.{◌≡◌, refl, List, [], ◌∷◌, ◌++◌, arith}
use all.Avl.Compare.{Ordered, ◌≺◌}

module _ {ℓ} {T : Type ℓ} where
  abbrev pub All : (T → Type 0) → List T → Type 0
  All P [] = Unit
  All P (x ∷ xs) = P x × All P xs

  pub All-append : (P : T → Type 0) (xs ys : List T) → All P xs → All P ys → All P (xs ++ ys)
  All-append P [] ys h k = k
  All-append P (x ∷ xs) ys h k = (h.0, All-append P xs ys h.1 k)

  pub All-append_left : (P : T → Type 0) (xs ys : List T) → All P (xs ++ ys) → All P xs
  All-append_left P [] ys h = tt
  All-append_left P (x ∷ xs) ys h = (h.0, All-append_left P xs ys h.1)

  pub All-append_right : (P : T → Type 0) (xs ys : List T) → All P (xs ++ ys) → All P ys
  All-append_right P [] ys h = h
  All-append_right P (x ∷ xs) ys h = All-append_right P xs ys h.1

  pub All-imp : (P Q : T → Type 0) → ((x : T) → P x → Q x) → (xs : List T) → All P xs → All Q xs
  All-imp P Q f [] h = tt
  All-imp P Q f (x ∷ xs) h = (f x h.0, All-imp P Q f xs h.1)

module _ {ℓ} {T : Type ℓ} ⦃o : Ordered T⦄ where
  abbrev pub IsSorted : List T → Type 0
  IsSorted [] = Unit
  IsSorted (x ∷ xs) = All (λ y. x ≺ y) xs × IsSorted xs

  -- What a set of values promises: the value is in, once, and the order is kept.
  abbrev pub insert_list : T → List T → List T
  insert_list v [] = v ∷ []
  insert_list v (x ∷ xs) = elim (o.cmp x v) [
    | eq ↦ x ∷ xs
    | gt ↦ v ∷ x ∷ xs
    | lt ↦ x ∷ insert_list v xs
  ]

  abbrev pub erase_list : T → List T → List T
  erase_list v [] = []
  erase_list v (x ∷ xs) = elim (o.cmp x v) [ eq ↦ xs | gt ↦ x ∷ xs | lt ↦ x ∷ erase_list v xs ]

  pub IsSorted-append_left : (xs ys : List T) → IsSorted (xs ++ ys) → IsSorted xs
  IsSorted-append_left [] ys h = tt
  IsSorted-append_left (x ∷ xs) ys h =
      (All-append_left (λ y. x ≺ y) xs ys h.0, IsSorted-append_left xs ys h.1)

  pub IsSorted-append_right : (xs ys : List T) → IsSorted (xs ++ ys) → IsSorted ys
  IsSorted-append_right [] ys h = h
  IsSorted-append_right (x ∷ xs) ys h = IsSorted-append_right xs ys h.1

  -- Everything before an element of a sorted list is below it.
  pub IsSorted-below :
      (xs : List T) (w : T) (ys : List T) → IsSorted (xs ++ w ∷ ys) → All (λ x. x ≺ w) xs
  IsSorted-below [] w ys h = tt
  IsSorted-below (x ∷ xs) w ys h =
      ((All-append_right (λ y. x ≺ y) xs (w ∷ ys) h.0).0, IsSorted-below xs w ys h.1)

  -- Both functions pass over what lies below the value, and stop at what lies above it.
  pub insert_list-append_below :
      (v : T) (xs ys : List T)
      → All (λ x. x ≺ v) xs
      → insert_list v (xs ++ ys) ≡ xs ++ insert_list v ys
  insert_list-append_below v [] ys h = refl
  insert_list-append_below v (x ∷ xs) ys h = ground (arith, insert_list-append_below v xs ys)

  pub insert_list-append_above :
      (v w : T) (xs ys : List T) → v ≺ w → insert_list v (xs ++ w ∷ ys) ≡ insert_list v xs ++ w ∷ ys
  insert_list-append_above v w [] ys h = ground (arith, o.gt_of_lt v w)
  insert_list-append_above v w (x ∷ xs) ys h = ground (arith, insert_list-append_above v w xs ys)

  pub erase_list-append_below :
      (v : T) (xs ys : List T)
      → All (λ x. x ≺ v) xs
      → erase_list v (xs ++ ys) ≡ xs ++ erase_list v ys
  erase_list-append_below v [] ys h = refl
  erase_list-append_below v (x ∷ xs) ys h = ground (arith, erase_list-append_below v xs ys)

  pub erase_list-append_above :
      (v w : T) (xs ys : List T) → v ≺ w → erase_list v (xs ++ w ∷ ys) ≡ erase_list v xs ++ w ∷ ys
  erase_list-append_above v w [] ys h = ground (arith, o.gt_of_lt v w)
  erase_list-append_above v w (x ∷ xs) ys h = ground (arith, erase_list-append_above v w xs ys)

  All-insert_list :
      (P : T → Type 0) (v : T) (xs : List T) → P v → All P xs → All P (insert_list v xs)
  All-insert_list P v [] p h = (p, tt)
  All-insert_list P v (x ∷ xs) p h = ground (arith, All-insert_list P v xs)

  All-erase_list : (P : T → Type 0) (v : T) (xs : List T) → All P xs → All P (erase_list v xs)
  All-erase_list P v [] h = tt
  All-erase_list P v (x ∷ xs) h = ground (arith, All-erase_list P v xs)

  pub All-above : (v x : T) (xs : List T) → v ≺ x → All (λ y. x ≺ y) xs → All (λ y. v ≺ y) xs
  All-above v x xs p = All-imp (λ y. x ≺ y) (λ y. v ≺ y) (λ y. o.lt_trans v x y p) xs

  pub All-below : (x v : T) (xs : List T) → x ≺ v → All (λ y. y ≺ x) xs → All (λ y. y ≺ v) xs
  All-below x v xs p = All-imp (λ y. y ≺ x) (λ y. y ≺ v) (λ y h. o.lt_trans y x v h p) xs

  pub insert_list-IsSorted : (v : T) (xs : List T) → IsSorted xs → IsSorted (insert_list v xs)
  insert_list-IsSorted v [] h = (tt, tt)
  insert_list-IsSorted v (x ∷ xs) h = ground (
    arith,
    insert_list-IsSorted v xs,
    All-insert_list (λ y. x ≺ y) v xs,
    o.lt_of_gt x v,
    All-above v x xs,
  )

  pub erase_list-IsSorted : (v : T) (xs : List T) → IsSorted xs → IsSorted (erase_list v xs)
  erase_list-IsSorted v [] h = tt
  erase_list-IsSorted v (x ∷ xs) h =
      ground (arith, erase_list-IsSorted v xs, All-erase_list (λ y. x ≺ y) v xs)
