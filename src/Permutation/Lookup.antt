-- ===== src/Permutation/Lookup.antt =====
-- Reading a vector of images with a default.
use all.Prelude.{
  ℕ, zero, suc, ◌+◌, ◌≤◌, ◌<◌, ◌≡◌, ◌≢◌, refl, sym, ap, ◌∙◌, some, none, List, [], ◌∷◌, ◌++◌,
  length, length-append, get_elem?, get_or, set, arith,
}
use all.Permutation.{push_sizes}

module _ {ℓ} {A : Type ℓ} where
  pub get_elem?-get_or :
      (v : List A) (i : ℕ) (d : A) → i < length v → get_elem? v i ≡ some (get_or v i d)
  get_elem?-get_or [] i d h = absurd (omega arith)
  get_elem?-get_or (x ∷ v) zero d h = refl
  get_elem?-get_or (x ∷ v) (suc i) d h = get_elem?-get_or v i d (omega arith)

  pub get_elem?-none : (v : List A) (i : ℕ) → length v ≤ i → get_elem? v i ≡ none
  get_elem?-none [] i h = refl
  get_elem?-none (x ∷ v) zero h = absurd (omega arith)
  get_elem?-none (x ∷ v) (suc i) h = get_elem?-none v i (omega arith)

  pub get_or-beyond : (v : List A) (i : ℕ) (d : A) → length v ≤ i → get_or v i d ≡ d
  get_or-beyond [] i d h = refl
  get_or-beyond (x ∷ v) zero d h = absurd (omega arith)
  get_or-beyond (x ∷ v) (suc i) d h = get_or-beyond v i d (omega arith)

  pub get_or-default : (v : List A) (i : ℕ) (d e : A) → i < length v → get_or v i d ≡ get_or v i e
  get_or-default [] i d e h = absurd (omega arith)
  get_or-default (x ∷ v) zero d e h = refl
  get_or-default (x ∷ v) (suc i) d e h = get_or-default v i d e (omega arith)

  pub get_or-set_self : (v : List A) (i : ℕ) (x d : A) → i < length v → get_or (set v i x) i d ≡ x
  get_or-set_self [] i x d h = absurd (omega arith)
  get_or-set_self (y ∷ v) zero x d h = refl
  get_or-set_self (y ∷ v) (suc i) x d h = get_or-set_self v i x d (omega arith)

  pub get_or-set_ne :
      (v : List A) (i j : ℕ) (x d : A) → i ≢ j → get_or (set v i x) j d ≡ get_or v j d
  get_or-set_ne [] i j x d h = refl
  get_or-set_ne (y ∷ v) zero zero x d h = absurd (h refl)
  get_or-set_ne (y ∷ v) zero (suc j) x d h = refl
  get_or-set_ne (y ∷ v) (suc i) zero x d h = refl
  get_or-set_ne (y ∷ v) (suc i) (suc j) x d h = get_or-set_ne v i j x d (λ e. h (ap suc e))

  -- An entry at the end changes nothing, if it is the default there.
  pub get_or-append :
      (v : List A) (x d : A) (i : ℕ)
      → (i ≡ length v → x ≡ d)
      → get_or (v ++ x ∷ []) i d ≡ get_or v i d
  get_or-append [] x d zero h = h refl
  get_or-append [] x d (suc i) h = refl
  get_or-append (y ∷ v) x d zero h = refl
  get_or-append (y ∷ v) x d (suc i) h = get_or-append v x d i (λ e. h (ap suc e))

pub length-push_sizes : (k : ℕ) (v : List ℕ) → length (push_sizes k v) ≡ k + length v
unfolding push_sizes
length-push_sizes zero v = omega arith
length-push_sizes (suc k) v =
    omega (arith, length-push_sizes k (v ++ length v ∷ []), length-append v (length v ∷ []))

pub get_or-push_sizes : (k : ℕ) (v : List ℕ) (i : ℕ) → get_or (push_sizes k v) i i ≡ get_or v i i
unfolding push_sizes
get_or-push_sizes zero v i = refl
get_or-push_sizes (suc k) v i =
    get_or-push_sizes k (v ++ length v ∷ []) i ∙ get_or-append v (length v) i i sym
