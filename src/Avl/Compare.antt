-- ===== src/Avl/Compare.antt =====
-- What the tree asks of `<=>` on its values: a strong order.
use Prim.Native.Nat.{compare, Ordering}
use Prim.Native.Nat.Ordering.{lt, eq, gt}
use all.Prelude.{ℕ, ◌≡◌, refl, ◌⊎◌, inl, inr, arith}

pub record Ordered {ℓ} (T : Type ℓ) : Type ℓ where
  pub cmp : T → T → Ordering
  pub cmp_refl : (a : T) → cmp a a ≡ eq
  pub eq_of_cmp : (a b : T) → cmp a b ≡ eq → a ≡ b
  pub lt_of_gt : (a b : T) → cmp a b ≡ gt → cmp b a ≡ lt
  pub gt_of_lt : (a b : T) → cmp a b ≡ lt → cmp b a ≡ gt
  pub lt_trans : (a b c : T) → cmp a b ≡ lt → cmp b c ≡ lt → cmp a c ≡ lt

infix 50 ◌≺◌
abbrev pub ◌≺◌ {ℓ} : {T : Type ℓ} ⦃o : Ordered T⦄ → T → T → Type 0
◌≺◌ ⦃o⦄ a b = o.cmp a b ≡ lt

pub compare_refl : (a : ℕ) → compare a a ≡ eq
compare_refl a = ground arith

pub compare-eq : (a b : ℕ) → compare a b ≡ eq → a ≡ b
compare-eq a b h = ground arith

pub compare-gt : (a b : ℕ) → compare a b ≡ gt → compare b a ≡ lt
compare-gt a b h = ground arith

pub compare-lt : (a b : ℕ) → compare a b ≡ lt → compare b a ≡ gt
compare-lt a b h = ground arith

pub compare_trans : (a b c : ℕ) → compare a b ≡ lt → compare b c ≡ lt → compare a c ≡ lt
compare_trans a b c h k = ground arith

instance abbrev pub nat_ordered : Ordered ℕ
nat_ordered = record {
  cmp = compare;
  cmp_refl = compare_refl;
  eq_of_cmp = compare-eq;
  lt_of_gt = compare-gt;
  gt_of_lt = compare-lt;
  lt_trans = compare_trans;
}

-- To split on a comparison and keep the equation.
pub Ordering-cases : (c : Ordering) → (c ≡ eq) ⊎ (c ≡ gt) ⊎ (c ≡ lt)
Ordering-cases lt = inr (inr refl)
Ordering-cases eq = inl refl
Ordering-cases gt = inr (inl refl)
