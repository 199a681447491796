-- ===== src/Tournament/Finding.antt =====
-- The outer loop of `find`, which goes over the range block by block.
use all.Prelude.{
  ℕ, zero, suc, ◌+◌, ◌-◌, ◌*◌, ◌/◌, ◌%◌, ◌^◌, ◌≤◌, ◌<◌, ◌≡◌, refl, subst, Bool, false, ◌||◌, Option,
  none, some, ◌==◌, min, ==_iff, arith,
}
use native.Mathlib.Decide.{ℕ_discrete}
use all.NumberTheory.Power.{top_bit}
use all.Tournament.{Turnament}
use all.Tournament.Laws.{IsValid}
use all.Tournament.Search.{Side, left, right, trailing_zeros, find_loop, find}
use all.Tournament.Alignment.{width-le, edge-aligned, before-aligned}
use all.Tournament.Round.{IsAnswer, Answers, IsNear, round-Answers}

span-eq :
    (lo hi : ℕ)
    → lo ≤ hi
    → hi < 18_446_744_073_709_551_616
    → (hi + 18_446_744_073_709_551_616 - lo) % 18_446_744_073_709_551_616 ≡ hi - lo
span-eq lo hi h k = omega arith

eq-false : (a b : ℕ) → a < b → (a == b) ≡ false
eq-false a b h = ground arith

left-IsNear :
    (lo hi m n : ℕ)
    → lo < hi
    → hi ≤ n
    → n ≡ 2 ^ m
    → let j = min (trailing_zeros lo) (top_bit (hi - lo) (hi - lo)) in
      IsNear left (lo + n) (hi + n) ((lo + n) / 2 ^ j) (2 ^ j)
left-IsNear lo hi m n h k e =
    let a = trailing_zeros lo in
    let (one, low) = width-le a (hi - lo) (omega arith) in
    let edge = edge-aligned a (hi - lo) lo m n (omega arith) (omega arith) e (omega arith) in
    record { low = omega arith; high = omega arith; touches = edge }

right-IsNear :
    (lo hi m n : ℕ)
    → lo < hi
    → hi ≤ n
    → n ≡ 2 ^ m
    → let j = min (trailing_zeros hi) (top_bit (hi - lo) (hi - lo)) in
      IsNear right (lo + n) (hi + n) ((hi - 1 + n) / 2 ^ j) (2 ^ j)
right-IsNear lo hi m n h k e =
    let a = trailing_zeros hi in
    let j = min a (top_bit (hi - lo) (hi - lo)) in
    let (one, low) = width-le a (hi - lo) (omega arith) in
    let edge = edge-aligned a (hi - lo) hi m n (omega arith) (omega arith) e (omega arith) in
    let same : hi + n - 1 ≡ hi - 1 + n = omega arith in
    let end : (hi - 1 + n) / 2 ^ j * 2 ^ j + 2 ^ j ≡ hi + n =
      subst (λ x. x / 2 ^ j * 2 ^ j + 2 ^ j ≡ hi + n) same
        (before-aligned (hi + n) (2 ^ j) one (omega arith) edge) in
    record { low = omega arith; high = omega arith; touches = end }

module _ {ℓ} {T : Type ℓ} (plus : T → T → T) (d : T) (pred : T → Bool) where
  find_loop-Answers :
      (side : Side) (f : ℕ) (t : Turnament T) (lo hi m : ℕ)
      → ((a b : T) → pred (plus a b) ≡ (pred a || pred b))
      → IsValid plus d t
      → t.leaves ≡ 2 ^ m
      → lo ≤ hi
      → hi ≤ t.leaves
      → hi < 18_446_744_073_709_551_616
      → hi - lo < f
      → Answers plus d pred side t (lo + t.leaves) (hi + t.leaves) (find_loop side pred f t lo hi)
  unfolding find_loop
  find_loop-Answers side zero t lo hi m add v e h k l p = absurd (omega arith)
  find_loop-Answers left (suc f) t lo hi m add v e h k l p = elim (ℕ_discrete lo hi) [
    | yes same ↦ (none, rw ((==_iff lo hi).1 same) refl, λ q g u. absurd (omega arith))
    | no apart ↦
        let j = min (trailing_zeros lo) (top_bit (hi - lo) (hi - lo)) in
        let (one, low) = width-le (trailing_zeros lo) (hi - lo) (omega arith) in
        let shift : lo + 2 ^ j + t.leaves ≡ lo + t.leaves + 2 ^ j = omega arith in
        let others =
          find_loop-Answers left f t (lo + 2 ^ j) hi m add v e (omega arith) k l (omega arith) in
        rw (eq-false lo hi (omega arith), span-eq lo hi h l)
          (round-Answers plus d pred left t (lo + t.leaves) (hi + t.leaves) j
            ((lo + t.leaves) / 2 ^ j) (find_loop left pred f t (lo + 2 ^ j) hi) add v (omega arith)
            (omega arith) (omega arith) (left-IsNear lo hi m t.leaves (omega arith) k e)
            (subst
              (λ x.
                Answers plus d pred left t x (hi + t.leaves)
                  (find_loop left pred f t (lo + 2 ^ j) hi))
              shift others))
  ]
  find_loop-Answers right (suc f) t lo hi m add v e h k l p = elim (ℕ_discrete lo hi) [
    | yes same ↦ (none, rw ((==_iff lo hi).1 same) refl, λ q g u. absurd (omega arith))
    | no apart ↦
        let j = min (trailing_zeros hi) (top_bit (hi - lo) (hi - lo)) in
        let (one, low) = width-le (trailing_zeros hi) (hi - lo) (omega arith) in
        let shift : hi - 2 ^ j + t.leaves ≡ hi + t.leaves - 2 ^ j = omega arith in
        let others =
          find_loop-Answers right f t lo (hi - 2 ^ j) m add v e (omega arith) (omega arith)
            (omega arith) (omega arith) in
        rw (eq-false lo hi (omega arith), span-eq lo hi h l)
          (round-Answers plus d pred right t (lo + t.leaves) (hi + t.leaves) j
            ((hi - 1 + t.leaves) / 2 ^ j) (find_loop right pred f t lo (hi - 2 ^ j)) add v
            (omega arith) (omega arith) (omega arith)
            (right-IsNear lo hi m t.leaves (omega arith) k e)
            (subst
              (λ x.
                Answers plus d pred right t (lo + t.leaves) x
                  (find_loop right pred f t lo (hi - 2 ^ j)))
              shift others))
  ]

  -- When the predicate holds of a sum exactly when it holds of one of the two summands, `find` on
  -- a range of the leaves of a valid tournament, from either side, ends and stays inside the
  -- vector. It gives no position exactly when the predicate holds of no leaf of the range, and
  -- otherwise the position in the range of the first leaf from the side, so the first one or the
  -- last one, that the predicate holds of. The number of leaves is a power of two, and the end of
  -- the range is below 2 ^ 64.
  pub find_lem :
      (side : Side) (t : Turnament T) (lo hi m : ℕ)
      → ((a b : T) → pred (plus a b) ≡ (pred a || pred b))
      → IsValid plus d t
      → t.leaves ≡ 2 ^ m
      → lo ≤ hi
      → hi ≤ t.leaves
      → hi < 18_446_744_073_709_551_616
      → (r : Option ℕ) × (find side pred t lo hi ≡ some r)
        × IsAnswer plus d pred side t (lo + t.leaves) (hi + t.leaves) r
  unfolding find
  find_lem side t lo hi m add v e h k l =
      find_loop-Answers side (suc (hi - lo)) t lo hi m add v e h k l (omega arith)
