-- ===== src/Tournament/Round.antt =====
-- A round of the outer loop of `find`: a block of leaves at one end of the range.
use all.Prelude.{
  ℕ, zero, suc, ◌+◌, ◌-◌, ◌*◌, ◌^◌, ◌≤◌, ◌<◌, ◌≡◌, refl, sym, subst, inl, inr, Bool, ◌||◌, Option,
  none, some, ◌>>=◌, get_elem?, get_or, if◌then◌else◌, Bool-cases, arith,
}
use native.Mathlib.Nat.{pow-suc, one-le-pow, mul-le-mul_left}
use all.Permutation.Lookup.{get_elem?-get_or}
use all.Tournament.{Turnament}
use all.Tournament.Laws.{IsValid}
use all.Tournament.Search.{Side, left, right, descend}
use all.Tournament.Blocks.{HasNone, HasNone-join, IsFirst, block-HasNone}
use all.Tournament.Descent.{descend_lem}

positive_factor : (i w : ℕ) → 0 < i * w → 0 < i
positive_factor zero w h = omega arith
positive_factor (suc i) w h = omega arith

below_pow : (j : ℕ) → j < 2 ^ j
below_pow zero = omega arith
below_pow (suc j) = let e : 2 ^ suc j ≡ 2 ^ j * 2 = pow-suc 2 j in omega (arith, below_pow j)

-- The entry of the block of w leaves at the near end of the range.
pub record IsNear (side : Side) (a b i w : ℕ) : Type 0 where
  pub low : a ≤ i * w
  pub high : i * w + w ≤ b
  pub touches : elim side as (λ s. Type 0) [ left ↦ i * w ≡ a | right ↦ i * w + w ≡ b ]

-- The range without this block.
abbrev pub shorter : Side → ℕ → ℕ → ℕ → ℕ × ℕ
shorter left a b w = (a + w, b)
shorter right a b w = (a, b - w)

module _ {ℓ} {T : Type ℓ} (plus : T → T → T) (d : T) (pred : T → Bool) where
  -- What `find` promises of the leaves in the entries from a to before b.
  abbrev pub IsAnswer : Side → Turnament T → ℕ → ℕ → Option ℕ → Type 0
  IsAnswer side t a b none = HasNone d pred t a b
  IsAnswer side t a b (some pos) = IsFirst d pred side t a b (pos + t.leaves)

  abbrev pub Answers : Side → Turnament T → ℕ → ℕ → Option (Option ℕ) → Type 0
  Answers side t a b out = (r : Option ℕ) × (out ≡ some r) × IsAnswer side t a b r

  IsAnswer-longer :
      (side : Side) (t : Turnament T) (a b i w : ℕ) (r : Option ℕ)
      → IsNear side a b i w
      → HasNone d pred t (i * w) (i * w + w)
      → IsAnswer side t (shorter side a b w).0 (shorter side a b w).1 r
      → IsAnswer side t a b r
  IsAnswer-longer left t a b i w none n g h =
      let low = n.low in
      let high = n.high in
      let touches = n.touches in
      HasNone-join d pred t a (a + w) b (λ q k l. g q (omega arith) (omega arith)) h
  IsAnswer-longer left t a b i w (some pos) n g h =
      let low = n.low in
      let high = n.high in
      let touches = n.touches in
      let from = h.low in
      record {
        low = omega arith;
        high = h.high;
        holds = h.holds;
        outermost =
            HasNone-join d pred t a (a + w) (pos + t.leaves)
              (λ q k l. g q (omega arith) (omega arith)) h.outermost;
      }
  IsAnswer-longer right t a b i w none n g h =
      let low = n.low in
      let high = n.high in
      let touches = n.touches in
      HasNone-join d pred t a (b - w) b h (λ q k l. g q (omega arith) (omega arith))
  IsAnswer-longer right t a b i w (some pos) n g h =
      let low = n.low in
      let high = n.high in
      let touches = n.touches in
      let until = h.high in
      record {
        low = h.low;
        high = omega arith;
        holds = h.holds;
        outermost =
            HasNone-join d pred t (suc (pos + t.leaves)) (b - w) b h.outermost
              (λ q k l. g q (omega arith) (omega arith));
      }

  IsFirst-block :
      (side : Side) (t : Turnament T) (a b i w r : ℕ)
      → IsNear side a b i w
      → IsFirst d pred side t (i * w) (i * w + w) r
      → IsFirst d pred side t a b r
  IsFirst-block left t a b i w r n f =
      let low = f.low in
      let high = f.high in
      let start = n.low in
      let end = n.high in
      let touches = n.touches in
      record {
        low = omega arith;
        high = omega arith;
        holds = f.holds;
        outermost = λ q k l. f.outermost q (omega arith) l;
      }
  IsFirst-block right t a b i w r n f =
      let low = f.low in
      let high = f.high in
      let start = n.low in
      let end = n.high in
      let touches = n.touches in
      record {
        low = omega arith;
        high = omega arith;
        holds = f.holds;
        outermost = λ q k l. f.outermost q k (omega arith);
      }

  pub round-Answers :
      (side : Side) (t : Turnament T) (a b j idx : ℕ) (rest : Option (Option ℕ))
      → ((a b : T) → pred (plus a b) ≡ (pred a || pred b))
      → IsValid plus d t
      → t.leaves ≤ a
      → b ≤ t.leaves * 2
      → 2 ^ j ≤ t.leaves
      → IsNear side a b idx (2 ^ j)
      → Answers side t (shorter side a b (2 ^ j)).0 (shorter side a b (2 ^ j)).1 rest
      → Answers side t a b (
          get_elem? t.data' idx >>= λ x.
          if pred x
          then (descend side pred (suc t.leaves) t idx >>= λ i. some (some (i - t.leaves)))
          else rest)
  round-Answers side t a b j idx rest add v h k l near others =
      let size = v.size in
      let some_leaf = v.positive in
      let low = near.low in
      let high = near.high in
      let one : 1 ≤ 2 ^ j = one-le-pow j 2 (omega arith) in
      let grown : idx * 1 ≤ idx * 2 ^ j = mul-le-mul_left idx one in
      let there = positive_factor idx (2 ^ j) (omega arith) in
      let found = get_elem?-get_or t.data' idx d (omega arith) in
      elim (Bool-cases (pred (get_or t.data' idx d))) [
        | inl e ↦
            let (r, ran, first) =
              descend_lem plus d side pred t j idx (suc t.leaves) add v there (omega arith)
                (omega arith) (omega (arith, below_pow j)) e in
            let start = first.low in
            let back : r - t.leaves + t.leaves ≡ r = omega arith in
            (
              some (r - t.leaves),
              rw (found, e, ran) refl,
              subst (λ q. IsFirst d pred side t a b q) (sym back)
                  (IsFirst-block side t a b idx (2 ^ j) r near first),
            )
        | inr e ↦
            let (r, ran, answer) = others in
            (
              r,
              rw (found, e) ran,
              IsAnswer-longer side t a b idx (2 ^ j) r near
                  (block-HasNone plus d pred t j idx add v there (omega arith) e) answer,
            )
      ]
