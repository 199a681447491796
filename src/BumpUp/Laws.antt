-- ===== src/BumpUp/Laws.antt =====
-- Where allocations lie.
use all.Prelude.{
  ℕ, suc, ◌+◌, ◌-◌, ◌*◌, ◌/◌, ◌%◌, ◌^◌, ◌≤◌, ◌<◌, ◌≡◌, refl, ap, ◌∙◌, Option, none, some, ◌>>=◌,
  List, [], ◌∷◌, ltb, arith, inl, inr, ◌⊎◌, true, false,
}
use Prim.Native.Nat.{◌∣◌}
use native.Mathlib.Nat.{mod-eq_of_lt, one-le-pow, dvd-mul_left, div-add-mod', mod-lt}
use native.Mathlib.Decide.{dec_le}
use all.BumpUp.{address_mod, Range, Request, align_up, allocate}

-- The sums of the allocator do not wrap.
pub record Fits (q : Request) (r : Range) : Type 0 where
  pub start : 0 < r.low
  pub ordered : r.low ≤ r.high
  pub room : r.high + 2 ^ q.align + q.size < address_mod

-- `p` is the first multiple of `a` from `low` on.
pub record IsAlignedUp (a low p : ℕ) : Type 0 where
  pub aligned : a ∣ p
  pub from : low ≤ p
  pub near : p < low + a

no_borrow :
    (low : ℕ) → 0 < low → low < address_mod → (low + (address_mod - 1)) % address_mod ≡ low - 1
no_borrow low h k = omega arith

round_lem : (a x : ℕ) → 0 < a → (x / a * a ≤ x) × (x < x / a * a + a)
round_lem a x h = let e = div-add-mod' x a in let l = mod-lt x h in (omega arith, omega arith)

times-suc : (m a : ℕ) → m * a + a ≡ suc m * a
times-suc m a = omega arith

align_up_value :
    (k low : ℕ)
    → 0 < low
    → low + 2 ^ k < address_mod
    → align_up k low ≡ suc ((low - 1) / 2 ^ k) * 2 ^ k
unfolding align_up
align_up_value k low h l =
    let (below, above) = round_lem (2 ^ k) (low - 1) (one-le-pow k 2 (omega arith)) in
    rw (no_borrow low h (omega arith))
      (mod-eq_of_lt (omega arith) ∙ times-suc ((low - 1) / 2 ^ k) (2 ^ k))

align_up-IsAlignedUp :
    (k low : ℕ) → 0 < low → low + 2 ^ k < address_mod → IsAlignedUp (2 ^ k) low (align_up k low)
align_up-IsAlignedUp k low h l =
    let a = 2 ^ k in
    let m = (low - 1) / a in
    let (below, above) = round_lem a (low - 1) (one-le-pow k 2 (omega arith)) in
    let step = times-suc m a in
    rw (align_up_value k low h l)
      (record { aligned = dvd-mul_left a (suc m); from = omega arith; near = omega arith })

-- Where the sums do not wrap, `allocate` fails exactly if the first element does not fit behind the
-- next aligned address. Otherwise it gives that address, which is the least one from the pointer
-- on, and moves the pointer behind the last element; it does not move the end of the range.
pub allocate_lem :
    (q : Request) (r : Range)
    → Fits q r
    → (p : ℕ) × IsAlignedUp (2 ^ q.align) r.low p
      × ((p + q.size ≤ r.high)
            × (allocate q r
                ≡ some (p, record { low = (p + q.size * q.count) % address_mod; high = r.high }))
          ⊎ (r.high < p + q.size) × (allocate q r ≡ none))
unfolding allocate
allocate_lem q r f =
    let p = align_up q.align r.low in
    let up =
      align_up-IsAlignedUp q.align r.low f.start
        (let o = f.ordered in let m = f.room in omega arith) in
    let from = up.from in
    let near = up.near in
    let ordered = f.ordered in
    let room = f.room in
    let whole : (p + q.size) % address_mod ≡ p + q.size = mod-eq_of_lt (omega arith) in
    (
      p,
      up,
      elim (dec_le (p + q.size) r.high) [
        | yes fits ↦
            inl (fits, rw whole (let t : ltb r.high (p + q.size) ≡ false = ground arith in rw t))
        | no out ↦
            inr (
              omega arith,
              rw whole (let t : ltb r.high (p + q.size) ≡ true = ground arith in rw t),
            )
      ],
    )

-- A sequence of calls: the start of each block, and the place behind it.
unfoldable pub allocate_all : List Request → Range → Option (List (ℕ × ℕ))
allocate_all [] r = some []
allocate_all (q ∷ qs) r = do
  (p, r') ← allocate q r
  blocks ← allocate_all qs r'
  some ((p, p + q.size * q.count) ∷ blocks)

-- Blocks one after the other between two addresses.
abbrev pub AreApart : ℕ → ℕ → List (ℕ × ℕ) → Type 0
AreApart low high [] = low ≤ high
AreApart low high ((start, end) ∷ blocks) = (low ≤ start) × (start ≤ end) × AreApart end high blocks

-- Requests of one element, whose sums do not wrap.
abbrev pub AllSingle : ℕ → List Request → Type 0
AllSingle high [] = Unit
AllSingle high (q ∷ qs) =
    (q.count ≡ 1) × (high + 2 ^ q.align + q.size < address_mod) × AllSingle high qs

single_block :
    (q : Request) (r : Range) (p : ℕ)
    → q.count ≡ 1
    → p + q.size ≤ r.high
    → r.high < address_mod
    → (p + q.size * q.count) % address_mod ≡ p + q.size
single_block q r p c h k =
    ap (λ n. (p + q.size * n) % address_mod) c
    ∙ ap (λ t. t % address_mod) (omega arith)
    ∙ mod-eq_of_lt (omega arith)

block_end : (size p n : ℕ) → n ≡ 1 → p + size * n ≡ p + size
block_end size p n c = ap (λ m. p + size * m) c ∙ omega arith

-- For a range from an address that is not 0, whose end plus the alignment and the size of any of the
-- requests is below 2^64, a sequence of allocations of single elements runs out of memory, or its
-- blocks lie one after the other inside the range: no two of them overlap, and none passes its end.
pub allocate_all-AreApart :
    (qs : List Request) (r : Range)
    → 0 < r.low
    → r.low ≤ r.high
    → AllSingle r.high qs
    → ((blocks : List (ℕ × ℕ)) × (allocate_all qs r ≡ some blocks) × AreApart r.low r.high blocks)
      ⊎ (allocate_all qs r ≡ none)
unfolding allocate_all
allocate_all-AreApart [] r h k all = inl ([], refl, k)
allocate_all-AreApart (q ∷ qs) r h k (single, room, all) =
    let (p, up, cases) = allocate_lem q r (record { start = h; ordered = k; room = room }) in
    let from = up.from in
    elim cases [
      | inr (_, f) ↦ inr (rw f)
      | inl (fits, f) ↦
          let r' : Range = record { low = p + q.size; high = r.high } in
          let moved = single_block q r p single fits (omega arith) in
          let end = block_end q.size p q.count single in
          elim (allocate_all-AreApart qs r' (omega arith) fits all) [
            | inr g ↦ inr (rw (f, moved, g))
            | inl (blocks, g, apart) ↦ inl (
              (p, p + q.size * q.count) ∷ blocks,
              rw (f, moved, g),
              (from, omega arith, rw end apart),
            )
          ]
    ]
