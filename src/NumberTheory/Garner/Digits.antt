-- ===== src/NumberTheory/Garner/Digits.antt =====
-- One digit of `convert_representation`: its inner loop undoes the digits before it, modulo `m`.
use all.Prelude.{
  ℕ, ◌+◌, ◌-◌, ◌*◌, ◌/◌, ◌%◌, ◌<◌, ◌≤◌, ◌≡◌, refl, sym, ap, subst, ◌∙◌, Option, some, List, [], ◌∷◌,
  arith,
}
use native.Mathlib.Nat.{mod-lt, div-add-mod, mod-eq_of_lt, mul-le-mul}
use all.NumberTheory.Garner.{reduce, word_mod}
use all.NumberTheory.Garner.Inverse.{add_multiple, nonzero}

-- The number with these digits, the last one `last`, in the mixed radix `mods`.
abbrev pub with_last : List ℕ → List ℕ → ℕ → ℕ
with_last (p ∷ mods) (o ∷ out) last = o + p * with_last mods out last
with_last _ _ last = last

-- Numbers that are equal modulo `m` differ by multiples of it.
same_residue : (u v m : ℕ) → u % m ≡ v % m → u + m * (v / m) ≡ v + m * (u / m)
same_residue u v m h = omega (arith, div-add-mod u m, div-add-mod v m)

pub digit_cong : (o p u v m : ℕ) → u % m ≡ v % m → (o + p * u) % m ≡ (o + p * v) % m
digit_cong o p u v m h =
    add_multiple (o + p * u) (o + p * v) m (p * (v / m)) (p * (u / m))
      (omega (arith, ap (λ (t : ℕ). p * t) (same_residue u v m h)))

pub with_last-cong :
    (mods out : List ℕ) (u v m : ℕ)
    → u % m ≡ v % m
    → with_last mods out u % m ≡ with_last mods out v % m
with_last-cong [] [] u v m h = h
with_last-cong [] (o ∷ out) u v m h = h
with_last-cong (p ∷ mods) [] u v m h = h
with_last-cong (p ∷ mods) (o ∷ out) u v m h =
    digit_cong o p (with_last mods out u) (with_last mods out v) m (with_last-cong mods out u v m h)

-- One round of the inner loop, without the wrap-around of `uint64_t`.
undone :
    (m p o inv val d q v k k' : ℕ)
    → p * inv + m * k ≡ 1 + m * k'
    → d + o ≡ val + m
    → m * q + v ≡ d * inv
    → (o + p * v) % m ≡ val % m
undone m p o inv val d q v k k' h e f =
    add_multiple (o + p * v) val m (p * q + d * k) (1 + d * k')
      (omega (arith, ap (λ (t : ℕ). d * t) h, ap (λ (t : ℕ). p * t) f))

-- Half the range of `uint32_t`.
abbrev pub half_mod : ℕ
half_mod = 2_147_483_648

wrapped_product : (d inv : ℕ) → d ≤ 2 * half_mod → inv ≤ half_mod → d * inv % word_mod ≡ d * inv
wrapped_product d inv h k =
    let bound : d * inv ≤ 2 * half_mod * half_mod = mul-le-mul h k in mod-eq_of_lt (omega arith)

abbrev round : ℕ → ℕ → ℕ → ℕ → ℕ
round m o inv val = (val + (word_mod - o) + m) % word_mod * inv % word_mod % m

-- For a modulus in the lower half no product wraps.
round_value :
    (m o inv val : ℕ)
    → m ≤ half_mod
    → o ≤ m
    → inv < m
    → val < m
    → round m o inv val ≡ (val + m - o) * inv % m
round_value m o inv val h ho hi hv =
    let difference : (val + (word_mod - o) + m) % word_mod ≡ val + m - o = omega arith in
    ap (λ (t : ℕ). t * inv % word_mod % m) difference
    ∙ ap (λ (t : ℕ). t % m) (wrapped_product (val + m - o) inv (omega arith) (omega arith))

round_undone :
    (m p o inv val : ℕ)
    → m ≤ half_mod
    → o ≤ m
    → inv < m
    → val < m
    → p * inv % m ≡ 1 % m
    → (o + p * round m o inv val) % m ≡ val % m
round_undone m p o inv val h ho hi hv e =
    subst (λ t. (o + p * t) % m ≡ val % m) (sym (round_value m o inv val h ho hi hv))
      (undone m p o inv val (val + m - o) ((val + m - o) * inv / m) ((val + m - o) * inv % m)
        (1 / m) (p * inv / m) (same_residue (p * inv) 1 m e) (omega arith)
        (div-add-mod ((val + m - o) * inv) m))

-- The digits so far, and the inverses of the moduli so far.
abbrev pub Ready : ℕ → List ℕ → List ℕ → List ℕ → Type 0
Ready m [] [] [] = Unit
Ready m (p ∷ mods) (o ∷ out) (inv ∷ row) =
    (o ≤ m) × (inv < m) × (p * inv % m ≡ 1 % m) × Ready m mods out row
Ready m _ _ _ = ⊥

pub record Digit (m : ℕ) (mods out : List ℕ) (val : ℕ) (result : Option ℕ) : Type 0 where
  pub digit : ℕ
  pub returns : result ≡ some digit
  pub small : digit < m
  pub residue : with_last mods out digit % m ≡ val % m

pub reduce-Digit :
    (m : ℕ) (mods out row : List ℕ) (val : ℕ)
    → m ≤ half_mod
    → val < m
    → Ready m mods out row
    → Digit m mods out val (reduce m out row val)
unfolding reduce
reduce-Digit m [] [] [] val h hv r = record {
  digit = val;
  returns = refl;
  small = hv;
  residue = refl;
}
reduce-Digit m [] [] (inv ∷ row) val h hv r = elim r [ ]
reduce-Digit m [] (o ∷ out) row val h hv r = elim r [ ]
reduce-Digit m (p ∷ mods) [] row val h hv r = elim r [ ]
reduce-Digit m (p ∷ mods) (o ∷ out) [] val h hv r = elim r [ ]
reduce-Digit m (p ∷ mods) (o ∷ out) (inv ∷ row) val h hv (ho, hi, e, r) =
    let positive : 0 < m = omega arith in
    let v = round m o inv val in
    let i = reduce-Digit m mods out row v h (mod-lt _ positive) r in
    record {
      digit = i.digit;
      returns = rw (nonzero m positive) i.returns;
      small = i.small;
      residue =
          digit_cong o p (with_last mods out i.digit) v m i.residue
          ∙ round_undone m p o inv val h ho hi hv e;
    }
