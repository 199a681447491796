-- ===== src/NumberTheory/Garner/Residues.antt =====
-- The number that a Garner table makes of residues has these residues.
use all.Prelude.{
  ℕ, suc, ◌+◌, ◌*◌, ◌%◌, ◌<◌, ◌≤◌, ◌≡◌, refl, sym, ap, subst, ◌∙◌, Option, some, List, [], ◌∷◌,
  ◌++◌, arith, length, length-append, append_assoc, append-nil,
}
use all.NumberTheory.Garner.{
  GarnerTable, garner_table, convert_representation, convert_loop, apply_digits,
}
use all.NumberTheory.Garner.Inverse.{add_multiple}
use all.NumberTheory.Garner.Digits.{with_last, with_last-cong, half_mod, Ready, reduce-Digit}
use all.NumberTheory.Garner.Table.{AreCoprime, IsRow, AreRows, rows-AreRows}

-- The moduli do not decrease, and lie in the lower half of `uint32_t`.
abbrev pub AreModuli : ℕ → List ℕ → Type 0
AreModuli least [] = Unit
AreModuli least (m ∷ mods) = (least ≤ m) × (m ≤ half_mod) × AreModuli m mods

-- Each number is below its modulus.
abbrev pub AreResidues : List ℕ → List ℕ → Type 0
AreResidues [] [] = Unit
AreResidues (m ∷ mods) (x ∷ input) = (x < m) × AreResidues mods input
AreResidues _ _ = ⊥

-- `n` has these residues.
abbrev pub HasResidues : ℕ → List ℕ → List ℕ → Type 0
HasResidues n [] [] = Unit
HasResidues n (m ∷ mods) (x ∷ input) = (n % m ≡ x % m) × HasResidues n mods input
HasResidues n _ _ = ⊥

abbrev AllUpTo : ℕ → List ℕ → Type 0
AllUpTo b [] = Unit
AllUpTo b (o ∷ out) = (o ≤ b) × AllUpTo b out

AllUpTo-mono : (b c : ℕ) (out : List ℕ) → b ≤ c → AllUpTo b out → AllUpTo c out
AllUpTo-mono b c [] h a = tt
AllUpTo-mono b c (o ∷ out) h (p, a) = (omega arith, AllUpTo-mono b c out h a)

AllUpTo-snoc : (b : ℕ) (out : List ℕ) (d : ℕ) → AllUpTo b out → d ≤ b → AllUpTo b (out ++ d ∷ [])
AllUpTo-snoc b [] d a h = (h, tt)
AllUpTo-snoc b (o ∷ out) d (p, a) h = (p, AllUpTo-snoc b out d a h)

row-Ready :
    (m : ℕ) (before out row : List ℕ)
    → length before ≡ length out
    → AllUpTo m out
    → IsRow m before row
    → Ready m before out row
row-Ready m [] [] [] e a r = tt
row-Ready m [] [] (inv ∷ row) e a r = elim r [ ]
row-Ready m [] (o ∷ out) row e a r = absurd (omega arith)
row-Ready m (p ∷ before) [] row e a r = absurd (omega arith)
row-Ready m (p ∷ before) (o ∷ out) [] e a r = elim r [ ]
row-Ready m (p ∷ before) (o ∷ out) (inv ∷ row) e (ho, a) (hi, one, r) =
    (ho, hi, one, row-Ready m before out row (omega arith) a r)

with_last-snoc :
    (before out : List ℕ) (m d rest : ℕ)
    → length before ≡ length out
    → with_last (before ++ m ∷ []) (out ++ d ∷ []) rest ≡ with_last before out (d + m * rest)
with_last-snoc [] [] m d rest e = refl
with_last-snoc [] (o ∷ out) m d rest e = absurd (omega arith)
with_last-snoc (p ∷ before) [] m d rest e = absurd (omega arith)
with_last-snoc (p ∷ before) (o ∷ out) m d rest e =
    ap (λ (t : ℕ). o + p * t) (with_last-snoc before out m d rest (omega arith))

record Converted (before mods input out : List ℕ) (result : Option (List ℕ)) : Type 0 where
  digits : List ℕ
  returns : result ≡ some (out ++ digits)
  size : length digits ≡ length mods
  residues : HasResidues (with_last before out (with_last mods digits 0)) mods input

snoc_size :
    (before out : List ℕ) (m d : ℕ)
    → length before ≡ length out
    → length (before ++ m ∷ []) ≡ length (out ++ d ∷ [])
snoc_size before out m d e =
    omega (arith, length-append before (m ∷ []), length-append out (d ∷ []))

convert_loop-Converted :
    (b : ℕ) (before mods : List ℕ) (invs : List (List ℕ)) (input out : List ℕ)
    → length before ≡ length out
    → AllUpTo b out
    → AreModuli b mods
    → AreRows before mods invs
    → AreResidues mods input
    → Converted before mods input out (convert_loop mods invs input out)
unfolding convert_loop
convert_loop-Converted b before [] invs [] out e a m r i = record {
  digits = [];
  returns = ap some (sym (append-nil out));
  size = refl;
  residues = tt;
}
convert_loop-Converted b before [] invs (x ∷ input) out e a m r i = elim i [ ]
convert_loop-Converted b before (m ∷ mods) [] input out e a ms r i = elim r [ ]
convert_loop-Converted b before (m ∷ mods) (row ∷ invs) [] out e a ms r i = elim i [ ]
convert_loop-Converted b before (m ∷ mods) (row ∷ invs) (x ∷ input) out e a (hb, hm, ms) (r, rs)
      (hx, xs) =
    let up = AllUpTo-mono b m out hb a in
    let d = reduce-Digit m before out row x hm hx (row-Ready m before out row e up r) in
    let i =
      convert_loop-Converted m (before ++ m ∷ []) mods invs input (out ++ d.digit ∷ [])
        (snoc_size before out m d.digit e) (AllUpTo-snoc m out d.digit up (omega (arith, d.small)))
        ms rs xs in
    let rest = with_last mods i.digits 0 in
    record {
      digits = d.digit ∷ i.digits;
      returns = rw d.returns (i.returns ∙ ap some (append_assoc out (d.digit ∷ []) i.digits));
      size = omega (arith, i.size);
      residues = (
        with_last-cong before out (d.digit + m * rest) d.digit m
              (add_multiple (d.digit + m * rest) d.digit m 0 rest (omega arith))
            ∙ d.residue,
        subst (λ n. HasResidues n mods input) (with_last-snoc before out m d.digit rest e)
            i.residues,
      );
    }

-- `apply` reads the digits from the last one down; it does not look at the last modulus.
apply_digits-with_last :
    (m : ℕ) (mods digits : List ℕ)
    → length digits ≡ suc (length mods)
    → apply_digits 0 (λ a b. a + b) (λ a b. a * b) (m ∷ mods) digits
      ≡ some (with_last (m ∷ mods) digits 0)
unfolding apply_digits
apply_digits-with_last m mods [] h = absurd (omega arith)
apply_digits-with_last m [] (g ∷ []) h = ap some (omega arith)
apply_digits-with_last m (m' ∷ mods) (g ∷ []) h = absurd (omega arith)
apply_digits-with_last m [] (g ∷ g' ∷ gs) h = absurd (omega arith)
apply_digits-with_last m (m' ∷ mods) (g ∷ g' ∷ gs) h =
    rw (apply_digits-with_last m' mods (g' ∷ gs) (omega arith)) (ap some (omega arith))

-- For moduli that do not decrease, lie in the lower half of `uint32_t` and have no factors in common,
-- and for numbers below them, the table is made with no failed assertion and no division by zero, and
-- the number that `apply` makes of the digits of `convert_representation` has the given residues.
pub convert_representation_lem :
    (m : ℕ) (mods input : List ℕ)
    → AreModuli 0 (m ∷ mods)
    → AreCoprime [] (m ∷ mods)
    → AreResidues (m ∷ mods) input
    → (t : GarnerTable) × (digits : List ℕ) × (n : ℕ) × (garner_table (m ∷ mods) ≡ some t)
      × (convert_representation t input ≡ some digits)
      × (apply_digits 0 (λ a b. a + b) (λ a b. a * b) t.mods digits ≡ some n)
      × HasResidues n (m ∷ mods) input
unfolding garner_table convert_representation
convert_representation_lem m mods input h c x =
    let (invs, e, r) = rows-AreRows [] (m ∷ mods) c in
    let i = convert_loop-Converted 0 [] (m ∷ mods) invs input [] refl tt h r x in
    (
      record { mods = m ∷ mods; invs = invs },
      i.digits,
      with_last (m ∷ mods) i.digits 0,
      rw e,
      i.returns,
      apply_digits-with_last m mods i.digits i.size,
      i.residues,
    )
