-- ===== src/Prelude/Within.antt =====
-- A parser that leaves at most n things unread and never runs out of fuel.
use all.Prelude.{
  ℕ, ◌≤◌, ◌≡◌, ◌≢◌, refl, ◌⊎◌, inl, inr, Bool, true, false, List, length, if◌then◌else◌,
}
use all.Prelude.Result.{Result, Fault, ok, failed, out_of_fuel, ◌>>◌, check}

module _ {ℓ κ} {A : Type ℓ} {B : Type κ} where
  -- The parser leaves at most n tokens, or fails with a fault of the program.
  pub record Within (n : ℕ) (r : Result (A × List B)) : Type (ℓ ⊔ κ) where
    pub cases :
        ((p : A × List B) × (r ≡ ok p) × (length p.1 ≤ n))
        ⊎ ((e : Fault) × (r ≡ failed e) × (e ≢ out_of_fuel))

  pub reads : (n : ℕ) (a : A) (rest : List B) → length rest ≤ n → Within n (ok (a, rest))
  reads n a rest h = record { cases = inl ((a, rest), refl, h) }

  pub fails : (n : ℕ) (e : Fault) → e ≢ out_of_fuel → Within n (failed e)
  fails n e h = record { cases = inr (e, refl, h) }

  pub choose :
      (b : Bool) {x y : Result (A × List B)} {n : ℕ}
      → Within n x
      → Within n y
      → Within n (if b then x else y)
  choose true h k = h
  choose false h k = k

  pub choose_eq :
      (b : Bool) {x y : Result (A × List B)} {n : ℕ}
      → (b ≡ true → Within n x)
      → (b ≡ false → Within n y)
      → Within n (if b then x else y)
  choose_eq true h k = h refl
  choose_eq false h k = k refl

  pub guarded :
      (b : Bool) (e : Fault) {x : Result (A × List B)} {n : ℕ}
      → e ≢ out_of_fuel
      → (b ≡ true → Within n x)
      → Within n (check b e >> x)
  guarded true e d h = h refl
  guarded false e d h = fails _ e d
