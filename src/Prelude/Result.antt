-- ===== src/Prelude/Result.antt =====
-- How a piece of a program ends: an interpreter, a parser.
use all.Prelude.{Bool, true, false, ◌≡◌, ◌≢◌, refl, ◌⊎◌, inl, inr}

-- A failed `assert`, a thrown exception, and undefined behaviour of C++. `out_of_fuel` has no
-- counterpart in the program.
pub data Fault : Type 0 where
  assertion exception undefined out_of_fuel : Fault

pub data Result {ℓ} (A : Type ℓ) : Type ℓ where
  ok : A → Result A
  failed : Fault → Result A

module _ {ℓ κ} {A : Type ℓ} {B : Type κ} where
  infixl 5 ◌>>=◌
  -- A fault ends the whole run.
  abbrev pub ◌>>=◌ : Result A → (A → Result B) → Result B
  failed fault >>= next = failed fault
  ok value >>= next = next value

  -- Where the whole succeeded, so did its first part.
  pub >>=-eq-ok :
      (first : Result A) (next : A → Result B) {b : B}
      → (first >>= next) ≡ ok b
      → (a : A) × (first ≡ ok a) × (next a ≡ ok b)
  >>=-eq-ok (failed fault) next h = cc
  >>=-eq-ok (ok value) next h = (value, refl, h)

infixl 5 ◌>>◌
abbrev pub ◌>>◌ {ℓ} : {B : Type ℓ} → Result (Unit {0}) → Result B → Result B
first >> second = first >>= λ _. second

abbrev pub check : Bool → Fault → Result (Unit {0})
check false fault = failed fault
check true fault = ok tt

pub ok-injective {ℓ} : {A : Type ℓ} {a b : A} → ok a ≡ ok b → a ≡ b
ok-injective h = cc

pub Result-cases {ℓ} :
    {A : Type ℓ} (r : Result A) → ((a : A) × (r ≡ ok a)) ⊎ ((fault : Fault) × (r ≡ failed fault))
Result-cases (ok a) = inl (a, refl)
Result-cases (failed fault) = inr (fault, refl)

pub failed-ne-ok {ℓ} : {A : Type ℓ} {a : A} {fault : Fault} → failed fault ≢ ok a
failed-ne-ok h = cc

module _ {ℓ κ} {A : Type ℓ} {B : Type κ} {a a' : A} {b b' : B} where
  pub ok-first : ◌≡◌ {A = Result (A × B)} (ok (a, b)) (ok (a', b')) → a ≡ a'
  ok-first h = cc

  pub ok-second : ◌≡◌ {A = Result (A × B)} (ok (a, b)) (ok (a', b')) → b ≡ b'
  ok-second h = cc
