-- ===== src/Parsing/Text.antt =====
-- The operations of `basic_parser` (ivl/parsing/basic_parser.hpp) on the text that is not read yet,
-- `current_sv()`. A `panic` is the fault `exception`. Parsing/Basic has the cursor and shows that
-- these are its operations.
use all.Prelude.{◌≡◌, refl, sym, ap, ℕ, Bool, true, false, List, [], ◌∷◌, ◌==◌, if◌then◌else◌}
use all.Prelude.Result.{ok-first, ok-second, Result, ok, failed, exception, assertion, failed-ne-ok}
use all.Prelude.Chars.{starts_with}

-- A method of the parser: what it returns, and the text it leaves.
abbrev pub M {ℓ} : Type ℓ → Type ℓ
M A = List ℕ → Result (A × List ℕ)

abbrev pub continue {ℓ κ} :
    {A : Type ℓ} {B : Type κ} → Result (A × List ℕ) → (A → M B) → Result (B × List ℕ)
continue (ok (a, rest)) f = f a rest
continue (failed e) f = failed e

infixl 5 ◌>>=◌ ◌>>◌
abbrev pub ◌>>=◌ {ℓ κ} : {A : Type ℓ} {B : Type κ} → M A → (A → M B) → M B
◌>>=◌ m f text = continue (m text) f

abbrev pub ◌>>◌ {ℓ} : {B : Type ℓ} → M (Unit {0}) → M B → M B
m >> k = m >>= λ _. k

abbrev pub return {ℓ} : {A : Type ℓ} → A → M A
return a text = ok (a, text)

abbrev pub panic {ℓ} : {A : Type ℓ} → M A
panic text = failed exception

-- `b || panic(...)`
abbrev pub demand : Bool → M (Unit {0})
demand true text = ok (tt, text)
demand false text = failed exception

-- `contract_assert`
abbrev pub contract : Bool → M (Unit {0})
contract true text = ok (tt, text)
contract false text = failed assertion

-- A part that does not read the text.
abbrev pub lift {ℓ} : {A : Type ℓ} → Result A → M A
lift (ok a) text = ok (a, text)
lift (failed e) text = failed e

unfoldable pub current_sv : M (List ℕ)
current_sv text = ok (text, text)

unfoldable pub finished : M Bool
finished [] = ok (true, [])
finished (c ∷ text) = ok (false, c ∷ text)

unfoldable pub current_c : M ℕ
current_c [] = failed exception
current_c (c ∷ text) = ok (c, c ∷ text)

unfoldable pub consume_c_nocheck : M (Unit {0})
consume_c_nocheck [] = failed exception
consume_c_nocheck (c ∷ text) = ok (tt, text)

unfoldable pub consume_c : ℕ → M (Unit {0})
consume_c c [] = failed exception
consume_c c (x ∷ text) = if x == c then ok (tt, text) else failed exception

unfoldable pub consume_c_if : ℕ → M Bool
consume_c_if c [] = ok (false, [])
consume_c_if c (x ∷ text) = if x == c then ok (true, text) else ok (false, x ∷ text)

unfoldable pub consume : List ℕ → M (Unit {0})
unfolding consume_c
consume [] = return tt
consume (c ∷ sv) = do consume_c c; consume sv

unfoldable pub consume_if : List ℕ → M Bool
unfolding consume
consume_if sv text =
    if starts_with sv text then (do consume sv; return true) text else ok (false, text)

-- Where the whole succeeded, so did its first part.
pub continue-eq-ok {ℓ κ} :
    {A : Type ℓ} {B : Type κ} (r : Result (A × List ℕ)) (f : A → M B) {b : B × List ℕ}
    → continue r f ≡ ok b
    → (a : A) × (rest : List ℕ) × (r ≡ ok (a, rest)) × (f a rest ≡ ok b)
continue-eq-ok (ok (a, rest)) f h = (a, rest, refl, h)
continue-eq-ok (failed e) f h = absurd (failed-ne-ok h)

pub demand-eq-ok :
    (b : Bool) (text : List ℕ) {u : Unit} {rest : List ℕ}
    → ◌≡◌ {A = Result (Unit {0} × List ℕ)} (demand b text) (ok (u, rest))
    → (b ≡ true) × (rest ≡ text)
demand-eq-ok true text h = (refl, sym (ok-second h))
demand-eq-ok false text h = absurd (failed-ne-ok h)

pub lift-eq-ok {ℓ} :
    {A : Type ℓ} (r : Result A) (text : List ℕ) {a : A} {rest : List ℕ}
    → ◌≡◌ {A = Result (A × List ℕ)} (lift r text) (ok (a, rest))
    → r ≡ ok a
lift-eq-ok (ok b) text h = ap ok (ok-first h)
lift-eq-ok (failed e) text h = absurd (failed-ne-ok h)
