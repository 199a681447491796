-- ===== src/Parsing/Progress.antt =====
-- The operations of Parsing/Text leave at most as much text as there was, and have no fuel.
use all.Prelude.{
  ℕ, suc, ◌≤◌, ◌<◌, ◌≢◌, ap, inl, inr, Bool, true, false, List, [], ◌∷◌, length, arith, ◌==◌,
  Bool-cases,
}
use all.Prelude.Result.{Result, ok, failed, exception, assertion, out_of_fuel}
use all.Prelude.Chars.{starts_with}
use all.Prelude.Within.{Within, reads, fails}
use all.Parsing.Text.{
  M, continue, demand, contract, lift, current_c, consume_c_nocheck, consume_c, consume_c_if,
  consume, consume_if,
}

pub throws {ℓ} : {A : Type ℓ} (n : ℕ) → Within {A = A} {B = ℕ} n (failed exception)
throws n = fails n exception (λ e. cc)

pub bind {ℓ κ} :
    {A : Type ℓ} {B : Type κ} (r : Result (A × List ℕ)) (f : A → M B) {n k : ℕ}
    → Within n r
    → ((a : A) (rest : List ℕ) → length rest ≤ n → Within k (f a rest))
    → Within k (continue r f)
bind r f h next = elim h.cases [
  | inl ((a, rest), e, l) ↦ rw e (next a rest l)
  | inr (e, q, d) ↦ rw q (fails _ e d)
]

pub demand-Within : (b : Bool) (n : ℕ) (text : List ℕ) → length text ≤ n → Within n (demand b text)
demand-Within true n text h = reads n tt text h
demand-Within false n text h = throws n

pub contract-Within :
    (b : Bool) (n : ℕ) (text : List ℕ) → length text ≤ n → Within n (contract b text)
contract-Within true n text h = reads n tt text h
contract-Within false n text h = fails n assertion (λ e. cc)

pub lift-Within {ℓ} :
    {A : Type ℓ} (r : Result A) (n : ℕ) (text : List ℕ)
    → r ≢ failed out_of_fuel
    → length text ≤ n
    → Within n (lift r text)
lift-Within (ok a) n text d h = reads n a text h
lift-Within (failed e) n text d h = fails n e (λ q. d (ap failed q))

pub current_c-Within : (n : ℕ) (text : List ℕ) → length text ≤ n → Within n (current_c text)
unfolding current_c
current_c-Within n [] h = throws n
current_c-Within n (c ∷ text) h = reads n c (c ∷ text) h

pub nocheck-Within :
    (n : ℕ) (text : List ℕ) → length text ≤ suc n → Within n (consume_c_nocheck text)
unfolding consume_c_nocheck
nocheck-Within n [] h = throws n
nocheck-Within n (c ∷ text) h = reads n tt text (omega arith)

pub consume_c-Within : (x n : ℕ) (text : List ℕ) → length text ≤ suc n → Within n (consume_c x text)
unfolding consume_c
consume_c-Within x n [] h = throws n
consume_c-Within x n (c ∷ text) h = elim (Bool-cases (c == x)) [
  | inl e ↦ rw e (reads n tt text (omega arith))
  | inr e ↦ rw e (throws n)
]

pub consume_c_if-Within :
    (x n : ℕ) (text : List ℕ) → length text ≤ n → Within n (consume_c_if x text)
unfolding consume_c_if
consume_c_if-Within x n [] h = reads n false [] h
consume_c_if-Within x n (c ∷ text) h = elim (Bool-cases (c == x)) [
  | inl e ↦ rw e (reads n true text (omega arith))
  | inr e ↦ rw e (reads n false (c ∷ text) h)
]

pub consume-Within :
    (sv : List ℕ) (n : ℕ) (text : List ℕ) → length text ≤ n → Within n (consume sv text)
unfolding consume
consume-Within [] n text h = reads n tt text h
consume-Within (c ∷ sv) n text h =
    bind (consume_c c text) _ (consume_c-Within c n text (omega arith))
      (λ u rest l. consume-Within sv n rest l)

pub consume-Within_strict :
    (c : ℕ) (sv : List ℕ) (n : ℕ) (text : List ℕ)
    → length text ≤ suc n
    → Within n (consume (c ∷ sv) text)
unfolding consume
consume-Within_strict c sv n text h =
    bind (consume_c c text) _ (consume_c-Within c n text h) (λ u rest l. consume-Within sv n rest l)

pub consume_if-Within :
    (sv : List ℕ) (n : ℕ) (text : List ℕ) → length text ≤ n → Within n (consume_if sv text)
unfolding consume_if
consume_if-Within sv n text h = elim (Bool-cases (starts_with sv text)) [
  | inl e ↦
      rw e (bind (consume sv text) _ (consume-Within sv n text h) (λ u rest l. reads n true rest l))
  | inr e ↦ rw e (reads n false text h)
]

-- A test of the next character: where it holds, there is less text.
pub test_c {ℓ} :
    {B : Type ℓ} (x : ℕ) (text : List ℕ) (f : Bool → M B) {n k : ℕ}
    → length text ≤ n
    → ((rest : List ℕ) → length rest < n → Within k (f true rest))
    → ((rest : List ℕ) → length rest ≤ n → Within k (f false rest))
    → Within k (continue (consume_c_if x text) f)
unfolding consume_c_if
test_c x [] f h yes' no' = no' [] h
test_c x (c ∷ text) f h yes' no' = elim (Bool-cases (c == x)) [
  | inl e ↦ rw e (yes' text (omega arith))
  | inr e ↦ rw e (no' (c ∷ text) h)
]
