-- ===== src/Tiny/Parser/Spelled.antt =====
-- Parsers whose results are spelled by the tokens that they take.
use all.Prelude.{
  append_assoc, ◌≡◌, refl, sym, ap, ◌∙◌, subst, List, [], ◌∷◌, ◌++◌, Bool, true, false,
  if◌then◌else◌,
}
use all.Prelude.Result.{Result, Fault, ok, failed, ◌>>=◌, >>=-eq-ok, ok-injective}
use all.Tiny.Token.{Token, has}
use all.Tiny.Parser.{expect}

module _ {ℓ κ} {A : Type ℓ} where
  -- What the parser returns on `ts`, if it does, is spelled by the tokens it took.
  pub record Spelled (S : A → List Token → Type κ) (ts : List Token) (r : Result (A × List Token))
      : Type (ℓ ⊔ κ) where
    pub taken :
        (a : A) (rest : List Token)
        → r ≡ ok (a, rest)
        → (pre : List Token) × (ts ≡ pre ++ rest) × S a pre

  pub yields :
      (S : A → List Token → Type κ) (ts pre : List Token) (a : A) (rest : List Token)
      → ts ≡ pre ++ rest
      → S a pre
      → Spelled S ts (ok (a, rest))
  yields S ts pre a rest e s = record {
    taken = λ a' rest' h.
        let p : (a, rest) ≡ (a', rest') = ok-injective h in
        (pre, e ∙ ap (λ q. pre ++ q.1) p, subst (λ q. S q.0 pre) p s);
  }

  pub faults : (S : A → List Token → Type κ) (ts : List Token) (e : Fault) → Spelled S ts (failed e)
  faults S ts e = record { taken = λ a rest h. cc }

  pub either :
      (S : A → List Token → Type κ) (ts : List Token) (b : Bool) {x y : Result (A × List Token)}
      → (b ≡ true → Spelled S ts x)
      → (b ≡ false → Spelled S ts y)
      → Spelled S ts (if b then x else y)
  either S ts true h k = h refl
  either S ts false h k = k refl

module _ {ℓ κ μ ν} {A : Type ℓ} {B : Type κ} where
  pub after :
      (S : A → List Token → Type μ) (S' : B → List Token → Type ν) (ts ts' : List Token)
      (m : Result (A × List Token)) (f : A × List Token → Result (B × List Token))
      → Spelled S ts m
      → ((a : A) (rest pre : List Token)
          → ts ≡ pre ++ rest
          → S a pre
          → Spelled S' ts' (f (a, rest)))
      → Spelled S' ts' (m >>= f)
  after S S' ts ts' m f h next = record {
    taken = λ b rest e.
        let ((a, mid), p, q) = >>=-eq-ok m f e in
        let (pre, split, s) = h.taken a mid p in (next a mid pre split s).taken b rest q;
  }

-- One token of the type of `t`.
abbrev pub Only : Token → Unit {0} → List Token → Type 0
Only t x pre = (c : Token) × (has t c ≡ true) × (pre ≡ c ∷ [])

pub expect-Spelled : (t : Token) (ts : List Token) → Spelled (Only t) ts (expect t ts)
unfolding expect
expect-Spelled t [] = faults (Only t) [] _
expect-Spelled t (c ∷ ts) =
    either (Only t) (c ∷ ts) (has t c)
      (λ e. yields (Only t) (c ∷ ts) (c ∷ []) tt ts refl (c, e, refl))
      (λ e. faults (Only t) (c ∷ ts) _)

pub glue :
    (ts a rest b rest' : List Token) → ts ≡ a ++ rest → rest ≡ b ++ rest' → ts ≡ (a ++ b) ++ rest'
glue ts a rest b rest' p q = p ∙ ap (λ r. a ++ r) q ∙ sym (append_assoc a b rest')

module _ {ℓ κ} {A : Type ℓ} where
  -- A token of a given type, and then the rest.
  pub token :
      (t : Token) (S : A → List Token → Type κ) (ts ts' : List Token)
      (f : Unit {0} × List Token → Result (A × List Token))
      → ((c : Token) (rest : List Token)
          → has t c ≡ true
          → ts ≡ c ∷ rest
          → Spelled S ts' (f (tt, rest)))
      → Spelled S ts' (expect t ts >>= f)
  token t S ts ts' f next =
      after (Only t) S ts ts' (expect t ts) f (expect-Spelled t ts)
        (λ _ rest pre p s. next s.0 rest s.1 (p ∙ ap (λ x. x ++ rest) s.2))

module _ {ℓ κ μ} {A : Type ℓ} where
  -- The same parser, with other tokens before the rest, and another rule.
  pub rephrase :
      (S : A → List Token → Type κ) (S' : A → List Token → Type μ) (ts ts' : List Token)
      (m : Result (A × List Token))
      → Spelled S ts m
      → ((a : A) (rest pre : List Token)
          → ts ≡ pre ++ rest
          → S a pre
          → (pre' : List Token) × (ts' ≡ pre' ++ rest) × S' a pre')
      → Spelled S' ts' m
  rephrase S S' ts ts' m h next = record {
    taken = λ a rest e. let (pre, split, s) = h.taken a rest e in next a rest pre split s;
  }
