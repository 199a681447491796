-- ===== src/Parsing/Basic/Refine.antt =====
-- The operations of `basic_parser` do to the cursor what those of Parsing/Text do to the text from
-- the cursor on.
use all.Prelude.{
  ℕ, zero, suc, ◌+◌, ◌<◌, ◌≤◌, ◌≡◌, refl, sym, ap, ◌∙◌, ◌⊎◌, inl, inr, true, false, Option, none,
  some, List, [], ◌∷◌, length, get_elem?, drop, ◌==◌, Bool-cases, Option-cases, ==_iff, arith,
}
use all.Prelude.Result.{Result, Fault, ok, failed, exception}
use all.Prelude.Chars.{starts_with}
use all.Parsing.Text.{M}
use all.Parsing.Text
use all.Parsing.Basic
use all.Parsing.Basic.{BasicParser, P, unread, move}
use all.Parsing.Basic.Position.{IsAt, move-IsAt, drop-next}

-- Both return the same and leave the same text, or both fail alike. The text itself stays, the
-- cursor goes forward, and row and column are those of the cursor.
pub record Agree {ℓ} {A : Type ℓ} (p : BasicParser) (r : Result (A × BasicParser))
    (s : Result (A × List ℕ)) : Type ℓ where
  pub cases :
      ((a : A) × (p' : BasicParser) × (r ≡ ok (a, p'))
        × (s ≡ ok (a, unread p'))
        × IsAt p'
        × (p'.contents ≡ p.contents)
        × (p.cursor ≤ p'.cursor))
      ⊎ ((e : Fault) × (r ≡ failed e) × (s ≡ failed e))

abbrev pub Refines {ℓ} : {A : Type ℓ} → P A → M A → Type ℓ
Refines m n = (p : BasicParser) → IsAt p → Agree p (m p) (n (unread p))

agree {ℓ} :
    {A : Type ℓ} (a : A) (p p' : BasicParser) (s : Result (A × List ℕ))
    → s ≡ ok (a, unread p')
    → IsAt p'
    → p'.contents ≡ p.contents
    → p.cursor ≤ p'.cursor
    → Agree p (ok (a, p')) s
agree a p p' s h v c l = record { cases = inl (a, p', refl, h, v, c, l) }

fails_alike {ℓ} : {A : Type ℓ} (e : Fault) (p : BasicParser) → Agree {A = A} p (failed e) (failed e)
fails_alike e p = record { cases = inr (e, refl, refl) }

-- Two parsers that agree, followed by parsers that agree, agree.
pub >>=-Refines {ℓ κ} :
    {A : Type ℓ} {B : Type κ} (m : P A) (n : M A) (f : A → P B) (g : A → M B)
    → Refines m n
    → ((a : A) → Refines (f a) (g a))
    → Refines (λ q. Basic.continue (m q) f) (λ text. Text.continue (n text) g)
>>=-Refines m n f g h k p v = elim (h p v).cases [
  | inr (e, q, r) ↦ rw (q, r) (fails_alike e p)
  | inl (a, p', q, r, v', c, l) ↦ elim (k a p' v').cases [
    | inr (e, q', r') ↦ rw (q, r, q', r') (fails_alike e p)
    | inl (b, p'', q', r', v'', c', l') ↦
        rw (q, r, q', r') (agree b p p'' (ok (b, unread p'')) refl v'' (c' ∙ c) (omega arith))
  ]
]

-- What the text from the cursor on shows of the cursor.
record Shown (p : BasicParser) : Type 0 where
  cases :
      ((unread p ≡ []) × ((p.cursor == length p.contents) ≡ true))
      ⊎ ((c : ℕ) × (unread p ≡ c ∷ drop (suc p.cursor) p.contents)
          × ((p.cursor == length p.contents) ≡ false)
          × (get_elem? p.contents p.cursor ≡ some c))

some_is_some : {c : ℕ} → ◌≡◌ {A = Option ℕ} (some c) none → ⊥
some_is_some h = cc

not_same : (a b : ℕ) → a < b → (a == b) ≡ false
not_same a b h = ground arith

drop_all : (xs : List ℕ) → drop (length xs) xs ≡ []
drop_all [] = refl
drop_all (x ∷ xs) = drop_all xs

get_elem?-outside : (xs : List ℕ) (i : ℕ) → get_elem? xs i ≡ none → length xs ≤ i
get_elem?-outside [] i h = omega arith
get_elem?-outside (x ∷ xs) zero h = absurd (some_is_some h)
get_elem?-outside (x ∷ xs) (suc i) h = omega (arith, get_elem?-outside xs i h)

get_elem?-below : (xs : List ℕ) (i : ℕ) {c : ℕ} → get_elem? xs i ≡ some c → i < length xs
get_elem?-below [] i h = absurd (some_is_some (sym h))
get_elem?-below (x ∷ xs) zero h = omega arith
get_elem?-below (x ∷ xs) (suc i) h = omega (arith, get_elem?-below xs i h)

shown : (p : BasicParser) → IsAt p → Shown p
shown p v = elim (Option-cases (get_elem? p.contents p.cursor)) [
  | inl e ↦
      let l = get_elem?-outside p.contents p.cursor e in
      let inside = v.inside in
      let same : p.cursor ≡ length p.contents = omega arith in
      record {
        cases = inl (rw same (drop_all p.contents), (==_iff p.cursor (length p.contents)).1 same);
      }
  | inr (c, e) ↦
      let l = get_elem?-below p.contents p.cursor e in
      record {
        cases =
            inr (c, drop-next p.contents p.cursor c e, not_same p.cursor (length p.contents) l, e);
      }
]

moved {ℓ} :
    {A : Type ℓ} (a : A) (p : BasicParser) (c : ℕ)
    → get_elem? p.contents p.cursor ≡ some c
    → IsAt p
    → Agree p (ok (a, move c p)) (ok (a, drop (suc p.cursor) p.contents))
moved {A} a p c e v = elim (Bool-cases (c == b'\n')) [
  | inl q ↦
      let v' : IsAt (move c p) = move-IsAt p c e v in
      rw q (
        agree a p (record p { cursor = suc p.cursor; diag_row = p.diag_row + 1; diag_col = 1 }) _
          refl (rw q at v') refl (omega arith))
  | inr q ↦
      let v' : IsAt (move c p) = move-IsAt p c e v in
      rw q (
        agree a p (record p { cursor = suc p.cursor; diag_col = p.diag_col + 1 }) _ refl
          (rw q at v') refl (omega arith))
]

stays {ℓ} :
    {A : Type ℓ} (a : A) (p : BasicParser) (text : List ℕ)
    → IsAt p
    → unread p ≡ text
    → Agree p (ok (a, p)) (ok (a, text))
stays a p text v e =
    agree a p p (ok (a, text)) (ap (λ (t : List ℕ). ok (a, t)) (sym e)) v refl (omega arith)

finished-Refines : Refines Basic.finished Text.finished
unfolding Basic.finished Text.finished
finished-Refines p v = elim (shown p v).cases [
  | inl (u, e) ↦ rw (u, e) (stays true p [] v u)
  | inr (c, u, e, g) ↦ rw (u, e) (stays false p (c ∷ drop (suc p.cursor) p.contents) v u)
]

current_c-Refines : Refines Basic.current_c Text.current_c
unfolding Basic.current_c Text.current_c
current_c-Refines p v = elim (shown p v).cases [
  | inl (u, e) ↦ rw (u, e) (fails_alike exception p)
  | inr (c, u, e, g) ↦ rw (u, e, g) (stays c p (c ∷ drop (suc p.cursor) p.contents) v u)
]

nocheck-eq :
    (p : BasicParser) (c : ℕ)
    → (p.cursor == length p.contents) ≡ false
    → get_elem? p.contents p.cursor ≡ some c
    → Basic.consume_c_nocheck p ≡ ok (tt, move c p)
unfolding Basic.consume_c_nocheck
nocheck-eq p c e g = rw (e, g, e) refl

nocheck-fails :
    (p : BasicParser)
    → (p.cursor == length p.contents) ≡ true
    → Basic.consume_c_nocheck p ≡ failed exception
unfolding Basic.consume_c_nocheck
nocheck-fails p e = rw e refl

consume_c-eq :
    (p : BasicParser) (x c : ℕ)
    → (p.cursor == length p.contents) ≡ false
    → get_elem? p.contents p.cursor ≡ some c
    → (c == x) ≡ true
    → Basic.consume_c x p ≡ ok (tt, move c p)
unfolding Basic.consume_c
consume_c-eq p x c e g q = rw (e, g, q) (nocheck-eq p c e g)

consume_c_nocheck-Refines : Refines Basic.consume_c_nocheck Text.consume_c_nocheck
unfolding Text.consume_c_nocheck
consume_c_nocheck-Refines p v = elim (shown p v).cases [
  | inl (u, e) ↦ rw (u, nocheck-fails p e) (fails_alike exception p)
  | inr (c, u, e, g) ↦ rw (u, nocheck-eq p c e g) (moved tt p c g v)
]

consume_c-Refines : (x : ℕ) → Refines (Basic.consume_c x) (Text.consume_c x)
unfolding Basic.consume_c Text.consume_c
consume_c-Refines x p v = elim (shown p v).cases [
  | inl (u, e) ↦ rw (u, e) (fails_alike exception p)
  | inr (c, u, e, g) ↦ elim (Bool-cases (c == x)) [
    | inl q ↦ rw (u, e, g, q, nocheck-eq p c e g) (moved tt p c g v)
    | inr q ↦ rw (u, e, g, q) (fails_alike exception p)
  ]
]

consume_c_if-Refines : (x : ℕ) → Refines (Basic.consume_c_if x) (Text.consume_c_if x)
unfolding Basic.consume_c_if Text.consume_c_if
consume_c_if-Refines x p v = elim (shown p v).cases [
  | inl (u, e) ↦ rw (u, e) (stays false p [] v u)
  | inr (c, u, e, g) ↦ elim (Bool-cases (c == x)) [
    | inl q ↦ rw (u, e, g, e, q, consume_c-eq p x c e g q) (moved true p c g v)
    | inr q ↦ rw (u, e, g, e, q) (stays false p (c ∷ drop (suc p.cursor) p.contents) v u)
  ]
]

consume-Refines : (sv : List ℕ) → Refines (Basic.consume sv) (Text.consume sv)
unfolding Basic.consume Text.consume
consume-Refines [] p v = stays tt p (unread p) v refl
consume-Refines (c ∷ sv) p v =
    >>=-Refines (Basic.consume_c c) (Text.consume_c c) (λ u. Basic.consume sv)
      (λ u. Text.consume sv) (consume_c-Refines c) (λ u. consume-Refines sv) p v

consume_if-Refines : (sv : List ℕ) → Refines (Basic.consume_if sv) (Text.consume_if sv)
unfolding Basic.consume_if Text.consume_if
consume_if-Refines sv p v = elim (Bool-cases (starts_with sv (unread p))) [
  | inr q ↦ rw q (stays false p (unread p) v refl)
  | inl q ↦ rw q (
      >>=-Refines (Basic.consume sv) (Text.consume sv) (λ u. Basic.return true)
        (λ u. Text.return true) (consume-Refines sv) (λ u p' v'. stays true p' (unread p') v' refl)
        p v)
]

-- At a cursor in the text, whose row and column count the newlines before it and the characters
-- after the last of them, each operation of `basic_parser` returns and leaves what the operation
-- of Parsing/Text does on the text from the cursor on, or fails as that does. It keeps the
-- contents and moves the cursor forward only, to a place in the text with the right row and column.
pub basic_parser-Agree :
    (p : BasicParser) (c : ℕ) (sv : List ℕ)
    → IsAt p
    → Agree p (Basic.finished p) (Text.finished (unread p))
      × Agree p (Basic.current_c p) (Text.current_c (unread p))
      × Agree p (Basic.consume_c_nocheck p) (Text.consume_c_nocheck (unread p))
      × Agree p (Basic.consume_c c p) (Text.consume_c c (unread p))
      × Agree p (Basic.consume_c_if c p) (Text.consume_c_if c (unread p))
      × Agree p (Basic.consume sv p) (Text.consume sv (unread p))
      × Agree p (Basic.consume_if sv p) (Text.consume_if sv (unread p))
basic_parser-Agree p c sv v = (
  finished-Refines p v,
  current_c-Refines p v,
  consume_c_nocheck-Refines p v,
  consume_c-Refines c p v,
  consume_c_if-Refines c p v,
  consume-Refines sv p v,
  consume_if-Refines sv p v,
)
