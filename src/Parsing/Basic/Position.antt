-- ===== src/Parsing/Basic/Position.antt =====
-- The row and the column are those of the cursor.
use all.Prelude.{
  ℕ, zero, suc, ◌+◌, ◌<◌, ◌≤◌, ◌≡◌, refl, ap, ◌∙◌, inl, inr, Option, none, some, List, [], ◌∷◌,
  ◌++◌, length, get_elem?, take, drop, length-append, ◌==◌, if◌then◌else◌, Bool-cases, arith,
}
use all.Parsing.Basic.{BasicParser, start, move}

-- The newlines of a text, and what stands behind the last of them.
abbrev pub newlines : List ℕ → ℕ
newlines [] = 0
newlines (c ∷ cs) = (if c == b'\n' then 1 else 0) + newlines cs

abbrev pub last_line : List ℕ → List ℕ → List ℕ
last_line line [] = line
last_line line (c ∷ cs) = last_line (if c == b'\n' then [] else line ++ c ∷ []) cs

-- The cursor is in the text, and row and column count what stands before it.
pub record IsAt (p : BasicParser) : Type 0 where
  pub inside : p.cursor ≤ length p.contents
  pub row : p.diag_row ≡ newlines (take p.cursor p.contents) + 1
  pub col : p.diag_col ≡ length (last_line [] (take p.cursor p.contents)) + 1

pub start-IsAt : (contents : List ℕ) → IsAt (start contents)
start-IsAt contents = record { inside = omega arith; row = refl; col = refl }

some-ne-none : {c : ℕ} → ◌≡◌ {A = Option ℕ} none (some c) → ⊥
some-ne-none h = cc

take-next :
    (xs : List ℕ) (i : ℕ) (c : ℕ) → get_elem? xs i ≡ some c → take (suc i) xs ≡ take i xs ++ c ∷ []
take-next [] i c h = absurd (some-ne-none h)
take-next (x ∷ xs) zero c h = cc
take-next (x ∷ xs) (suc i) c h = ap (λ t. x ∷ t) (take-next xs i c h)

newlines-append :
    (xs : List ℕ) (c : ℕ) → newlines (xs ++ c ∷ []) ≡ newlines xs + (if c == b'\n' then 1 else 0)
newlines-append [] c = omega arith
newlines-append (x ∷ xs) c = omega (arith, newlines-append xs c)

last_line-append :
    (line xs : List ℕ) (c : ℕ)
    → last_line line (xs ++ c ∷ []) ≡ (if c == b'\n' then [] else last_line line xs ++ c ∷ [])
last_line-append line [] c = refl
last_line-append line (x ∷ xs) c = last_line-append (if x == b'\n' then [] else line ++ x ∷ []) xs c

pub drop-next :
    (xs : List ℕ) (i : ℕ) (c : ℕ) → get_elem? xs i ≡ some c → drop i xs ≡ c ∷ drop (suc i) xs
drop-next [] i c h = absurd (some-ne-none h)
drop-next (x ∷ xs) zero c h = cc
drop-next (x ∷ xs) (suc i) c h = drop-next xs i c h

get_elem?-inside : (xs : List ℕ) (i : ℕ) {c : ℕ} → get_elem? xs i ≡ some c → i < length xs
get_elem?-inside [] i h = absurd (some-ne-none h)
get_elem?-inside (x ∷ xs) zero h = omega arith
get_elem?-inside (x ∷ xs) (suc i) h = omega (arith, get_elem?-inside xs i h)

pub move-IsAt :
    (p : BasicParser) (c : ℕ) → get_elem? p.contents p.cursor ≡ some c → IsAt p → IsAt (move c p)
move-IsAt p c h v =
    let before = take p.cursor p.contents in
    let next = take-next p.contents p.cursor c h in
    let l = get_elem?-inside p.contents p.cursor h in
    let n = ap newlines next ∙ newlines-append before c in
    let m = ap (last_line []) next ∙ last_line-append [] before c in
    let row = v.row in
    let col = v.col in
    elim (Bool-cases (c == b'\n')) [
      | inl e ↦
          let n' : newlines (take (suc p.cursor) p.contents) ≡ newlines before + 1 = rw e at n in
          let m' : last_line [] (take (suc p.cursor) p.contents) ≡ [] = rw e at m in
          rw e (record { inside = omega arith; row = omega arith; col = rw m' })
      | inr e ↦
          let n' : newlines (take (suc p.cursor) p.contents) ≡ newlines before + 0 = rw e at n in
          let m' : last_line [] (take (suc p.cursor) p.contents) ≡ last_line [] before ++ c ∷ [] =
            rw e at m in
          let k = length-append (last_line [] before) (c ∷ []) in
          rw e (record { inside = omega arith; row = omega arith; col = rw m' (omega arith) })
    ]
