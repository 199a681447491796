-- ===== src/Parsing/Basic.antt =====
-- `basic_parser` of ivl/parsing/basic_parser.hpp: a text, a cursor, and the row and the column for
-- messages. Parsing/Text has the same operations on the text from the cursor on.
pub mod Position
pub mod Refine
use all.Prelude.{
  ℕ, zero, suc, ◌+◌, Bool, true, false, not, ◌&&◌, Option, none, some, List, [], ◌∷◌, ◌++◌, length,
  get_elem?, take, drop, ◌==◌, leb, if◌then◌else◌,
}
use all.Prelude.Result.{Result, ok, failed, exception, assertion}
use all.Prelude.Chars.{starts_with}

pub record BasicParser : Type 0 where
  pub contents : List ℕ
  pub cursor : ℕ
  pub diag_row : ℕ
  pub diag_col : ℕ

abbrev pub start : List ℕ → BasicParser
start contents = record { contents = contents; cursor = 0; diag_row = 1; diag_col = 1 }

pub record Checkpoint : Type 0 where
  pub cursor : ℕ
  pub diag_row : ℕ
  pub diag_col : ℕ

abbrev pub get_checkpoint : BasicParser → Checkpoint
get_checkpoint p = record { cursor = p.cursor; diag_row = p.diag_row; diag_col = p.diag_col }

abbrev pub restore_from_checkpoint : Checkpoint → BasicParser → BasicParser
restore_from_checkpoint c p = record p {
  cursor = c.cursor;
  diag_row = c.diag_row;
  diag_col = c.diag_col;
}

-- The text from the cursor on: `current_sv`.
abbrev pub unread : BasicParser → List ℕ
unread p = drop p.cursor p.contents

unfoldable pub slice : BasicParser → ℕ → ℕ → Result (List ℕ)
slice p lo hi =
    if not (leb lo hi)
    then failed assertion
    else if not (leb lo (length p.contents))
    then failed assertion
    else if not (leb hi (length p.contents))
    then failed assertion
    else ok (drop lo (take hi p.contents))

-- A method: what it returns, and the parser that it leaves.
abbrev pub P {ℓ} : Type ℓ → Type ℓ
P A = BasicParser → Result (A × BasicParser)

abbrev pub continue {ℓ κ} :
    {A : Type ℓ} {B : Type κ} → Result (A × BasicParser) → (A → P B) → Result (B × BasicParser)
continue (ok (a, p)) f = f a p
continue (failed e) f = failed e

infixl 5 ◌>>=◌ ◌>>◌
abbrev pub ◌>>=◌ {ℓ κ} : {A : Type ℓ} {B : Type κ} → P A → (A → P B) → P B
◌>>=◌ m f p = continue (m p) f

abbrev pub ◌>>◌ {ℓ} : {B : Type ℓ} → P (Unit {0}) → P B → P B
m >> k = m >>= λ _. k

abbrev pub return {ℓ} : {A : Type ℓ} → A → P A
return a p = ok (a, p)

abbrev demand : Bool → P (Unit {0})
demand true p = ok (tt, p)
demand false p = failed exception

unfoldable pub finished : P Bool
finished p = ok (p.cursor == length p.contents, p)

abbrev at : Option ℕ → P ℕ
at none p = failed exception
at (some c) p = ok (c, p)

-- Where the cursor is at the end, `current_c` throws.
unfoldable pub current_c : P ℕ
unfolding finished
current_c p = (do end ← finished; demand (not end); at (get_elem? p.contents p.cursor)) p

abbrev pub move : ℕ → BasicParser → BasicParser
move c p =
    if c == b'\n'
    then record p { cursor = suc p.cursor; diag_row = p.diag_row + 1; diag_col = 1 }
    else record p { cursor = suc p.cursor; diag_col = p.diag_col + 1 }

unfoldable pub consume_c_nocheck : P (Unit {0})
unfolding finished current_c
consume_c_nocheck = do end ← finished; demand (not end); c ← current_c; λ p. ok (tt, move c p)

unfoldable pub consume_c : ℕ → P (Unit {0})
unfolding current_c consume_c_nocheck
consume_c c = do x ← current_c; demand (x == c); consume_c_nocheck

unfoldable pub consume_c_if : ℕ → P Bool
unfolding finished current_c consume_c
consume_c_if c = do
  end ← finished
  if end
      then return false
      else do x ← current_c; if x == c then (do consume_c c; return true) else return false

unfoldable pub consume : List ℕ → P (Unit {0})
unfolding consume_c
consume [] = return tt
consume (c ∷ sv) = do consume_c c; consume sv

unfoldable pub consume_if : List ℕ → P Bool
unfolding consume
consume_if sv p =
    if not (starts_with sv (unread p)) then ok (false, p) else (do consume sv; return true) p
