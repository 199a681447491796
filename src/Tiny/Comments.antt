-- ===== src/Tiny/Comments.antt =====
-- ivl/langs/tiny/strip-comments.hpp.
pub mod Clean
use all.Prelude.{
  ℕ, zero, suc, ◌+◌, ◌≤◌, ◌<◌, ◌≡◌, refl, ap, ◌∙◌, Bool, true, false, not, ◌&&◌, ◌||◌, List, [],
  ◌∷◌, ◌++◌, arith, length, drop, ◌==◌, if◌then◌else◌, Bool-cases, ◌⊎◌, inl, inr, length-drop,
}
use all.Prelude.Result.{Result, ok, failed, out_of_fuel, ◌>>=◌}
use all.Prelude.Chars.{starts_with, codes}

-- `while (!file.empty() && !file.starts_with(target)) file.remove_prefix(1);`
unfoldable pub skip_until : List ℕ → List ℕ → List ℕ
skip_until target [] = []
skip_until target (c ∷ file) =
    if starts_with target (c ∷ file) then c ∷ file else skip_until target file

-- The scan, and `if (file.starts_with(target)) file.remove_prefix(target.size());`
unfoldable pub skip_comment : List ℕ → List ℕ → List ℕ
unfolding skip_until
skip_comment target file =
    let rest = skip_until target file in
    if starts_with target rest then drop (length target) rest else rest

-- Does a comment begin here, at a `/`?
abbrev pub opens : List ℕ → Bool
opens [] = false
opens (c ∷ file) = c == b'/' || c == b'*'

abbrev pub target_of : List ℕ → List ℕ
target_of [] = []
target_of (c ∷ file) = if c == b'/' then codes "\n" else codes "*/"

-- The loop, a unit of fuel for each round.
unfoldable pub strip : ℕ → List ℕ → Result (List ℕ)
unfolding skip_comment
strip zero file = failed out_of_fuel
strip (suc f) [] = ok []
strip (suc f) (c ∷ file) =
    let pop_char = strip f file >>= λ out. ok (c ∷ out) in
    let skip = strip f (skip_comment (target_of file) (c ∷ file)) in
    if c == b'/' && opens file then skip else pop_char

unfoldable pub strip_comments : List ℕ → Result (List ℕ)
unfolding strip
strip_comments file = strip (suc (length file)) file
