-- ===== src/Prelude/Chars.antt =====
-- The characters of a program text, as codes, and the tests of <cctype> in the C locale. (A
-- negative `char` is outside the domain of those tests; codes from 128 up are in no class.)
use Prim.Native.String.{String}
use Prim.Native.Char.{code}
use all.Prelude.{ℕ, Bool, ◌&&◌, ◌||◌, leb, ◌==◌, List, [], ◌∷◌, true, false}

abbrev pub codes : String → List ℕ
codes String.[] = []
codes (String.◌∷◌ c s) = code c ∷ codes s

abbrev pub isspace : ℕ → Bool
isspace c = c == 32 || (leb 9 c && leb c 13)

abbrev pub isdigit : ℕ → Bool
isdigit c = leb b'0' c && leb c b'9'

abbrev pub isalpha : ℕ → Bool
isalpha c = (leb b'a' c && leb c b'z') || (leb b'A' c && leb c b'Z')

abbrev pub isalnum : ℕ → Bool
isalnum c = isalpha c || isdigit c

-- `std::string_view::starts_with`.
abbrev pub starts_with : List ℕ → List ℕ → Bool
starts_with [] file = true
starts_with (p ∷ ps) [] = false
starts_with (p ∷ ps) (c ∷ file) = p == c && starts_with ps file
