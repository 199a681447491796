-- ===== src/Tiny/Token.antt =====
-- The tokens of ivl/langs/tiny/tokenize.hpp, and the index that stands for a token's type: its
-- place in `all_tokens` (`meta::tl_find` of ivl/langs/tiny/meta.hpp).
use all.Prelude.{ℕ, ◌+◌, ◌-◌, Bool, ◌==◌, leb, if◌then◌else◌}

pub data Token : Type 0 where
  not_a_token : Token
  kw_let kw_print kw_if kw_else kw_while kw_true kw_false : Token
  op_or op_and op_eq op_ne op_le op_lt op_ge op_gt op_plus op_minus op_mul op_div op_not : Token
  op_paren_open op_paren_close op_curly_open op_curly_close op_semicolon op_comma op_mod : Token
  op_assign : Token
  number_start number_end : Token
  number_digit : ℕ → Token
  identifier_start identifier_end : Token
  identifier_char : ℕ → Token

-- `identifier_char<c>` for 'a' to 'z', then 'A' to 'Z', then '0' to '9'.
abbrev pub char_index : ℕ → ℕ
char_index c =
    if leb b'a' c then 43 + (c - b'a') else if leb b'A' c then 69 + (c - b'A') else 95 + (c - b'0')

unfoldable pub index : Token → ℕ
index not_a_token = 0
index kw_let = 1
index kw_print = 2
index kw_if = 3
index kw_else = 4
index kw_while = 5
index kw_true = 6
index kw_false = 7
index op_or = 8
index op_and = 9
index op_eq = 10
index op_ne = 11
index op_le = 12
index op_lt = 13
index op_ge = 14
index op_gt = 15
index op_plus = 16
index op_minus = 17
index op_mul = 18
index op_div = 19
index op_not = 20
index op_paren_open = 21
index op_paren_close = 22
index op_curly_open = 23
index op_curly_close = 24
index op_semicolon = 25
index op_comma = 26
index op_mod = 27
index op_assign = 28
index number_start = 29
index number_end = 30
index (number_digit d) = 31 + d
index identifier_start = 41
index identifier_end = 42
index (identifier_char c) = char_index c

-- `t.has<T>()`: the type `T` is given by a token of it.
unfoldable pub has : Token → Token → Bool
unfolding index
has t u = index u == index t
