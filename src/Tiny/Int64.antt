-- ===== src/Tiny/Int64.antt =====
-- Arithmetic on `int64_t`. A result outside the type's range is undefined behaviour, and so is a
-- division by zero.
use all.Prelude.{ℕ, ◌+◌, ◌/◌, ◌%◌, Bool, true, false, ◌&&◌, leb, ltb, ◌==◌, if◌then◌else◌}
use all.Prelude.Int.{ℤ, pos, negsuc, pos_part, neg_part, sub_ℕ, ◌+ℤ◌, ◌-ℤ◌, ◌*ℤ◌}
use all.Prelude.Result.{Result, ok, failed, undefined, ◌>>=◌}

abbrev pub in_range : ℤ → Bool
in_range a =
    ltb (pos_part a) 9_223_372_036_854_775_808 && leb (neg_part a) 9_223_372_036_854_775_808

unfoldable pub to_int64 : ℤ → Result ℤ
to_int64 a = if in_range a then ok a else failed undefined

unfoldable pub add64 : ℤ → ℤ → Result ℤ
unfolding ◌+ℤ◌ to_int64
add64 a b = to_int64 (a +ℤ b)

unfoldable pub sub64 : ℤ → ℤ → Result ℤ
unfolding ◌-ℤ◌ to_int64
sub64 a b = to_int64 (a -ℤ b)

unfoldable pub mul64 : ℤ → ℤ → Result ℤ
unfolding ◌*ℤ◌ to_int64
mul64 a b = to_int64 (a *ℤ b)

unfoldable pub neg64 : ℤ → Result ℤ
unfolding sub64
neg64 a = sub64 (pos 0) a

abbrev pub abs : ℤ → ℕ
abs a = pos_part a + neg_part a

abbrev pub is_negative : ℤ → Bool
is_negative (pos n) = false
is_negative (negsuc n) = true

-- The integer of this size, with the sign of `negative`.
abbrev pub signed : Bool → ℕ → ℤ
signed negative n = if negative then sub_ℕ 0 n else pos n

abbrev pub differ : Bool → Bool → Bool
differ true b = if b then false else true
differ false b = b

-- C++ division truncates towards zero.
abbrev pub quotient : ℤ → ℤ → ℤ
quotient a b = signed (differ (is_negative a) (is_negative b)) (abs a / abs b)

-- The remainder has the sign of the dividend.
abbrev pub remainder : ℤ → ℤ → ℤ
remainder a b = signed (is_negative a) (abs a % abs b)

unfoldable pub div64 : ℤ → ℤ → Result ℤ
unfolding to_int64
div64 a b = if abs b == 0 then failed undefined else to_int64 (quotient a b)

-- Where the quotient is out of range the remainder is undefined too.
unfoldable pub mod64 : ℤ → ℤ → Result ℤ
unfolding div64
mod64 a b = div64 a b >>= λ _. ok (remainder a b)
