-- ===== src/Tournament/Search.antt =====
-- `find` of ivl/structs/turnament.hpp: the first or the last leaf of a range for which a predicate
-- holds, by the predicate on the sums. `none` is an access outside the vector, or no fuel left.
use all.Prelude.{
  ℕ, zero, suc, ◌+◌, ◌-◌, ◌*◌, ◌/◌, ◌%◌, ◌^◌, Bool, Option, none, some, ◌>>=◌, get_elem?, ltb, ◌==◌,
  if◌then◌else◌, min,
}
use all.NumberTheory.Gcd.{ctz_loop}
use all.NumberTheory.Power.{top_bit}
use all.Tournament.{Turnament}

pub data Side : Type 0 where
  left right : Side

-- `std::countr_zero` of a `size_t`.
unfoldable pub trailing_zeros : ℕ → ℕ
unfolding ctz_loop
trailing_zeros n = if n == 0 then 64 else ctz_loop n n

-- `idx * 2 + (side == Side::Right)`
abbrev pub first_child : Side → ℕ → ℕ
first_child left idx = idx * 2
first_child right idx = idx * 2 + 1

-- The same with its last bit flipped.
abbrev pub other_child : Side → ℕ → ℕ
other_child left idx = idx * 2 + 1
other_child right idx = idx * 2

module _ {ℓ} {T : Type ℓ} (side : Side) (pred : T → Bool) where
  -- `while (idx < length)`
  unfoldable pub descend : ℕ → Turnament T → ℕ → Option ℕ
  descend zero t idx = none
  descend (suc f) t idx =
      let step = get_elem? t.data' (first_child side idx) >>= λ x.
      descend f t (if pred x then first_child side idx else other_child side idx) in
      if ltb idx t.leaves then step else some idx

  -- `while (true)`, on the range from `lo` to before `hi`, where `lo` is at most `hi`.
  unfoldable pub find_loop : ℕ → Turnament T → ℕ → ℕ → Option (Option ℕ)
  unfolding top_bit trailing_zeros descend
  find_loop zero t lo hi = none
  find_loop (suc f) t lo hi =
      let span = (hi + 18_446_744_073_709_551_616 - lo) % 18_446_744_073_709_551_616 in
      let edge : ℕ = elim side [ left ↦ lo | right ↦ hi ] in
      let inner : ℕ = elim side [ left ↦ lo | right ↦ hi - 1 ] in
      let bit_width = min (trailing_zeros edge) (top_bit span span) in
      let idx = (inner + t.leaves) / 2 ^ bit_width in
      let found = descend (suc t.leaves) t idx >>= λ i. some (some (i - t.leaves)) in
      let rest : Option (Option ℕ) = elim side [
        | left ↦ find_loop f t (lo + 2 ^ bit_width) hi
        | right ↦ find_loop f t lo (hi - 2 ^ bit_width)
      ] in
      if lo == hi
      then some none
      else (get_elem? t.data' idx >>= λ x. if pred x then found else rest)

  -- Each round shortens the range.
  unfoldable pub find : Turnament T → ℕ → ℕ → Option (Option ℕ)
  unfolding find_loop
  find t lo hi = find_loop (suc (hi - lo)) t lo hi
