-- ===== src/BumpUp.antt =====
-- ivl/bump-up-down/bump_up.hpp: an allocator that moves one pointer up through a range of memory.
-- Addresses are `uintptr_t` of 64 bits, and sums of them wrap. Deallocation does nothing.
pub mod Laws
mod Examples
use all.Prelude.{
  ℕ, zero, suc, ◌+◌, ◌-◌, ◌*◌, ◌/◌, ◌%◌, ◌^◌, Option, none, some, ◌>>=◌, List, [], ◌∷◌, ltb,
  if◌then◌else◌,
}

abbrev pub address_mod : ℕ
address_mod = 18_446_744_073_709_551_616

-- `BumpUpAllocRange`.
pub record Range : Type 0 where
  pub low : ℕ
  pub high : ℕ

-- `BumpUpAllocOwning<Size>`: the base, and the place of its `memory`.
pub record Owning : Type 0 where
  pub range : Range
  pub memory : ℕ
  pub size : ℕ

-- Also what the constructor does.
unfoldable pub reset : Owning → Owning
reset o = record o { range = record { low = o.memory; high = (o.memory + o.size) % address_mod } }

-- `((low - 1) & ~(alignof(T) - 1)) + alignof(T)`, for the alignment 2^k: the mask clears the last k
-- bits.
unfoldable pub align_up : ℕ → ℕ → ℕ
align_up k low =
    let before = (low + (address_mod - 1)) % address_mod in
    (before / 2 ^ k * 2 ^ k + 2 ^ k) % address_mod

-- What `allocate(n)` of a `BumpUpAlloc<T>` depends on: `alignof(T)` is 2^align, and `sizeof(T)`.
pub record Request : Type 0 where
  pub align : ℕ
  pub size : ℕ
  pub count : ℕ

-- `none` is `std::bad_alloc`.
unfoldable pub allocate : Request → Range → Option (ℕ × Range)
unfolding align_up
allocate q r =
    let low = align_up q.align r.low in
    if ltb r.high ((low + q.size) % address_mod)
    then none
    else some (low, record r { low = (low + q.size * q.count) % address_mod })
