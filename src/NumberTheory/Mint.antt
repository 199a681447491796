-- ===== src/NumberTheory/Mint.antt =====
-- Modular integers: ivl/number_theory/rtmint.hpp and ivl/number_theory/multimint.hpp, and the
-- functor `multiplies` of ivl/number_theory/util.hpp.
pub mod Laws
pub mod Runtime
use all.Prelude.{ℕ, zero, suc, ◌+◌, ◌-◌, ◌*◌, ◌%◌, List, [], ◌∷◌, leb, ltb, if◌then◌else◌}
use all.Prelude.Int.{ℤ, pos, ltb_ℤ}
use all.Prelude.Result.{Result, ok, ◌>>=◌}
use all.Tiny.Int64.{add64, sub64, mul64, mod64}

abbrev pub u32_mod : ℕ
u32_mod = 4_294_967_296

-- `multiplies<Mod>`: the product of two `uint32_t` fits in 64 bits.
unfoldable pub multiplies : ℕ → ℕ → ℕ → ℕ
multiplies m a b = a * b % m

-- One component of `MultiMint`: `uint32_t` arithmetic, which wraps.
unfoldable pub add32 : ℕ → ℕ → ℕ → ℕ
add32 m a b =
    let sum = (a + b) % u32_mod in if ltb sum m then sum else (sum + u32_mod - m) % u32_mod

unfoldable pub sub32 : ℕ → ℕ → ℕ → ℕ
sub32 m a b =
    let difference = (a + u32_mod - b) % u32_mod in
    if leb b a then difference else (difference + m) % u32_mod

unfoldable pub mul32 : ℕ → ℕ → ℕ → ℕ
mul32 m a b = a * b % m

-- A component for each modulus.
abbrev pub pointwise : (ℕ → ℕ → ℕ → ℕ) → List ℕ → List ℕ → List ℕ → List ℕ
pointwise op (m ∷ mods) (a ∷ as') (b ∷ bs) = op m a b ∷ pointwise op mods as' bs
pointwise op _ _ _ = []

unfoldable pub multi_add : List ℕ → List ℕ → List ℕ → List ℕ
unfolding add32
multi_add = pointwise add32

unfoldable pub multi_sub : List ℕ → List ℕ → List ℕ → List ℕ
unfolding sub32
multi_sub = pointwise sub32

unfoldable pub multi_mul : List ℕ → List ℕ → List ℕ → List ℕ
unfolding mul32
multi_mul = pointwise mul32

-- `MultiMint(arg)` for an unsigned argument.
unfoldable pub multi_of : List ℕ → ℕ → List ℕ
multi_of [] arg = []
multi_of (m ∷ mods) arg = arg % m ∷ multi_of mods arg

-- `RTMint(data)` with the modulus `p`: `data % p`, and `p` added to a negative remainder.
unfoldable pub rt_of : ℤ → ℤ → Result ℤ
unfolding mod64 add64
rt_of p data' = mod64 data' p >>= λ r. if ltb_ℤ r (pos 0) then add64 r p else ok r

unfoldable pub rt_add : ℤ → ℤ → ℤ → Result ℤ
unfolding add64 sub64
rt_add p a b = add64 a b >>= λ sum. if ltb_ℤ sum p then ok sum else sub64 sum p

unfoldable pub rt_sub : ℤ → ℤ → ℤ → Result ℤ
unfolding add64 sub64
rt_sub p a b = sub64 a b >>= λ diff. if ltb_ℤ diff (pos 0) then add64 diff p else ok diff

unfoldable pub rt_mul : ℤ → ℤ → ℤ → Result ℤ
unfolding mul64 rt_of
rt_mul p a b = mul64 a b >>= rt_of p
