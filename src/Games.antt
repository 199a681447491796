-- ===== src/Games.antt =====
-- ivl/game-theory/impartial.hpp: Grundy values of an impartial game, kept in a cache. The cache is
-- a `boost::unordered_flat_map`, whose operations are a parameter.
pub mod Mex
pub mod Cache
pub mod Positions
pub mod Laws
mod Examples
use all.Prelude.{
  ℕ, zero, suc, ◌+◌, Bool, true, false, Option, none, some, List, [], ◌∷◌, ltb, length, set,
  replicate, if◌then◌else◌,
}
use all.Prelude.Result.{Result, ok, failed, exception, out_of_fuel, ◌>>=◌}

pub record ImpartialGame {ℓ} (G : Type ℓ) : Type ℓ where
  pub moves : G → List G

-- What `grundify` calls of the map from positions to numbers.
pub record FlatMap {ℓ} (G M : Type ℓ) : Type ℓ where
  pub find : M → G → Option ℕ
  pub emplace : M → G → ℕ → M

-- The vector of flags, after the loop that sets them.
unfoldable pub mark : List ℕ → List Bool → List Bool
mark [] mex = mex
mark (mg ∷ mgs) mex = mark mgs (if ltb mg (length mex) then set mex mg true else mex)

-- The last loop, from `idx` on; `none` is the `throw` behind it.
unfoldable pub first_unset : List Bool → ℕ → Option ℕ
first_unset [] idx = none
first_unset (false ∷ mex) idx = some idx
first_unset (true ∷ mex) idx = first_unset mex (suc idx)

unfoldable pub mex_of : List ℕ → Option ℕ
unfolding mark first_unset
mex_of moves_grundys =
    first_unset (mark moves_grundys (replicate (length moves_grundys + 1) false)) 0

module _ {ℓ} {G M : Type ℓ} ⦃g : ImpartialGame G⦄ ⦃c : FlatMap G M⦄ where
  -- The value that is returned, and the cache as the call leaves it.
  unfoldable pub emplace_value : G → M → Option ℕ → Result (ℕ × M)
  emplace_value position cache none = failed exception
  emplace_value position cache (some idx) = ok (idx, c.emplace cache position idx)

  -- The values of the moves in their order; `call` is the recursive call.
  unfoldable pub grundify_moves : (M → G → Result (ℕ × M)) → M → List G → Result (List ℕ × M)
  grundify_moves call cache [] = ok ([], cache)
  grundify_moves call cache (child ∷ children) = do
    (value, cache₁) ← call cache child
    (values, cache₂) ← grundify_moves call cache₁ children
    ok (value ∷ values, cache₂)

  unfoldable pub evaluate_moves : (M → G → Result (ℕ × M)) → M → G → Option ℕ → Result (ℕ × M)
  unfolding mex_of emplace_value grundify_moves
  evaluate_moves call cache position (some value) = ok (value, cache)
  evaluate_moves call cache position none = do
    (moves_grundys, cache') ← grundify_moves call cache (g.moves position)
    emplace_value position cache' (mex_of moves_grundys)

  -- One unit of fuel for each move on a line of play.
  unfoldable pub grundify : ℕ → M → G → Result (ℕ × M)
  unfolding evaluate_moves
  grundify zero cache position = failed out_of_fuel
  grundify (suc fuel) cache position =
      evaluate_moves (grundify fuel) cache position (c.find cache position)
