-- ===== src/Parsing/Ninja/EmptyInput.antt =====
-- A build without explicit inputs.
use all.Prelude.{ℕ, ◌≡◌, refl, false, List, [], ◌∷◌, ◌==◌}
use all.Prelude.Result.{ok}
use all.Parsing.Ninja.State.{Name, Variable}
use all.Parsing.Ninja.Expand.{with_fuel}
use all.Parsing.Ninja.Build.{one_bar, two_bars, inputs_loop}

-- Where the inputs of a build begin with a bar, so that there are no explicit ones, the loop over
-- the explicit inputs gives one all the same, with an empty path. So it does where they begin with
-- two bars.
pub inputs_loop-bar :
    (variables : List (Name × Variable)) (c : ℕ) (file : List ℕ)
    → (c == b'|') ≡ false
    → (with_fuel (inputs_loop variables) (b'|' ∷ (c ∷ file)) ≡ ok (([] ∷ [], one_bar), c ∷ file))
      × (with_fuel (inputs_loop variables) (b'|' ∷ (b'|' ∷ file)) ≡ ok (([] ∷ [], two_bars), file))
unfolding inputs_loop
inputs_loop-bar variables c file h = (rw h, refl)
