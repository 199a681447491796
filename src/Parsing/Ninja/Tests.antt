-- ===== src/Parsing/Ninja/Tests.antt =====
-- The tests at the end of ivl/parsing/ninja/default.hpp, as runs.
use all.Prelude.{ℕ, ◌≡◌, refl, List, [], ◌∷◌, ◌++◌, map}
use all.Prelude.Result.{Result, ok, failed, exception, ◌>>=◌}
use all.Prelude.Chars.{codes}
use all.Parsing.Ninja.State.{Name, Variable, NinjaState, Build}
use all.Parsing.Ninja.File.{parse_text_into, empty_state}

abbrev no_files : List ℕ → NinjaState → Result NinjaState
no_files path st = failed exception

abbrev lines : List (List ℕ) → List ℕ
lines [] = []
lines (l ∷ ls) = l ++ (b'\n' ∷ lines ls)

abbrev values : List (Name × Variable) → List (Name × List ℕ)
values m = map (λ (p : Name × Variable). (p.0, p.1.value)) m

test_variables :
    (parse_text_into no_files
        (lines (codes "a=A" ∷ codes "b=$a$a$a" ∷ codes "a=B" ∷ codes "c=$b${a}C" ∷ []))
        empty_state
      >>= λ st. ok (values st.variables))
    ≡ ok ((codes "a", codes "B") ∷ (codes "b", codes "AAA") ∷ (codes "c", codes "AAABC") ∷ [])
unfolding parse_text_into
test_variables = refl

test_pool :
    (parse_text_into no_files (lines (codes "pool gpu" ∷ codes "  depth = 67" ∷ [])) empty_state
      >>= λ st. ok st.pools)
    ≡ ok ((codes "gpu", record { name = codes "gpu"; depth = 67 }) ∷ [])
unfolding parse_text_into
test_pool = refl

test_build :
    (parse_text_into no_files
        (lines (
          codes "rule touch" ∷ codes "  command = touch $out" ∷ [] ∷ codes "build foo: touch" ∷ []))
        empty_state
      >>= λ st. ok st.builds)
    ≡ ok (
        record {
          outputs = codes "foo" ∷ [];
          implicit_outputs = [];
          inputs = [];
          implicit_inputs = [];
          order_only_inputs = [];
          rule_vars = (codes "command", codes "touch foo") ∷ [];
        }
        ∷ [])
unfolding parse_text_into
test_build = refl

test_build_io :
    (parse_text_into no_files (lines (codes "build a | b: phony c | d || e" ∷ [])) empty_state
      >>= λ st. ok st.builds)
    ≡ ok (
        record {
          outputs = codes "a" ∷ [];
          implicit_outputs = codes "b" ∷ [];
          inputs = codes "c" ∷ [];
          implicit_inputs = codes "d" ∷ [];
          order_only_inputs = codes "e" ∷ [];
          rule_vars = [];
        }
        ∷ [])
unfolding parse_text_into
test_build_io = refl

test_default :
    (parse_text_into no_files
        (lines (
          codes "rule touch"
          ∷ codes "  command = touch $out"
          ∷ codes "build a: touch"
          ∷ codes "build b: touch"
          ∷ codes "build c: touch"
          ∷ codes "default a"
          ∷ codes "default b c"
          ∷ []))
        empty_state
      >>= λ st. ok st.defaults)
    ≡ ok (codes "c" ∷ codes "b" ∷ codes "a" ∷ [])
unfolding parse_text_into
test_default = refl

-- Only implicit inputs: there is an input with an empty path.
test_no_inputs :
    (parse_text_into no_files (lines (codes "build a: phony | d" ∷ [])) empty_state >>= λ st.
    ok (map (λ (b : Build). b.inputs) st.builds))
    ≡ ok (([] ∷ []) ∷ [])
unfolding parse_text_into
test_no_inputs = refl
