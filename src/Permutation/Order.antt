-- ===== src/Permutation/Order.antt =====
-- `operator<=>` against `operator==`.
use all.Prelude.{
  ℕ, zero, suc, ◌+◌, ◌≡◌, refl, ◌∙◌, Bool, true, false, not, ◌&&◌, ◌||◌, length, ltb, if◌then◌else◌,
  min, arith,
}
use Prim.Native.Nat.{Ordering}
use all.Permutation.{Permutation, apply, first_difference, is_eq, three_way, all_equal, equal}

first_difference-is_eq :
    (f g : ℕ → ℕ) (n i : ℕ) → is_eq (first_difference f g n i) ≡ all_equal f g n i
unfolding first_difference all_equal
first_difference-is_eq f g zero i = refl
first_difference-is_eq f g (suc n) i = ground (arith, first_difference-is_eq f g n (i + 1))

all_equal-sym : (f g : ℕ → ℕ) (n i : ℕ) → all_equal f g n i ≡ all_equal g f n i
unfolding all_equal
all_equal-sym f g zero i = refl
all_equal-sym f g (suc n) i = ground (arith, all_equal-sym f g n (i + 1))

three_loops :
    (front mine theirs : Ordering) (a b : Bool)
    → is_eq (
        if not (is_eq front)
        then front
        else if a && not (is_eq mine)
        then mine
        else if b
        then theirs
        else Ordering.eq)
      ≡ (is_eq front && (not a || is_eq mine) && (not b || is_eq theirs))
three_loops Ordering.lt mine theirs a b = refl
three_loops Ordering.gt mine theirs a b = refl
three_loops Ordering.eq Ordering.lt theirs true b = refl
three_loops Ordering.eq Ordering.gt theirs true b = refl
three_loops Ordering.eq Ordering.eq theirs true true = refl
three_loops Ordering.eq Ordering.eq theirs true false = refl
three_loops Ordering.eq mine theirs false true = refl
three_loops Ordering.eq mine theirs false false = refl

same_parts :
    (x y a b c a' b' c' : Bool)
    → a ≡ a'
    → b ≡ b'
    → c ≡ c'
    → (a && (not x || b) && (not y || c)) ≡ (a' && (not x || b') && (not y || c'))
same_parts x y a b c a' b' c' p q r = rw (p, q, r)

-- `<=>` says that two vectors are equivalent exactly where `==` accepts them.
pub three_way-equal : (p o : Permutation) → is_eq (three_way p o) ≡ equal p o
unfolding three_way equal
three_way-equal p o =
    let common = min (length p.v) (length o.v) in
    let front = first_difference (apply p) (apply o) common 0 in
    let mine = first_difference (apply p) (λ i. i) (length p.v) 0 in
    let theirs = first_difference (λ i. i) (apply o) (length o.v) 0 in
    three_loops front mine theirs (ltb common (length p.v)) (ltb common (length o.v))
    ∙ same_parts (ltb common (length p.v)) (ltb common (length o.v)) (is_eq front) (is_eq mine)
        (is_eq theirs) _ _ _ (first_difference-is_eq (apply p) (apply o) common 0)
        (first_difference-is_eq (apply p) (λ i. i) (length p.v) 0)
        (first_difference-is_eq (λ i. i) (apply o) (length o.v) 0
          ∙ all_equal-sym (λ i. i) (apply o) (length o.v) 0)
