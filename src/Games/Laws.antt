-- ===== src/Games/Laws.antt =====
-- What `grundify` returns, and what it leaves in the cache.
use all.Prelude.{
  ℕ, zero, suc, ◌<◌, ◌≡◌, refl, sym, ◌∙◌, some, List, [], ◌∷◌, ◌↔◌, inl, inr, Option-cases, arith,
}
use all.Prelude.Result.{Result, ok}
use all.Games.{ImpartialGame, FlatMap, grundify, grundify_moves, evaluate_moves, emplace_value}
use all.Games.Mex.{mex_of-IsMex}
use all.Games.Cache.{IsMap}
use all.Games.Positions.{HasGrundy, value, HaveGrundy, no_move, a_move, Lost, HasGrundy-Lost}

some-injective : {a b : ℕ} → some a ≡ some b → a ≡ b
some-injective h = cc

abbrev pub AllBelow {ℓ} : {G : Type ℓ} → (G → ℕ) → ℕ → List G → Type 0
AllBelow rank n [] = Unit
AllBelow rank n (x ∷ xs) = (rank x < n) × AllBelow rank n xs

-- All that the cache knows is right.
abbrev pub IsSound {ℓ} :
    {M : Type ℓ} (G : Type ℓ) ⦃g : ImpartialGame G⦄ ⦃c : FlatMap G M⦄ → M → Type ℓ
IsSound G ⦃g⦄ ⦃c⦄ cache = (x : G) (n : ℕ) → c.find cache x ≡ some n → HasGrundy x n

module _ {ℓ} {G M : Type ℓ} ⦃g : ImpartialGame G⦄ ⦃c : FlatMap G M⦄ where
  emplace-IsSound :
      (cache : M) (x : G) (n : ℕ)
      → IsMap c
      → IsSound G cache
      → HasGrundy x n
      → IsSound G (c.emplace cache x n)
  emplace-IsSound cache x n p s h y k found = elim (p.same x y) [
    | no d ↦ s y k (sym (p.find_other cache x y n d) ∙ found)
    | yes e ↦
        let at_x : c.find (c.emplace cache x n) x ≡ some k = rw (← e) at found in
        elim (Option-cases (c.find cache x)) [
          | inl absent ↦
              let same : n ≡ k = some-injective (sym (p.find_absent cache x n absent) ∙ at_x) in
              rw (← e, ← same) h
          | inr (j, present) ↦
              rw (← e) (s x k (present ∙ sym (p.find_present cache x n j present) ∙ at_x))
        ]
  ]

  record Evaluated (x : G) (out : Result (ℕ × M)) : Type ℓ where
    found : ℕ
    left : M
    result : out ≡ ok (found, left)
    correct : HasGrundy x found
    sound : IsSound G left

  record EvaluatedAll (xs : List G) (out : Result (List ℕ × M)) : Type ℓ where
    found : List ℕ
    left : M
    result : out ≡ ok (found, left)
    correct : HaveGrundy xs found
    sound : IsSound G left

  grundify_moves-Evaluated :
      (call : M → G → Result (ℕ × M)) (rank : G → ℕ) (n : ℕ)
      → ((cache : M) (x : G) → IsSound G cache → rank x < n → Evaluated x (call cache x))
      → (cache : M) (xs : List G) → IsSound G cache
      → AllBelow rank n xs
      → EvaluatedAll xs (grundify_moves call cache xs)
  unfolding grundify_moves
  grundify_moves-Evaluated call rank n f cache [] s h = record {
    found = [];
    left = cache;
    result = refl;
    correct = no_move;
    sound = s;
  }
  grundify_moves-Evaluated call rank n f cache (x ∷ xs) s h =
      let first = f cache x s h.0 in
      let rest = grundify_moves-Evaluated call rank n f first.left xs first.sound h.1 in
      record {
        found = first.found ∷ rest.found;
        left = rest.left;
        result = rw (first.result, rest.result);
        correct = a_move first.correct rest.correct;
        sound = rest.sound;
      }

  evaluate_moves-Evaluated :
      (call : M → G → Result (ℕ × M)) (cache : M) (x : G)
      → IsMap c
      → IsSound G cache
      → EvaluatedAll (g.moves x) (grundify_moves call cache (g.moves x))
      → Evaluated x (evaluate_moves call cache x (c.find cache x))
  unfolding evaluate_moves emplace_value
  evaluate_moves-Evaluated call cache x p s moves = elim (Option-cases (c.find cache x)) [
    | inr (n, e) ↦ record { found = n; left = cache; result = rw e; correct = s x n e; sound = s }
    | inl e ↦
        let (n, mex, least) = mex_of-IsMex moves.found in
        let h = value moves.correct least in
        record {
          found = n;
          left = c.emplace moves.left x n;
          result = rw (e, moves.result, mex);
          correct = h;
          sound = emplace-IsSound moves.left x n p moves.sound h;
        }
  ]

  grundify-Evaluated :
      (fuel : ℕ) (rank : G → ℕ)
      → IsMap c
      → ((x : G) → AllBelow rank (rank x) (g.moves x))
      → (cache : M) (x : G) → IsSound G cache
      → rank x < fuel
      → Evaluated x (grundify fuel cache x)
  unfolding grundify
  grundify-Evaluated zero rank p falls cache x s h = absurd (omega arith)
  grundify-Evaluated (suc fuel) rank p falls cache x s h =
      evaluate_moves-Evaluated (grundify fuel) cache x p s (
        grundify_moves-Evaluated (grundify fuel) rank (rank x)
          (λ cache' y s' below. grundify-Evaluated fuel rank p falls cache' y s' (omega arith))
          cache (g.moves x) s (falls x))

  -- In a game whose moves lower a rank, with a cache that knows nothing wrong and fuel above the
  -- rank of the position, `grundify` does not reach its `throw`. It returns the Grundy value of the
  -- position, which is 0 just where the player to move loses, and leaves a cache that knows nothing
  -- wrong.
  pub grundify_lem :
      (fuel : ℕ) (rank : G → ℕ) (cache : M) (position : G)
      → IsMap c
      → ((x : G) → AllBelow rank (rank x) (g.moves x))
      → IsSound G cache
      → rank position < fuel
      → (n : ℕ) × (cache' : M) × (grundify fuel cache position ≡ ok (n, cache'))
        × HasGrundy position n
        × ((n ≡ 0) ↔ Lost position)
        × IsSound G cache'
  grundify_lem fuel rank cache position p falls s h =
      let i = grundify-Evaluated fuel rank p falls cache position s h in
      (i.found, i.left, i.result, i.correct, HasGrundy-Lost position i.found i.correct, i.sound)
