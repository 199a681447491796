-- ===== src/Games/Positions.antt =====
-- Grundy values and outcomes of positions, with no cache and no order of evaluation.
use all.Prelude.{ℕ, zero, suc, ◌≡◌, refl, List, [], ◌∷◌, inl, inr, arith, ◌↔◌}
use all.Games.{ImpartialGame}
use all.Games.Mex.{In, IsMex}

module _ {ℓ} {G : Type ℓ} ⦃g : ImpartialGame G⦄ where
  mutual
    -- The Grundy value of a position is the least number that no move leads to.
    pub data HasGrundy : G → ℕ → Type ℓ where
      value :
          {x : G} {values : List ℕ} {n : ℕ}
          → HaveGrundy (g.moves x) values
          → IsMex values n
          → HasGrundy x n

    pub data HaveGrundy : List G → List ℕ → Type ℓ where
      no_move : HaveGrundy [] []
      a_move :
          {x : G} {xs : List G} {n : ℕ} {ns : List ℕ}
          → HasGrundy x n
          → HaveGrundy xs ns
          → HaveGrundy (x ∷ xs) (n ∷ ns)

  mutual
    -- Who has no move loses: the player to move loses where every move leads to a position that is
    -- won by the other, and wins where some move leads to one that is lost.
    pub data Lost : G → Type ℓ where
      lost : {x : G} → AllWon (g.moves x) → Lost x

    pub data Won : G → Type ℓ where
      won : {x : G} → SomeLost (g.moves x) → Won x

    pub data AllWon : List G → Type ℓ where
      all_won : AllWon []
      also_won : {x : G} {xs : List G} → Won x → AllWon xs → AllWon (x ∷ xs)

    pub data SomeLost : List G → Type ℓ where
      here : {x : G} {xs : List G} → Lost x → SomeLost (x ∷ xs)
      there : {x : G} {xs : List G} → SomeLost xs → SomeLost (x ∷ xs)

  -- No position is both, by recursion on the first of the two proofs.
  mutual
    Lost-not-Won : (x : G) → Lost x → Won x → ⊥
    Lost-not-Won x (lost a) (won s) = AllWon-not-SomeLost (g.moves x) a s

    AllWon-not-SomeLost : (xs : List G) → AllWon xs → SomeLost xs → ⊥
    AllWon-not-SomeLost [] all_won s = elim s [ ]
    AllWon-not-SomeLost (x ∷ xs) (also_won w a) (here l) = Won-not-Lost x w l
    AllWon-not-SomeLost (x ∷ xs) (also_won w a) (there s) = AllWon-not-SomeLost xs a s

    Won-not-Lost : (x : G) → Won x → Lost x → ⊥
    Won-not-Lost x (won s) (lost a) = SomeLost-not-AllWon (g.moves x) s a

    SomeLost-not-AllWon : (xs : List G) → SomeLost xs → AllWon xs → ⊥
    SomeLost-not-AllWon (x ∷ xs) (here l) (also_won w a) = Lost-not-Won x l w
    SomeLost-not-AllWon (x ∷ xs) (there s) (also_won w a) = SomeLost-not-AllWon xs s a

  -- The value decides the game.
  mutual
    zero-Lost : (x : G) → HasGrundy x 0 → Lost x
    zero-Lost x (value h m) = lost (AllWon-moves (g.moves x) _ h m.excluded)

    suc-Won : (x : G) (n : ℕ) → HasGrundy x (suc n) → Won x
    suc-Won x n (value h m) = won (SomeLost-moves (g.moves x) _ h (m.least 0 (omega arith)))

    AllWon-moves : (xs : List G) (ns : List ℕ) → HaveGrundy xs ns → ¬ In 0 ns → AllWon xs
    AllWon-moves [] [] no_move h = all_won
    AllWon-moves (x ∷ xs) (zero ∷ ns) (a_move v vs) h = absurd (h (inl refl))
    AllWon-moves (x ∷ xs) (suc n ∷ ns) (a_move v vs) h =
        also_won (suc-Won x n v) (AllWon-moves xs ns vs (λ i. h (inr i)))

    SomeLost-moves : (xs : List G) (ns : List ℕ) → HaveGrundy xs ns → In 0 ns → SomeLost xs
    SomeLost-moves [] [] no_move i = elim i [ ]
    SomeLost-moves (x ∷ xs) (n ∷ ns) (a_move v vs) (inr i) = there (SomeLost-moves xs ns vs i)
    SomeLost-moves (x ∷ xs) (zero ∷ ns) (a_move v vs) (inl e) = here (zero-Lost x v)
    SomeLost-moves (x ∷ xs) (suc n ∷ ns) (a_move v vs) (inl e) = absurd (omega arith)

  pub HasGrundy-Lost : (x : G) (n : ℕ) → HasGrundy x n → (n ≡ 0) ↔ Lost x
  HasGrundy-Lost x zero h = (λ _. zero-Lost x h, λ _. refl)
  HasGrundy-Lost x (suc n) h =
      (λ e. absurd (omega arith), λ l. absurd (Lost-not-Won x l (suc-Won x n h)))
