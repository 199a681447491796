-- ===== src/Graphs/Tests.antt =====
-- Components of small graphs.
use all.Prelude.{◌≡◌, refl, some, [], ◌∷◌}
use all.Graphs.{scc}

-- Two cycles, 0 and 1, and 2 and 3, with an edge from the first to the second.
two_cycles :
    scc (record { edges = (1 ∷ []) ∷ (0 ∷ 2 ∷ []) ∷ (3 ∷ []) ∷ (2 ∷ []) ∷ [] })
    ≡ some (1 ∷ 1 ∷ 0 ∷ 0 ∷ [])
unfolding scc
two_cycles = refl

chain : scc (record { edges = (1 ∷ []) ∷ (2 ∷ []) ∷ [] ∷ [] }) ≡ some (2 ∷ 1 ∷ 0 ∷ [])
unfolding scc
chain = refl
