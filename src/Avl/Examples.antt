-- ===== src/Avl/Examples.antt =====
-- Runs of the tree, and its theorems at one of them.
use all.Prelude.{ℕ, ◌+◌, ◌^◌, ◌≤◌, ◌≡◌, refl, ◌*◌, ◌<◌, ◌⊎◌, some, [], ◌∷◌, List, arith, length}
use all.Avl.{Node, null, node, depth, insert, erase, Tree, tree_insert}
use all.Avl.Compare.{nat_ordered}
use all.Avl.Balance.{to_list}
use all.Avl.Sorted.{insert_list, erase_list}
use all.Avl.Laws.{
  IsValid, insert_refines, erase_refines, run_depth, Op, insert_op, erase_op, run, replay,
  run_refines,
}

abbrev chain : Node ℕ
chain = node 2 2 (node 1 1 null null) (node 3 1 null null)

chain-IsValid : IsValid chain
chain-IsValid = record {
  balanced = omega arith;
  sorted = ((refl, (refl, tt)), ((refl, tt), (tt, tt)));
}

-- Three increasing values rotate once.
three :
    run (insert_op 1 ∷ insert_op 2 ∷ insert_op 3 ∷ []) (record { root = null })
    ≡ some (record { root = chain })
unfolding run insert tree_insert
three = refl

insert_refines_example :
    (t' : Node ℕ) × (insert chain 4 ≡ some t')
    × IsValid t'
    × (to_list t' ≡ insert_list 4 (to_list chain))
    × (depth chain ≤ depth t')
    × (depth t' ≤ depth chain + 1)
insert_refines_example = insert_refines chain 4 chain-IsValid

erase_refines_example :
    (t' : Node ℕ) × (erase chain 2 ≡ some t')
    × IsValid t'
    × (to_list t' ≡ erase_list 2 (to_list chain))
    × (depth t' ≤ depth chain)
    × (depth chain ≤ depth t' + 1)
erase_refines_example = erase_refines chain 2 chain-IsValid

abbrev calls : List (Op ℕ)
calls = erase_op 1 ∷ insert_op 7 ∷ insert_op 9 ∷ []

run_refines_example :
    (t' : Tree ℕ) × (run calls (record { root = chain }) ≡ some t')
    × IsValid t'.root
    × (to_list t'.root ≡ replay calls (to_list chain))
run_refines_example = run_refines calls (record { root = chain }) chain-IsValid

run_depth_example :
    (t' : Tree ℕ) × (run calls (record { root = chain }) ≡ some t')
    × ((depth t'.root + 1 < 2 * 2) ⊎ (2 ^ 2 ≤ length (replay calls (to_list chain)) + 1))
run_depth_example = run_depth calls (record { root = chain }) 2 chain-IsValid
