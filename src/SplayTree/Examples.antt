-- ===== src/SplayTree/Examples.antt =====
-- The values of ivl/structs/splay_tree_example.cpp, with the sum of the tree below as the state.
use Prim.Native.Nat.{compare}
use all.Prelude.{
  ℕ, ◌+◌, ◌≡◌, refl, Bool, true, false, Option, none, some, List, [], ◌∷◌, length, if◌then◌else◌,
}
use all.Avl.Compare.{nat_ordered}
use all.Avl.Sorted.{insert_list}
use all.SplayTree.{
  left, right, Address, object, slot, SplayTree, null, node, insert, splay, max_depth,
}
use all.SplayTree.Pointers.{IsLinked}
use all.SplayTree.Values.{Element, Lawful}
use all.SplayTree.Context.{Frame, frame, plug, sides}
use all.SplayTree.Rotate.{keys, IsFresh}
use all.SplayTree.Laws.{IsValid, insert_lem, splay_lem}

-- A number, and a sum.
abbrev S : Type 0
S = ℕ × ℕ

abbrev sum : Option S → ℕ
sum none = 0
sum (some s) = s.1

instance abbrev element : Element S
element = record { cmp = λ v w. compare v.0 w.0; refresh = λ v l r. (v.0, v.0 + sum l + sum r) }

abbrev lawful : Lawful element ℕ
lawful = record {
  key = λ v. v.0;
  cmp_key = λ v w. refl;
  key_refresh = λ v l r. refl;
  refresh_refresh = λ v a b c d. refl;
}

-- A leaf at this node address, with the value and the parent.
abbrev leaf : ℕ → ℕ → Address → SplayTree S
leaf id x up = node id (x, x) (some up) null null

-- The variable that holds the tree.
abbrev variable : Address
variable = object 7

abbrev ladder : SplayTree S
ladder =
    node 90 (9, 21) none
      (node 70 (7, 12) (some variable)
        (node 30 (3, 5) (some (slot 90 left)) (leaf 20 2 (slot 70 left)) null) null)
      null

-- The search for 4 ends on the right of 3, and a round and a rotation take it up.
insert_four :
    insert none 40 (4, 4) variable ladder
    ≡ some (
      [],
      true,
      node 40
          (4, 25)
          none
          (node 30 (3, 5) (some variable) (leaf 20 2 (slot 40 left)) null)
          (node 90 (9, 16) (some variable) (leaf 70 7 (slot 40 right)) null),
    )
unfolding insert
insert_four = refl

insert_again : insert none 91 (9, 9) variable ladder ≡ some ([], false, ladder)
unfolding insert
insert_again = refl

-- With a target, `splay` stops at the child of the target.
splay_below :
    splay (some variable) (left ∷ left ∷ []) variable ladder
    ≡ some (
      left ∷ [],
      node 90
          (9, 21)
          none
          (node 30
            (3, 12)
            (some variable)
            (leaf 20 2 (slot 90 left))
            (node 70 (7, 7) (some (slot 90 left)) null null))
          null,
    )
unfolding splay
splay_below = refl

-- A parent that is wrong is noticed.
splay_astray :
    splay none (left ∷ []) variable (node 90 (9, 11) none (leaf 20 2 (slot 91 left)) null) ≡ none
unfolding splay
splay_astray = refl

ladder_depth : max_depth ladder ≡ 4
unfolding max_depth
ladder_depth = refl

ladder-IsValid : IsValid lawful variable ladder
ladder-IsValid = record {
  sorted = ((refl, (refl, (refl, tt))), ((refl, (refl, tt)), ((refl, tt), (tt, tt))));
  fresh = (refl, (refl, (refl, (refl, refl, refl), refl), refl), refl);
  top = refl;
  linked = (refl, tt, (refl, tt, (refl, tt, (tt, tt, tt, tt), tt), tt), tt);
}

insert_lem_example :
    (id : ℕ) × (top : S) × (l r : SplayTree S) × (is_new : Bool) × (insert none 40
        (4, 4)
        variable
        ladder
      ≡ some ([], is_new, node id top none l r))
    × (top.0 ≡ 4)
    × IsValid lawful variable (node id top none l r)
    × (keys lawful (node id top none l r) ≡ insert_list 4 (keys lawful ladder))
    × (length (keys lawful (node id top none l r))
        ≡ (if is_new then 1 else 0) + length (keys lawful ladder))
insert_lem_example = insert_lem lawful variable 40 (4, 4) ladder ladder-IsValid refl

abbrev way : List (Frame S)
way =
    frame right 30 (3, 0) (some (slot 90 left)) (leaf 20 2 (slot 70 left))
    ∷ frame left 70 (7, 0) (some variable) null
    ∷ frame left 90 (9, 0) none null
    ∷ []

splay_lem_example :
    (id' : ℕ) × (top : S) × (l r : SplayTree S) × (splay none
        (sides way)
        variable
        (plug way (leaf 40 4 (slot 70 left)))
      ≡ some ([], node id' top none l r))
    × (top.0 ≡ 4)
    × (keys lawful (node id' top none l r) ≡ keys lawful (plug way (leaf 40 4 (slot 70 left))))
    × IsFresh lawful (node id' top none l r)
    × IsLinked variable (node id' top none l r)
splay_lem_example =
    splay_lem lawful way variable 40 (4, 4) null null ((refl, refl, refl), (refl, (refl, refl)))
      (refl, refl, (tt, tt, tt, tt), (refl, tt, tt, (refl, tt, tt, tt))) (refl, refl, refl)
      (tt, tt, tt, tt)
