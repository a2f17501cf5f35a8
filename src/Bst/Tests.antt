-- ===== src/Bst/Tests.antt =====
-- basic/STL/mymap.h: runs on a map with four keys.
use c_study.Prelude.{ℕ, suc, ◌≡◌, refl, List, ◌∷◌, ◌++◌, some, length, arith}
use c_study.Prelude.Run.{ok, fault, null_access, ◌>>=◌}
use c_study.Bst.{
  TreeNode, leaf, node, top, right_of, preorder, insert, begin, find_from, find, erase, minn,
}
use c_study.Bst.Traverse.{earlier, later, visit, visit-preorder}
use c_study.Bst.Order.{place, IsBst, insert-place}
use c_study.Bst.Erase.{behind_first, erase-two_children}

abbrev right_part : TreeNode ℕ
right_part = node leaf 3 30 (node leaf 4 40 leaf)

abbrev left_part : TreeNode ℕ
left_part = node leaf 1 10 leaf

abbrev full : TreeNode ℕ
full = node left_part 2 20 right_part

full-IsBst : IsBst full
unfolding preorder
full-IsBst = omega arith

-- `begin()` of an empty map reads through null.
begin_empty : begin {V = ℕ} leaf ≡ fault null_access
unfolding begin minn
begin_empty = refl

visit-preorder_example :
    (begin full >>= λ it. ok (visit (suc (length (preorder full))) it)) ≡ ok (some (preorder full))
visit-preorder_example = visit-preorder left_part 2 20 right_part

insert-place_example :
    IsBst (insert full 2 21) × (preorder (insert full 2 21) ≡ place 2 21 (preorder full))
insert-place_example = insert-place full 2 21 full-IsBst

at_three :
    find full 3
    ≡ ok (record {
      around = right_of top left_part 2 20;
      left = leaf;
      key = 3;
      value = 30;
      right = node leaf 4 40 leaf;
    })
unfolding find find_from
at_three = refl

-- The map with keys 2 and 1, which goes left only.
abbrev left_only : TreeNode ℕ
left_only = node left_part 2 20 leaf

at_two :
    find left_only 2
    ≡ ok (record { around = top; left = left_part; key = 2; value = 20; right = leaf })
unfolding find find_from
at_two = refl

at_root :
    find full 2
    ≡ ok (record { around = top; left = left_part; key = 2; value = 20; right = right_part })
unfolding find find_from
at_root = refl

erase-two_children_example :
    (s : TreeNode ℕ) × (first : ℕ × ℕ) × (others : List (ℕ × ℕ)) × (erase full 2 ≡ ok s)
    × (preorder right_part
        ≡ first ∷ (preorder (behind_first {V = ℕ} leaf (node leaf 4 40 leaf)) ++ others))
    × (preorder s
        ≡ earlier {V = ℕ} top ++ ((preorder left_part ++ first ∷ others) ++ later {V = ℕ} top))
erase-two_children_example =
    erase-two_children full leaf leaf leaf (node leaf 4 40 leaf) 2 2 1 3 20 10 30 top at_root
