-- ===== src/Avl/Tests.antt =====
-- Runs of `AVLmap` on concrete keys, and its theorems at them.
use c_study.Prelude.{ℕ, ◌≡◌, refl, [], ◌∷◌, ◌++◌, arith}
use c_study.Prelude.Run.{ok, fault, null_access, Returns}
use c_study.Prelude.Sorted.{insert_key, remove_key}
use c_study.Avl.{
  Tree, leaf, node, insert, delete_node, inorder, right_rotate, left_rotate, right_heavy,
  left_heavy, rebalance, get_minn, delete_here, after_delete,
}
use c_study.Avl.Order.{keys, has_two_children, both}
use c_study.Avl.Shape.{IsAvl, insert_max-IsAvl, put_all}

program : Unit {0}
unfolding insert delete_node inorder right_rotate left_rotate right_heavy left_heavy rebalance
    get_minn delete_here after_delete keys put_all insert_key remove_key has_two_children both
program = tt

abbrev one_two : Tree ℕ
one_two = node leaf 1 10 2 (node leaf 2 20 1 leaf)

ascending :
    put_all {V = ℕ} ((1, 10) ∷ (2, 20) ∷ (3, 30) ∷ []) leaf
    ≡ ok (node (node leaf 1 10 1 leaf) 2 20 2 (node leaf 3 30 1 leaf))
unfolding program
ascending = refl

-- The values 30 and 20 are lost, and there is no rotation.
descending :
    put_all {V = ℕ} ((3, 30) ∷ (2, 20) ∷ (1, 10) ∷ []) leaf
    ≡ ok (node (node (node leaf 1 10 1 leaf) 2 10 1 leaf) 3 10 1 leaf)
unfolding program
descending = refl

-- 4 is removed from 3 with the children 2 (over 1) and 4: the key that was removed chooses a double
-- rotation that the tree has no node for.
abbrev left_high : Tree ℕ
left_high = node (node (node leaf 1 1 1 leaf) 2 2 2 leaf) 3 3 3 (node leaf 4 4 1 leaf)

remove_rotates_wrongly : delete_node left_high 4 ≡ fault null_access
unfolding program
remove_rotates_wrongly = refl

abbrev full : Tree ℕ
full = node (node leaf 1 1 1 leaf) 2 2 2 (node leaf 3 3 1 leaf)

insert_max-IsAvl_example :
    Returns (insert one_two 3 30) λ t. IsAvl t × (inorder t ≡ inorder one_two ++ (3, 30) ∷ [])
insert_max-IsAvl_example = insert_max-IsAvl one_two 3 30 (omega arith) (unfold keys in omega arith)

abbrev grown : Tree ℕ
grown = node (node leaf 0 5 1 leaf) 1 5 2 (node leaf 2 20 1 leaf)

put_zero : insert one_two 0 5 ≡ ok grown
unfolding program
put_zero = refl

-- An order of insertions after which `rotate` reads through null: `insert` does not return from every tree that it
-- built.
put_faults :
    put_all {V = ℕ}
      ((5, 5) ∷ (0, 0) ∷ (3, 3) ∷ (1, 1) ∷ (2, 2) ∷ (4, 4) ∷ (6, 6) ∷ (7, 7) ∷ [])
      leaf
    ≡ fault null_access
unfolding program
put_faults = refl
