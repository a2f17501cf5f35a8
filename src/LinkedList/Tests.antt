-- ===== src/LinkedList/Tests.antt =====
-- basic/STL/myList.h: a list of two numbers, and its boundaries.
use c_study.Prelude.{ℕ, ◌≡◌, refl, List, [], ◌∷◌, none, some, arith, ◌==◌, if◌then◌else◌}
use c_study.Prelude.Run.{ok, fault, null_access}
use c_study.LinkedList.{
  LinkedList, update, cell, at, write, set_next, new_node, insert, erase, or_stay, decrement,
  increment, print, clear,
}
use c_study.LinkedList.Chain.{Cells, node}
use c_study.LinkedList.Edit.{Linked, Holds, insert-Holds, erase-Holds}
use c_study.LinkedList.Calls.{Op, put_first, drop_last, ask_last, run_list, run_linked, values}
use c_study.LinkedList.Script.{run_linked-eq-run_list}
use c_study.LinkedList.Walk.{print-values, clear-Holds, Freed}

abbrev ten_twenty : LinkedList ℕ
ten_twenty = record {
  heap = λ a.
      if a == 0
      then node 0 (some 2) none
      else if a == 1
      then node 0 none (some 3)
      else if a == 2
      then node 10 (some 3) (some 0)
      else if a == 3
      then node 20 (some 1) (some 2)
      else none;
  fresh = 4;
  head = 0;
  tail = 1;
}

abbrev nodes : Cells ℕ
nodes = (2, 10) ∷ (3, 20) ∷ []

ten_twenty-Holds : Holds ten_twenty 0 nodes
unfolding Holds Linked
ten_twenty-Holds = (
  (
    refl,
    (refl, (refl, (refl, tt))),
    (refl, (refl, (refl, tt)), (refl, (refl, tt), (refl, tt, tt))),
  ),
  omega arith,
)

insert-Holds_example :
    (l' : LinkedList ℕ) × (insert (some 3) 15 ten_twenty ≡ ok (some 4, l'))
    × Holds l' 0 ((2, 10) ∷ (4, 15) ∷ (3, 20) ∷ [])
    × (l'.tail ≡ 1)
insert-Holds_example = insert-Holds ten_twenty 0 15 ((2, 10) ∷ []) ((3, 20) ∷ []) ten_twenty-Holds

erase-Holds_example :
    (l' : LinkedList ℕ) × (erase (some 2) ten_twenty ≡ ok (some 3, l'))
    × Holds l' 0 ((3, 20) ∷ [])
    × (l'.heap 2 ≡ none)
    × (l'.tail ≡ 1)
erase-Holds_example = erase-Holds ten_twenty 0 [] 2 10 ((3, 20) ∷ []) ten_twenty-Holds

abbrev script : List (Op ℕ)
script = put_first 5 ∷ drop_last ∷ ask_last ∷ []

run_linked-eq-run_list_example :
    (l' : LinkedList ℕ) × (cs' : Cells ℕ) × (run_linked script ten_twenty
      ≡ ok ((run_list 0 script (10 ∷ 20 ∷ [])).0, l'))
    × (values cs' ≡ (run_list 0 script (10 ∷ 20 ∷ [])).1)
    × Holds l' 0 cs'
run_linked-eq-run_list_example = run_linked-eq-run_list 0 script ten_twenty nodes ten_twenty-Holds

print-values_example : print 3 ten_twenty ≡ some (ok (10 ∷ 20 ∷ []))
print-values_example = print-values ten_twenty 0 nodes 3 ten_twenty-Holds (omega arith)

clear-Holds_example :
    (l' : LinkedList ℕ) × (clear 3 ten_twenty ≡ some (ok l')) × Holds l' 0 [] × Freed l'.heap nodes
clear-Holds_example = clear-Holds ten_twenty 0 nodes 3 ten_twenty-Holds (omega arith)

-- `--begin()` is the sentinel `head`, `++end()` stays, and an `insert` at the sentinel reads
-- through null.
before_begin : decrement ten_twenty.heap (some 2) ≡ ok (some 0)
unfolding decrement at cell or_stay
before_begin = refl

after_end : increment ten_twenty.heap (some 1) ≡ ok (some 1)
unfolding increment at cell or_stay
after_end = refl

insert_at_head : insert (some 0) 5 ten_twenty ≡ fault null_access
unfolding insert at cell update new_node set_next write
insert_at_head = refl
