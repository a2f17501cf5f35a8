-- ===== src/Deque/Tests.antt =====
-- Runs of `Deque` on concrete inputs, and the theorems of its modules at them.
use c_study.Prelude.{ℕ, ◌≡◌, refl, List, [], ◌∷◌, Option, none, some, arith}
use c_study.Prelude.Run.{ok, fault, out_of_range, bad_access, Returns}
use c_study.Deque.{
  Deque, pop_front, pop_back, push_front, push_back, front, back, new_deque, is_empty, grow, resize,
  copy, rem_size, read, write, put_back, put_front, deref,
}
use c_study.Deque.Inv.{Holds}
use c_study.Deque.Ends.{resize-Holds}
use c_study.Deque.Ops.{deref_lem}
use c_study.Deque.Script.{
  Op, put_first, put_last, drop_first, drop_last, ask_first, ask_last, run_deque, run_list,
  on_deque, on_list, run_deque-eq-run_list,
}

program : Unit {0}
unfolding new_deque resize copy rem_size read write grow put_front put_back push_front push_back
    pop_front pop_back front back is_empty deref on_deque run_deque on_list run_list
program = tt

abbrev script : List (Op ℕ)
script =
    put_last 1
    ∷ put_last 2
    ∷ put_first 3
    ∷ ask_first
    ∷ ask_last
    ∷ drop_last
    ∷ ask_last
    ∷ drop_first
    ∷ drop_first
    ∷ []

-- The second and the third push resize.
script_runs :
    run_deque 0 script (new_deque 0 1)
    ≡ ok (none ∷ none ∷ none ∷ some 3 ∷ some 2 ∷ none ∷ some 1 ∷ none ∷ none ∷ [])
unfolding program
script_runs = refl

pop_empty : run_deque {T = ℕ} 0 (drop_first ∷ []) (new_deque 0 4) ≡ fault out_of_range
unfolding program
pop_empty = refl

-- `Deque(0)` doubles to 0 and then writes outside its storage.
zero_capacity : run_deque {T = ℕ} 0 (put_last 1 ∷ []) (new_deque 0 0) ≡ fault bad_access
unfolding program
zero_capacity = refl

abbrev pair : Deque ℕ
pair = record { buffer = 8 ∷ 9 ∷ 0 ∷ []; capacity = 3; count = 2; front_idx = 0; back_idx = 2 }

pair-Holds : Holds pair (8 ∷ 9 ∷ [])
pair-Holds = record { valid = omega arith; len = refl; at = λ i lt. ground arith }

run_deque-eq-run_list_example : run_deque 0 script pair ≡ run_list script (8 ∷ 9 ∷ [])
run_deque-eq-run_list_example = run_deque-eq-run_list 0 script (8 ∷ 9 ∷ []) pair-Holds (omega arith)

resize-Holds_example :
    Returns (resize 0 5 pair) λ d'. Holds d' (8 ∷ 9 ∷ []) × (d'.capacity ≡ 5) × (d'.count ≡ 2)
resize-Holds_example = resize-Holds 0 (8 ∷ 9 ∷ []) 5 pair-Holds (omega arith) (omega arith)

deref_lem_example : Returns (deref pair 1) (λ x. ◌≡◌ {A = Option ℕ} (some 9) (some x))
deref_lem_example = deref_lem (8 ∷ 9 ∷ []) 1 pair-Holds (omega arith)
