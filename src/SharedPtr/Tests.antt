-- ===== src/SharedPtr/Tests.antt =====
-- basic/type_ptr/simpleSharedPtr.h: a pointer, its copy, and the end of the first.
use c_study.Prelude.{◌≡◌, refl, [], ◌∷◌, some, true, arith}
use c_study.Prelude.Run.{Returns}
use c_study.SharedPtr.{
  Handle, Store, count_at, add_ref, new_block, add_slot, construct, copy_construct, op_construct,
  op_copy_construct, op_destruct, run_op, Reaches, start, call,
}
use c_study.SharedPtr.Count.{refs}
use c_study.SharedPtr.Steps.{IsCounted}
use c_study.SharedPtr.Life.{Reaches-IsCounted, Reaches-Returns_call}

abbrev first : Handle
first = record { ptr = some 0; control = some 0 }

abbrev one_pointer : Store
one_pointer = record { handles = first ∷ []; counts = 1 ∷ [] }

abbrev two_pointers : Store
two_pointers = record { handles = first ∷ first ∷ []; counts = 2 ∷ [] }

one_pointer-Reaches : Reaches one_pointer
unfolding run_op construct new_block add_slot
one_pointer-Reaches = call (op_construct true) start tt refl

two_pointers-Reaches : Reaches two_pointers
unfolding run_op copy_construct add_ref count_at add_slot
two_pointers-Reaches = call (op_copy_construct 0) one_pointer-Reaches (omega arith) refl

Reaches-IsCounted_example : IsCounted two_pointers
Reaches-IsCounted_example = Reaches-IsCounted two_pointers two_pointers-Reaches

Reaches-Returns_call_example : Returns (run_op (op_destruct 0) two_pointers) Reaches
Reaches-Returns_call_example =
    Reaches-Returns_call two_pointers (op_destruct 0) two_pointers-Reaches (omega arith)

shared_by_two : refs 0 two_pointers.handles ≡ 2
unfolding refs
shared_by_two = refl
