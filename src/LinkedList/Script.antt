-- ===== src/LinkedList/Script.antt =====
-- basic/STL/myList.h: a client's calls on a `List`, against the same calls on a list of values.
use c_study.Prelude.{◌≡◌, refl, ap, ◌∙◌, List, [], ◌∷◌, arith}
use c_study.Prelude.Run.{ok}
use c_study.LinkedList.{LinkedList, update, same, new_node, new_list}
use c_study.LinkedList.Chain.{Cells}
use c_study.LinkedList.Edit.{Linked, Holds}
use c_study.LinkedList.Calls.{
  Op, put_first, put_last, drop_first, drop_last, ask_first, ask_last, ask_empty, run_list,
  run_linked, values, Served,
}
use c_study.LinkedList.Ends.{
  put_first-Served, put_last-Served, drop_first-Served, drop_last-Served, ask_first-Served,
  ask_last-Served, ask_empty-Served,
}

module _ {ℓ} {T : Type ℓ} where
  call-Served :
      (blank : T) (op : Op T) (l : LinkedList T) (cs : Cells T)
      → Holds l blank cs
      → Served blank op l cs
  call-Served blank (put_first v) l cs h = put_first-Served v l blank cs h
  call-Served blank (put_last v) l cs h = put_last-Served v l blank cs h
  call-Served blank drop_first l cs h = drop_first-Served l blank cs h
  call-Served blank drop_last l cs h = drop_last-Served l blank cs h
  call-Served blank ask_first l cs h = ask_first-Served l blank cs h
  call-Served blank ask_last l cs h = ask_last-Served l blank cs h
  call-Served blank ask_empty l cs h = ask_empty-Served l blank cs h

  -- The list that `List()` makes has no nodes.
  pub new_list-Holds : (blank : T) → Holds (new_list blank) blank []
  unfolding Holds Linked new_list update new_node
  new_list-Holds blank = ((refl, (refl, tt), (refl, tt, tt)), (omega arith, (omega arith, tt)))

  -- A script of calls on a list that holds the nodes `cs` runs without a fault and returns what the same
  -- script returns on the list of their values, where a pop of an empty list does nothing and
  -- `front()` and `back()` of one return `T()`; and it leaves a list that holds what is left there.
  pub run_linked-eq-run_list :
      (blank : T) (ops : List (Op T)) (l : LinkedList T) (cs : Cells T)
      → Holds l blank cs
      → (l' : LinkedList T) × (cs' : Cells T) × (run_linked ops l
          ≡ ok ((run_list blank ops (values cs)).0, l'))
        × (values cs' ≡ (run_list blank ops (values cs)).1)
        × Holds l' blank cs'
  unfolding run_linked run_list Served
  run_linked-eq-run_list blank [] l cs h = (l, cs, refl, refl, h)
  run_linked-eq-run_list blank (op ∷ ops) l cs h =
      let (l', cs', run, same, h') = call-Served blank op l cs h in
      let (l'', cs'', run', same', h'') = run_linked-eq-run_list blank ops l' cs' h' in
      (l'', cs'', rw (run, run', same) refl, same' ∙ ap (λ xs. (run_list blank ops xs).1) same, h'')
