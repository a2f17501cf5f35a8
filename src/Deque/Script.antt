-- ===== src/Deque/Script.antt =====
-- basic/STL/mydeque.h: a client's calls on a `Deque`, against the same calls on a list.
use c_study.Prelude.{
  ℕ, ap, ◌+◌, ◌^◌, ◌≤◌, ◌<◌, ◌≡◌, refl, List, [], ◌∷◌, ◌++◌, Option, none, some, length,
  length-append, arith, true, ◌==◌, ◌⊎◌, inl, inr, subst, sym,
}
use c_study.Prelude.Run.{Fault, Run, ok, fault, out_of_range, ◌>>=◌}
use c_study.Deque.{
  Deque, pop_front, pop_back, push_front, push_back, front, back, new_deque, is_empty,
}
use c_study.Deque.Inv.{Holds, new_deque-Holds}
use c_study.Deque.Ops.{pop_front-Holds, pop_back-Holds, front_lem, back_lem}
use c_study.Deque.Ends.{push_front-Holds, push_back-Holds}

pub data Op {ℓ} (T : Type ℓ) : Type ℓ where
  put_first put_last : T → Op T
  drop_first drop_last ask_first ask_last : Op T

module _ {ℓ} {T : Type ℓ} where
  -- The list without its last element, and that element.
  abbrev pub init_last : T → List T → List T × T
  init_last x [] = ([], x)
  init_last x (y ∷ ys) = let (i, l) = init_last y ys in (x ∷ i, l)

  init_last_lem : (x : T) (xs : List T) → (init_last x xs).0 ++ (init_last x xs).1 ∷ [] ≡ x ∷ xs
  init_last_lem x [] = refl
  init_last_lem x (y ∷ ys) = λ i. x ∷ init_last_lem y ys i

  -- One call on the list: its result and the list after it, or the exception.
  unfoldable pub on_list : Op T → List T → Run (Option T × List T)
  on_list (put_first v) xs = ok (none, v ∷ xs)
  on_list (put_last v) xs = ok (none, xs ++ v ∷ [])
  on_list drop_first [] = fault out_of_range
  on_list drop_first (x ∷ xs) = ok (none, xs)
  on_list drop_last [] = fault out_of_range
  on_list drop_last (x ∷ xs) = ok (none, (init_last x xs).0)
  on_list ask_first [] = fault out_of_range
  on_list ask_first (x ∷ xs) = ok (some x, x ∷ xs)
  on_list ask_last [] = fault out_of_range
  on_list ask_last (x ∷ xs) = ok (some (init_last x xs).1, x ∷ xs)

  -- A script of calls, with what each returns; it stops at the first fault.
  unfoldable pub run_list : List (Op T) → List T → Run (List (Option T))
  run_list [] xs = ok []
  run_list (op ∷ ops) xs = do (r, xs') ← on_list op xs; rs ← run_list ops xs'; ok (r ∷ rs)

module _ {ℓ} {T : Type ℓ} (blank : T) where
  unfoldable pub on_deque : Op T → Deque T → Run (Option T × Deque T)
  on_deque (put_first v) d = do d' ← push_front blank v d; ok (none, d')
  on_deque (put_last v) d = do d' ← push_back blank v d; ok (none, d')
  on_deque drop_first d = do d' ← pop_front d; ok (none, d')
  on_deque drop_last d = do d' ← pop_back d; ok (none, d')
  on_deque ask_first d = do x ← front d; ok (some x, d)
  on_deque ask_last d = do x ← back d; ok (some x, d)

  unfoldable pub run_deque : List (Op T) → Deque T → Run (List (Option T))
  run_deque [] d = ok []
  run_deque (op ∷ ops) d = do (r, d') ← on_deque op d; rs ← run_deque ops d'; ok (r ∷ rs)

  empty_faults :
      {d : Deque T}
      → Holds d []
      → (pop_front d ≡ fault out_of_range)
        × (pop_back d ≡ fault out_of_range)
        × (front d ≡ fault out_of_range)
        × (back d ≡ fault out_of_range)
  unfolding pop_front pop_back front back is_empty
  empty_faults {d} h =
      let e : (d.count == 0) ≡ true = ground (arith, h.len) in (rw e, rw e, rw e, rw e)

  -- What a call on a deque that holds `xs` does, beside the call on `xs`.
  Served : Op T → Deque T → List T → Type ℓ
  Served op d xs =
      (r : Option T) × (d' : Deque T) × (xs' : List T) × (on_list op xs ≡ ok (r, xs'))
      × (on_deque op d ≡ ok (r, d'))
      × Holds d' xs'
      × (length xs' ≤ length xs + 1)

  Refused : Op T → Deque T → List T → Type ℓ
  Refused op d xs = (e : Fault) × (on_list op xs ≡ fault e) × (on_deque op d ≡ fault e)

  call_cases :
      (op : Op T) {d : Deque T} (xs : List T)
      → Holds d xs
      → length xs ≤ 2 ^ 61
      → Served op d xs ⊎ Refused op d xs
  unfolding Served Refused on_deque on_list
  call_cases (put_first v) xs h small =
      let (d', run, result) = push_front-Holds blank v xs h small in
      inl (none, d', v ∷ xs, refl, rw run, result, omega arith)
  call_cases (put_last v) xs h small =
      let (d', run, result) = push_back-Holds blank v xs h small in
      inl (none, d', xs ++ v ∷ [], refl, rw run, result, omega (arith, length-append xs (v ∷ [])))
  call_cases drop_first [] h small = inr (out_of_range, refl, rw (empty_faults h).0)
  call_cases drop_first (x ∷ xs) h small =
      let (d', run, result) = pop_front-Holds x xs h in
      inl (none, d', xs, refl, rw run, result, omega arith)
  call_cases drop_last [] h small = inr (out_of_range, refl, rw (empty_faults h).1)
  call_cases drop_last (x ∷ xs) h small =
      let (i, l) = init_last x xs in
      let e = init_last_lem x xs in
      let (d', run, result) = pop_back-Holds i l (subst (Holds _) (sym e) h) in
      inl (none, d', i, refl, rw run, result, omega (arith, ap length e, length-append i (l ∷ [])))
  call_cases ask_first [] h small = inr (out_of_range, refl, rw (empty_faults h).2)
  call_cases ask_first {d} (x ∷ xs) h small =
      inl (some x, d, x ∷ xs, refl, rw (front_lem x xs h), h, omega arith)
  call_cases ask_last [] h small = inr (out_of_range, refl, rw (empty_faults h).3)
  call_cases ask_last {d} (x ∷ xs) h small =
      let (i, l) = init_last x xs in
      let e = init_last_lem x xs in
      inl (some l, d, x ∷ xs, refl, rw (back_lem i l (subst (Holds _) (sym e) h)), h, omega arith)

  -- A script of calls on a deque returns what the same script returns on the list that the deque
  -- holds, exceptions included, whatever resizes happen on the way. The sum of the list's length
  -- and the script's is at most 2 ^ 61.
  pub run_deque-eq-run_list :
      (ops : List (Op T)) {d : Deque T} (xs : List T)
      → Holds d xs
      → length xs + length ops ≤ 2 ^ 61
      → run_deque ops d ≡ run_list ops xs
  unfolding run_deque run_list Served Refused
  run_deque-eq-run_list [] xs h small = refl
  run_deque-eq-run_list (op ∷ ops) {d} xs h small = elim (call_cases op xs h (omega arith)) [
    | inr (e, on_l, on_d) ↦ rw (on_l, on_d)
    | inl (r, d', xs', on_l, on_d, h', few) ↦
        rw (on_l, on_d) (rw (run_deque-eq-run_list ops xs' h' (omega arith)))
  ]

  -- The same from the constructor on: a new deque behaves as the empty list.
  run_deque-new_deque :
      (ops : List (Op T)) (initial_capacity : ℕ)
      → 0 < initial_capacity
      → initial_capacity ≤ 2 ^ 62
      → length ops ≤ 2 ^ 61
      → run_deque ops (new_deque blank initial_capacity) ≡ run_list ops []
  run_deque-new_deque ops n pos small few =
      run_deque-eq-run_list ops [] (new_deque-Holds blank n pos small) (omega arith)
