-- ===== src/LinkedList/Ends.antt =====
-- basic/STL/myList.h: what each call does at the ends of a list.
use c_study.Prelude.{
  ℕ, ◌≡◌, refl, sym, ap, ◌∙◌, List, [], ◌∷◌, ◌++◌, Option, none, some, false, arith, subst,
  append_assoc, append-nil,
}
use c_study.Prelude.Run.{ok}
use c_study.LinkedList.{
  LinkedList, same, begin, end, or_stay, decrement, is_empty, push_front, push_back, pop_front,
  pop_back, front, back,
}
use c_study.LinkedList.Chain.{Cells, first, last, node, Seg, Seg-middle, NotIn-middle}
use c_study.LinkedList.Writes.{at-some}
use c_study.LinkedList.Edit.{Linked, Holds, insert-Holds, erase-Holds, snoc}
use c_study.LinkedList.Calls.{
  put_first, put_last, drop_first, drop_last, ask_first, ask_last, ask_empty, all_but_last, last_or,
  null, on_list, on_linked, values, Served,
}

module _ {ℓ} {T : Type ℓ} where
  -- What `head` points to.
  pub head-at :
      (l : LinkedList T) (blank : T) (cs : Cells T)
      → Holds l blank cs
      → l.heap l.head ≡ node blank (first cs (some l.tail)) none
  unfolding Holds Linked
  head-at l blank [] h = h.0.0
  head-at l blank (c ∷ cs) h = h.0.0

  -- The sentinel `tail`, and the last node or the sentinel `head`.
  pub tail-at :
      (l : LinkedList T) (blank : T) (cs : Cells T)
      → Holds l blank cs
      → l.heap l.tail ≡ node blank none (last (some l.head) cs)
  unfolding Holds Linked
  tail-at l blank cs h = (Seg-middle l.heap none ((l.head, blank) ∷ cs) l.tail blank [] none h.0).0

  pub begin-first :
      (l : LinkedList T) (blank : T) (cs : Cells T)
      → Holds l blank cs
      → begin l ≡ ok (first cs (some l.tail))
  unfolding begin
  begin-first l blank cs h = rw (at-some l.heap l.head _ (head-at l blank cs h)) refl

  same-first :
      (l : LinkedList T) (blank : T) (cs : Cells T)
      → Holds l blank cs
      → same (first cs (some l.tail)) l.tail ≡ null (values cs)
  unfolding Holds Linked same
  same-first l blank [] h = ground arith
  same-first l blank ((a, v) ∷ cs) h = (NotIn-middle a cs l.tail blank [] h.0.2.1).0

  is_empty-null :
      (l : LinkedList T) (blank : T) (cs : Cells T)
      → Holds l blank cs
      → is_empty l ≡ ok (null (values cs))
  unfolding is_empty
  is_empty-null l blank cs h =
      rw (at-some l.heap l.head _ (head-at l blank cs h), same-first l blank cs h) refl

  pub values-append : (xs ys : Cells T) → values (xs ++ ys) ≡ values xs ++ values ys
  values-append [] ys = refl
  values-append ((a, v) ∷ xs) ys = ap (λ vs. v ∷ vs) (values-append xs ys)

  last-snoc : (p : Option ℕ) (xs : Cells T) (b : ℕ) (w : T) → last p (xs ++ (b, w) ∷ []) ≡ some b
  last-snoc p [] b w = refl
  last-snoc p ((a, v) ∷ xs) b w = last-snoc (some a) xs b w

  all_but_last-snoc : (xs : List T) (w : T) → all_but_last (xs ++ w ∷ []) ≡ xs
  all_but_last-snoc [] w = refl
  all_but_last-snoc (x ∷ []) w = refl
  all_but_last-snoc (x ∷ y ∷ xs) w = ap (λ ys. x ∷ ys) (all_but_last-snoc (y ∷ xs) w)

  last_or-snoc : (blank : T) (xs : List T) (w : T) → last_or blank (xs ++ w ∷ []) ≡ w
  last_or-snoc blank [] w = refl
  last_or-snoc blank (x ∷ xs) w = last_or-snoc x xs w

  pub put_first-Served :
      (v : T) (l : LinkedList T) (blank : T) (cs : Cells T)
      → Holds l blank cs
      → Served blank (put_first v) l cs
  unfolding Served on_linked on_list push_front
  put_first-Served v l blank cs h =
      let (l', run, holds, _) = insert-Holds l blank v [] cs h in
      (l', (l.fresh, v) ∷ cs, rw (begin-first l blank cs h, run) refl, refl, holds)

  pub put_last-Served :
      (v : T) (l : LinkedList T) (blank : T) (cs : Cells T)
      → Holds l blank cs
      → Served blank (put_last v) l cs
  unfolding Served on_linked on_list push_back end
  put_last-Served v l blank cs h =
      let (l', run, holds, _) =
        insert-Holds l blank v cs [] (subst (Holds l blank) (sym (append-nil cs)) h) in
      (l', cs ++ (l.fresh, v) ∷ [], rw run refl, values-append cs ((l.fresh, v) ∷ []), holds)

  pub drop_first-Served :
      (l : LinkedList T) (blank : T) (cs : Cells T)
      → Holds l blank cs
      → Served blank drop_first l cs
  unfolding Served on_linked on_list pop_front
  drop_first-Served l blank [] h = (l, [], rw (is_empty-null l blank [] h) refl, refl, h)
  drop_first-Served l blank ((a, v) ∷ cs) h =
      let (l', run, holds, _, _) = erase-Holds l blank [] a v cs h in
      (
        l',
        cs,
        rw (is_empty-null l blank ((a, v) ∷ cs) h, begin-first l blank ((a, v) ∷ cs) h, run) refl,
        refl,
        holds,
      )

  module _ (l : LinkedList T) (blank : T) (xs : Cells T) (b : ℕ) (w : T) where
    -- The list ends with the node `b`.
    before_end : Holds l blank (xs ++ (b, w) ∷ []) → l.heap l.tail ≡ node blank none (some b)
    before_end h =
        tail-at l blank (xs ++ (b, w) ∷ []) h
        ∙ ap (node blank none) (last-snoc (some l.head) xs b w)

    last-at :
        Holds l blank (xs ++ (b, w) ∷ []) → l.heap b ≡ node w (some l.tail) (last (some l.head) xs)
    unfolding Holds Linked
    last-at h =
        (Seg-middle l.heap none ((l.head, blank) ∷ xs) b w ((l.tail, blank) ∷ []) none (
          subst (λ cs. Seg l.heap none ((l.head, blank) ∷ cs) none)
            (append_assoc xs ((b, w) ∷ []) ((l.tail, blank) ∷ [])) h.0)).0

    drop_last-snoc :
        Holds l blank (xs ++ (b, w) ∷ [])
        → null (values (xs ++ (b, w) ∷ [])) ≡ false
        → Served blank drop_last l (xs ++ (b, w) ∷ [])
    unfolding Served on_linked on_list pop_back decrement or_stay end
    drop_last-snoc h some_node =
        let (l', run, holds, _, _) = erase-Holds l blank xs b w [] h in
        (
          l',
          xs,
          rw
              (
                is_empty-null l blank (xs ++ (b, w) ∷ []) h,
                some_node,
                at-some l.heap l.tail _ (before_end h),
                run,
              )
              refl,
          sym (ap all_but_last (values-append xs ((b, w) ∷ [])) ∙ all_but_last-snoc (values xs) w),
          subst (Holds l' blank) (append-nil xs) holds,
        )

    ask_last-snoc : Holds l blank (xs ++ (b, w) ∷ []) → Served blank ask_last l (xs ++ (b, w) ∷ [])
    unfolding Served on_linked on_list back
    ask_last-snoc h =
        let value_last : last_or blank (values (xs ++ (b, w) ∷ [])) ≡ w =
          ap (last_or blank) (values-append xs ((b, w) ∷ [])) ∙ last_or-snoc blank (values xs) w in
        (
          l,
          xs ++ (b, w) ∷ [],
          rw (at-some l.heap l.tail _ (before_end h), at-some l.heap b _ (last-at h), value_last)
              refl,
          refl,
          h,
        )

  pub drop_last-Served :
      (l : LinkedList T) (blank : T) (cs : Cells T) → Holds l blank cs → Served blank drop_last l cs
  unfolding Served on_linked on_list pop_back
  drop_last-Served l blank [] h = (l, [], rw (is_empty-null l blank [] h) refl, refl, h)
  drop_last-Served l blank (c ∷ cs) h =
      let (xs, b, w, e) = snoc c cs in
      subst (Served blank drop_last l) (sym e) (
        drop_last-snoc l blank xs b w (subst (Holds l blank) e h)
          (ap (λ cs. null (values cs)) (sym e)))

  pub ask_last-Served :
      (l : LinkedList T) (blank : T) (cs : Cells T) → Holds l blank cs → Served blank ask_last l cs
  unfolding Served on_linked on_list back
  ask_last-Served l blank [] h = (
    l,
    [],
    rw
        (
          at-some l.heap l.tail _ (tail-at l blank [] h),
          at-some l.heap l.head _ (head-at l blank [] h),
        )
        refl,
    refl,
    h,
  )
  ask_last-Served l blank (c ∷ cs) h =
      let (xs, b, w, e) = snoc c cs in
      subst (Served blank ask_last l) (sym e)
        (ask_last-snoc l blank xs b w (subst (Holds l blank) e h))

  first-at :
      (l : LinkedList T) (blank : T) (a : ℕ) (v : T) (cs : Cells T)
      → Holds l blank ((a, v) ∷ cs)
      → l.heap a ≡ node v (first (cs ++ (l.tail, blank) ∷ []) none) (some l.head)
  unfolding Holds Linked
  first-at l blank a v cs h = h.0.2.0

  pub ask_first-Served :
      (l : LinkedList T) (blank : T) (cs : Cells T) → Holds l blank cs → Served blank ask_first l cs
  unfolding Served on_linked on_list front
  ask_first-Served l blank [] h = (
    l,
    [],
    rw
        (
          at-some l.heap l.head _ (head-at l blank [] h),
          at-some l.heap l.tail _ (tail-at l blank [] h),
        )
        refl,
    refl,
    h,
  )
  ask_first-Served l blank ((a, v) ∷ cs) h = (
    l,
    (a, v) ∷ cs,
    rw
        (
          at-some l.heap l.head _ (head-at l blank ((a, v) ∷ cs) h),
          at-some l.heap a _ (first-at l blank a v cs h),
        )
        refl,
    refl,
    h,
  )

  pub ask_empty-Served :
      (l : LinkedList T) (blank : T) (cs : Cells T) → Holds l blank cs → Served blank ask_empty l cs
  unfolding Served on_linked on_list
  ask_empty-Served l blank cs h = (l, cs, rw (is_empty-null l blank cs h) refl, refl, h)
