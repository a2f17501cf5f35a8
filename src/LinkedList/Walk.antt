-- ===== src/LinkedList/Walk.antt =====
-- basic/STL/myList.h: the loops of `print` and `clear`.
use c_study.Prelude.{
  ℕ, zero, suc, ◌<◌, ◌≡◌, refl, sym, ap, ◌∙◌, List, [], ◌∷◌, ◌++◌, Option, none, some, true, false,
  ◌==◌, arith, subst, append_assoc, append-nil, length,
}
use c_study.Prelude.Run.{ok}
use c_study.LinkedList.{
  Node, Heap, LinkedList, update, set_next, set_prev, free, same, clear_loop, relink, clear_from,
  clear, print_loop, print_from, print,
}
use c_study.LinkedList.Chain.{
  Cells, NotIn, Same, first, node, Seg, Seg-frame, Seg-Apart, Seg-middle, Apart-head, NotIn-append,
  NotIn-middle,
}
use c_study.LinkedList.Writes.{at-some, update-at, update-off, set_next-ok, set_prev-ok}
use c_study.LinkedList.Edit.{Linked, Holds, Below-append}
use c_study.LinkedList.Calls.{values}
use c_study.LinkedList.Ends.{begin-first}

module _ {ℓ} {T : Type ℓ} where
  first_end :
      (cs : Cells T) (tail : ℕ) (blank : T)
      → first cs (some tail) ≡ first (cs ++ (tail, blank) ∷ []) none
  first_end [] tail blank = refl
  first_end (c ∷ cs) tail blank = refl

  print_loop-values :
      (fuel : ℕ) (h : Heap T) (p : Option ℕ) (tail : ℕ) (blank : T) (cs : Cells T) (out : List T)
      → Seg h p (cs ++ (tail, blank) ∷ []) none
      → length cs < fuel
      → print_loop fuel h tail (first cs (some tail)) out ≡ some (ok (out ++ values cs))
  unfolding print_loop same
  print_loop-values zero h p tail blank cs out s few = absurd (omega arith)
  print_loop-values (suc fuel) h p tail blank [] out s few =
      let here : (tail == tail) ≡ true = ground arith in
      rw (print_loop, here) (ap (λ xs. some (ok xs)) (sym (append-nil out)))
  print_loop-values (suc fuel) h p tail blank ((a, v) ∷ cs) out s few =
      let away = (NotIn-middle a cs tail blank [] s.1).0 in
      rw (print_loop, away, at-some h a _ s.0)
        (subst (λ q. print_loop fuel h tail q (out ++ v ∷ []) ≡ some (ok (out ++ v ∷ values cs)))
          (first_end cs tail blank)
          (print_loop-values fuel h (some a) tail blank cs (out ++ v ∷ []) s.2 (omega arith)
            ∙ ap (λ xs. some (ok xs)) (append_assoc out (v ∷ []) (values cs))))

  -- `print` ends and writes the values in order, each once. One round for each node and one more is enough
  -- fuel.
  pub print-values :
      (l : LinkedList T) (blank : T) (cs : Cells T) (fuel : ℕ)
      → Holds l blank cs
      → length cs < fuel
      → print fuel l ≡ some (ok (values cs))
  unfolding print print_from Holds Linked
  print-values l blank cs fuel h few =
      rw (begin-first l blank cs h, print_from)
        (print_loop-values fuel l.heap (some l.head) l.tail blank cs [] h.0.2 few)

  abbrev pub Freed : Heap T → Cells T → Type ℓ
  Freed h [] = Unit
  Freed h ((a, _) ∷ cs) = (h a ≡ none) × Freed h cs

  Same-update :
      (h : Heap T) (a : ℕ) (c : Option (Node T)) (cs : Cells T)
      → NotIn a cs
      → Same h (update h a c) cs
  Same-update h a c [] out = tt
  Same-update h a c ((b, v) ∷ cs) out =
      (update-off h a b c (ground arith), Same-update h a c cs out.1)

  Freed-Same : (h g : Heap T) (cs : Cells T) → Same h g cs → Freed h cs → Freed g cs
  Freed-Same h g [] same gone = tt
  Freed-Same h g (c ∷ cs) same gone = (same.0 ∙ gone.0, Freed-Same h g cs same.1 gone.1)

  clear_loop-Freed :
      (fuel : ℕ) (h : Heap T) (p : Option ℕ) (tail : ℕ) (blank : T) (cs : Cells T)
      → Seg h p (cs ++ (tail, blank) ∷ []) none
      → length cs < fuel
      → (g : Heap T) × (clear_loop fuel h tail (first cs (some tail)) ≡ some (ok g))
        × Freed g cs
        × ((x : ℕ) → NotIn x cs → g x ≡ h x)
  unfolding clear_loop same free
  clear_loop-Freed zero h p tail blank cs s few = absurd (omega arith)
  clear_loop-Freed (suc fuel) h p tail blank [] s few =
      let here : (tail == tail) ≡ true = ground arith in
      (h, rw (clear_loop, here) refl, tt, λ x out. refl)
  clear_loop-Freed (suc fuel) h p tail blank ((a, v) ∷ cs) s few =
      let (away, _) = NotIn-middle a cs tail blank [] s.1 in
      let h' : Heap T = update h a none in
      let s' =
        Seg-frame h h' (some a) (cs ++ (tail, blank) ∷ []) none
          (Same-update h a none (cs ++ (tail, blank) ∷ []) s.1) s.2 in
      let (g, run, gone, rest) = clear_loop-Freed fuel h' (some a) tail blank cs s' (omega arith) in
      (
        g,
        rw (clear_loop, away, at-some h a _ s.0)
            (subst (λ q. clear_loop fuel h' tail q ≡ some (ok g)) (first_end cs tail blank) run),
        (rest a (NotIn-append a cs ((tail, blank) ∷ []) s.1).0 ∙ update-at h a none, gone),
        λ x out. rest x out.1 ∙ update-off h a x none out.0,
      )

  -- `clear` ends with a list that holds nothing, and every node that it held is freed. One round for each node
  -- and one more is enough fuel.
  pub clear-Holds :
      (l : LinkedList T) (blank : T) (cs : Cells T) (fuel : ℕ)
      → Holds l blank cs
      → length cs < fuel
      → (l' : LinkedList T) × (clear fuel l ≡ some (ok l')) × Holds l' blank [] × Freed l'.heap cs
  unfolding clear clear_from relink Holds Linked
  clear-Holds l blank cs fuel h few =
      let (seg, below) = h in
      let (g, run, gone, rest) =
        clear_loop-Freed fuel l.heap (some l.head) l.tail blank cs seg.2 few in
      let apart = Seg-Apart l.heap none ((l.head, blank) ∷ cs) ((l.tail, blank) ∷ []) none seg in
      let (head_out, _) = NotIn-append l.head cs ((l.tail, blank) ∷ []) seg.1 in
      let tail_out = Apart-head ((l.head, blank) ∷ cs) l.tail blank [] apart in
      let g₁ : Heap T = update g l.head (node blank (some l.tail) none) in
      let g₂ : Heap T = update g₁ l.tail (node blank none (some l.head)) in
      let step₁ : set_next g (some l.head) (some l.tail) ≡ ok g₁ =
        set_next-ok g l.head _ (some l.tail) (rest l.head head_out ∙ seg.0) in
      let step₂ : set_prev g₁ (some l.tail) (some l.head) ≡ ok g₂ =
        set_prev-ok g₁ l.tail _ (some l.head) (
          update-off g l.head l.tail _ tail_out.0
          ∙ rest l.tail tail_out.1
          ∙ (Seg-middle l.heap none ((l.head, blank) ∷ cs) l.tail blank [] none seg).0) in
      let apart' : (l.head == l.tail) ≡ false = ground arith in
      (
        record l { heap = g₂ },
        rw (begin-first l blank cs h, clear_from, run, step₁, step₂) refl,
        (
          (
            update-off g₁ l.tail l.head _ apart' ∙ update-at g l.head _,
            (apart', tt),
            (update-at g₁ l.tail _, tt, tt),
          ),
          (below.0, (Below-append l.fresh cs ((l.tail, blank) ∷ []) below.1).1),
        ),
        Freed-Same g₁ g₂ cs (Same-update g₁ l.tail _ cs tail_out.1)
            (Freed-Same g g₁ cs (Same-update g l.head _ cs head_out) gone),
      )
