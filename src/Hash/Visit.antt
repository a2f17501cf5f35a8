-- ===== src/Hash/Visit.antt =====
-- basic/STL/hashmap.h: a loop over the whole map visits every node once.
use c_study.Prelude.{
  ℕ, zero, suc, ◌+◌, ◌-◌, ◌<◌, ◌≡◌, refl, sym, ap, ◌∙◌, List, [], ◌∷◌, ◌++◌, Option, none, some,
  true, false, ◌==◌, arith, length, length-append, append_assoc, append-nil,
}
use c_study.Prelude.Run.{Run, ok, fault}
use c_study.Hash.{Chain, HashMap, at, size}
use c_study.Hash.Iter.{
  Iterator, iterator, end, begin_loop, begin, bucket_at, next_bucket, next_node, advance,
  deref_chain, deref, is_null, at_end,
}
use c_study.Hash.Table.{total, IsValid}

module _ {K V : Type 0} where
  -- The nodes, bucket by bucket.
  unfoldable pub entries : List (Chain K V) → List (K × V)
  entries [] = []
  entries (c ∷ cs) = c ++ entries cs

  -- `for (auto it = m.begin(); it != m.end(); ++it)`, which collects `*it`, with fuel.
  unfoldable pub visit :
      HashMap K V → ℕ → Run (Iterator K V) → List (K × V) → Option (Run (List (K × V)))
  visit m zero it out = none
  visit m (suc fuel) (fault f) out = some (fault f)
  visit m (suc fuel) (ok it) out = elim (at_end m it) [
    | true ↦ some (ok out)
    | false ↦ elim (deref it) [
      | fault f ↦ some (fault f)
      | ok e ↦ visit m fuel (advance m it) (out ++ e ∷ [])
    ]
  ]

  -- The first node of the buckets `cs`, of which the first has index `i`.
  from : ℕ → List (Chain K V) → Iterator K V
  from i [] = iterator i []
  from i ([] ∷ cs) = from (i + 1) cs
  from i ((e ∷ t) ∷ cs) = iterator i (e ∷ t)

  at-length :
      (pre : List (Chain K V)) (c : Chain K V) (post : List (Chain K V))
      → at (pre ++ c ∷ post) (length pre) ≡ ok c
  unfolding at
  at-length [] c post = refl
  at-length (b ∷ pre) c post = at-length pre c post

  -- The map has these buckets, of which the first `i` are `pre`.
  Split : HashMap K V → List (Chain K V) → ℕ → List (Chain K V) → Type 0
  Split m pre i post =
      (m.bucket ≡ pre ++ post) × (length pre ≡ i) × (i + length post ≡ m.bucket_count)

  Split-next :
      (m : HashMap K V) (pre : List (Chain K V)) (i : ℕ) (c : Chain K V) (post : List (Chain K V))
      → Split m pre i (c ∷ post)
      → Split m (pre ++ c ∷ []) (i + 1) post
  unfolding Split
  Split-next m pre i c post (e, len, all) = (
    e ∙ sym (append_assoc pre (c ∷ []) post),
    omega (arith, length-append pre (c ∷ [])),
    omega arith,
  )

  at-Split :
      (m : HashMap K V) (pre : List (Chain K V)) (i : ℕ) (c : Chain K V) (post : List (Chain K V))
      → Split m pre i (c ∷ post)
      → at m.bucket i ≡ ok c
  unfolding Split
  at-Split m pre i c post (e, len, all) = rw (e, sym len) (at-length pre c post)

  begin_loop-from :
      (m : HashMap K V) (pre : List (Chain K V)) (i : ℕ) (cs : List (Chain K V))
      → Split m pre i cs
      → begin_loop m (length cs) i ≡ ok (from i cs)
  unfolding begin_loop from end Split
  begin_loop-from m pre i [] s = ap (λ n. ok (iterator n [])) (omega arith)
  begin_loop-from m pre i ([] ∷ cs) s =
      rw (at-Split m pre i [] cs s)
        (begin_loop-from m (pre ++ [] ∷ []) (i + 1) cs (Split-next m pre i [] cs s))
  begin_loop-from m pre i ((e ∷ t) ∷ cs) s = rw (at-Split m pre i (e ∷ t) cs s) refl

  next_bucket-from :
      (m : HashMap K V) (pre : List (Chain K V)) (i : ℕ) (c : Chain K V) (cs : List (Chain K V))
      → Split m pre i (c ∷ cs)
      → next_bucket m (length (c ∷ cs)) i [] ≡ ok (from (i + 1) cs)
  unfolding next_bucket bucket_at from Split
  next_bucket-from m pre i c [] s =
      let last : (i + 1 == m.bucket_count) ≡ true = ground arith in rw (last, next_bucket) refl
  next_bucket-from m pre i c ([] ∷ cs) s =
      let more : (i + 1 == m.bucket_count) ≡ false = ground arith in
      let s' = Split-next m pre i c ([] ∷ cs) s in
      rw (more, at-Split m (pre ++ c ∷ []) (i + 1) [] cs s')
        (next_bucket-from m (pre ++ c ∷ []) (i + 1) [] cs s')
  next_bucket-from m pre i c ((e ∷ t) ∷ cs) s =
      let more : (i + 1 == m.bucket_count) ≡ false = ground arith in
      let s' = Split-next m pre i c ((e ∷ t) ∷ cs) s in
      rw (more, at-Split m (pre ++ c ∷ []) (i + 1) (e ∷ t) cs s', next_bucket) refl

  -- What the loop does from the first node of the buckets `cs` on, and from a node of a bucket on.
  VisitsFrom : HashMap K V → ℕ → Type 0
  VisitsFrom m fuel =
      (pre : List (Chain K V)) (i : ℕ) (cs : List (Chain K V)) (out : List (K × V))
      → Split m pre i cs
      → length (entries cs) < fuel
      → visit m fuel (ok (from i cs)) out ≡ some (ok (out ++ entries cs))

  VisitsInside : HashMap K V → ℕ → Type 0
  VisitsInside m fuel =
      (pre : List (Chain K V)) (i : ℕ) (c : Chain K V) (e : K × V) (t : Chain K V)
      (cs : List (Chain K V)) (out : List (K × V))
      → Split m pre i (c ∷ cs)
      → suc (length t) + length (entries cs) < fuel
      → visit m fuel (ok (iterator i (e ∷ t))) out ≡ some (ok (out ++ (e ∷ (t ++ entries cs))))

  none_left : (m : HashMap K V) → VisitsInside m zero
  unfolding VisitsInside
  none_left m pre i c e t cs out s few = absurd (omega arith)

  visit-end :
      (m : HashMap K V) (fuel i : ℕ) (out : List (K × V))
      → i ≡ m.bucket_count
      → visit m (suc fuel) (ok (iterator i [])) out ≡ some (ok out)
  unfolding visit at_end is_null
  visit-end m fuel i out e =
      let last : (i == m.bucket_count) ≡ true = ground arith in rw (visit, last) refl

  inside_not_end :
      (m : HashMap K V) (i : ℕ) (e : K × V) (t : Chain K V) → at_end m (iterator i (e ∷ t)) ≡ false
  unfolding at_end is_null
  inside_not_end m i e t = ground arith

  visit-node :
      (m : HashMap K V) (fuel i : ℕ) (e : K × V) (t : Chain K V) (out : List (K × V))
      → visit m (suc fuel) (ok (iterator i (e ∷ t))) out
        ≡ visit m fuel (advance m (iterator i (e ∷ t))) (out ++ e ∷ [])
  unfolding visit deref deref_chain
  visit-node m fuel i e t out = rw (visit, inside_not_end m i e t) refl

  advance-node :
      (m : HashMap K V) (i : ℕ) (e e' : K × V) (t : Chain K V)
      → advance m (iterator i (e ∷ e' ∷ t)) ≡ ok (iterator i (e' ∷ t))
  unfolding advance next_node next_bucket
  advance-node m i e e' t = refl

  visits_from : (m : HashMap K V) (fuel : ℕ) → VisitsInside m fuel → VisitsFrom m fuel
  unfolding VisitsFrom VisitsInside entries from Split
  visits_from m zero inside pre i [] out s few = absurd (omega arith)
  visits_from m (suc fuel) inside pre i [] out s few =
      visit-end m fuel i out (omega arith) ∙ ap (λ xs. some (ok xs)) (sym (append-nil out))
  visits_from m fuel inside pre i ([] ∷ cs) out s few =
      visits_from m fuel inside (pre ++ [] ∷ []) (i + 1) cs out (Split-next m pre i [] cs s) few
  visits_from m fuel inside pre i ((e ∷ t) ∷ cs) out s few =
      inside pre i (e ∷ t) e t cs out s (omega (arith, length-append t (entries cs)))

  advance-last :
      (m : HashMap K V) (pre : List (Chain K V)) (i : ℕ) (c : Chain K V) (e : K × V)
      (cs : List (Chain K V))
      → Split m pre i (c ∷ cs)
      → advance m (iterator i (e ∷ [])) ≡ ok (from (i + 1) cs)
  unfolding advance next_node Split
  advance-last m pre i c e cs s =
      let left : m.bucket_count - i ≡ length (c ∷ cs) = omega arith in
      ap (λ n. next_bucket m n i []) left ∙ next_bucket-from m pre i c cs s

  VisitsInside-step :
      (m : HashMap K V) (fuel : ℕ)
      → VisitsFrom m fuel
      → VisitsInside m fuel
      → VisitsInside m (suc fuel)
  unfolding VisitsFrom VisitsInside
  VisitsInside-step m fuel outer inside pre i c e (e' ∷ t) cs out s few =
      visit-node m fuel i e (e' ∷ t) out
      ∙ ap (λ it. visit m fuel it (out ++ e ∷ [])) (advance-node m i e e' t)
      ∙ inside pre i c e' t cs (out ++ e ∷ []) s (omega arith)
      ∙ ap (λ xs. some (ok xs)) (append_assoc out (e ∷ []) (e' ∷ (t ++ entries cs)))
  VisitsInside-step m fuel outer inside pre i c e [] cs out s few =
      visit-node m fuel i e [] out
      ∙ ap (λ it. visit m fuel it (out ++ e ∷ [])) (advance-last m pre i c e cs s)
      ∙ outer (pre ++ c ∷ []) (i + 1) cs (out ++ e ∷ []) (Split-next m pre i c cs s) (omega arith)
      ∙ ap (λ xs. some (ok xs)) (append_assoc out (e ∷ []) (entries cs))

  visits_inside : (m : HashMap K V) (fuel : ℕ) → VisitsInside m fuel
  visits_inside m zero = none_left m
  visits_inside m (suc fuel) =
      VisitsInside-step m fuel (visits_from m fuel (visits_inside m fuel)) (visits_inside m fuel)

  total-entries : (cs : List (Chain K V)) → total cs ≡ length (entries cs)
  unfolding total entries
  total-entries [] = refl
  total-entries (c ∷ cs) = omega (arith, length-append c (entries cs), total-entries cs)

  -- On a valid map a loop from `begin()` to `end()` ends, throws nothing, and visits every node once, bucket
  -- by bucket; and these are as many as `size()` says. One round for each node and one more is
  -- enough fuel.
  pub visit-entries :
      (m : HashMap K V) (fuel : ℕ)
      → IsValid m
      → m.element_count < fuel
      → (visit m fuel (begin m) [] ≡ some (ok (entries m.bucket)))
        × (length (entries m.bucket) ≡ size m)
  unfolding begin Split size VisitsFrom
  visit-entries m fuel v few =
      let s : Split m [] 0 m.bucket = (refl, refl, omega (arith, v.width)) in
      let n = total-entries m.bucket in
      (
        ap (λ it. visit m fuel it [])
              (ap (λ n. begin_loop m n 0) (omega (arith, v.width))
                ∙ begin_loop-from m [] 0 m.bucket s)
            ∙ visits_from m fuel (visits_inside m fuel) [] 0 m.bucket [] s
                (omega (arith, n, v.counted)),
        omega (arith, n, v.counted),
      )
