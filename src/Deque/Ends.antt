-- ===== src/Deque/Ends.antt =====
-- basic/STL/mydeque.h: `resize`, the growth of a full deque, and whole runs against the list.
use c_study.Prelude.{
  ℕ, zero, suc, ◌+◌, ◌-◌, ◌*◌, ◌^◌, ◌≤◌, ◌<◌, ◌≡◌, refl, ◌∙◌, ap, sym, false, List, [], ◌∷◌, ◌++◌,
  ◌==◌, ltb, length, get_elem?, set, replicate, length-replicate, length-set, arith, dec_lt, inl,
  inr, Bool-cases, get_elem?-set_ne, ==_iff,
}
use c_study.Prelude.Run.{ok, fault, bad_access, ◌>>=◌, Returns}
use c_study.Deque.{
  Deque, rem_size, write, put_back, pop_front, resize, copy, grow, push_front, push_back, add_size,
  mul_size,
}
use c_study.Deque.Inv.{
  wrap, rem_size_lem, Holds, get_elem?-some, get_elem?-set_at, write_lem, read_lem,
}
use c_study.Deque.Ops.{put_front-Holds, put_back-Holds}

module _ {ℓ} {T : Type ℓ} (blank : T) where
  -- The loop copies the elements from the round of `i` on.
  copy-Holds :
      {d : Deque T} (xs : List T)
      → Holds d xs
      → (n i : ℕ) (b : List T) → i + n ≡ d.count
      → d.count ≤ length b
      → ((j : ℕ) → j < i → get_elem? b j ≡ get_elem? xs j)
      → Returns
          (copy blank d n i b)
          λ b'. (length b' ≡ length b) × ((j : ℕ) → j < d.count → get_elem? b' j ≡ get_elem? xs j)
  unfolding copy
  copy-Holds {d} xs h zero i b e fits done = (b, refl, (refl, λ j lt. done j (omega arith)))
  copy-Holds {d} xs h (suc n) i b e fits done =
      let k = h.valid in
      let (x, at_i) = get_elem?-some xs i (omega (arith, h.len)) in
      let slot : rem_size (add_size d.front_idx i) d.capacity
          ≡ ok (wrap d.capacity (d.front_idx + i)) =
        ground (arith, rem_size_lem (add_size d.front_idx i) d.capacity (omega arith)) in
      let (b', run, (len, all)) =
        copy-Holds xs h n (i + 1) (set b i x) (omega arith) (omega (arith, length-set b i x))
          (λ j lt. elim (dec_lt j i) [
            | yes p ↦ get_elem?-set_ne b x (λ (q : i ≡ j). absurd (omega arith)) ∙ done j p
            | no p ↦
                let same : j ≡ i = omega arith in
                get_elem?-set_at b i j x (omega arith) same
                ∙ sym at_i
                ∙ ap (get_elem? xs) (sym same)
          ]) in
      (
        b',
        rw
            (
              slot,
              ◌>>=◌,
              read_lem d.buffer _ x (h.at i (omega arith) ∙ at_i),
              write_lem b i x (omega arith),
            )
            run,
        (len ∙ length-set b i x, all),
      )

  pub resize-Holds :
      {d : Deque T} (xs : List T) (new_cap : ℕ)
      → Holds d xs
      → d.count < new_cap
      → new_cap ≤ 2 ^ 62
      → Returns
          (resize blank new_cap d)
          λ d'. Holds d' xs × (d'.capacity ≡ new_cap) × (d'.count ≡ d.count)
  unfolding resize
  resize-Holds {d} xs new_cap h more small =
      let (b, run, (len, all)) =
        copy-Holds xs h d.count 0 (replicate new_cap blank) (omega arith)
          (omega (arith, length-replicate new_cap blank)) (λ j lt. elim lt [ ]) in
      (
        record {
          buffer = b;
          capacity = new_cap;
          count = d.count;
          front_idx = 0;
          back_idx = d.count;
        },
        rw run,
        (
          record {
            valid = ground (arith, length-replicate new_cap blank);
            len = h.len;
            at = λ i lt.
                ap (get_elem? b) (let e : wrap new_cap (0 + i) ≡ i = ground arith in e) ∙ all i lt;
          },
          refl,
          refl,
        ),
      )

  pub grow-Holds :
      {d : Deque T} (xs : List T)
      → Holds d xs
      → length xs ≤ 2 ^ 61
      → Returns (grow blank d) λ d'. Holds d' xs × (d'.count < d'.capacity) × (d'.count ≡ d.count)
  unfolding grow
  grow-Holds {d} xs h small = elim (Bool-cases (d.count == d.capacity)) [
    | inr roomy ↦ (
      d,
      rw roomy,
      (h, (let k = h.valid in let lt : d.count < d.capacity = ground arith in lt), refl),
    )
    | inl full ↦
        let k = h.valid in
        let e : d.count ≡ d.capacity = (==_iff _ _).0 full in
        let twice : mul_size d.capacity 2 ≡ d.capacity * 2 = omega (arith, h.len) in
        let (d', run, (holds, cap, same)) =
          resize-Holds xs (d.capacity * 2) h (omega arith) (omega (arith, h.len)) in
        let start : grow blank d ≡ resize blank (d.capacity * 2) d = rw (full, twice) in
        (d', start ∙ run, (holds, omega arith, same))
  ]

  pub push_back-Holds :
      (v : T) {d : Deque T} (xs : List T)
      → Holds d xs
      → length xs ≤ 2 ^ 61
      → Returns (push_back blank v d) (λ d'. Holds d' (xs ++ v ∷ []))
  unfolding push_back
  push_back-Holds v xs h small =
      let (grown, run, (holds, room, _)) = grow-Holds xs h small in
      let (d', run', result) = put_back-Holds v xs holds room in (d', rw run run', result)

  pub push_front-Holds :
      (v : T) {d : Deque T} (xs : List T)
      → Holds d xs
      → length xs ≤ 2 ^ 61
      → Returns (push_front blank v d) (λ d'. Holds d' (v ∷ xs))
  unfolding push_front
  push_front-Holds v xs h small =
      let (grown, run, (holds, room, _)) = grow-Holds xs h small in
      let (d', run', result) = put_front-Holds v xs holds room in (d', rw run run', result)

  -- A client that resizes a deque to exactly its number of elements, drops one and appends one
  -- writes outside the new storage: `back_idx` is left at the capacity.
  resize_exact-push_back :
      (v : T) {d : Deque T} (xs : List T)
      → Holds d xs
      → 0 < d.count
      → (resize blank d.count d >>= pop_front >>= push_back blank v) ≡ fault bad_access
  unfolding resize pop_front push_back grow put_back write
  resize_exact-push_back v {d} xs h pos =
      let k = h.valid in
      let (b, run, (len, all)) =
        copy-Holds xs h d.count 0 (replicate d.count blank) (omega arith)
          (omega (arith, length-replicate d.count blank)) (λ j lt. elim lt [ ]) in
      let some_left : (d.count == 0) ≡ false = ground arith in
      let next : rem_size (add_size 0 1) d.count ≡ ok (wrap d.count 1) =
        ground (arith, rem_size_lem (add_size 0 1) d.count (omega arith)) in
      let roomy : (d.count - 1 == d.count) ≡ false = ground arith in
      let outside : ltb d.count (length b) ≡ false =
        ground (arith, length-replicate d.count blank) in
      rw (run, ◌>>=◌, some_left, next, roomy, outside)
