-- ===== src/Deque/Ops.antt =====
-- basic/STL/mydeque.h: the pushes and pops against the list that the deque holds.
use c_study.Prelude.{
  ℕ, zero, suc, ◌+◌, ◌-◌, ◌<◌, ◌≡◌, refl, ◌∙◌, ap, false, List, [], ◌∷◌, ◌++◌, some, ◌==◌,
  if◌then◌else◌, length, get_elem?, set, length-set, length-append, arith, get_elem?-set_ne, sym,
  dec_lt,
}
use c_study.Prelude.Run.{ok, ◌>>=◌, Returns}
use c_study.Deque.{
  Deque, rem_size, put_front, put_back, pop_front, pop_back, is_empty, front, back, deref, add_size,
  sub_size, last_idx,
}
use c_study.Deque.Inv.{
  wrap, rem_size_lem, Holds, get_elem?-some, get_elem?-append_left, get_elem?-append_last,
  get_elem?-set_at, write_lem, wrap-ne, wrap-lt, read_lem,
}

module _ {ℓ} {T : Type ℓ} where
  pub put_back-Holds :
      (v : T) {d : Deque T} (xs : List T)
      → Holds d xs
      → d.count < d.capacity
      → Returns (put_back v d) (λ d'. Holds d' (xs ++ v ∷ []))
  unfolding put_back
  put_back-Holds v {d} xs h room =
      let k = h.valid in
      let b = d.back_idx in
      let n = d.capacity in
      let inside : b < length d.buffer = ground (arith, wrap-lt n (d.front_idx + d.count)) in
      (
        record d { buffer = set d.buffer b v; back_idx = wrap n (b + 1); count = d.count + 1 },
        (let plus : add_size d.count 1 ≡ d.count + 1 = omega arith in
            let next : rem_size (add_size b 1) n ≡ ok (wrap n (b + 1)) =
              ground (arith, rem_size_lem (add_size b 1) n (ground arith)) in
            rw (write_lem d.buffer b v inside, next, plus)),
        record {
          valid = ground (arith, length-set d.buffer b v);
          len = omega (arith, length-append xs (v ∷ []), h.len);
          at = λ i lt. elim (dec_lt i d.count) [
            | yes p ↦
                get_elem?-set_ne d.buffer v
                  (λ e. wrap-ne n d.front_idx i d.count k.front_in p room (sym k.back_at ∙ e))
                ∙ h.at i p
                ∙ sym (get_elem?-append_left xs (v ∷ []) i (omega (arith, h.len)))
            | no p ↦
                get_elem?-set_at d.buffer b _ v inside
                  (ap (λ t. wrap n (d.front_idx + t)) (omega arith) ∙ sym k.back_at)
                ∙ sym (get_elem?-append_last xs v i (omega (arith, h.len)))
          ];
        },
      )

  -- `(front_idx - 1 + capacity) % capacity`
  abbrev pub before : Deque T → ℕ
  before d = if d.front_idx == 0 then d.capacity - 1 else d.front_idx - 1

  pub put_front-Holds :
      (v : T) {d : Deque T} (xs : List T)
      → Holds d xs
      → d.count < d.capacity
      → Returns (put_front v d) (λ d'. Holds d' (v ∷ xs))
  unfolding put_front
  put_front-Holds v {d} xs h room =
      let k = h.valid in
      let inside : f < length d.buffer = ground arith in
      (
        record d { buffer = set d.buffer f v; front_idx = f; count = d.count + 1 },
        (let plus : add_size d.count 1 ≡ d.count + 1 = omega arith in
            let prev : rem_size (add_size (sub_size d.front_idx 1) n) n ≡ ok f =
              ground (arith, rem_size_lem (add_size (sub_size d.front_idx 1) n) n (ground arith)) in
            rw (prev, write_lem d.buffer f v inside, plus)),
        record {
          valid = ground (arith, length-set d.buffer f v);
          len = omega (arith, h.len);
          at = slots;
        },
      )
    where
      f : ℕ
      f = before d

      n : ℕ
      n = d.capacity

      slots :
          (i : ℕ)
          → i < d.count + 1
          → get_elem? (set d.buffer f v) (wrap n (f + i)) ≡ get_elem? (v ∷ xs) i
      slots zero lt = get_elem?-set_at d.buffer f _ v (ground arith) (ground arith)
      slots (suc i) lt =
          get_elem?-set_ne d.buffer v (ground arith)
          ∙ ap (get_elem? d.buffer) (ground arith)
          ∙ h.at i (omega arith)

  pub pop_front-Holds :
      {d : Deque T} (x : T) (xs : List T)
      → Holds d (x ∷ xs)
      → Returns (pop_front d) (λ d'. Holds d' xs)
  unfolding pop_front
  pop_front-Holds {d} x xs h =
      let k = h.valid in
      let n = d.capacity in
      let f = wrap n (d.front_idx + 1) in
      let some_left : (d.count == 0) ≡ false = ground (arith, h.len) in
      let next : rem_size (add_size d.front_idx 1) n ≡ ok f =
        ground (arith, rem_size_lem (add_size d.front_idx 1) n (omega arith)) in
      (
        record d { front_idx = f; count = d.count - 1 },
        rw (some_left, next),
        record {
          valid = ground (arith, h.len);
          len = omega (arith, h.len);
          at = λ i lt.
              ap (get_elem? d.buffer)
                (let e : wrap n (f + i) ≡ wrap n (d.front_idx + suc i) = ground arith in e)
              ∙ h.at (suc i) (omega arith);
        },
      )

  pub pop_back-Holds :
      {d : Deque T} (xs : List T) (x : T)
      → Holds d (xs ++ x ∷ [])
      → Returns (pop_back d) (λ d'. Holds d' xs)
  unfolding pop_back
  pop_back-Holds {d} xs x h =
      let k = h.valid in
      let n = d.capacity in
      let size : length xs + 1 ≡ d.count = omega (arith, h.len, length-append xs (x ∷ [])) in
      let some_left : (d.count == 0) ≡ false = ground arith in
      (
        record d { back_idx = last_idx d; count = d.count - 1 },
        rw some_left,
        record {
          valid = ground arith;
          len = omega arith;
          at = λ i lt. h.at i (omega arith) ∙ get_elem?-append_left xs (x ∷ []) i (omega arith);
        },
      )

  pub front_lem : {d : Deque T} (x : T) (xs : List T) → Holds d (x ∷ xs) → front d ≡ ok x
  unfolding front is_empty
  front_lem {d} x xs h =
      let k = h.valid in
      let some_left : (d.count == 0) ≡ false = ground (arith, h.len) in
      let here : d.front_idx ≡ wrap d.capacity (d.front_idx + 0) = ground arith in
      rw (
        some_left,
        read_lem d.buffer d.front_idx x
            (ap (get_elem? d.buffer) here ∙ h.at 0 (omega (arith, h.len))),
      )

  pub back_lem : {d : Deque T} (xs : List T) (x : T) → Holds d (xs ++ x ∷ []) → back d ≡ ok x
  unfolding back is_empty
  back_lem {d} xs x h =
      let k = h.valid in
      let size : length xs + 1 ≡ d.count = omega (arith, h.len, length-append xs (x ∷ [])) in
      let some_left : (d.count == 0) ≡ false = ground arith in
      let here : last_idx d ≡ wrap d.capacity (d.front_idx + length xs) = ground arith in
      rw (
        some_left,
        read_lem d.buffer (last_idx d) x (
            ap (get_elem? d.buffer) here
            ∙ h.at (length xs) (omega arith)
            ∙ get_elem?-append_last xs x (length xs) refl),
      )

  pub deref_lem :
      {d : Deque T} (xs : List T) (pos : ℕ)
      → Holds d xs
      → pos < d.count
      → Returns (deref d pos) (λ x. get_elem? xs pos ≡ some x)
  unfolding deref
  deref_lem {d} xs pos h lt =
      let k = h.valid in
      let (x, e) = get_elem?-some xs pos (omega (arith, h.len)) in
      let slot : rem_size (add_size d.front_idx pos) d.capacity
          ≡ ok (wrap d.capacity (d.front_idx + pos)) =
        ground (arith, rem_size_lem (add_size d.front_idx pos) d.capacity (omega arith)) in
      (x, rw (slot, ◌>>=◌, read_lem d.buffer _ x (h.at pos lt ∙ e)), e)
