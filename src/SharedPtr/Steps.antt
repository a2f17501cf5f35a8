-- ===== src/SharedPtr/Steps.antt =====
-- basic/type_ptr/simpleSharedPtr.h: every member keeps the counts right.
use c_study.Prelude.{
  ℕ, zero, suc, ◌+◌, ◌-◌, ◌<◌, ◌≡◌, refl, ap, sym, subst, ◌∙◌, List, [], ◌∷◌, ◌++◌, length, set,
  get_or, length-set, Option, none, some, Bool, true, false, ◌==◌, if◌then◌else◌, arith, Bool-cases,
  inl, inr, ℕ_discrete, ==_iff,
}
use c_study.Prelude.Run.{◌>>=◌, Returns}
use c_study.SharedPtr.{
  Handle, null_handle, Store, handle_at, put, add_ref, release_block, release, new_block, add_slot,
  construct_null, construct, copy_construct, copy_assign, move_construct, move_assign, reset,
  destruct_ptr, destruct,
}
use c_study.SharedPtr.Count.{
  one, refs, refs-set, refs-append, one-le-refs, one_self, get_or-set_ne, get_or-set_eq, set-set,
  count_at_lem, counts-set, counts-append,
}

-- The object and the block of a pointer go together, and each block's count is the number of pointers that
-- share it. A block to which no pointer refers has been deleted, and no pointer refers to a deleted
-- block.
pub record IsCounted (s : Store) : Type 0 where
  pub same : (i : ℕ) → (handle_at s i).ptr ≡ (handle_at s i).control
  pub counted : (b : ℕ) → refs b s.handles ≡ get_or s.counts b 0

add_ref_lem :
    (o : Option ℕ) (s : Store)
    → ((b : ℕ) → o ≡ some b → 0 < get_or s.counts b 0)
    → Returns (add_ref o s) λ t.
      (t.handles ≡ s.handles) × ((b : ℕ) → get_or t.counts b 0 ≡ get_or s.counts b 0 + one b o)
unfolding add_ref
add_ref_lem none s h = (s, refl, (refl, λ b. omega arith))
add_ref_lem (some c) s h =
    let up = get_or s.counts c 0 + 1 in
    (
      record s { counts = set s.counts c up },
      rw (count_at_lem s.counts c (h c refl), ◌>>=◌) refl,
      (refl, λ b. added s.counts c b (h c refl)),
    )
  where
    added :
        (cs : List ℕ) (c b : ℕ)
        → 0 < get_or cs c 0
        → get_or (set cs c (get_or cs c 0 + 1)) b 0 ≡ get_or cs b 0 + one b (some c)
    added cs c b h = ground (arith, counts-set cs c b (get_or cs c 0 + 1) h)

fewer :
    (cs : List ℕ) (c b : ℕ)
    → 0 < get_or cs c 0
    → get_or (set cs c (get_or cs c 0 - 1)) b 0 + one b (some c) ≡ get_or cs b 0
fewer cs c b h = ground (arith, counts-set cs c b (get_or cs c 0 - 1) h)

-- After `release`, as far as the operations see: the slot itself is written next.
abbrev Released : ℕ → Store → Store → Type 0
Released i s t =
    ((h : Handle) → set t.handles i h ≡ set s.handles i h)
    × ((a : ℕ) → ¬ (a ≡ i) → handle_at t a ≡ handle_at s a)
    × ((b : ℕ) → get_or t.counts b 0 + one b (handle_at s i).control ≡ get_or s.counts b 0)

release_block_lem :
    (i : ℕ) (o : Option ℕ) (s : Store)
    → (handle_at s i).control ≡ o
    → ((b : ℕ) → o ≡ some b → 0 < get_or s.counts b 0)
    → Returns (release_block i o s) (Released i s)
unfolding release_block put
release_block_lem i none s e h = (
  s,
  refl,
  (λ h. refl, λ a ne. refl, λ b. ap (λ o. get_or s.counts b 0 + one b o) e ∙ omega arith),
)
release_block_lem i (some c) s e h =
    let found = count_at_lem s.counts c (h c refl) in
    let counts = set s.counts c (get_or s.counts c 0 - 1) in
    let down = λ (b : ℕ). ap (λ o. get_or counts b 0 + one b o) e ∙ fewer s.counts c b (h c refl) in
    elim (Bool-cases (get_or s.counts c 0 - 1 == 0)) [
      | inl last ↦ (
        record { handles = set s.handles i null_handle; counts = counts },
        rw (found, ◌>>=◌, last, if◌then◌else◌) refl,
        (
          λ h. set-set s.handles i null_handle h,
          λ a ne. get_or-set_ne s.handles i a null_handle null_handle ne,
          down,
        ),
      )
      | inr more ↦ (
        record { handles = s.handles; counts = counts },
        rw (found, ◌>>=◌, more, if◌then◌else◌) refl,
        (λ h. refl, λ a ne. refl, down),
      )
    ]

-- A block that a pointer shares has a count above 0.
pub shared :
    (s : Store) (i b : ℕ) → IsCounted s → (handle_at s i).control ≡ some b → 0 < get_or s.counts b 0
shared s i b v e =
    let le = one-le-refs b s.handles i in
    let count = v.counted b in
    let self : one b (handle_at s i).control ≡ 1 = ap (one b) e ∙ one_self b in omega arith

release_lem : (i : ℕ) (s : Store) → IsCounted s → Returns (release i s) (Released i s)
unfolding release
release_lem i s v = release_block_lem i (handle_at s i).control s refl (λ b e. shared s i b v e)

set-same :
    (hs : List Handle) (i : ℕ) (h : Handle)
    → i < length hs
    → h.ptr ≡ h.control
    → ((j : ℕ) → (get_or hs j null_handle).ptr ≡ (get_or hs j null_handle).control)
    → (j : ℕ)
    → (get_or (set hs i h) j null_handle).ptr ≡ (get_or (set hs i h) j null_handle).control
set-same hs i h lt e all j = elim (ℕ_discrete j i) [
  | yes z ↦
      subst
        (λ j. (get_or (set hs i h) j null_handle).ptr ≡ (get_or (set hs i h) j null_handle).control)
        (sym z) (rw (get_or-set_eq hs i h null_handle lt) e)
  | no ne ↦ rw (get_or-set_ne hs i j h null_handle ne) (all j)
]

append-same :
    (hs : List Handle) (h : Handle)
    → h.ptr ≡ h.control
    → ((j : ℕ) → (get_or hs j null_handle).ptr ≡ (get_or hs j null_handle).control)
    → (j : ℕ)
    → (get_or (hs ++ h ∷ []) j null_handle).ptr ≡ (get_or (hs ++ h ∷ []) j null_handle).control
append-same [] h e all zero = e
append-same [] h e all (suc j) = refl
append-same (g ∷ hs) h e all zero = all 0
append-same (g ∷ hs) h e all (suc j) = append-same hs h e (λ j. all (suc j)) j

-- A store whose slot `i` is written after a release, with the new pointer counted.
replace-IsCounted :
    (i : ℕ) (h : Handle) (s t : Store)
    → IsCounted s
    → i < length s.handles
    → h.ptr ≡ h.control
    → t.handles ≡ set s.handles i h
    → ((b : ℕ)
        → get_or t.counts b 0 + one b (handle_at s i).control
          ≡ get_or s.counts b 0 + one b h.control)
    → IsCounted t
replace-IsCounted i h s t v lt e hs cs = record {
  same = λ j.
      subst (λ hs. (get_or hs j null_handle).ptr ≡ (get_or hs j null_handle).control) (sym hs)
        (set-same s.handles i h lt e v.same j);
  counted = λ b.
      let r = refs-set b s.handles i h lt in
      let c = cs b in let k = v.counted b in let z = ap (refs b) hs in omega arith;
}

append-IsCounted :
    (h : Handle) (s t : Store)
    → IsCounted s
    → h.ptr ≡ h.control
    → t.handles ≡ s.handles ++ h ∷ []
    → ((b : ℕ) → get_or t.counts b 0 ≡ get_or s.counts b 0 + one b h.control)
    → IsCounted t
append-IsCounted h s t v e hs cs = record {
  same = λ j.
      subst (λ hs. (get_or hs j null_handle).ptr ≡ (get_or hs j null_handle).control) (sym hs)
        (append-same s.handles h e v.same j);
  counted = λ b.
      let r = refs-append b s.handles h in
      let c = cs b in let k = v.counted b in let z = ap (refs b) hs in omega arith;
}

pub construct_null-IsCounted : (s : Store) → IsCounted s → IsCounted (construct_null s)
unfolding construct_null add_slot
construct_null-IsCounted s v = append-IsCounted null_handle s _ v refl refl (λ b. omega arith)

pub construct-IsCounted : (p : Bool) (s : Store) → IsCounted s → IsCounted (construct p s)
unfolding construct new_block add_slot
construct-IsCounted false s v = append-IsCounted null_handle s _ v refl refl (λ b. omega arith)
construct-IsCounted true s v = append-IsCounted _ s _ v refl refl (λ b. counts-append s.counts b)

pub copy_construct-IsCounted :
    (a : ℕ) (s : Store) → IsCounted s → Returns (copy_construct a s) IsCounted
unfolding copy_construct add_slot
copy_construct-IsCounted a s v =
    let (t, run, (hs, cs)) = add_ref_lem (handle_at s a).control s (λ b e. shared s a b v e) in
    (
      record t { handles = t.handles ++ handle_at s a ∷ [] },
      rw (run, ◌>>=◌) refl,
      append-IsCounted (handle_at s a) s _ v (v.same a) (ap (λ hs. hs ++ handle_at s a ∷ []) hs) cs,
    )

destruct_ptr-IsCounted :
    (o : Option ℕ) (i : ℕ) (s : Store)
    → i < length s.handles
    → IsCounted s
    → Returns (destruct_ptr o i s) IsCounted
unfolding destruct_ptr put
destruct_ptr-IsCounted none i s lt v = (s, refl, v)
destruct_ptr-IsCounted (some _) i s lt v =
    let (t, run, (hs, others, cs)) = release_lem i s v in
    (
      record t { handles = set t.handles i null_handle },
      rw (run, ◌>>=◌) refl,
      replace-IsCounted i null_handle s _ v lt refl (hs null_handle)
          (λ b. let c = cs b in omega arith),
    )

pub destruct-IsCounted :
    (i : ℕ) (s : Store) → i < length s.handles → IsCounted s → Returns (destruct i s) IsCounted
unfolding destruct
destruct-IsCounted i s lt v = destruct_ptr-IsCounted (handle_at s i).ptr i s lt v

pub reset-IsCounted :
    (i : ℕ) (p : Bool) (s : Store)
    → i < length s.handles
    → IsCounted s
    → Returns (reset i p s) IsCounted
unfolding reset new_block put
reset-IsCounted i false s lt v =
    let (t, run, (hs, others, cs)) = release_lem i s v in
    (
      record t { handles = set t.handles i null_handle },
      rw (run, ◌>>=◌) refl,
      replace-IsCounted i null_handle s _ v lt refl (hs null_handle)
          (λ b. let c = cs b in omega arith),
    )
reset-IsCounted i true s lt v =
    let (t, run, (hs, others, cs)) = release_lem i s v in
    let h : Handle = record { ptr = some (length t.counts); control = some (length t.counts) } in
    (
      record { handles = set t.handles i h; counts = t.counts ++ 1 ∷ [] },
      rw (run, ◌>>=◌) refl,
      replace-IsCounted i h s _ v lt refl (hs h)
          (λ b. let c = cs b in let a = counts-append t.counts b in omega arith),
    )

-- Two slots that share a block count twice.
shared_twice :
    (s t : Store) (i a c : ℕ)
    → IsCounted s
    → i < length s.handles
    → ¬ (a ≡ i)
    → ((b : ℕ) → get_or t.counts b 0 + one b (handle_at s i).control ≡ get_or s.counts b 0)
    → (handle_at s a).control ≡ some c
    → 0 < get_or t.counts c 0
shared_twice s t i a c v lt ne cs e =
    let other : get_or (set s.handles i null_handle) a null_handle ≡ handle_at s a =
      get_or-set_ne s.handles i a null_handle null_handle ne in
    let self : one c (get_or (set s.handles i null_handle) a null_handle).control ≡ 1 =
      ap (λ h. one c h.control) other ∙ ap (one c) e ∙ one_self c in
    let le = one-le-refs c (set s.handles i null_handle) a in
    let r = refs-set c s.handles i null_handle lt in
    let k = v.counted c in let d = cs c in omega arith

pub copy_assign-IsCounted :
    (i a : ℕ) (s : Store)
    → i < length s.handles
    → IsCounted s
    → Returns (copy_assign i a s) IsCounted
unfolding copy_assign put
copy_assign-IsCounted i a s lt v = elim (ℕ_discrete i a) [
  | yes e ↦ let self : (i == a) ≡ true = (==_iff i a).1 e in rw (self, if◌then◌else◌) (s, refl, v)
  | no ne ↦
      let differ : (i == a) ≡ false = ground arith in
      let ne' : ¬ (a ≡ i) = λ e. ne (sym e) in
      let (t, run, (hs, others, cs)) = release_lem i s v in
      let h = handle_at t a in
      let moved : Store = record { handles = set t.handles i h; counts = t.counts } in
      let (u, run', (hs', cs')) = add_ref_lem h.control moved (λ c e.
        shared_twice s t i a c v lt ne' cs (ap (λ h. h.control) (sym (others a ne')) ∙ e)) in
      rw (differ, if◌then◌else◌)
        (
          u,
          rw (run, ◌>>=◌) run',
          replace-IsCounted i h s u v lt
              (subst (λ h. h.ptr ≡ h.control) (sym (others a ne')) (v.same a)) (hs' ∙ hs h)
              (λ b. let c = cs b in let c' = cs' b in omega arith),
        )
]

pub move_construct-IsCounted :
    (other : ℕ) (s : Store)
    → other < length s.handles
    → IsCounted s
    → IsCounted (move_construct other s)
unfolding move_construct put add_slot
move_construct-IsCounted other s lt v = record {
  same =
      append-same (set s.handles other null_handle) (handle_at s other) (v.same other)
        (set-same s.handles other null_handle lt refl v.same);
  counted = λ b.
      let r = refs-set b s.handles other null_handle lt in
      let a = refs-append b (set s.handles other null_handle) (handle_at s other) in
      let k = v.counted b in omega arith;
}

pub move_assign-IsCounted :
    (i other : ℕ) (s : Store)
    → i < length s.handles
    → other < length s.handles
    → IsCounted s
    → Returns (move_assign i other s) IsCounted
unfolding move_assign put
move_assign-IsCounted i other s lt lt' v = elim (ℕ_discrete i other) [
  | yes e ↦
      let self : (i == other) ≡ true = (==_iff i other).1 e in rw (self, if◌then◌else◌) (s, refl, v)
  | no ne ↦
      let differ : (i == other) ≡ false = ground arith in
      let ne' : ¬ (other ≡ i) = λ e. ne (sym e) in
      let (t, run, (hs, others, cs)) = release_lem i s v in
      let h = handle_at t other in
      let taken = others other ne' in
      let same_size = length-set s.handles i h in
      let lt₂ : other < length (set s.handles i h) = omega arith in
      let final = λ (hs : List Handle). set hs other null_handle in
      let fits = subst (λ h. h.ptr ≡ h.control) (sym taken) (v.same other) in
      rw (differ, if◌then◌else◌)
        (
          record { handles = final (set t.handles i h); counts = t.counts },
          rw (run, ◌>>=◌) refl,
          record {
            same = λ j.
                subst (λ hs. (get_or hs j null_handle).ptr ≡ (get_or hs j null_handle).control)
                  (ap final (sym (hs h)))
                  (set-same (set s.handles i h) other null_handle lt₂ refl
                    (set-same s.handles i h lt fits v.same) j);
            counted = λ b.
                let z = ap (λ hs. refs b (set hs other null_handle)) (hs h) in
                let r = refs-set b (set s.handles i h) other null_handle lt₂ in
                let r' = refs-set b s.handles i h lt in
                let g =
                  ap (λ g. one b g.control) (get_or-set_ne s.handles i other h null_handle ne') in
                let g' = ap (λ g. one b g.control) taken in
                let c = cs b in let k = v.counted b in omega arith;
          },
        )
]
