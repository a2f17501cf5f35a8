-- ===== src/SharedPtr.antt =====
-- basic/type_ptr/simpleSharedPtr.h: `simpleSharedPtr`, over a store of control blocks. Pointers are slots of
-- a list; block `b` counts for object `b`, and a count of 0 means that both are deleted.
pub mod Count
pub mod Steps
pub mod Life
pub mod Tests
use c_study.Prelude.{
  ℕ, zero, suc, ◌+◌, ◌-◌, ◌<◌, ◌≡◌, List, [], ◌∷◌, ◌++◌, length, set, get_or, Option, none, some,
  Bool, true, false, ◌==◌, if◌then◌else◌,
}
use c_study.Prelude.Run.{Run, ok, fault, bad_access, ◌>>=◌}

-- `ptr` and `control`, each null or a number.
pub record Handle : Type 0 where
  pub ptr : Option ℕ
  pub control : Option ℕ

abbrev pub null_handle : Handle
null_handle = record { ptr = none; control = none }

-- The slots, and the `ref_count` of each block.
pub record Store : Type 0 where
  pub handles : List Handle
  pub counts : List ℕ

-- The handle in a slot.
abbrev pub handle_at : Store → ℕ → Handle
handle_at s i = get_or s.handles i null_handle

unfoldable pub put : ℕ → Handle → Store → Store
put i h s = record s { handles = set s.handles i h }

-- `control->ref_count`, of a block that is there.
unfoldable pub count_at : List ℕ → ℕ → Run ℕ
count_at [] b = fault bad_access
count_at (zero ∷ cs) zero = fault bad_access
count_at (suc c ∷ cs) zero = ok (suc c)
count_at (c ∷ cs) (suc b) = count_at cs b

-- `++control->ref_count`, where `control` is not null
unfoldable pub add_ref : Option ℕ → Store → Run Store
add_ref none s = ok s
add_ref (some b) s = do c ← count_at s.counts b; ok (record s { counts = set s.counts b (c + 1) })

-- `release`: the block's count goes down; at 0 the object and the block are deleted and the slot is null.
unfoldable pub release_block : ℕ → Option ℕ → Store → Run Store
release_block i none s = ok s
release_block i (some b) s = do
  c ← count_at s.counts b
  let s' : Store = record s { counts = set s.counts b (c - 1) }
  ok (if c - 1 == 0 then put i null_handle s' else s')

unfoldable pub release : ℕ → Store → Run Store
release i s = release_block i (handle_at s i).control s

-- `new ControlBlock()` for a new object, or two null pointers.
unfoldable pub new_block : Bool → Store → Handle × Store
new_block false s = (null_handle, s)
new_block true s =
    let b = length s.counts in
    (record { ptr = some b; control = some b }, record s { counts = s.counts ++ 1 ∷ [] })

unfoldable pub add_slot : Handle → Store → Store
add_slot h s = record s { handles = s.handles ++ h ∷ [] }

-- `simpleSharedPtr()`
unfoldable pub construct_null : Store → Store
construct_null s = add_slot null_handle s

-- `simpleSharedPtr(T *p)`, for a new object or for null.
unfoldable pub construct : Bool → Store → Store
construct p s = let (h, s') = new_block p s in add_slot h s'

-- `simpleSharedPtr(const simpleSharedPtr &a)`
unfoldable pub copy_construct : ℕ → Store → Run Store
copy_construct a s = do s' ← add_ref (handle_at s a).control s; ok (add_slot (handle_at s a) s')

-- `operator=(const simpleSharedPtr &a)`
unfoldable pub copy_assign : ℕ → ℕ → Store → Run Store
copy_assign i a s =
    if i == a
    then ok s
    else (do s₁ ← release i s; let h = handle_at s₁ a; add_ref h.control (put i h s₁))

-- `simpleSharedPtr(simpleSharedPtr &&other)`
unfoldable pub move_construct : ℕ → Store → Store
move_construct other s = add_slot (handle_at s other) (put other null_handle s)

-- `operator=(simpleSharedPtr &&other)`
unfoldable pub move_assign : ℕ → ℕ → Store → Run Store
move_assign i other s =
    if i == other
    then ok s
    else (do s₁ ← release i s; ok (put other null_handle (put i (handle_at s₁ other) s₁)))

-- `reset(p)`, for a new object or for null.
unfoldable pub reset : ℕ → Bool → Store → Run Store
reset i p s = do s₁ ← release i s; let (h, s₂) = new_block p s₁; ok (put i h s₂)

-- The destructor. A slot that is gone counts as null from then on.
unfoldable pub destruct_ptr : Option ℕ → ℕ → Store → Run Store
destruct_ptr none i s = ok s
destruct_ptr (some _) i s = do s₁ ← release i s; ok (put i null_handle s₁)

unfoldable pub destruct : ℕ → Store → Run Store
destruct i s = destruct_ptr (handle_at s i).ptr i s

-- `use_count()`
unfoldable pub use_count : ℕ → Store → Run ℕ
use_count i s = elim (handle_at s i).control [ none ↦ ok 0 | some b ↦ count_at s.counts b ]

-- A call of a member on slots of the list.
pub data Op : Type 0 where
  op_construct_null : Op
  op_construct : Bool → Op
  op_copy_construct : ℕ → Op
  op_copy_assign : ℕ → ℕ → Op
  op_move_construct : ℕ → Op
  op_move_assign : ℕ → ℕ → Op
  op_reset : ℕ → Bool → Op
  op_destruct : ℕ → Op

unfoldable pub run_op : Op → Store → Run Store
run_op op_construct_null s = ok (construct_null s)
run_op (op_construct p) s = ok (construct p s)
run_op (op_copy_construct a) s = copy_construct a s
run_op (op_copy_assign i a) s = copy_assign i a s
run_op (op_move_construct other) s = ok (move_construct other s)
run_op (op_move_assign i other) s = move_assign i other s
run_op (op_reset i p) s = reset i p s
run_op (op_destruct i) s = destruct i s

-- The slots that a call names are there.
abbrev pub Fits : Op → ℕ → Type 0
Fits op_construct_null n = Unit
Fits (op_construct p) n = Unit
Fits (op_copy_construct a) n = a < n
Fits (op_copy_assign i a) n = (i < n) × (a < n)
Fits (op_move_construct other) n = other < n
Fits (op_move_assign i other) n = (i < n) × (other < n)
Fits (op_reset i p) n = i < n
Fits (op_destruct i) n = i < n

-- The stores that calls lead to, from no pointer at all.
pub data Reaches : Store → Type 0 where
  start : Reaches (record { handles = []; counts = [] })
  call :
      {s t : Store} (o : Op) → Reaches s → Fits o (length s.handles) → run_op o s ≡ ok t → Reaches t
