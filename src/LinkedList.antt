-- ===== src/LinkedList.antt =====
-- basic/STL/myList.h: `List`, a doubly linked list between two sentinels, on an explicit heap. A pointer is
-- an address or null (`none`), and an iterator is the pointer that it holds. Addresses are not given out
-- twice.
pub mod Chain
pub mod Writes
pub mod Edit
pub mod Calls
pub mod Ends
pub mod Script
pub mod Walk
pub mod Tests
use c_study.Prelude.{
  ℕ, zero, suc, ◌+◌, List, [], ◌∷◌, ◌++◌, Option, none, some, Bool, true, false, ◌==◌, ◌||◌,
  if◌then◌else◌,
}
use c_study.Prelude.Run.{Run, ok, fault, bad_access, null_access, ◌>>=◌}

pub record Node {ℓ} (T : Type ℓ) : Type ℓ where
  pub data_ : T
  pub next : Option ℕ
  pub prev : Option ℕ

abbrev pub Heap {ℓ} : Type ℓ → Type ℓ
Heap T = ℕ → Option (Node T)

-- The object with `head` and `tail`, the heap, and the next free address.
pub record LinkedList {ℓ} (T : Type ℓ) : Type ℓ where
  pub heap : Heap T
  pub fresh : ℕ
  pub head : ℕ
  pub tail : ℕ

-- `p == a`, for the address of a sentinel.
unfoldable pub same : Option ℕ → ℕ → Bool
same none a = false
same (some b) a = b == a

-- A pointer, or the one to keep where it is null.
unfoldable pub or_stay : Option ℕ → Option ℕ → Option ℕ
or_stay none it = it
or_stay (some a) it = some a

module _ {ℓ} {T : Type ℓ} where
  -- A write to an address, or its release.
  unfoldable pub update : Heap T → ℕ → Option (Node T) → Heap T
  update h a c b = if b == a then c else h b

  unfoldable pub cell : Option (Node T) → Run (Node T)
  cell none = fault bad_access
  cell (some n) = ok n

  -- `*p`
  unfoldable pub at : Heap T → Option ℕ → Run (Node T)
  at h none = fault null_access
  at h (some a) = cell (h a)

  unfoldable pub write : Heap T → Option ℕ → Node T → Heap T
  write h none n = h
  write h (some a) n = update h a (some n)

  -- `p->next = q` and `p->prev = q`
  unfoldable pub set_next : Heap T → Option ℕ → Option ℕ → Run (Heap T)
  set_next h p q = do n ← at h p; ok (write h p (record n { next = q }))

  unfoldable pub set_prev : Heap T → Option ℕ → Option ℕ → Run (Heap T)
  set_prev h p q = do n ← at h p; ok (write h p (record n { prev = q }))

  -- `delete p`
  unfoldable pub free : Heap T → Option ℕ → Heap T
  free h none = h
  free h (some a) = update h a none

  unfoldable pub new_node : T → Node T
  new_node val = record { data_ = val; next = none; prev = none }

  -- `List()`
  unfoldable pub new_list : T → LinkedList T
  new_list blank = record {
    heap =
        update (update (λ _. none) 0 (some (record (new_node blank) { next = some 1 }))) 1
          (some (record (new_node blank) { prev = some 0 }));
    fresh = 2;
    head = 0;
    tail = 1;
  }

  unfoldable pub insert : Option ℕ → T → LinkedList T → Run (Option ℕ × LinkedList T)
  insert old val l = do
    o ← at l.heap old
    let newp : Option ℕ = some l.fresh
    let h = update l.heap l.fresh (some (new_node val))
    h₁ ← set_next h o.prev newp
    h₂ ← set_prev h₁ newp o.prev
    h₃ ← set_next h₂ newp old
    h₄ ← set_prev h₃ old newp
    ok (newp, record l { heap = h₄; fresh = l.fresh + 1 })

  unfoldable pub erase : Option ℕ → LinkedList T → Run (Option ℕ × LinkedList T)
  erase cur l = if same cur l.head || same cur l.tail then ok (some l.tail, l) else (do
    c ← at l.heap cur
    h₁ ← set_next l.heap c.prev c.next
    h₂ ← set_prev h₁ c.next c.prev
    ok (c.next, record l { heap = free h₂ cur }))

  unfoldable pub begin : LinkedList T → Run (Option ℕ)
  begin l = do n ← at l.heap (some l.head); ok n.next

  unfoldable pub end : LinkedList T → Option ℕ
  end l = some l.tail

  -- `++it` and `--it`
  unfoldable pub increment : Heap T → Option ℕ → Run (Option ℕ)
  increment h it = do n ← at h it; ok (or_stay n.next it)

  unfoldable pub decrement : Heap T → Option ℕ → Run (Option ℕ)
  decrement h it = do n ← at h it; ok (or_stay n.prev it)

  unfoldable pub is_empty : LinkedList T → Run Bool
  is_empty l = do n ← at l.heap (some l.head); ok (same n.next l.tail)

  unfoldable pub push_front : T → LinkedList T → Run (LinkedList T)
  push_front val l = do it ← begin l; (_, l') ← insert it val l; ok l'

  unfoldable pub push_back : T → LinkedList T → Run (LinkedList T)
  push_back val l = do (_, l') ← insert (end l) val l; ok l'

  unfoldable pub pop_front : LinkedList T → Run (LinkedList T)
  pop_front l = do
    empty ← is_empty l
    if empty then ok l else (do it ← begin l; (_, l') ← erase it l; ok l')

  unfoldable pub pop_back : LinkedList T → Run (LinkedList T)
  pop_back l = do
    empty ← is_empty l
    if empty then ok l else (do it ← decrement l.heap (end l); (_, l') ← erase it l; ok l')

  unfoldable pub front : LinkedList T → Run T
  front l = do n ← at l.heap (some l.head); m ← at l.heap n.next; ok m.data_

  unfoldable pub back : LinkedList T → Run T
  back l = do n ← at l.heap (some l.tail); m ← at l.heap n.prev; ok m.data_

  -- The loop of `clear`, with fuel; `none` means that the fuel ran out.
  unfoldable pub clear_loop : ℕ → Heap T → ℕ → Option ℕ → Option (Run (Heap T))
  clear_loop zero h tail cur = none
  clear_loop (suc fuel) h tail cur = elim (same cur tail) [
    | true ↦ some (ok h)
    | false ↦ elim (at h cur) [
      | fault f ↦ some (fault f)
      | ok n ↦ clear_loop fuel (free h cur) tail n.next
    ]
  ]

  -- The end of `clear`: the sentinels are linked again.
  unfoldable pub relink : LinkedList T → Run (Heap T) → Run (LinkedList T)
  relink l r = do
    h ← r
    h₁ ← set_next h (some l.head) (some l.tail)
    h₂ ← set_prev h₁ (some l.tail) (some l.head)
    ok (record l { heap = h₂ })

  unfoldable pub clear_from : ℕ → LinkedList T → Run (Option ℕ) → Option (Run (LinkedList T))
  clear_from fuel l (fault f) = some (fault f)
  clear_from fuel l (ok cur) = elim (clear_loop fuel l.heap l.tail cur) [
    | none ↦ none
    | some r ↦ some (relink l r)
  ]

  unfoldable pub clear : ℕ → LinkedList T → Option (Run (LinkedList T))
  clear fuel l = clear_from fuel l (begin l)

  -- The loop of `print`: what it writes, behind `out`.
  unfoldable pub print_loop : ℕ → Heap T → ℕ → Option ℕ → List T → Option (Run (List T))
  print_loop zero h tail cur out = none
  print_loop (suc fuel) h tail cur out = elim (same cur tail) [
    | true ↦ some (ok out)
    | false ↦ elim (at h cur) [
      | fault f ↦ some (fault f)
      | ok n ↦ print_loop fuel h tail n.next (out ++ n.data_ ∷ [])
    ]
  ]

  unfoldable pub print_from : ℕ → LinkedList T → Run (Option ℕ) → Option (Run (List T))
  print_from fuel l (fault f) = some (fault f)
  print_from fuel l (ok cur) = print_loop fuel l.heap l.tail cur []

  unfoldable pub print : ℕ → LinkedList T → Option (Run (List T))
  print fuel l = print_from fuel l (begin l)
