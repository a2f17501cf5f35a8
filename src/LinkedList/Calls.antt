-- ===== src/LinkedList/Calls.antt =====
-- basic/STL/myList.h: a client's calls on a `List`, against the same calls on a list of values.
use c_study.Prelude.{◌≡◌, List, [], ◌∷◌, ◌++◌, Bool, true, false}
use c_study.Prelude.Run.{Run, ok, ◌>>=◌}
use c_study.LinkedList.{
  LinkedList, is_empty, push_front, push_back, pop_front, pop_back, front, back,
}
use c_study.LinkedList.Chain.{Cells}
use c_study.LinkedList.Edit.{Holds}

pub data Op {ℓ} (T : Type ℓ) : Type ℓ where
  put_first put_last : T → Op T
  drop_first drop_last ask_first ask_last ask_empty : Op T

pub data Answer {ℓ} (T : Type ℓ) : Type ℓ where
  nothing : Answer T
  value : T → Answer T
  test : Bool → Answer T

module _ {ℓ} {T : Type ℓ} where
  abbrev pub all_but_last : List T → List T
  all_but_last [] = []
  all_but_last (x ∷ []) = []
  all_but_last (x ∷ y ∷ ys) = x ∷ all_but_last (y ∷ ys)

  -- The last value, or `blank` where there is none.
  abbrev pub last_or : T → List T → T
  last_or blank [] = blank
  last_or blank (x ∷ xs) = last_or x xs

  abbrev pub first_or : T → List T → T
  first_or blank [] = blank
  first_or blank (x ∷ xs) = x

  abbrev pub tail : List T → List T
  tail [] = []
  tail (x ∷ xs) = xs

  abbrev pub null : List T → Bool
  null [] = true
  null (x ∷ xs) = false

  -- One call on the list of values: a pop of an empty list does nothing, and `front` and `back` of one
  -- return `T()`.
  unfoldable pub on_list : T → Op T → List T → Answer T × List T
  on_list blank (put_first v) xs = (nothing, v ∷ xs)
  on_list blank (put_last v) xs = (nothing, xs ++ v ∷ [])
  on_list blank drop_first xs = (nothing, tail xs)
  on_list blank drop_last xs = (nothing, all_but_last xs)
  on_list blank ask_first xs = (value (first_or blank xs), xs)
  on_list blank ask_last xs = (value (last_or blank xs), xs)
  on_list blank ask_empty xs = (test (null xs), xs)

  -- A script of calls: what each returns, and the list at the end.
  unfoldable pub run_list : T → List (Op T) → List T → List (Answer T) × List T
  run_list blank [] xs = ([], xs)
  run_list blank (op ∷ ops) xs =
      let (r, xs') = on_list blank op xs in
      let (rs, xs'') = run_list blank ops xs' in (r ∷ rs, xs'')

  unfoldable pub on_linked : Op T → LinkedList T → Run (Answer T × LinkedList T)
  on_linked (put_first v) l = do l' ← push_front v l; ok (nothing, l')
  on_linked (put_last v) l = do l' ← push_back v l; ok (nothing, l')
  on_linked drop_first l = do l' ← pop_front l; ok (nothing, l')
  on_linked drop_last l = do l' ← pop_back l; ok (nothing, l')
  on_linked ask_first l = do x ← front l; ok (value x, l)
  on_linked ask_last l = do x ← back l; ok (value x, l)
  on_linked ask_empty l = do b ← is_empty l; ok (test b, l)

  unfoldable pub run_linked : List (Op T) → LinkedList T → Run (List (Answer T) × LinkedList T)
  run_linked [] l = ok ([], l)
  run_linked (op ∷ ops) l = do
    (r, l') ← on_linked op l
    (rs, l'') ← run_linked ops l'
    ok (r ∷ rs, l'')

  -- The values of the nodes.
  abbrev pub values : Cells T → List T
  values [] = []
  values ((a, v) ∷ cs) = v ∷ values cs

  -- A call on the linked list does what it does on the list of values.
  unfoldable pub Served : T → Op T → LinkedList T → Cells T → Type ℓ
  Served blank op l cs =
      (l' : LinkedList T) × (cs' : Cells T) × (on_linked op l
        ≡ ok ((on_list blank op (values cs)).0, l'))
      × (values cs' ≡ (on_list blank op (values cs)).1)
      × Holds l' blank cs'
