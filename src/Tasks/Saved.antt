-- ===== src/Tasks/Saved.antt =====
-- basic/final2/TaskManager.h: `LoadTasks` reads back what `SaveTasks` wrote.
use c_study.Prelude.{
  ℕ, ◌+◌, ◌≤◌, ◌<◌, arith, ◌≡◌, refl, sym, ap, ◌∙◌, List, [], ◌∷◌, ◌++◌, none, some, true, false,
  leb, ◌==◌, if◌then◌else◌, ==_iff, append_assoc, append-nil,
}
use c_study.Prelude.Sorted.{All, All-append}
use c_study.Prelude.Int.{ℤ, pos, negsuc}
use c_study.Prelude.Options.{◌>>=◌}
use c_study.Tasks.{
  Str, comma, newline, Task, Numerals, cut, push_char, lines, is_space, drop_char, extract_char,
  get_until, int_max, raise_next, task_line, save_tasks, read_task, load_line, load_lines,
  load_tasks,
}

-- `c` does not stand in the text.
abbrev pub Lacks : ℕ → Str → Type 0
Lacks c s = All (λ x. (x == c) ≡ false) s

==-same : (c : ℕ) → (c == c) ≡ true
==-same c = (==_iff c c).1 refl

cut_lem : (c : ℕ) (l r : Str) → Lacks c l → cut c (l ++ c ∷ r) ≡ some (l, r)
unfolding cut
cut_lem c [] r h = rw (==-same c, if◌then◌else◌) refl
cut_lem c (x ∷ l) r (hx, h) = rw (hx, cut_lem c l r h, if◌then◌else◌) refl

lines_lem : (l r : Str) → Lacks newline l → lines (l ++ newline ∷ r) ≡ l ∷ lines r
unfolding lines push_char
lines_lem [] r h = refl
lines_lem (x ∷ l) r (hx, h) = rw (hx, lines_lem l r h, if◌then◌else◌) refl

-- A value of `int`.
abbrev pub FitsInt : ℤ → Type 0
FitsInt (pos n) = n ≤ int_max
FitsInt (negsuc n) = n ≤ int_max

-- Numbers of an `int` are shown without a newline, and are read back up to the comma after them. `stoi` gives
-- numbers of an `int`.
pub record IsFaithful (nums : Numerals) : Type 0 where
  pub id-lacks : (n : ℕ) → n ≤ int_max → Lacks newline (nums.show_id n)
  pub int-lacks : (n : ℤ) → FitsInt n → Lacks newline (nums.show_int n)
  pub extract-id :
      (n : ℕ) (s : Str)
      → n ≤ int_max
      → nums.extract_id (some (nums.show_id n ++ comma ∷ s)) ≡ (n, some (comma ∷ s))
  pub extract-int :
      (n : ℤ) (s : Str)
      → FitsInt n
      → nums.extract_int (some (nums.show_int n ++ comma ∷ s)) ≡ (n, some (comma ∷ s))
  pub stoi-fits : (s : Str) (n : ℤ) (at : ℕ) → nums.stoi s ≡ some (n, at) → FitsInt n

-- A task that one line of the file can hold, with an id that another can follow.
pub record IsPlain (t : Task) : Type 0 where
  pub no_comma : Lacks comma t.description
  pub description_line : Lacks newline t.description
  pub date_line : Lacks newline t.due_date
  pub id_fits : t.id < int_max
  pub priority_fits : FitsInt t.priority

get_until_lem : (c : ℕ) (l r : Str) → Lacks c l → get_until c (some (l ++ c ∷ r)) ≡ (l, some r)
unfolding get_until
get_until_lem c [] r h = rw (get_until, cut_lem c [] r h) refl
get_until_lem c (x ∷ l) r h = rw (get_until, cut_lem c (x ∷ l) r h) refl

cut-none : (c : ℕ) (s : Str) → Lacks c s → cut c s ≡ none
unfolding cut
cut-none c [] h = refl
cut-none c (x ∷ s) (hx, h) = rw (hx, cut-none c s h, if◌then◌else◌) refl

get_until-all : (c : ℕ) (s : Str) → Lacks c s → (get_until c (some s)).0 ≡ s
unfolding get_until
get_until-all c [] h = refl
get_until-all c (x ∷ s) h = rw (get_until, cut-none c (x ∷ s) h) refl

extract_char-comma : (old : ℕ) (s : Str) → extract_char old (some (comma ∷ s)) ≡ (comma, some s)
unfolding extract_char drop_char is_space
extract_char-comma old s = refl

-- `nextId` after tasks that are read one after another.
unfoldable pub next_after : ℕ → List Task → ℕ
next_after next [] = next
next_after next (t ∷ ts) = next_after (if leb next t.id then t.id + 1 else next) ts

module _ (nums : Numerals) (ok : IsFaithful nums) where
  open nums use {show_id, show_int, extract_id, extract_int}

  read_task-task_line : (t : Task) → IsPlain t → read_task nums (task_line nums t) ≡ t
  unfolding read_task task_line
  read_task-task_line t p =
      rw
        (
          ok.extract-id t.id _ (omega (arith, p.id_fits)),
          extract_char-comma,
          get_until_lem comma t.description _ p.no_comma,
          ok.extract-int t.priority _ p.priority_fits,
          extract_char-comma,
          get_until-all newline t.due_date p.date_line,
        )
        refl

  task_line-Lacks : (t : Task) → IsPlain t → Lacks newline (task_line nums t)
  unfolding task_line
  task_line-Lacks t p =
      All-append _ (show_id t.id) _ (ok.id-lacks t.id (omega (arith, p.id_fits))) (
        refl,
        All-append _ t.description _ p.description_line (
          refl,
          All-append _ (show_int t.priority) _ (ok.int-lacks t.priority p.priority_fits)
              (refl, p.date_line),
        ),
      )

  raise_next-fits :
      (id next : ℕ)
      → id < int_max
      → raise_next nums id next ≡ some (if leb next id then id + 1 else next)
  unfolding raise_next
  raise_next-fits id next h = ground arith

  load_line-cons :
      (l r : Str) (c : ℕ) (us : List Task) (next : ℕ)
      → load_line nums (l ++ c ∷ r) (us, next) ≡ (do
        next' ← raise_next nums (read_task nums (l ++ c ∷ r)).id next
        some (us ++ read_task nums (l ++ c ∷ r) ∷ [], next'))
  unfolding load_line
  load_line-cons [] r c us next = refl
  load_line-cons (x ∷ l) r c us next = refl

  load_line-task_line :
      (t : Task) (us : List Task) (next : ℕ)
      → IsPlain t
      → load_line nums (task_line nums t) (us, next)
        ≡ some (us ++ t ∷ [], (if leb next t.id then t.id + 1 else next))
  unfolding task_line
  load_line-task_line t us next p =
      load_line-cons (show_id t.id) _ comma us next
      ∙ ap (λ t. raise_next nums t.id next >>= λ n. some (us ++ t ∷ [], n))
          (read_task-task_line t p)
      ∙ ap (λ o. o >>= λ n. some (us ++ t ∷ [], n)) (raise_next-fits t.id next p.id_fits)

  load_lines-save_tasks :
      (ts us : List Task) (next : ℕ)
      → All IsPlain ts
      → load_lines nums (lines (save_tasks nums ts)) (us, next)
        ≡ some (us ++ ts, next_after next ts)
  unfolding load_lines save_tasks next_after lines
  load_lines-save_tasks [] us next h = ap (λ v. some (v, next)) (sym (append-nil us))
  load_lines-save_tasks (t ∷ ts) us next (p, h) =
      ap (λ ls. load_lines nums ls (us, next))
        (lines_lem (task_line nums t) (save_tasks nums ts) (task_line-Lacks t p))
      ∙ ap (λ o. o >>= load_lines nums (lines (save_tasks nums ts)))
          (load_line-task_line t us next p)
      ∙ load_lines-save_tasks ts (us ++ t ∷ []) (if leb next t.id then t.id + 1 else next) h
      ∙ ap (λ v. some (v, next_after (if leb next t.id then t.id + 1 else next) ts))
          (append_assoc us (t ∷ []) ts)

  -- Where the numbers of an `int` are read back as they are written, all ids are below `INT_MAX` and the priorities are
  -- in an `int`, no description holds a comma or a newline, and no date a newline: `LoadTasks` reads back from the
  -- file that `SaveTasks` writes the same tasks in the same order, and nothing overflows. `nextId` starts at
  -- 1, and is raised to one above each id that is not below it.
  pub load_tasks-save_tasks :
      (ts : List Task)
      → All IsPlain ts
      → load_tasks nums (save_tasks nums ts)
        ≡ some (record { tasks = ts; next_id = next_after 1 ts; file = save_tasks nums ts })
  unfolding load_tasks
  load_tasks-save_tasks ts h = rw (load_lines-save_tasks ts [] 1 h) refl
