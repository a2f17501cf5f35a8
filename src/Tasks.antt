-- ===== src/Tasks.antt =====
-- basic/final2: the task list (TaskManager.h, task.h), its commands (command.h) and the main loop
-- (main.cpp). Characters are numbers; the log and the output are left out. Ids are not negative: a file that
-- holds a negative id is outside the model.
pub mod Commands
pub mod Saved
pub mod Ids
pub mod Session
pub mod Tests
use c_study.Prelude.{
  ℕ, zero, suc, ◌+◌, List, [], ◌∷◌, ◌++◌, Option, none, some, Bool, true, false, leb, ◌==◌, ◌||◌,
  ◌&&◌, if◌then◌else◌,
}
use c_study.Prelude.Options.{◌>>=◌}
use c_study.Prelude.Int.{ℤ, pos, negsuc}

abbrev pub Str : Type 0
Str = List ℕ

abbrev pub newline : ℕ
newline = 10

abbrev pub space : ℕ
space = 32

abbrev pub comma : ℕ
comma = 44

-- `INT_MAX`
abbrev pub int_max : ℕ
int_max = 2147483647

pub record Task : Type 0 where
  pub id : ℕ
  pub description : Str
  pub priority : ℤ
  pub due_date : Str

-- Numbers as text: `<<` and `>>` on streams, where `none` is a stream that has failed, and `std::stoi`
-- with its position, `none` where it throws. `extract_id` also gives the value that a failed read leaves.
pub record Numerals : Type 0 where
  pub show_id : ℕ → Str
  pub show_int : ℤ → Str
  pub extract_id : Option Str → ℕ × Option Str
  pub extract_int : Option Str → ℤ × Option Str
  pub stoi : Str → Option (ℤ × ℕ)

-- `file` is the text of `task.txt`.
pub record TaskManager : Type 0 where
  pub tasks : List Task
  pub next_id : ℕ
  pub file : Str

-- The text before and after the first `c`.
unfoldable pub cut : ℕ → Str → Option (Str × Str)
cut c [] = none
cut c (x ∷ xs) =
    let rest = cut c xs in if x == c then some ([], xs) else (do (l, r) ← rest; some (x ∷ l, r))

-- `std::getline(in, line)` until it fails.
unfoldable pub push_char : ℕ → List Str → List Str
push_char c [] = (c ∷ []) ∷ []
push_char c (l ∷ ls) = (c ∷ l) ∷ ls

unfoldable pub lines : Str → List Str
lines [] = []
lines (c ∷ cs) = let rest = lines cs in if c == newline then [] ∷ rest else push_char c rest

unfoldable pub is_space : ℕ → Bool
is_space c = c == space || (leb 9 c && leb c 13)

-- `in >> c` for a character `c`: white space is skipped, and a failed stream leaves `c` as it was.
unfoldable pub drop_char : ℕ → Str → ℕ × Option Str
drop_char old [] = (old, none)
drop_char old (c ∷ cs) = let rest = drop_char old cs in if is_space c then rest else (c, some cs)

unfoldable pub extract_char : ℕ → Option Str → ℕ × Option Str
extract_char old none = (old, none)
extract_char old (some s) = drop_char old s

-- `std::getline(in, text, delimiter)`
unfoldable pub get_until : ℕ → Option Str → Str × Option Str
get_until c none = ([], none)
get_until c (some []) = ([], none)
get_until c (some (x ∷ xs)) = elim (cut c (x ∷ xs)) [
  | none ↦ (x ∷ xs, some [])
  | some p ↦ (p.0, some p.1)
]

unfoldable pub has_id : ℤ → Task → Bool
has_id (pos n) t = t.id == n
has_id (negsuc n) t = false

-- `find_if` on the id, then `f` on the task that it finds, which gives what takes its place.
unfoldable pub at_id : ℤ → (Task → List Task) → List Task → Option (List Task)
at_id id f [] = none
at_id id f (t ∷ ts) =
    let rest = at_id id f ts in
    if has_id id t then some (f t ++ ts) else (do us ← rest; some (t ∷ us))

module _ (nums : Numerals) where
  open nums use {show_id, show_int, extract_id, extract_int}

  -- One line of `SaveTasks`.
  unfoldable pub task_line : Task → Str
  task_line t =
      show_id t.id ++ comma ∷ (t.description ++ comma ∷ (show_int t.priority ++ comma ∷ t.due_date))

  unfoldable pub save_tasks : List Task → Str
  save_tasks [] = []
  save_tasks (t ∷ ts) = task_line t ++ newline ∷ save_tasks ts

  -- The body of the loop of `LoadTasks` for a line. `delimiter` is overwritten by the character behind each number,
  -- and ends the description.
  unfoldable pub read_task : Str → Task
  read_task line =
      let (id, s₁) = extract_id (some line) in
      let (delimiter, s₂) = extract_char comma s₁ in
      let (description, s₃) = get_until delimiter s₂ in
      let (priority, s₄) = extract_int s₃ in
      let (_, s₅) = extract_char delimiter s₄ in
      let (due_date, _) = get_until newline s₅ in
      record { id = id; description = description; priority = priority; due_date = due_date }

  -- `nextId` after a task that was read; `none` is an overflow of `int`.
  unfoldable pub raise_next : ℕ → ℕ → Option ℕ
  raise_next id next =
      if leb next id then (if leb int_max id then none else some (id + 1)) else some next

  unfoldable pub load_line : Str → List Task × ℕ → Option (List Task × ℕ)
  load_line [] (ts, next) = some (ts, next)
  load_line (c ∷ cs) (ts, next) = do
    next' ← raise_next (read_task (c ∷ cs)).id next
    some (ts ++ read_task (c ∷ cs) ∷ [], next')

  unfoldable pub load_lines : List Str → List Task × ℕ → Option (List Task × ℕ)
  load_lines [] s = some s
  load_lines (l ∷ ls) s = do s' ← load_line l s; load_lines ls s'

  -- The constructor, on a file that can be opened.
  unfoldable pub load_tasks : Str → Option TaskManager
  load_tasks file = do
    (ts, next) ← load_lines (lines file) ([], 1)
    some (record { tasks = ts; next_id = next; file = file })

  -- `SaveTasks`, on a file that can be opened.
  unfoldable pub save : TaskManager → TaskManager
  save m = record m { file = save_tasks m.tasks }

  -- `none` is an overflow of `nextId++`.
  unfoldable pub add_task : Str → ℤ → Str → TaskManager → Option TaskManager
  add_task description priority date m =
      if leb int_max m.next_id
      then none
      else some (
          save (record {
            tasks =
                m.tasks
                ++ record {
                  id = m.next_id;
                  description = description;
                  priority = priority;
                  due_date = date;
                }
                  ∷ [];
            next_id = m.next_id + 1;
            file = m.file;
          }))

  -- What is left, and whether the task was found.
  unfoldable pub stored : TaskManager → Option (List Task) → Bool × TaskManager
  stored m none = (false, m)
  stored m (some ts) = (true, save (record m { tasks = ts }))

  unfoldable pub remove_task : ℤ → TaskManager → Bool × TaskManager
  remove_task id m = stored m (at_id id (λ _. []) m.tasks)

  unfoldable pub update_task : ℤ → Str → ℤ → Str → TaskManager → Bool × TaskManager
  update_task id description priority date m = stored m (
      at_id id
        (λ t.
          record { id = t.id; description = description; priority = priority; due_date = date }
          ∷ [])
        m.tasks)
