-- ===== src/Tasks/Tests.antt =====
-- basic/final2: runs on small inputs, with numbers in unary.
use c_study.Prelude.{
  ℕ, zero, suc, ◌≡◌, refl, ap, List, [], ◌∷◌, ◌++◌, replicate, none, some, Option, arith, leb, ◌==◌,
  if◌then◌else◌,
}
use c_study.Prelude.Int.{ℤ, pos, negsuc}
use c_study.Tasks.{
  Str, comma, newline, space, Task, Numerals, TaskManager, lines, load_lines, load_tasks,
  save_tasks, int_max,
}
use c_study.Tasks.Commands.{add_name, delete_name, main_loop}
use c_study.Tasks.Saved.{IsFaithful, FitsInt, Lacks, next_after, load_tasks-save_tasks}
use c_study.Tasks.Ids.{IsValid}
use c_study.Tasks.Session.{Leaves, main_loop-IsValid}

abbrev digit : ℕ
digit = 49

-- The number of leading digits, and the text after them.
unfoldable count : Str → ℕ × Str
count [] = (0, [])
count (c ∷ s) = let rest = count s in if c == digit then (suc rest.0, rest.1) else (0, c ∷ s)

unfoldable count_signed : Str → ℤ × Str
count_signed [] = (pos 0, [])
count_signed (c ∷ s) =
    if c == 45
    then (negsuc (count s).0, (count s).1)
    else (pos (count (c ∷ s)).0, (count (c ∷ s)).1)

abbrev show_unary : ℤ → Str
show_unary (pos n) = replicate n digit
show_unary (negsuc n) = 45 ∷ replicate n digit

-- A number that does not fit makes `stoi` throw.
unfoldable in_int : ℤ → Option (ℤ × ℕ)
in_int (pos n) = if leb n int_max then some (pos n, 1) else none
in_int (negsuc n) = if leb n int_max then some (negsuc n, 1) else none

in_int-FitsInt : (z n : ℤ) (at : ℕ) → in_int z ≡ some (n, at) → FitsInt n
unfolding in_int
in_int-FitsInt (pos k) n at h = ground (arith, FitsInt)
in_int-FitsInt (negsuc k) n at h = ground (arith, FitsInt)

abbrev unary : Numerals
unary = record {
  show_id = λ n. replicate n digit;
  show_int = show_unary;
  extract_id = elim [ none ↦ (0, none) | some s ↦ ((count s).0, some (count s).1) ];
  extract_int = elim [
    | none ↦ (pos 0, none)
    | some s ↦ ((count_signed s).0, some (count_signed s).1)
  ];
  stoi = λ s. in_int (count_signed s).0;
}

replicate-Lacks : (n : ℕ) → Lacks newline (replicate n digit)
replicate-Lacks zero = tt
replicate-Lacks (suc n) = (refl, replicate-Lacks n)

count-replicate : (n : ℕ) (s : Str) → count (replicate n digit ++ comma ∷ s) ≡ (n, comma ∷ s)
unfolding count
count-replicate zero s = refl
count-replicate (suc n) s = ap (λ p. (suc p.0, p.1)) (count-replicate n s)

count_signed-show : (n : ℤ) (s : Str) → count_signed (show_unary n ++ comma ∷ s) ≡ (n, comma ∷ s)
unfolding count_signed count
count_signed-show (pos zero) s = refl
count_signed-show (pos (suc n)) s = ap (λ p. (pos (suc p.0), p.1)) (count-replicate n s)
count_signed-show (negsuc n) s = ap (λ p. (negsuc p.0, p.1)) (count-replicate n s)

int-Lacks : (n : ℤ) → Lacks newline (show_unary n)
int-Lacks (pos n) = replicate-Lacks n
int-Lacks (negsuc n) = (refl, replicate-Lacks n)

unary-IsFaithful : IsFaithful unary
unary-IsFaithful = record {
  id-lacks = λ n _. replicate-Lacks n;
  int-lacks = λ n _. int-Lacks n;
  extract-id = λ n s _. ap (λ p. (p.0, some p.1)) (count-replicate n s);
  extract-int = λ n s _. ap (λ p. (p.0, some p.1)) (count_signed-show n s);
  stoi-fits = λ s n at h. in_int-FitsInt (count_signed s).0 n at h;
}

abbrev two_tasks : List Task
two_tasks =
    record { id = 1; description = 97 ∷ []; priority = pos 2; due_date = 98 ∷ comma ∷ [] }
    ∷ record { id = 3; description = []; priority = negsuc 0; due_date = [] }
    ∷ []

load_tasks-save_tasks_example :
    load_tasks unary (save_tasks unary two_tasks)
    ≡ some (record {
      tasks = two_tasks;
      next_id = next_after 1 two_tasks;
      file = save_tasks unary two_tasks;
    })
load_tasks-save_tasks_example = load_tasks-save_tasks unary unary-IsFaithful two_tasks (
  record {
    no_comma = (refl, tt);
    description_line = (refl, tt);
    date_line = (refl, (refl, tt));
    id_fits = omega arith;
    priority_fits = omega arith;
  },
  (
    record {
      no_comma = tt;
      description_line = tt;
      date_line = tt;
      id_fits = omega arith;
      priority_fits = omega arith;
    },
    tt,
  ),
)

next_id-test : next_after 1 two_tasks ≡ 4
unfolding next_after
next_id-test = refl

abbrev no_tasks : TaskManager
no_tasks = record { tasks = []; next_id = 1; file = [] }

no_tasks-IsValid : IsValid unary no_tasks
unfolding load_tasks load_lines lines
no_tasks-IsValid = record { fit = (omega arith, tt); saved = (no_tasks, refl, refl) }

-- `add a,1,b`, then `delete 1`
abbrev typed : List Str
typed =
    (add_name ++ space ∷ 97 ∷ comma ∷ digit ∷ comma ∷ 98 ∷ [])
    ∷ (delete_name ++ space ∷ digit ∷ [])
    ∷ []

first_line : Lacks newline (add_name ++ space ∷ 97 ∷ comma ∷ digit ∷ comma ∷ 98 ∷ [])
first_line = (refl, (refl, (refl, (refl, (refl, (refl, (refl, (refl, (refl, tt)))))))))

second_line : Lacks newline (delete_name ++ space ∷ digit ∷ [])
second_line = (refl, (refl, (refl, (refl, (refl, (refl, (refl, (refl, tt))))))))

main_loop-IsValid_example : Leaves (IsValid unary) (main_loop unary typed no_tasks)
main_loop-IsValid_example =
    main_loop-IsValid unary unary-IsFaithful typed no_tasks (first_line, (second_line, tt))
      no_tasks-IsValid
