-- ===== src/Tasks/Ids.antt =====
-- basic/final2: what every command keeps: distinct ids below `nextId`, and a file that reads back.
use c_study.Prelude.{
  ℕ, ◌+◌, ◌≤◌, ◌<◌, leb, false, ◌≡◌, refl, List, [], ◌∷◌, ◌++◌, Option, none, some, ◌==◌,
  if◌then◌else◌, arith, Bool-cases, inl, inr,
}
use c_study.Prelude.Sorted.{All, All-append}
use c_study.Prelude.Options.{◌>>=◌}
use c_study.Prelude.Int.{ℤ}
use c_study.Tasks.{
  Str, comma, newline, Task, Numerals, TaskManager, cut, load_tasks, save, add_task, has_id, at_id,
  stored, remove_task, update_task, int_max,
}
use c_study.Tasks.Saved.{IsPlain, IsFaithful, FitsInt, Lacks, load_tasks-save_tasks}

-- The result has `P`, where there is one.
abbrev pub OnSome {ℓ κ} : {A : Type ℓ} → (A → Type κ) → Option A → Type κ
OnSome P none = Unit
OnSome P (some a) = P a

pub bind-OnSome :
    {A B : Type 0} {P : A → Type 0} (Q : B → Type 0) (o : Option A) (f : A → Option B)
    → OnSome P o
    → ((a : A) → P a → OnSome Q (f a))
    → OnSome Q (o >>= f)
bind-OnSome Q none f h k = tt
bind-OnSome Q (some a) f h k = k a h

-- The text before the first `c` has no `c`, and both parts lack what the text lacks.
pub cut-OnSome :
    (c d : ℕ) (s : Str)
    → Lacks d s
    → OnSome (λ p. Lacks c p.0 × Lacks d p.0 × Lacks d p.1) (cut c s)
unfolding cut
cut-OnSome c d [] h = tt
cut-OnSome c d (x ∷ s) (hx, h) = elim (Bool-cases (x == c)) [
  | inl same ↦ rw (same, if◌then◌else◌) (tt, tt, h)
  | inr other ↦
      rw (other, if◌then◌else◌)
        (bind-OnSome _ (cut c s) (λ p. some (x ∷ p.0, p.1)) (cut-OnSome c d s h)
          (λ p q. ((other, q.0), (hx, q.1), q.2)))
]

-- The ids rise strictly from at least `lo`, and stay below `hi`.
abbrev pub Between : ℕ → List Task → ℕ → Type 0
Between lo [] hi = lo ≤ hi
Between lo (t ∷ ts) hi = (lo ≤ t.id) × Between (t.id + 1) ts hi

Between-weaken : (a b : ℕ) (ts : List Task) (hi : ℕ) → a ≤ b → Between b ts hi → Between a ts hi
Between-weaken a b [] hi h p = omega arith
Between-weaken a b (t ∷ ts) hi h (p, q) = (omega arith, q)

Between-add :
    (lo : ℕ) (ts : List Task) (hi : ℕ) (t : Task)
    → t.id ≡ hi
    → Between lo ts hi
    → Between lo (ts ++ t ∷ []) (hi + 1)
Between-add lo [] hi t e p = (omega arith, omega arith)
Between-add lo (u ∷ ts) hi t e (p, q) = (p, Between-add (u.id + 1) ts hi t e q)

-- The tasks are fit for the list: ids in order, texts that fit in a line.
abbrev pub Fit : ℕ → ℕ → List Task → Type 0
Fit lo hi ts = Between lo ts hi × All IsPlain ts

at_id-Fit :
    (id : ℤ) (f : Task → List Task) (lo hi : ℕ) (ts : List Task)
    → ((lo : ℕ) (t : Task) (ts : List Task) → Fit lo hi (t ∷ ts) → Fit lo hi (f t ++ ts))
    → Fit lo hi ts
    → OnSome (Fit lo hi) (at_id id f ts)
unfolding at_id
at_id-Fit id f lo hi [] step fit = tt
at_id-Fit id f lo hi (t ∷ ts) step ((p, q), (plain, plains)) = elim (Bool-cases (has_id id t)) [
  | inl found ↦ rw (found, if◌then◌else◌) (step lo t ts ((p, q), (plain, plains)))
  | inr other ↦
      rw (other, if◌then◌else◌)
        (bind-OnSome _ (at_id id f ts) (λ us. some (t ∷ us))
          (at_id-Fit id f (t.id + 1) hi ts step (q, plains))
          (λ us fit. ((p, fit.0), (plain, fit.1))))
]

below : (a b : ℕ) → leb a b ≡ false → b < a
below a b h = ground arith

module _ (nums : Numerals) where
  -- Ids from 1 on in rising order and below `nextId` and `INT_MAX`, texts that fit in a line, and a file from which
  -- `LoadTasks` would read the tasks back.
  pub record IsValid (m : TaskManager) : Type 0 where
    pub fit : Fit 1 m.next_id m.tasks
    pub saved : (n : TaskManager) × (load_tasks nums m.file ≡ some n) × (n.tasks ≡ m.tasks)

  module _ (faithful : IsFaithful nums) where
    save-IsValid : (m : TaskManager) → Fit 1 m.next_id m.tasks → IsValid (save nums m)
    unfolding save
    save-IsValid m fit = record {
      fit = fit;
      saved = (_, load_tasks-save_tasks nums faithful m.tasks fit.1, refl);
    }

    pub add_task-IsValid :
        (description : Str) (priority : ℤ) (date : Str) (m : TaskManager)
        → Lacks comma description
        → Lacks newline description
        → Lacks newline date
        → FitsInt priority
        → IsValid m
        → OnSome IsValid (add_task nums description priority date m)
    unfolding add_task
    add_task-IsValid description priority date m c d e fits v =
        elim (Bool-cases (leb int_max m.next_id)) [
          | inl full ↦ rw (full, if◌then◌else◌) tt
          | inr room ↦
              rw (room, if◌then◌else◌)
                (save-IsValid _ (
                  Between-add 1 m.tasks m.next_id _ refl v.fit.0,
                  All-append IsPlain m.tasks _ v.fit.1 (
                    record {
                      no_comma = c;
                      description_line = d;
                      date_line = e;
                      id_fits = below int_max m.next_id room;
                      priority_fits = fits;
                    },
                    tt,
                  ),
                ))
        ]

    stored-IsValid :
        (m : TaskManager) (o : Option (List Task))
        → IsValid m
        → OnSome (Fit 1 m.next_id) o
        → IsValid (stored nums m o).1
    unfolding stored
    stored-IsValid m none v h = v
    stored-IsValid m (some ts) v h = save-IsValid (record m { tasks = ts }) h

    pub remove_task-IsValid :
        (id : ℤ) (m : TaskManager) → IsValid m → IsValid (remove_task nums id m).1
    unfolding remove_task
    remove_task-IsValid id m v = stored-IsValid m _ v (
        at_id-Fit id (λ _. []) 1 m.next_id m.tasks
          (λ lo t ts ((p, q), (_, plains)).
            (Between-weaken lo (t.id + 1) ts m.next_id (omega arith) q, plains))
          v.fit)

    pub update_task-IsValid :
        (id : ℤ) (description : Str) (priority : ℤ) (date : Str) (m : TaskManager)
        → Lacks comma description
        → Lacks newline description
        → Lacks newline date
        → FitsInt priority
        → IsValid m
        → IsValid (update_task nums id description priority date m).1
    unfolding update_task
    update_task-IsValid id description priority date m c d e fits v = stored-IsValid m _ v (
        at_id-Fit id _ 1 m.next_id m.tasks
          (λ lo t ts (p, (plain, plains)). (
            p,
            (
              record {
                no_comma = c;
                description_line = d;
                date_line = e;
                id_fits = plain.id_fits;
                priority_fits = fits;
              },
              plains,
            ),
          ))
          v.fit)
