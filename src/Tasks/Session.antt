-- ===== src/Tasks/Session.antt =====
-- basic/final2/main.cpp: what a whole session of commands keeps.
use c_study.Prelude.{
  List, [], ◌∷◌, Option, none, some, ◌==◌, ◌||◌, if◌then◌else◌, length, Bool-cases, Option-cases,
  inl, inr,
}
use c_study.Prelude.Sorted.{All}
use c_study.Tasks.{Str, comma, newline, space, Numerals, TaskManager, cut}
use c_study.Tasks.Commands.{
  Next, go, stop, thrown, main_round, main_loop, execute, execute_add, execute_delete,
  execute_update, add_fields, update_fields, fields₃, fields₄, words, after, same_text, add_name,
  delete_name, update_name, exit_name, quit_name,
}
use c_study.Tasks.Saved.{IsFaithful, FitsInt, Lacks}
use c_study.Tasks.Ids.{
  OnSome, bind-OnSome, cut-OnSome, IsValid, add_task-IsValid, remove_task-IsValid,
  update_task-IsValid,
}

-- The state that is left has `P`, unless an exception or an overflow ended the program.
abbrev pub Leaves : (TaskManager → Type 0) → Next → Type 0
Leaves P (go m) = P m
Leaves P (stop m) = P m
Leaves P thrown = Unit

weaken :
    {A : Type 0} {P Q : A → Type 0} (o : Option A) → ((a : A) → P a → Q a) → OnSome P o → OnSome Q o
weaken none f h = tt
weaken (some a) f h = f a h

any_result : {A : Type 0} (o : Option A) → OnSome (λ _. Unit {0}) o
any_result none = tt
any_result (some a) = tt

module _ (nums : Numerals) where
  Fields : Str × Str × Str → Type 0
  Fields p = Lacks comma p.0 × Lacks newline p.0 × Lacks newline p.2

  fields₃-Fields : (s : Str) → Lacks newline s → OnSome Fields (fields₃ nums s)
  unfolding fields₃ Fields
  fields₃-Fields s h = bind-OnSome _ (cut comma s) _ (cut-OnSome comma newline s h) (λ p q.
      bind-OnSome _ (cut comma p.1) _ (cut-OnSome comma newline p.1 q.2)
        (λ p' q'. (q.0, q.1, q'.2)))

  fields₄-Fields :
      (s : Str) → Lacks newline s → OnSome (λ p. Fields (p.1, p.2, p.3)) (fields₄ nums s)
  unfolding fields₄
  fields₄-Fields s h =
      bind-OnSome _ (cut comma s) _ (cut-OnSome comma newline s h)
        (λ p q. bind-OnSome _ (fields₃ nums p.1) _ (fields₃-Fields p.1 q.2) (λ p' q'. q'))

  module _ (faithful : IsFaithful nums) where
    stoi-FitsInt : (s : Str) → OnSome (λ n. FitsInt n.0) (nums.stoi s)
    stoi-FitsInt s = elim (Option-cases (nums.stoi s)) [
      | inl e ↦ rw (e) tt
      | inr (n, e) ↦ rw (e) (faithful.stoi-fits s n.0 n.1 e)
    ]

    add_fields-IsValid :
        (m : TaskManager) (o : Option (Str × Str × Str))
        → IsValid nums m
        → OnSome Fields o
        → OnSome (IsValid nums) (add_fields nums m o)
    unfolding add_fields Fields
    add_fields-IsValid m none v h = v
    add_fields-IsValid m (some (d, p, date)) v h =
        bind-OnSome _ (nums.stoi p) _ (stoi-FitsInt p)
          (λ n fits. add_task-IsValid nums faithful d n.0 date m h.0 h.1 h.2 fits v)

    update_fields-IsValid :
        (m : TaskManager) (o : Option (Str × Str × Str × Str))
        → IsValid nums m
        → OnSome (λ p. Fields (p.1, p.2, p.3)) o
        → OnSome (IsValid nums) (update_fields nums m o)
    unfolding update_fields Fields
    update_fields-IsValid m none v h = v
    update_fields-IsValid m (some (id, d, p, date)) v h =
        bind-OnSome _ (nums.stoi id) _ (any_result _) (λ i _.
          bind-OnSome _ (nums.stoi p) _ (stoi-FitsInt p)
            (λ n fits. update_task-IsValid nums faithful i.0 d n.0 date m h.0 h.1 h.2 fits v))

    execute_delete-IsValid :
        (args : Str) (m : TaskManager)
        → IsValid nums m
        → OnSome (IsValid nums) (execute_delete nums args m)
    unfolding execute_delete
    execute_delete-IsValid args m v = bind-OnSome _ (nums.stoi args) _ (any_result _) (λ n _.
        elim (Bool-cases (n.1 == length args)) [
          | inl e ↦ rw (e, if◌then◌else◌) (remove_task-IsValid nums faithful n.0 m v)
          | inr e ↦ rw (e, if◌then◌else◌) v
        ])

    execute-IsValid :
        (name args : Str) (m : TaskManager)
        → Lacks newline args
        → IsValid nums m
        → OnSome (IsValid nums) (execute nums name args m)
    unfolding execute execute_add execute_update
    execute-IsValid name args m h v = elim (Bool-cases (same_text name add_name)) [
      | inl e ↦
          rw (e, if◌then◌else◌) (add_fields-IsValid m (fields₃ nums args) v (fields₃-Fields args h))
      | inr e ↦
          rw (e, if◌then◌else◌)
            (elim (Bool-cases (same_text name delete_name)) [
              | inl e ↦ rw (e, if◌then◌else◌) (execute_delete-IsValid args m v)
              | inr e ↦
                  rw (e, if◌then◌else◌)
                    (elim (Bool-cases (same_text name update_name)) [
                      | inl e ↦
                          rw (e, if◌then◌else◌)
                            (update_fields-IsValid m (fields₄ nums args) v (fields₄-Fields args h))
                      | inr e ↦ rw (e, if◌then◌else◌) v
                    ])
            ])
    ]

    after-Leaves :
        (o : Option TaskManager) → OnSome (IsValid nums) o → Leaves (IsValid nums) (after nums o)
    unfolding after
    after-Leaves none h = tt
    after-Leaves (some m) h = h

    words-Lacks :
        (input : Str) (o : Option (Str × Str))
        → OnSome (λ p. Lacks newline p.1) o
        → Lacks newline (words nums input o).1
    unfolding words
    words-Lacks input none h = tt
    words-Lacks input (some p) h = h

    args-Lacks :
        (input : Str) → Lacks newline input → OnSome (λ p. Lacks newline p.1) (cut space input)
    args-Lacks input h = weaken (cut space input) (λ p q. q.2) (cut-OnSome space newline input h)

    main_round-IsValid :
        (input : Str) (m : TaskManager)
        → Lacks newline input
        → IsValid nums m
        → Leaves (IsValid nums) (main_round nums input m)
    unfolding main_round
    main_round-IsValid input m h v = elim (Bool-cases (same_text input [])) [
      | inl e ↦ rw (e, if◌then◌else◌) v
      | inr e ↦
          rw (e, if◌then◌else◌)
            (elim (Bool-cases (same_text input exit_name || same_text input quit_name)) [
              | inl e ↦ rw (e, if◌then◌else◌) v
              | inr e ↦
                  rw (e, if◌then◌else◌)
                    (after-Leaves _
                      (execute-IsValid _ _ m (words-Lacks input _ (args-Lacks input h)) v))
            ])
    ]

    -- From a valid state, where the numbers of an `int` are read back as they are written, and whatever lines are
    -- typed, as long as no line holds a newline: wherever the loop of `main` stops without an exception and
    -- without an overflow of `nextId`, the state is valid. The ids are then distinct, below `nextId` and below
    -- `INT_MAX`, and `LoadTasks` reads back from the file the tasks in memory, without an overflow.
    pub main_loop-IsValid :
        (inputs : List Str) (m : TaskManager)
        → All (Lacks newline) inputs
        → IsValid nums m
        → Leaves (IsValid nums) (main_loop nums inputs m)
    unfolding main_loop
    main_loop-IsValid [] m h v = v
    main_loop-IsValid (input ∷ inputs) m (h, hs) v =
        elim (main_round nums input m)
            as (λ n.
              Leaves (IsValid nums) n
              → Leaves (IsValid nums) (elim n as (λ _. Next) [
                | go m' ↦ main_loop nums inputs m'
                | stop m' ↦ stop m'
                | thrown ↦ thrown
              ])) [
                | go m' ↦ λ v'. main_loop-IsValid inputs m' hs v'
                | stop m' ↦ λ v'. v'
                | thrown ↦ λ v'. v'
              ]
          (main_round-IsValid input m h v)
