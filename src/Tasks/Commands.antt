-- ===== src/Tasks/Commands.antt =====
-- basic/final2/command.h and main.cpp: the commands and the main loop.
use c_study.Prelude.{
  List, [], ◌∷◌, length, Option, none, some, Bool, true, false, ◌==◌, ◌&&◌, ◌||◌, if◌then◌else◌,
}
use c_study.Prelude.Options.{◌>>=◌}
use c_study.Tasks.{
  Str, comma, space, Numerals, TaskManager, cut, add_task, remove_task, update_task,
}

unfoldable pub same_text : Str → Str → Bool
same_text [] [] = true
same_text [] (y ∷ ys) = false
same_text (x ∷ xs) [] = false
same_text (x ∷ xs) (y ∷ ys) = x == y && same_text xs ys

-- How the main loop goes on: with this state, at its end, or not in a defined way: with an uncaught exception, or
-- after an overflow of `int`.
pub data Next : Type 0 where
  go : TaskManager → Next
  stop : TaskManager → Next
  thrown : Next

-- The commands by their names.
pub data Command : Type 0 where
  add_command : Command
  delete_command : Command
  list_command : Command
  update_command : Command

abbrev pub add_name : Str
add_name = 97 ∷ 100 ∷ 100 ∷ []

abbrev pub delete_name : Str
delete_name = 100 ∷ 101 ∷ 108 ∷ 101 ∷ 116 ∷ 101 ∷ []

abbrev pub list_name : Str
list_name = 108 ∷ 105 ∷ 115 ∷ 116 ∷ []

abbrev pub update_name : Str
update_name = 117 ∷ 112 ∷ 100 ∷ 97 ∷ 116 ∷ 101 ∷ []

abbrev pub exit_name : Str
exit_name = 101 ∷ 120 ∷ 105 ∷ 116 ∷ []

abbrev pub quit_name : Str
quit_name = 113 ∷ 117 ∷ 105 ∷ 116 ∷ []

module _ (nums : Numerals) where
  open nums use {stoi}

  -- Three fields `a,b,c`, where `c` is the rest.
  unfoldable pub fields₃ : Str → Option (Str × Str × Str)
  fields₃ args = do (a, rest) ← cut comma args; (b, c) ← cut comma rest; some (a, b, c)

  unfoldable pub fields₄ : Str → Option (Str × Str × Str × Str)
  fields₄ args = do (a, rest) ← cut comma args; (b, c, d) ← fields₃ rest; some (a, b, c, d)

  unfoldable pub add_fields : TaskManager → Option (Str × Str × Str) → Option TaskManager
  add_fields m none = some m
  add_fields m (some (description, priority, date)) = do
    (p, _) ← stoi priority
    add_task nums description p date m

  -- `AddCommand::executeImpl`
  unfoldable pub execute_add : Str → TaskManager → Option TaskManager
  execute_add args m = add_fields m (fields₃ args)

  -- `DeleteCommand::executeImpl`
  unfoldable pub execute_delete : Str → TaskManager → Option TaskManager
  execute_delete args m = do
    (id, end) ← stoi args
    some (if end == length args then (remove_task nums id m).1 else m)

  unfoldable pub update_fields : TaskManager → Option (Str × Str × Str × Str) → Option TaskManager
  update_fields m none = some m
  update_fields m (some (id, description, priority, date)) = do
    (i, _) ← stoi id
    (p, _) ← stoi priority
    some (update_task nums i description p date m).1

  -- `UpdateCommand::executeImpl`
  unfoldable pub execute_update : Str → TaskManager → Option TaskManager
  execute_update args m = update_fields m (fields₄ args)

  -- `commandmap.find(name)` and `execute(args)`. `ListCommand` changes nothing and catches exceptions.
  unfoldable pub execute : Str → Str → TaskManager → Option TaskManager
  execute name args m =
      if same_text name add_name
      then execute_add args m
      else if same_text name delete_name
      then execute_delete args m
      else if same_text name update_name
      then execute_update args m
      else some m

  unfoldable pub after : Option TaskManager → Next
  after none = thrown
  after (some m) = go m

  -- Name and arguments of a command.
  unfoldable pub words : Str → Option (Str × Str) → Str × Str
  words input none = (input, [])
  words input (some p) = p

  -- A round of the loop of `main`.
  unfoldable pub main_round : Str → TaskManager → Next
  main_round input m =
      if same_text input []
      then go m
      else if same_text input exit_name || same_text input quit_name
      then stop m
      else let (name, args) = words input (cut space input) in after (execute name args m)

  unfoldable pub main_loop : List Str → TaskManager → Next
  main_loop [] m = go m
  main_loop (input ∷ inputs) m = elim (main_round input m) [
    | go m' ↦ main_loop inputs m'
    | stop m' ↦ stop m'
    | thrown ↦ thrown
  ]
