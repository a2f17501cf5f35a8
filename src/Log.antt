-- ===== src/Log.antt =====
-- basic/final1/log.h: the message that the logger forms, and the queue between the threads that log and the
-- worker. Characters are numbers.
pub mod Format
pub mod Order
pub mod Tests
use c_study.Prelude.{
  ℕ, zero, suc, ◌≡◌, ◌≢◌, List, [], ◌∷◌, ◌++◌, length, Option, none, some, Bool, true, false, ◌&&◌,
  ◌==◌, if◌then◌else◌,
}

-- A match, with one more character in front of it.
unfoldable pub after_char : ℕ → Option (List ℕ × List ℕ) → Option (List ℕ × List ℕ)
after_char c none = none
after_char c (some (before, after)) = some (c ∷ before, after)

-- `format.find("{}", pos)` on the text from `pos` on: what is before the match, and what is behind it.
unfoldable pub find_placeholder : List ℕ → Option (List ℕ × List ℕ)
find_placeholder [] = none
find_placeholder (a ∷ []) = none
find_placeholder (a ∷ b ∷ text) =
    let later = after_char a (find_placeholder (b ∷ text)) in
    if (a == 123) && (b == 125) then some ([], text) else later

-- The arguments that are left over.
unfoldable pub put_rest : List (List ℕ) → List ℕ
put_rest [] = []
put_rest (arg ∷ args) = arg ++ put_rest args

-- What is put for a placeholder: the next argument, or `{}` if there is none.
unfoldable pub next_arg : List (List ℕ) → List ℕ × List (List ℕ)
next_arg [] = (123 ∷ 125 ∷ [], [])
next_arg (arg ∷ args) = (arg, args)

unfoldable pub in_front : List ℕ → Option (List ℕ) → Option (List ℕ)
in_front text none = none
in_front text (some out) = some (text ++ out)

-- The loop of `formatMessage`, with fuel; `none` means that the fuel ran out.
unfoldable pub format_loop : ℕ → List ℕ → List (List ℕ) → Option (List ℕ)
format_loop zero text args = none
format_loop (suc fuel) text args = elim (find_placeholder text) [
  | none ↦ some (text ++ put_rest args)
  | some (before, after) ↦
      in_front (before ++ (next_arg args).0) (format_loop fuel after (next_arg args).1)
]

-- `formatMessage`, for the time `now` and the arguments as strings.
unfoldable pub format_message : List ℕ → List ℕ → List (List ℕ) → Option (List ℕ)
format_message now format args =
    in_front (32 ∷ 91 ∷ now ++ 93 ∷ 32 ∷ []) (format_loop (suc (length format)) format args)

pub data LogLevel : Type 0 where
  info : LogLevel
  debug : LogLevel
  warn : LogLevel
  error : LogLevel

-- `[INFO]`, `[DEBUG]`, `[WARN]`, `[ERROR]`
unfoldable pub level_str : LogLevel → List ℕ
level_str info = 91 ∷ 73 ∷ 78 ∷ 70 ∷ 79 ∷ 93 ∷ []
level_str debug = 91 ∷ 68 ∷ 69 ∷ 66 ∷ 85 ∷ 71 ∷ 93 ∷ []
level_str warn = 91 ∷ 87 ∷ 65 ∷ 82 ∷ 78 ∷ 93 ∷ []
level_str error = 91 ∷ 69 ∷ 82 ∷ 82 ∷ 79 ∷ 82 ∷ 93 ∷ []

-- The queue, with what the worker wrote to the file so far, and whether its loop has ended.
pub record LogQueue : Type 0 where
  pub queue : List (List ℕ)
  pub is_shutdown : Bool
  pub written : List (List ℕ)
  pub ended : Bool

abbrev pub new_log : LogQueue
new_log = record { queue = []; is_shutdown = false; written = []; ended = false }

unfoldable pub push : List ℕ → LogQueue → LogQueue
push msg s = record s { queue = s.queue ++ msg ∷ [] }

-- `pop` by the worker and the write that follows it, with the queue's content; `none` means that it
-- waits.
unfoldable pub pop : LogQueue → List (List ℕ) → Option LogQueue
pop s [] = if s.is_shutdown then some (record s { ended = true }) else none
pop s (msg ∷ rest) = some (record s { queue = rest; written = s.written ++ msg ∷ [] })

unfoldable pub shutdown : LogQueue → LogQueue
shutdown s = record s { is_shutdown = true }

-- `log`
unfoldable pub log : List ℕ → LogLevel → List ℕ → List (List ℕ) → LogQueue → Option LogQueue
log now level format args s = push_message (format_message now format args)
  where
    push_message : Option (List ℕ) → Option LogQueue
    push_message none = none
    push_message (some out) = some (push (level_str level ++ out) s)

-- What a logger reaches, with the messages pushed so far. The worker pops until its loop ends, and nobody
-- logs any more once the destructor has called `shutdown`.
pub data Reaches : List (List ℕ) → LogQueue → Type 0 where
  start : Reaches [] new_log
  pushed :
      {ms : List (List ℕ)} {s : LogQueue} (msg : List ℕ)
      → Reaches ms s
      → s.is_shutdown ≡ false
      → Reaches (ms ++ msg ∷ []) (push msg s)
  popped :
      {ms : List (List ℕ)} {s t : LogQueue}
      → Reaches ms s
      → s.ended ≡ false
      → pop s s.queue ≡ some t
      → Reaches ms t
  closed : {ms : List (List ℕ)} {s : LogQueue} → Reaches ms s → Reaches ms (shutdown s)
