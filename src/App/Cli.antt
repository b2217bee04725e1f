-- ===== src/App/Cli.antt =====
-- apps/zicade/src/cli.rs: the command that the arguments name, and how the process then runs.
use zicade_rs.Prelude.{ℕ, Bool, ◌==◌, ◌||◌, Option, none, some, List, [], ◌∷◌, if◌then◌else◌}
use zicade_rs.Text.{Str, text, str_eq, starts_with, join}

-- `by_default` is the source's `Default`; a path is its text.
pub data Command : Type 0 where
  by_default : Command
  run : Option Str → Command
  background : Command
  help : Command
  unknown : Str → Command

pub data LaunchMode : Type 0 where
  console tray in_background : LaunchMode

unfoldable pub launch_mode : ℕ → Command → LaunchMode
launch_mode console_process_count background = in_background
launch_mode console_process_count by_default = if console_process_count == 1 then tray else console
launch_mode console_process_count (run path) = console
launch_mode console_process_count help = console
launch_mode console_process_count (unknown why) = console

abbrev pub second : List Str → Option Str
second [] = none
second (arg ∷ args) = some arg

abbrev pub asks_for_help : Str → Bool
asks_for_help first =
    str_eq first (text "--help") || str_eq first (text "-h") || str_eq first (text "help")

unfoldable pub parse_args : List Str → Command
parse_args [] = by_default
parse_args (first ∷ rest) =
    if asks_for_help first
    then help
    else (if str_eq first (text "--background")
        then background
        else (if str_eq first (text "run")
            then run (second rest)
            else (if str_eq first (text "service")
                then unknown (join (text " ") (first ∷ rest))
                else (if starts_with (text "-") first then unknown first else run (some first)))))
