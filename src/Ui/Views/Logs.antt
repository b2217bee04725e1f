-- ===== src/Ui/Views/Logs.antt =====
-- crates/zicade-ui/src/views/logs.rs and `describe` of log_buffer.rs: which lines the log page shows.
use zicade_rs.Prelude.{◌||◌, Bool, true, List, [], ◌∷◌, ◌++◌, filter}
use zicade_rs.Text.{Str, text, str_eq, trim}
use zicade_rs.Observe.{LogEvent}
use zicade_rs.Observe.Layer.{Entry, StrMap}
use zicade_rs.Ui.LogBuffer.{LogBuffer}
use zicade_rs.Ui.Views.{contains_str, is_empty}

pub data Levels : Type 0 where
  all warnings errors : Levels

unfoldable pub admits : Levels → Str → Bool
admits all level = true
admits warnings level = str_eq level (text "WARN") || str_eq level (text "ERROR")
admits errors level = str_eq level (text "ERROR")

abbrev pub fields_text : StrMap → Str
fields_text [] = []
fields_text (f ∷ fs) = text " " ++ (f.0 ++ (text "=" ++ (f.1 ++ fields_text fs)))

unfoldable pub describe : Entry → Str
describe e =
    text "["
    ++ (e.level ++ (text "] " ++ (e.target ++ (text ": " ++ (e.message ++ fields_text e.fields)))))

unfoldable pub found : (Str → Str) → Str → LogEvent Entry → Bool
unfolding describe
found lower needle e = is_empty needle || contains_str needle (lower (describe e.event))

unfoldable pub shown : (Str → Str) → Str → Levels → LogBuffer Entry → List (LogEvent Entry)
unfolding admits found
shown lower search levels buffer =
    filter (found lower (lower (trim search)))
      (filter (λ e. admits levels e.event.level) buffer.events)
