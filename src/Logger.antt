-- ===== src/Logger.antt =====
-- `Logger` (src/utils/Logger.h, src/utils/Logger.cpp): the threshold, and the line that a message becomes.
-- The time stamp and the decimal form of a line number are those of the C++ library.
pub mod Lines
use secure_storage.Base.{
  ℕ, suc, Bool, true, false, Option, none, some, List, [], ◌∷◌, ◌++◌, drop, ltb, if◌then◌else◌,
}
use secure_storage.Base.Text.{Str, codes, find_last, is_separator}

pub data LogLevel : Type 0 where
  debug info warning error : LogLevel

-- The value of the enumerator, which `<` compares.
abbrev pub rank : LogLevel → ℕ
rank debug = 0
rank info = 1
rank warning = 2
rank error = 3

pub record Logger : Type 0 where
  pub current_level : LogLevel

-- The constructor, by whether the build defines `NDEBUG`.
abbrev pub logger : Bool → Logger
logger ndebug = record { current_level = if ndebug then warning else debug }

abbrev pub set_log_level : LogLevel → Logger → Logger
set_log_level level lg = record { current_level = level }

abbrev pub log_level_to_string : LogLevel → Str
log_level_to_string debug = codes "DEBUG"
log_level_to_string info = codes "INFO "
log_level_to_string warning = codes "WARN "
log_level_to_string error = codes "ERROR"

-- The file name at the end of a path.
unfoldable pub file_name : Str → Str
file_name file = elim (find_last is_separator file) [
  | none ↦ file
  | some last_slash ↦ drop (suc last_slash) file
]

module _ (show_line : ℕ → Str) where
  unfoldable pub log_line : Str → LogLevel → Str → Str → ℕ → Str
  log_line timestamp level message file line =
      codes "["
      ++ timestamp
      ++ codes "] "
      ++ codes "["
      ++ log_level_to_string level
      ++ codes "] "
      ++ codes "["
      ++ file_name file
      ++ codes ":"
      ++ show_line line
      ++ codes "] "
      ++ message
      ++ 0x0a ∷ []

  -- `log`: the lines that were output, the last one at the end.
  unfoldable pub log : Str → LogLevel → Str → Str → ℕ → Logger → List Str → List Str
  log timestamp level message file line lg out =
      if ltb (rank level) (rank lg.current_level)
      then out
      else out ++ log_line timestamp level message file line ∷ []
