-- ===== src/Log/Laws.antt =====
-- Level names and levels, both ways.
use text.Mathlib.TextEquality.{eq_iff}
use cacic_agente.Base.{String, ◌≡◌, refl, ◌≢◌, ◌↔◌, arith}
use cacic_agente.Log.{Level, level_name, level_of_name, logger_level}

-- The name of a level reads back as a level that QLogger treats alike.
pub logger_level-level_of_name-level_name :
    (l : Level) → logger_level (level_of_name (level_name l)) ≡ logger_level l
unfolding logger_level level_of_name level_name
logger_level-level_of_name-level_name Level.trace = refl
logger_level-level_of_name-level_name _ = refl

-- A text is read as a level other than `unknown` exactly if it is that level's own name.
pub level_of_name_iff :
    (s : String) → (level_of_name s ≢ Level.unknown) ↔ (level_name (level_of_name s) ≡ s)
unfolding level_of_name level_name
level_of_name_iff s = ground (
  arith,
  eq_iff s "TraceLevel",
  eq_iff s "DebugLevel",
  eq_iff s "InfoLevel",
  eq_iff s "WarnLevel",
  eq_iff s "ErrorLevel",
  eq_iff s "FatalLevel",
)
