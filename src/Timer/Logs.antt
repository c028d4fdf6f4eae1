-- ===== src/Timer/Logs.antt =====
-- `CacicTimer`: the last lines of the logs, for the manager. `lines` is what `QTextStream::readLine`
-- makes of a file.
pub mod Laws
use Prim.Native.String.{len}
use package.text.Mathlib.Text.{find?}
use cacic_agente.Base.{
  ℕ, zero, suc, ◌+◌, ◌-◌, Bool, true, false, ◌&&◌, ◌||◌, String, ◌<>◌, Option, none, some, List, [],
  ◌∷◌, if◌then◌else◌, is_empty, length, get_elem?, is_some,
}
use cacic_agente.Json.{
  Json, Object, end, str, obj, arr, value, insert, has, to_string, of_list, is_empty_object,
}
use cacic_agente.Log.{Level, level_of_name, log_path}
use cacic_agente.Machine.{Machine}
use cacic_agente.World.{World, M, ok, exit, ◌>>=◌, ◌>>◌, pure, write_log}
use cacic_agente.World.Route
use cacic_agente.Comm.{comm, slice}
use cacic_agente.Timer.{application_url, connection}

-- `N_LOGS_ENVIO`
abbrev pub line_count : ℕ
line_count = 10

-- `line.mid(1, line.indexOf("]") - 1)`, where a count below 0 is all that is left
abbrev timestamp_of : String → String
timestamp_of line = elim (find? line "]") [
  | none ↦ slice line 1 (len line)
  | some zero ↦ slice line 1 (len line)
  | some (suc i) ↦ slice line 1 (suc i)
]

-- `line.mid(line.indexOf("]") + 2)`
abbrev message_of : String → String
message_of line = elim (find? line "]") [
  | none ↦ slice line 1 (len line)
  | some i ↦ slice line (i + 2) (len line)
]

abbrev pub line_json : String → Json
line_json line =
    obj
      (insert "message" (str (message_of line)) (insert "timestamp" (str (timestamp_of line)) end))

-- The rest of the loop over the lines, with the rounds left, of which the next one reads the line
-- before the given place. `none` is a read before the first line.
unfoldable pub entries_from : ℕ → ℕ → List String → Option (List Json)
entries_from zero place ls = some []
entries_from (suc n) zero ls = none
entries_from (suc n) (suc i) ls = elim (get_elem? ls i) [
  | none ↦ none
  | some line ↦ elim (entries_from n i ls) [ none ↦ none | some es ↦ some (line_json line ∷ es) ]
]

-- The loop over the lines: the last ones first.
unfoldable pub log_entries : List String → Option (List Json)
log_entries ls = entries_from line_count (length ls) ls

module _ (m : Machine) (folder : String) (lines : m.Bytes → List String) where
  abbrev entries_of_file : Option m.Bytes → Option (List Json)
  entries_of_file none = some []
  entries_of_file (some b) = log_entries (lines b)

  -- The entries of a level: none of a file that is not there or does not open.
  unfoldable pub level_entries : Level → World m → Option (List Json)
  level_entries l w =
      let p = log_path (folder <> "/Logs") l in
      if m.readable w.disk p then entries_of_file (m.read w.disk p) else some []

  abbrev level_key : Level → Option String
  level_key Level.info = some "logInfo"
  level_key Level.error = some "logError"
  level_key _ = none

  add_level : Level → Object → World m → Option Object
  unfolding level_entries
  add_level l o w = elim (level_key l) [
    | none ↦ some o
    | some k ↦ elim (level_entries l w) [
      | none ↦ none
      | some es ↦ some (insert k (arr (of_list es)) o)
    ]
  ]

  -- The loop over the names of the levels.
  unfoldable pub add_levels : List String → Object → World m → Option Object
  unfolding add_level
  add_levels [] o w = some o
  add_levels (s ∷ ss) o w = elim (add_level (level_of_name s) o w) [
    | none ↦ none
    | some o' ↦ add_levels ss o' w
  ]

  logs_answered : Bool × Object → M m Bool
  logs_answered (true, r) =
      if has "error" r
      then (do
        write_log m Level.error
            ("Falha ao enviar logs para o gerente: " <> to_string (value "error" r))
        pure false)
      else if is_empty_object r
      then pure true
      else (do write_log m Level.info "Log enviado com sucesso."; pure true)
  logs_answered (false, r) = do
    write_log m Level.error
        "Falha ao enviar logs para o gerente: Arquivo de Log vazio ou inexistente."
    pure false

  post_logs : Object → String → M m Bool
  unfolding logs_answered
  post_logs o server = do
    c ← connection m folder server
    write_log m Level.info "Enviando logs ao gerente."
    r ← comm m c Route.log o true
    logs_answered r

  send_gathered : Option Object → M m (Option Bool)
  unfolding post_logs
  send_gathered none = pure none
  send_gathered (some o) = do
    server ← application_url m folder
    if is_empty server then pure (some false) else (do b ← post_logs o server; pure (some b))

  gather : List String → M m (Option Object)
  unfolding add_levels
  gather names w = ok (add_levels names (insert "computador" (obj m.computer) end) w) w

  -- `CacicTimer::realizarEnvioDeLogs`; `none` is a read out of range.
  unfoldable pub send_level_logs : List String → M m (Option Bool)
  unfolding gather send_gathered
  send_level_logs [] = pure (some false)
  send_level_logs (s ∷ ss) = do
    write_log m Level.info "Iniciando envio de log."
    o ← gather (s ∷ ss)
    send_gathered o

  -- `CacicTimer::enviarLogs`
  unfoldable pub send_logs : M m (Option Bool)
  unfolding send_level_logs
  send_logs = send_level_logs ("InfoLevel" ∷ "ErrorLevel" ∷ [])
