-- ===== src/Timer/Map.antt =====
-- `CacicTimer::getMapa`: asks the manager whether the user is to be asked for the map.
pub mod Laws
use cacic_agente.Base.{Bool, true, false, ◌&&◌, ◌||◌, String, ◌<>◌, if◌then◌else◌, is_empty}
use cacic_agente.Json.{
  Object, end, str, obj, value, insert, has, to_object, to_bool, is_string, is_empty_object,
}
use cacic_agente.Log.{Level}
use cacic_agente.Machine.{Machine}
use cacic_agente.World.{World, M, ok, exit, ◌>>=◌, ◌>>◌, pure, write_log}
use cacic_agente.World.Route
use cacic_agente.Cacic.{set_json_to_file, get_json_from_file}
use cacic_agente.Comm.{comm}
use cacic_agente.Timer.{agent_computer, config_path, application_url, connection}

-- The configuration with the answer as its "mapa".
abbrev pub with_map : Object → Object → Object
with_map configs reply =
    insert "agentcomputer" (obj (insert "mapa" (obj reply) (agent_computer configs))) configs

module _ (m : Machine) (folder : String) where
  abbrev pub map_request : Object
  map_request = insert "request" (str "getMapa") (insert "computador" (obj m.computer) end)

  -- The configuration goes to a path that lacks the slash after the folder.
  keep_map : Object → Object → M m (Unit {0})
  unfolding set_json_to_file
  keep_map configs reply =
      if is_empty_object configs
      then write_log m Level.error "Falha ao ler arquivo de configurações."
      else (do
        _ ← set_json_to_file m (with_map configs reply) (folder <> "getConfig.json")
        pure tt)

  map_asked : Bool → M m Bool
  map_asked asked = do
    write_log m Level.info
        (if asked then "Execução do Mapa solicitado." else "Execução do Mapa não solicitada.")
    pure asked

  map_replied : Object → Object → M m Bool
  unfolding keep_map map_asked
  map_replied configs reply =
      if has "col_patr" reply
      then (do keep_map configs reply; map_asked (to_bool (value "col_patr" reply)))
      else pure true

  map_answered : Object → Bool × Object → M m Bool
  unfolding map_replied
  map_answered configs (false, r) = pure false
  map_answered configs (true, r) =
      if has "error" r || (has "reply" r && is_string (value "reply" r))
      then pure false
      else if has "reply" r
      then map_replied configs (to_object (value "reply" r))
      else pure true

  ask_map : Object → String → M m Bool
  unfolding map_answered
  ask_map configs server = do
    c ← connection m folder server
    r ← comm m c Route.get_map map_request true
    map_answered configs r

  -- `CacicTimer::getMapa`
  unfoldable pub get_map : M m Bool
  unfolding ask_map
  get_map = do
    configs ← get_json_from_file m (config_path m folder)
    server ← application_url m folder
    if is_empty server then pure false else ask_map configs server
