-- ===== src/Timer.antt =====
-- `CacicTimer` (cacicD/cacictimer.cpp), the heart of the daemon: what its parts share. The fields
-- `cacicMainFolder` and `applicationDirPath` hold one value from the constructor on: `folder`.
pub mod Laws
pub mod Collect
pub mod Clear
pub mod Contact
pub mod Launch
pub mod Logs
pub mod Map
pub mod Period
pub mod Slot
pub mod Update
use cacic_agente.Base.{Bool, true, false, String, ◌<>◌, List, [], ◌∷◌, if◌then◌else◌, is_empty}
use cacic_agente.Json.{
  Object, value, to_object, to_string, has, is_empty_object, Variant, variant_text,
}
use cacic_agente.Log.{Level}
use cacic_agente.Machine.{Machine}
use cacic_agente.World.{World, M, ok, exit, ◌>>=◌, ◌>>◌, pure, write_log}
use cacic_agente.Cacic.{get_json_from_file, get_value}
use cacic_agente.Comm.{Comm, new_comm, set_manager_url}

-- `config["agentcomputer"].toObject()`
abbrev pub agent_computer : Object → Object
agent_computer o = to_object (value "agentcomputer" o)

-- `config["agentcomputer"].toObject()["configuracoes"].toObject()`
abbrev pub settings : Object → Object
settings o = to_object (value "configuracoes" (agent_computer o))

-- `!result.contains("error") && !result.isEmpty()`
abbrev pub is_usable : Object → Bool
is_usable o = if has "error" o then false else if is_empty_object o then false else true

module _ (m : Machine) (folder : String) where
  abbrev pub config_path : String
  config_path = folder <> "/getConfig.json"

  no_url : M m String
  no_url = do
    write_log m Level.error
        "Não foi possível recuperar a url para comunicação.Para consertar, é necessário executar o comando a seguir no terminal/cmd: install-cacic -configure -host=nova_url"
    write_log m Level.error "Problemas ao recuperar url para comunicação."
    pure ""

  url_of_config : M m String
  unfolding no_url
  url_of_config = do
    config ← get_json_from_file m config_path
    let url = to_string (value "applicationUrl" (agent_computer config))
    if is_empty url then no_url else pure url

  -- `CacicTimer::getApplicationUrl`
  unfoldable pub application_url : M m String
  unfolding url_of_config
  application_url = do
    server ← get_value m "applicationUrl"
    if is_empty (variant_text server) then url_of_config else pure (variant_text server)

  -- The `CacicComm` that every exchange sets up anew.
  unfoldable pub connection : String → M m Comm
  connection server = do
    user ← get_value m "usuario"
    password ← get_value m "password"
    pure (record (set_manager_url server new_comm) {
      user = variant_text user;
      password = variant_text password;
    })
