-- ===== src/Deploy/Exchange.antt =====
-- What cacicdeploy (cacicdeploy/deploytimer.cpp) asks of the manager: to run a module, to note its
-- end, and its file.
use cacic_agente.Base.{
  Bool, true, false, not, ◌&&◌, String, ◌<>◌, Option, none, some, if◌then◌else◌, is_empty,
}
use cacic_agente.Json.{
  bool, str, obj, Object, end, insert, value, to_object, to_string, to_bool, is_null, variant_text,
}
use cacic_agente.Log.{Level}
use cacic_agente.Machine.{Machine}
use cacic_agente.World.{M, ◌>>=◌, ◌>>◌, pure, write_log}
use cacic_agente.World.Route
use cacic_agente.Cacic.{get_json_from_file, get_value}
use cacic_agente.CheckModules.{method_of, method_path}
use cacic_agente.Comm.{Comm, new_comm, comm, set_manager_url}
use cacic_agente.Comm.Download.{file_download}

-- `now` is the time in a request.
module _ (m : Machine) (folder : String) (now : String) where
  no_url : M m (Option Comm)
  no_url = do
    write_log m Level.info "Erro durante tentativa de comunicação."
    write_log m Level.error
        "Url do cacic não encontrada. Para configurar novamente, execute o install-cacic com a opção -configure"
    pure none

  manager_of_config : String → Comm → M m (Option Comm)
  unfolding no_url
  manager_of_config path c = do
    config ← get_json_from_file m path
    let url = to_string (value "applicationUrl" (to_object (value "agentcomputer" config)))
    if is_empty url then no_url else pure (some (set_manager_url url c))

  -- The address of the manager, from the registry or from the configuration
  find_manager : String → M m (Option Comm)
  unfolding manager_of_config
  find_manager path = do
    server ← get_value m "applicationUrl"
    let c = set_manager_url (variant_text server) new_comm
    if is_empty c.manager_url then manager_of_config path c else pure (some c)

  abbrev pub execution_json : Object → Object
  execution_json o =
      insert "computador" (obj m.computer) (insert "data" (str now) (insert "modulo" (obj o) end))

  abbrev with_user : Comm → M m Comm
  with_user c = do
    user ← get_value m "usuario"
    password ← get_value m "password"
    pure (record c { user = variant_text user; password = variant_text password })

  ask : String → Object → Option Comm → M m (Bool × Object)
  ask route o none = pure (false, end)
  ask route o (some c) = do d ← with_user c; comm m d route o true

  -- `commExecucao` for `ROTA_AUTORIZA`
  unfoldable pub ask_authorization : Object → M m Bool
  unfolding find_manager ask
  ask_authorization o = do
    c ← find_manager (folder <> "/getConfig.json")
    (done, r) ← ask Route.authorize (execution_json o) c
    pure (not (is_null (value "autoriza" r)) && to_bool (value "autoriza" r) && done)

  -- `commExecucao` for `ROTA_CONFIRMA`
  unfoldable pub confirm_end : Object → Bool → M m Bool
  unfolding find_manager ask
  confirm_end o good = do
    c ← find_manager (folder <> "/getConfig.json")
    (done, r) ← ask Route.confirm (insert "statusExec" (bool good) (execution_json o)) c
    pure done

  download_from : Object → String → Option Comm → M m Bool
  download_from method name none = pure false
  download_from method name (some c) = do
    write_log m Level.info "comunicando"
    file_download m
        (record c {
          ftp_password = to_string (value "senha" method);
          ftp_user = to_string (value "usuario" method);
        })
        (to_string (value "tipo" method)) c.manager_url (method_path method name)
        (folder <> "deploy/")

  -- `downloadModulo`
  unfoldable pub download_module : String → M m Bool
  unfolding find_manager download_from
  download_module name = do
    config ← get_json_from_file m (folder <> "getConfig.json")
    c ← find_manager (folder <> "getConfig.json")
    download_from (method_of config) name c
