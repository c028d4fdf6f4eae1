-- ===== src/InstallCacic/Install.antt =====
-- The installation (`InstallCacic::install`).
pub mod Laws
pub mod Steps
use cacic_agente.Base.{
  Bool, true, false, not, ◌&&◌, String, ◌<>◌, ◌===◌, Option, none, some, List, [], ◌∷◌,
  if◌then◌else◌, is_some, contains, ends_with, ltb,
}
use cacic_agente.Json.{
  Json, str, obj, Object, end, insert, text, value, has, to_object, to_string, to_array, is_null,
  is_string,
}
use cacic_agente.Log.{Level}
use cacic_agente.Machine.{Machine}
use cacic_agente.World.{World, M, ok, ◌>>=◌, ◌>>◌, pure, write_log, Registry}
use cacic_agente.World.Route
use cacic_agente.Cacic.{set_values, set_json_to_file, md5_is_equal}
use cacic_agente.Comm.{Comm, new_comm, set_manager_url, comm, login}
use cacic_agente.Comm.Download.{file_download}
use cacic_agente.InstallCacic.Arguments.{Params, argument_or_empty}
use cacic_agente.InstallCacic.Uninstall.{System, attempt, log_failure, run_command, uninstall_agent}

-- The connection with the arguments
unfoldable pub connection : Params → Comm
connection args = record (set_manager_url (argument_or_empty "host" args) new_comm) {
  user = argument_or_empty "user" args;
  password = argument_or_empty "pass" args;
}

-- The values that are stored, in the order of their keys
abbrev pub registered : String → Comm → Registry
registered folder c =
    ("applicationUrl", text c.manager_url)
    ∷ ("mainFolder", text folder)
    ∷ ("password", text c.password)
    ∷ ("usuario", text c.user)
    ∷ []

abbrev pub method_in : Object → Object
method_in agent = to_object (value "metodoDownload" agent)

abbrev pub uses_ftp : Object → Bool
uses_ftp method =
    has "tipo" method
    && is_string (value "tipo" method)
    && to_string (value "tipo" method) === "ftp"

abbrev pub or_kept : Json → String → String
or_kept v s = if is_null v then s else to_string v

unfoldable pub with_credentials : Object → Comm → Comm
with_credentials method c =
    if uses_ftp method
    then record c {
      ftp_user = or_kept (value "usuario" method) c.ftp_user;
      ftp_password = or_kept (value "senha" method) c.ftp_password;
    }
    else c

abbrev pub download_path : Object → String → String
download_path method file =
    to_string (value "path" method)
    <> ((if ends_with (to_string (value "path" method)) "/" then "" else "/") <> file)

-- The digest of the last module that has the service's name
abbrev pub service_hash : List Json → String → String
service_hash [] hash = hash
service_hash (v ∷ vs) hash = service_hash vs (
    if contains (to_string (value "name" (to_object v))) "cacic-service"
    then to_string (value "hash" (to_object v))
    else hash)

abbrev pub module_list : Object → List Json
module_list agent = to_array (value "cacic" (to_object (value "modulos" agent)))

module _ (m : Machine) (s : System m) (folder : String) where
  abbrev pub service_file : String
  service_file = folder <> "/cacic-service.exe"

  -- `readAll` of a file that may not have been opened
  abbrev pub content_of : Option m.Bytes → Bool → m.Bytes
  content_of (some b) true = b
  content_of _ _ = m.no_bytes

  abbrev pub is_current : Object → World m → Bool
  is_current agent w =
      md5_is_equal m (content_of (m.read w.disk service_file) (m.readable w.disk service_file))
        (service_hash (module_list agent) "")

  unfoldable pub keep_running : M m (Unit {0})
  keep_running w = if s.is_running w then ok tt w else ok tt (s.start w).1

  unfoldable pub stop_outdated : M m (Unit {0})
  stop_outdated w = ok tt (s.stop_checker (s.stop w).1)

  -- Whether the installation is over, since the service is there and current
  unfoldable pub check_service : Object → M m Bool
  check_service agent w =
      if s.is_installed w
      then (if is_current agent w
          then (do
            write_log m Level.info "Servico ja instalado e atualizado."
            keep_running
            pure true)
              w
          else if s.is_running w
          then (do
            write_log m Level.info "Servico atual desatualizado. Preparando atualização."
            stop_outdated
            pure false)
              w
          else ok false w)
      else ok false w

  unfoldable pub open_service_file : M m (Unit {0})
  open_service_file w =
      if m.readable w.disk service_file
      then ok tt w
      else (do
        write_log m Level.info ("Falha ao abrir o arquivo " <> service_file)
        write_log m Level.error (s.open_error service_file w))
          w

  unfoldable pub check_file : Object → M m Bool
  check_file agent w =
      if is_some (m.read w.disk service_file)
      then (do open_service_file; check_service agent) w
      else ok false w

  unfoldable pub after_start : Bool → M m (Unit {0})
  after_start true = write_log m Level.info "Instalação realizada com sucesso."
  after_start false = do
    write_log m Level.info "Falha ao iniciar o serviço. Reinicie o computador!"
    log_failure m s folder Level.error "Falha ao iniciar o serviço: " false

  unfoldable pub start_service : M m (Unit {0})
  start_service = do done ← attempt m s folder s.start; after_start done

  unfoldable pub after_install : Bool → M m (Unit {0})
  after_install true = pure tt
  after_install false = do
    log_failure m s folder Level.error "Falha ao reinstalar o serviço: " false
    uninstall_agent m s folder

  unfoldable pub install_service : M m (Unit {0})
  install_service w =
      if s.is_installed w
      then ok tt w
      else (do done ← attempt m s folder s.install; after_install done) w

  unfoldable pub download_service : String → Object → Comm → M m Bool
  download_service file method c =
      file_download m c (to_string (value "tipo" method)) (to_string (value "url" method))
        (download_path method file) folder

  unfoldable pub after_download : M m (Unit {0})
  unfolding start_service install_service
  after_download w =
      if is_some (m.read w.disk service_file)
      then (do install_service; start_service) w
      else (do
        write_log m Level.info "Falha ao baixar servico."
        write_log m Level.error "Falha ao baixar servico.")
          w

  unfoldable pub download_windows : Object → Comm → M m (Unit {0})
  unfolding download_service
  download_windows agent c = do
    write_log m Level.info "Realizando download do servico."
    _ ← download_service "cacic-service.exe" (method_in agent) c
    after_download

  unfoldable pub install_windows : Object → Comm → M m (Unit {0})
  install_windows agent c = do
    over ← check_file agent
    (if over then pure tt else download_windows agent c)

  -- The file is there and not empty.
  abbrev pub was_downloaded : World m → Bool
  was_downloaded w = elim (m.read w.disk (folder <> "/cacic-service")) [
    | none ↦ false
    | some b ↦ ltb 0 (m.size b)
  ]

  unfoldable pub start_linux : M m (Unit {0})
  start_linux w =
      if was_downloaded w
      then run_command m s folder "/etc/init.d/cacic3 start" w
      else (do write_log m Level.error "Falha ao baixar o serviço..."; uninstall_agent m s folder) w

  unfoldable pub install_linux : Object → Comm → M m (Unit {0})
  unfolding download_service
  install_linux agent c = do _ ← download_service "cacic-service" (method_in agent) c; start_linux

  unfoldable pub install_on : Object → Comm → M m (Unit {0})
  install_on agent c = if s.windows then install_windows agent c else install_linux agent c

  -- What follows the answer with the configuration
  unfoldable pub store_reply : Object → M m Bool
  store_reply reply = do
    write_log m Level.info "Sucesso! Salvando configurações em arquivo..."
    set_json_to_file m reply (folder <> "/getConfig.json")

  unfoldable pub set_up : Object → Comm → M m (Unit {0})
  set_up reply c = do
    let agent = to_object (value "agentcomputer" reply)
    let d = set_manager_url (to_string (value "applicationUrl" agent)) c
    set_values m (registered folder d)
    _ ← store_reply reply
    write_log m Level.info "Verificando serviço..."
    install_on agent (with_credentials (method_in agent) d)

  unfoldable pub after_config : Comm → Bool × Object → M m (Unit {0})
  after_config c (true, r) = set_up (to_object (value "reply" r)) c
  after_config c (false, r) =
      write_log m Level.error ("Falha ao pegar configurações: " <> to_string (value "error" r))

  unfoldable pub after_login : Bool × Object × Comm → M m (Unit {0})
  after_login (true, _, c) = do
    write_log m Level.info "Login realizado com sucesso!"
    write_log m Level.info "Pegando informações do gerente..."
    r ← comm m c Route.get_config (insert "computador" (obj m.computer) end) true
    after_config c r
  after_login (false, r, c) =
      write_log m Level.error ("Falha no login: " <> to_string (value "error" r))

  -- `InstallCacic::install`
  unfoldable pub install_agent : Params → M m (Unit {0})
  install_agent args = do r ← login m (connection args); after_login r
