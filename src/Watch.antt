-- ===== src/Watch.antt =====
-- `chksysTimer` (chksys/chksystimer.cpp): the checker, which puts new modules in place and sees to it
-- that the service runs. `folder` is `cacicFolder`, which ends in a slash.
pub mod Laws
use cacic_agente.Base.{
  Bool, true, false, not, ◌&&◌, ◌||◌, String, ◌<>◌, Option, none, some, List, [], ◌∷◌, ltb,
  if◌then◌else◌, contains, ends_with, is_some,
}
use cacic_agente.Json.{Object, value, to_string, is_empty_object}
use cacic_agente.Log.{Level}
use cacic_agente.Machine.{Machine}
use cacic_agente.World.{World, M, ok, exit, ◌>>=◌, ◌>>◌, pure, write_log, exists, remove, copy}
use cacic_agente.Cacic.{get_json_from_file}
use cacic_agente.Cacic.System.{find_proc}
use cacic_agente.CheckModules.{method_of, download_comm, method_path}
use cacic_agente.Comm.Download.{file_download}

-- What the checker asks of the service, in either system: on Windows through a service controller,
-- with its last error, on Linux by commands of the shell.
pub record Control (m : Machine) : Type 0 where
  pub is_installed : World m → Bool
  pub is_running : World m → Bool
  pub install : World m → Bool × World m
  pub start : World m → Bool × World m
  pub stop : World m → Bool × World m
  pub last_error : World m → String

module _ (m : Machine) (control : Control m) (windows : Bool) (folder : String) where
  -- `moduloName`
  abbrev pub service_file : String
  service_file = if windows then "cacic-service.exe" else "cacic-service"

  -- `cacicFolder + moduloName`
  abbrev pub checked_path : String
  checked_path = folder <> service_file

  refuse : String → M m Bool
  refuse message = do write_log m Level.error message; pure false

  too_small : Object → M m Bool
  too_small method = do
    write_log m Level.error (
        "Falha ao baixar "
        <> service_file
        <> "("
        <> to_string (value "tipo" method)
        <> "://"
        <> to_string (value "url" method)
        <> method_path method service_file
        <> ")")
    _ ← remove m checked_path
    pure false

  judge_download : Object → Bool → M m Bool
  unfolding refuse too_small
  judge_download method false w = refuse ("Problemas durante o download de " <> service_file) w
  judge_download method true w = elim (m.read w.disk checked_path) [
    | none ↦ too_small method w
    | some b ↦ if ltb 1 (m.size b) then ok true w else too_small method w
  ]

  -- The size of a file that is not there is 0, so that nothing corrupt is ever removed here.
  fetch_service : Object → M m Bool
  unfolding judge_download
  fetch_service method = do
    done ←
        file_download m (download_comm method) (to_string (value "tipo" method))
          (to_string (value "url" method)) (method_path method service_file) folder
    judge_download method done

  with_method : Object → M m Bool
  unfolding fetch_service refuse
  with_method method w =
      if is_empty_object method
      then refuse
          ("Não foi possível recuperar json de " <> folder <> "/getConfig.json ao tentar baixar "
            <> service_file)
          w
      else if is_some (m.read w.disk checked_path)
      then ok true w
      else fetch_service method w

  -- `chksysTimer::downloadService`
  unfoldable pub download_service : M m Bool
  unfolding with_method
  download_service = do
    config ← get_json_from_file m (folder <> "/getConfig.json")
    with_method (method_of config)

  abbrev target : String → String
  target name =
      if windows && contains name "install-cacic"
      then folder <> ("/bin/" <> name)
      else folder <> ("/" <> name)

  abbrev source : String → String
  source name = folder <> "/temp/" <> name

  abbrev service_is_up : World m → Bool
  service_is_up w = if windows then control.is_running w else find_proc "cacic-service" m.processes

  note_stop : Bool → M m (Unit {0})
  note_stop true w = ok tt w
  note_stop false w =
      if windows
      then write_log m Level.error ("Falha ao parar serviço. Info: " <> control.last_error w) w
      else ok tt w

  note_stopping : M m (Unit {0})
  note_stopping w =
      if windows then write_log m Level.info "Serviço rodando.. parando servico" w else ok tt w

  try_stop : M m Bool
  try_stop w = let (done, v) = control.stop w in ok done v

  -- The service is stopped before its own file is replaced.
  stop_service : String → M m (Unit {0})
  unfolding note_stop note_stopping try_stop
  stop_service name w =
      if contains name "cacic-service" && service_is_up w
      then (do note_stopping; done ← try_stop; note_stop done) w
      else ok tt w

  remove_old : String → Bool → M m (Unit {0})
  unfolding stop_service
  remove_old name false = pure tt
  remove_old name true = do stop_service name; _ ← remove m (target name); pure tt

  -- `serviceUpdate` is false throughout, so that the service is never started here.
  move_new : String → Bool → M m (Unit {0})
  move_new name true =
      write_log m Level.error ("Falha ao excluir módulo antigo" <> name <> " da pasta temporária.")
  move_new name false = do
    _ ← copy m (source name) (target name)
    gone ← remove m (source name)
    (if gone
        then write_log m Level.info ("Módulo \"" <> source name <> "\" atualizado.")
        else write_log m Level.error ("Falha ao excluir " <> name <> " da pasta temporária."))

  -- The round of the loop
  unfoldable pub replace_module : String → M m (Unit {0})
  unfolding remove_old move_new
  replace_module name = do
    there ← exists m (target name)
    remove_old name there
    still ← exists m (target name)
    move_new name still

  unfoldable pub replace_modules : List String → M m (Unit {0})
  replace_modules [] = pure tt
  replace_modules (name ∷ names) = do replace_module name; replace_modules names

  -- `chksysTimer::verificarModulos`
  unfoldable pub verify_modules : M m (Unit {0})
  unfolding replace_modules
  verify_modules w = replace_modules (m.listing w.disk (folder <> "/temp")) w

  -- The download where the file of the service is not there; its result is not read.
  restore_file : M m (Unit {0})
  unfolding download_service
  restore_file w =
      if is_some (m.read w.disk (folder <> "/" <> service_file))
      then ok tt w
      else (do
        write_log m Level.error "Não foi possível localizar o módulo do cacicdaemon."
        _ ← download_service
        pure tt)
          w

  install_service : M m (Unit {0})
  install_service w =
      if control.is_installed w
      then ok tt w
      else let (done, v) = control.install w in
        if done
        then ok tt v
        else write_log m Level.error ("Falha ao reinstalar o serviço: " <> control.last_error v) v

  start_service : M m (Unit {0})
  start_service w =
      if control.is_running w
      then ok tt w
      else let (done, v) = control.start w in
        if done
        then ok tt v
        else write_log m Level.error ("Falha ao iniciar o serviço: " <> control.last_error v) v

  repair_windows : M m (Unit {0})
  unfolding restore_file install_service start_service
  repair_windows w =
      ((if control.is_installed w && control.is_running w
            then pure tt
            else (do restore_file; install_service))
          >> start_service)
        w

  repair_linux : M m (Unit {0})
  unfolding restore_file
  repair_linux w =
      if find_proc "cacic-service" m.processes
      then ok tt w
      else (do restore_file; (λ v. ok tt (control.start v).1)) w

  repair : M m (Unit {0})
  unfolding repair_windows repair_linux
  repair w = if windows then repair_windows w else repair_linux w

  -- `chksysTimer::onTimerCheckService`
  unfoldable pub on_timer_check_service : M m (Unit {0})
  unfolding verify_modules repair
  on_timer_check_service w =
      if is_some (m.read w.disk (folder <> "/getConfig.json"))
      then (do verify_modules; repair) w
      else write_log m Level.error "Falha ao localizar arquivo de configuração." w
