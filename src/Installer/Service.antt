-- ===== src/Installer/Service.antt =====
-- `InstallCacicSA::verificaServico`: the check of the service.
pub mod Laws
use cacic_agente.Base.{
  ℕ, suc, Bool, true, false, not, ◌&&◌, ◌||◌, String, ◌<>◌, ◌===◌, Option, none, some, List, [],
  ◌∷◌, if◌then◌else◌, is_empty,
}
use cacic_agente.Installer.Site.{
  Act, asks_config, sends, downloads, starts_service, stops_service, waits, installs_service,
  deletes, moves, runs, Site, Installer, M, ◌>>=◌, ◌>>◌, pure, did, try, act, report, cacic_path,
  install_dir,
}
use cacic_agente.Installer.Download.{
  get_config, hashes_agree, download_service, download_msi, install_cacic,
}

abbrev pub service_path : String
service_path = cacic_path <> "\\cacic-service.exe"

abbrev pub temporary_path : String
temporary_path = install_dir <> "\\cacic-service.exe"

abbrev pub bin_path : String
bin_path = cacic_path <> "\\bin\\"

module _ (site : Site) (url : String) where
  -- The old file goes, at the second attempt if need be; true if there is none.
  try_again : Bool → M Bool
  try_again true = pure true
  try_again false = do act waits; try (deletes service_path) site.deletes

  delete_old : M Bool
  unfolding try_again
  delete_old s =
      if site.exists s.acts service_path
      then (do gone ← try (deletes service_path) site.deletes; try_again gone) s
      else (true, s)

  unfoldable pub note : String → Bool → M (Unit {0})
  note message true = pure tt
  note message false = report message

  stop_running : M (Unit {0})
  unfolding note
  stop_running s =
      if site.is_running s.acts
      then (do done ← try stops_service site.stops; note "Falha ao parar servico: " done) s
      else (tt, s)

  start_moved : Bool → M Bool
  unfolding note
  start_moved false = do report "Falha ao mover servico. Erro: "; pure false
  start_moved true = do
    done ← try starts_service site.starts
    note "Falha ao iniciar serviço! Mensagem:\n" done
    pure true

  -- With a service that is installed: a file that is not deleted does not end it.
  replace_installed : M Bool
  unfolding stop_running delete_old note start_moved
  replace_installed = do
    stop_running
    gone ← delete_old
    note "Falha ao tentar excluir serviço antigo. Código: " gone
    moved ← try (moves temporary_path service_path) site.moves
    start_moved moved

  install_msi : Bool → M (Unit {0})
  unfolding install_cacic note
  install_msi false = pure tt
  install_msi true = do
    done ← install_cacic site url
    note "Falha ao instalar MSI durante a verificacao do servico." done

  -- A service that does not start: the libraries may be missing.
  start_failed : M (Unit {0})
  unfolding download_msi install_msi
  start_failed s =
      if site.is_folder s.acts bin_path && not (site.is_empty_folder s.acts bin_path)
      then report "Não foi possível iniciar o serviço." s
      else (do done ← download_msi site url; install_msi done) s

  start_installed : Bool → M Bool
  unfolding start_failed
  start_installed false = do report "Falha ao instalar serviço. Erro: "; pure false
  start_installed true = do
    done ← try starts_service site.starts
    (if done then pure tt else start_failed)
    pure true

  install_moved : Bool → M Bool
  unfolding start_installed
  install_moved false = do report "Falha ao mover serviço da pasta temporária. Erro: "; pure false
  install_moved true = do
    done ← try (installs_service "C:\\Cacic\\cacic-service.exe") site.installs
    start_installed done

  move_and_install : Bool → M Bool
  unfolding install_moved
  move_and_install false = do report "Falha ao tentar excluir serviço antigo. Erro:"; pure false
  move_and_install true = do
    moved ← try (moves temporary_path service_path) site.moves
    install_moved moved

  replace_missing : M Bool
  unfolding delete_old move_and_install
  replace_missing = do gone ← delete_old; move_and_install gone

  replace : Bool → M Bool
  unfolding replace_installed replace_missing
  replace false s = (do report "Falha ao baixar serviço."; pure false) s
  replace true s = if site.is_installed s.acts then replace_installed s else replace_missing s

  restart_failed : M (Unit {0})
  unfolding download_msi
  restart_failed s =
      if site.is_empty_folder s.acts bin_path
      then (do _ ← download_msi site url; pure tt) s
      else report "Não foi possível iniciar o serviço. Erro: " s

  -- With the service up to date: it is started, or installed.
  revive : M (Unit {0})
  unfolding restart_failed note
  revive s =
      if site.is_installed s.acts
      then if site.is_running s.acts
        then (tt, s)
        else (do done ← try starts_service site.starts; (if done then pure tt else restart_failed))
            s
      else if site.exists s.acts service_path
      then (do
        done ← try (installs_service "C:\\Cacic\\cacic-service.exe") site.installs
        note "Não foi possível instalar o serviço. Erro: " done)
          s
      else (tt, s)

  renew : M Bool
  unfolding download_service replace
  renew = do done ← download_service site url temporary_path; replace done

  verify_configured : Bool → M Bool
  unfolding renew revive
  verify_configured false s = (false, s)
  verify_configured true s = if hashes_agree site url s then (do revive; pure true) s else renew s

  -- `InstallCacicSA::verificaServico`
  unfoldable pub verify_service : M Bool
  unfolding get_config verify_configured
  verify_service = do there ← get_config site url; verify_configured there
