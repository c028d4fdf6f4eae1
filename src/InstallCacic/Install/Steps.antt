-- ===== src/InstallCacic/Install/Steps.antt =====
-- What the steps of an installation leave of the registry: it stays as it is, or is cleared.
use mathlib.Core.Path.{subst}
use cacic_agente.Base.{◌≡◌, sym, Bool, true, false, String, [], if◌then◌else◌, is_some}
use cacic_agente.Json.{Object}
use cacic_agente.Machine.{Machine}
use cacic_agente.World.{pure, Registry}
use cacic_agente.World.Laws.{Ensures-mono}
use cacic_agente.Comm.{Comm}
use cacic_agente.Comm.Download.{file_download}
use cacic_agente.Comm.Download.Laws.{file_download_registry}
use cacic_agente.InstallCacic.Uninstall.{System, attempt, log_failure, uninstall_agent}
use cacic_agente.InstallCacic.Uninstall.Laws.{
  IsQuiet, Leaves, bind-Leaves, then-Leaves, if-Leaves, choice-Ensures, attempt-Leaves,
  log_failure-Leaves, command-Leaves, uninstall_agent-Leaves,
}
use cacic_agente.InstallCacic.Install.{
  check_service, open_service_file, check_file, start_service, install_service, download_service,
  install_windows, install_linux, service_file, was_downloaded, is_current, keep_running,
  stop_outdated, after_start, after_install, after_download, download_windows, start_linux,
  install_on, method_in,
}

module _ (m : Machine) (s : System m) (folder : String) (quiet : IsQuiet m s)
    (P : Registry → Type 0) where
  keep_running-Leaves : Leaves P (keep_running m s folder)
  unfolding keep_running
  keep_running-Leaves w p =
      choice-Ensures P (s.is_running w) _ _ _ p (subst P (sym (quiet.start_registry w)) p)

  stop_outdated-Leaves : Leaves P (stop_outdated m s folder)
  unfolding stop_outdated
  stop_outdated-Leaves w p =
      subst P (sym (quiet.checker_registry (s.stop w).1)) (subst P (sym (quiet.stop_registry w)) p)

  check_service-Leaves : (agent : Object) → Leaves P (check_service m s folder agent)
  unfolding check_service
  check_service-Leaves agent w p =
      choice-Ensures P (s.is_installed w) _ _ _
        (choice-Ensures P (is_current m s folder agent w) _ _ _
          (then-Leaves P (keep_running m s folder) (pure true) keep_running-Leaves (λ _ q. q) _ p)
          (choice-Ensures P (s.is_running w) _ _ _
            (then-Leaves P (stop_outdated m s folder) (pure false) stop_outdated-Leaves (λ _ q. q) _
              p)
            p))
        p

  open_service_file-Leaves : Leaves P (open_service_file m s folder)
  unfolding open_service_file
  open_service_file-Leaves w p =
      choice-Ensures P (m.readable w.disk (service_file m s folder)) _ _ _ p p

  check_file-Leaves : (agent : Object) → Leaves P (check_file m s folder agent)
  unfolding check_file
  check_file-Leaves agent w p =
      choice-Ensures P (is_some (m.read w.disk (service_file m s folder))) _ _ _
        (then-Leaves P (open_service_file m s folder) (check_service m s folder agent)
          open_service_file-Leaves (check_service-Leaves agent) w p)
        p

  after_start-Leaves : (done : Bool) → Leaves P (after_start m s folder done)
  unfolding after_start
  after_start-Leaves true w p = p
  after_start-Leaves false w p = log_failure-Leaves m s folder quiet P _ _ false _ p

  start_service-Leaves : Leaves P (start_service m s folder)
  unfolding start_service
  start_service-Leaves =
      bind-Leaves P (attempt m s folder s.start) (after_start m s folder)
        (attempt-Leaves m s folder quiet P s.start quiet.start_registry) after_start-Leaves

  module _ (cleared : P []) where
    after_install-Leaves : (done : Bool) → Leaves P (after_install m s folder done)
    unfolding after_install
    after_install-Leaves true w p = p
    after_install-Leaves false w p =
        then-Leaves P (log_failure m s folder _ _ false) (uninstall_agent m s folder)
          (log_failure-Leaves m s folder quiet P _ _ false)
          (uninstall_agent-Leaves m s folder quiet P cleared) w p

    install_service-Leaves : Leaves P (install_service m s folder)
    unfolding install_service
    install_service-Leaves w p = choice-Ensures P (s.is_installed w) _ _ _ p (
        bind-Leaves P (attempt m s folder s.install) (after_install m s folder)
          (attempt-Leaves m s folder quiet P s.install quiet.install_registry) after_install-Leaves
          w p)

    after_download-Leaves : Leaves P (after_download m s folder)
    unfolding after_download
    after_download-Leaves w p =
        choice-Ensures P (is_some (m.read w.disk (service_file m s folder))) _ _ _
          (then-Leaves P (install_service m s folder) (start_service m s folder)
            install_service-Leaves start_service-Leaves w p)
          p

    download_service-Leaves :
        (file : String) (method : Object) (c : Comm)
        → Leaves P (download_service m s folder file method c)
    unfolding download_service
    download_service-Leaves file method c w p =
        Ensures-mono (file_download m c _ _ _ _ w) (λ _ v. v.registry ≡ w.registry)
          (λ _ v. P v.registry) (file_download_registry m c _ _ _ _ w) (λ _ v e. subst P (sym e) p)

    download_windows-Leaves :
        (agent : Object) (c : Comm) → Leaves P (download_windows m s folder agent c)
    unfolding download_windows
    download_windows-Leaves agent c w p =
        bind-Leaves P (download_service m s folder _ (method_in agent) c)
          (λ _. after_download m s folder) (download_service-Leaves _ (method_in agent) c)
          (λ _. after_download-Leaves) _ p

    install_windows-Leaves :
        (agent : Object) (c : Comm) → Leaves P (install_windows m s folder agent c)
    unfolding install_windows
    install_windows-Leaves agent c =
        bind-Leaves P (check_file m s folder agent)
          (λ over. if over then pure tt else download_windows m s folder agent c)
          (check_file-Leaves agent)
          (λ over. if-Leaves P over _ _ (λ _ q. q) (download_windows-Leaves agent c))

    start_linux-Leaves : Leaves P (start_linux m s folder)
    unfolding start_linux
    start_linux-Leaves w p =
        choice-Ensures P (was_downloaded m s folder w) _ _ _
          (command-Leaves m s folder quiet P "/etc/init.d/cacic3 start" w p)
          (uninstall_agent-Leaves m s folder quiet P cleared _ p)

    install_linux-Leaves : (agent : Object) (c : Comm) → Leaves P (install_linux m s folder agent c)
    unfolding install_linux
    install_linux-Leaves agent c =
        bind-Leaves P (download_service m s folder "cacic-service" (method_in agent) c)
          (λ _. start_linux m s folder) (download_service-Leaves _ (method_in agent) c)
          (λ _. start_linux-Leaves)

    pub install_on-Leaves : (agent : Object) (c : Comm) → Leaves P (install_on m s folder agent c)
    unfolding install_on
    install_on-Leaves agent c =
        if-Leaves P s.windows _ _ (install_windows-Leaves agent c) (install_linux-Leaves agent c)
