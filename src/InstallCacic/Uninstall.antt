-- ===== src/InstallCacic/Uninstall.antt =====
-- The removal of the agent (`InstallCacic::uninstall`), and what the installer asks of the system.
pub mod Laws
use cacic_agente.Base.{
  Bool, true, false, not, ◌&&◌, ◌||◌, String, ◌<>◌, ◌===◌, List, [], ◌∷◌, split, if◌then◌else◌,
  is_empty, contains, keep,
}
use cacic_agente.Log.{Level}
use cacic_agente.Machine.{Machine}
use cacic_agente.World.{World, M, ok, ◌>>=◌, ◌>>◌, pure, write_log}
use cacic_agente.Cacic.{delete_file}

-- The system: whether it is Windows; what a command does and what it prints; the service, by
-- `ServiceController`, with the results of its operations; the service checkcacic; the error of an open; and what stands in
-- the main folder, `true` with the folders.
pub record System (m : Machine) : Type 0 where
  pub windows : Bool
  pub command : String → World m → World m
  pub output : String → World m → String
  pub is_installed : World m → Bool
  pub is_running : World m → Bool
  pub start : World m → Bool × World m
  pub stop : World m → Bool × World m
  pub install : World m → Bool × World m
  pub uninstall : World m → Bool × World m
  pub last_error : World m → String
  pub stop_checker : World m → World m
  pub open_error : String → World m → String
  pub entries : World m → List (String × Bool)
  pub delete_folder : String → World m → World m

-- `list.removeLast()`
abbrev pub but_last : List String → List String
but_last [] = []
but_last (x ∷ []) = []
but_last (x ∷ y ∷ ys) = x ∷ but_last (y ∷ ys)

-- What stays in the main folder
unfoldable pub stays : String → Bool
stays n =
    n === "."
    || n === ".."
    || n === "bin"
    || contains n "install-cacic"
    || contains n "Logs"
    || contains n "cacic.log"

module _ (m : Machine) (s : System m) (folder : String) where
  abbrev pub run_command : String → M m (Unit {0})
  run_command c w = ok tt (s.command c w)

  abbrev pub attempt : (World m → Bool × World m) → M m Bool
  attempt f w = let (done, v) = f w in ok done v

  -- A failed operation of the service is logged with its error.
  unfoldable pub log_failure : Level → String → Bool → M m (Unit {0})
  log_failure l message true w = ok tt w
  log_failure l message false w = write_log m l (message <> s.last_error w) w

  -- The second column of a line that is not empty
  unfoldable pub kill_second : List String → M m (Unit {0})
  kill_second (user ∷ pid ∷ columns) = do
    run_command ("kill -9 " <> pid)
    write_log m Level.info "Cacic-service interrompido."
  kill_second _ = pure tt

  unfoldable pub kill_all : List String → M m (Unit {0})
  unfolding kill_second
  kill_all [] = pure tt
  kill_all (l ∷ ls) =
      let rest = kill_all ls in
      if contains l "grep"
      then rest
      else (do kill_second (keep (λ c. not (is_empty c)) (split b' ' l)); rest)

  unfoldable pub kill_listed : M m (Unit {0})
  kill_listed w = kill_all (but_last (split 10 (s.output "ps aux | grep cacic-service" w))) w

  unfoldable pub end_processes : M m (Unit {0})
  unfolding kill_all
  end_processes = do
    run_command "killall -eq cacic-service gercols"
    run_command "/etc/init.d/cacic3 stop"
    kill_listed

  unfoldable pub remove_service : M m (Unit {0})
  remove_service = do
    write_log m Level.info "Desinstalando o serviço..."
    done ← attempt s.uninstall
    log_failure Level.error "Não foi possível parar o serviço: " done

  unfoldable pub end_service : M m (Unit {0})
  end_service w =
      if s.windows
      then (if s.is_installed w then remove_service w else ok tt w)
      else end_processes w

  unfoldable pub delete_entry : String → Bool → M m (Unit {0})
  delete_entry n true = λ w. ok tt (s.delete_folder (folder <> ("/" <> n)) w)
  delete_entry n false = do _ ← delete_file m (folder <> ("/" <> n)); pure tt

  unfoldable pub delete_entries : List (String × Bool) → M m (Unit {0})
  delete_entries [] = pure tt
  delete_entries ((n, is_folder) ∷ es) =
      let rest = delete_entries es in if stays n then rest else (do delete_entry n is_folder; rest)

  unfoldable pub clear_folder : M m (Unit {0})
  clear_folder w = if is_empty folder then ok tt w else delete_entries (s.entries w) w

  -- `CCacic::removeRegistry`
  abbrev pub remove_registry : M m (Unit {0})
  remove_registry w = ok tt (record w { registry = [] })

  -- `InstallCacic::uninstall`
  unfoldable pub uninstall_agent : M m (Unit {0})
  uninstall_agent = do end_service; remove_registry; clear_folder
