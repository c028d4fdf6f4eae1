-- ===== src/InstallCacic/Update.antt =====
-- The modules of the temporary folder take the places of the old ones (`InstallCacic::updateService`).
use cacic_agente.Base.{
  Bool, true, false, ◌||◌, String, ◌<>◌, List, [], ◌∷◌, if◌then◌else◌, contains,
}
use cacic_agente.Log.{Level}
use cacic_agente.Machine.{Machine}
use cacic_agente.World.{M, ok, ◌>>=◌, ◌>>◌, pure, write_log, exists, remove, copy}
use cacic_agente.InstallCacic.Uninstall.{System, attempt, log_failure, run_command}

module _ (m : Machine) (s : System m) (folder : String) where
  unfoldable pub stop_service : M m (Unit {0})
  stop_service = do
    write_log m Level.info "Parando serviço para atualização."
    (λ w.
        if s.windows
        then (if s.is_running w
            then (do
              done ← attempt m s folder s.stop
              log_failure m s folder Level.error "Não foi possível parar o serviço: " done)
                w
            else ok tt w)
        else run_command m s folder "/etc/init.d/cacic3 stop" w)

  remove_source : String → String → Bool → M m (Unit {0})
  remove_source path name false = pure tt
  remove_source path name true = do
    gone ← remove m path
    (if gone
        then pure tt
        else write_log m Level.error ("Falha ao excluir " <> (name <> " da pasta temporária.")))

  -- Only what has taken the place of an old module is copied.
  copy_new : String → String → Bool → M m (Unit {0})
  copy_new path target true = pure tt
  copy_new path target false = do
    _ ← copy m path target
    write_log m Level.info ("Copiando arquivo para " <> folder)

  after_removal : String → String → String → Bool → M m (Unit {0})
  unfolding copy_new remove_source
  after_removal path target name false = write_log m Level.error ("Falha ao excluir " <> name)
  after_removal path target name true = do
    still ← exists m target
    copy_new path target still
    there ← exists m target
    remove_source path name there

  unfoldable pub replace_old : String → String → String → Bool → M m (Unit {0})
  unfolding after_removal
  replace_old path target name false = pure tt
  replace_old path target name true = do
    write_log m Level.info ("Excluindo versão antiga de " <> name)
    gone ← remove m target
    after_removal path target name gone

  -- The round of the loop: whether the service is to be started
  unfoldable pub update_module : String → M m Bool
  update_module name = if contains name "install-cacic" then pure false else (do
    write_log m Level.info
        ("Módulo \"" <> (folder <> "/temp/" <> name) <> "\" encontrado para atualização.")
    (if contains name "cacic-service" then stop_service else pure tt)
    there ← exists m (folder <> "/" <> name)
    replace_old (folder <> "/temp/" <> name) (folder <> "/" <> name) name there
    pure (contains name "cacic-service"))

  unfoldable pub update_modules : List String → M m Bool
  update_modules [] = pure false
  update_modules (n ∷ ns) = do
    first ← update_module n
    rest ← update_modules ns
    pure (first || rest)

  reinstall : M m (Unit {0})
  reinstall = do
    write_log m Level.info "Serviço não instalado, reinstalando..."
    done ← attempt m s folder s.install
    (if done
        then write_log m Level.info "Serviço reinstalado com sucesso."
        else log_failure m s folder Level.error "Não foi possível instalar o serviço: " done)

  unfoldable pub restart_service : M m (Unit {0})
  unfolding reinstall
  restart_service = do
    write_log m Level.info "Iniciando o serviço cacic."
    (λ w.
        if s.windows
        then (if s.is_installed w
            then (do
              done ← attempt m s folder s.start
              log_failure m s folder Level.error "Não foi possível iniciar o serviço: " done)
                w
            else reinstall w)
        else run_command m s folder "/etc/init.d/cacic3 start" w)

  -- `InstallCacic::updateService`
  unfoldable pub update_agent : M m (Unit {0})
  update_agent = do
    write_log m Level.info "Verificando a existência de módulos na pasta temporária."
    found ← (λ w. update_modules (m.listing w.disk (folder <> "/temp")) w)
    (if found then restart_service else pure tt)
