-- ===== src/Timer/Update.antt =====
-- `CacicTimer::verificarModulos`: the modules of the temporary folder take the places of the old
-- ones. `busy` is whether the thread of a module runs, which is waited for.
pub mod Laws
use cacic_agente.Base.{
  Bool, true, false, not, ◌&&◌, ◌||◌, String, ◌<>◌, Option, none, some, List, [], ◌∷◌,
  if◌then◌else◌, contains,
}
use cacic_agente.Log.{Level}
use cacic_agente.Machine.{Machine}
use cacic_agente.World.{World, M, ok, exit, ◌>>=◌, ◌>>◌, pure, write_log, exists, remove, copy}
use cacic_agente.Cacic.System.{find_proc}
use cacic_agente.Thread.{Outside}

module _ (m : Machine) (out : Outside m) (windows : Bool) (folder : String) (busy : Bool) where
  -- On Windows the installer stays in the folder bin.
  abbrev pub target : String → String
  target name =
      if windows && contains name "install-cacic"
      then folder <> ("/bin/" <> name)
      else folder <> ("/" <> name)

  abbrev pub source : String → String
  source name = folder <> "/temp/" <> name

  wait_thread : M m (Unit {0})
  wait_thread w =
      if busy
      then write_log m Level.info "Há uma thread sendo executada, aguardando o término." w
      else ok tt w

  -- The checker does not run while its program is replaced.
  abbrev checker_is_up : World m → Bool
  checker_is_up w = if windows then out.checker_runs w else find_proc "chksys" m.processes

  stop_checker : String → M m (Unit {0})
  stop_checker name w =
      if contains name "chksys" && checker_is_up w then ok tt (out.stop_checker w) else ok tt w

  start_checker : String → M m (Unit {0})
  start_checker name w =
      if contains name "chksys" && (windows && not (out.checker_runs w))
      then ok tt (out.start_checker w)
      else ok tt w

  remove_old : String → Bool → M m (Unit {0})
  unfolding stop_checker
  remove_old name true = do stop_checker name; _ ← remove m (target name); pure tt
  remove_old name false = pure tt

  -- The result of the copy is not read: the new module is removed anyhow.
  move_new : String → Bool → M m (Unit {0})
  move_new name true =
      write_log m Level.error ("Falha ao excluir módulo antigo " <> name <> " da pasta temporária.")
  move_new name false = do
    _ ← copy m (source name) (target name)
    gone ← remove m (source name)
    (if gone
        then write_log m Level.info ("Módulo \"" <> source name <> "\" atualizado.")
        else write_log m Level.error ("Falha ao excluir " <> name <> " da pasta temporária."))

  -- The round of the loop for a module that is not the service
  unfoldable pub replace_module : String → M m (Unit {0})
  unfolding wait_thread remove_old move_new start_checker
  replace_module name = do
    wait_thread
    there ← exists m (target name)
    remove_old name there
    still ← exists m (target name)
    move_new name still
    start_checker name

  -- The service cannot replace itself: it asks to be ended, and the loop is left.
  unfoldable pub replace_modules : List String → M m Bool
  replace_modules [] = pure false
  replace_modules (name ∷ names) =
      if contains name "cacic-service"
      then (do write_log m Level.info "Atualização do serviço necessária."; pure true)
      else (do replace_module name; replace_modules names)

  -- `CacicTimer::verificarModulos`, with whether `finalizar` is emitted
  unfoldable pub verify_modules : M m Bool
  unfolding replace_modules
  verify_modules w = replace_modules (m.listing w.disk (folder <> "/temp")) w
