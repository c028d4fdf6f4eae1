-- ===== src/Timer/Launch.antt =====
-- `CacicTimer::iniciarThread`: the programs of the configuration's modules, one after the other, and
-- then what is sent to the manager.
pub mod Laws
use cacic_agente.Base.{
  ℕ, zero, suc, ◌+◌, Bool, true, false, not, ◌&&◌, ◌||◌, String, ◌<>◌, ◌===◌, ◌==◌, Option, none,
  some, List, [], ◌∷◌, if◌then◌else◌, contains, ends_with,
}
use cacic_agente.Json.{Json, Object, value, to_object, to_string, text, variant_text}
use cacic_agente.Log.{Level}
use cacic_agente.Machine.{Machine}
use cacic_agente.World.{World, M, ok, exit, ◌>>=◌, ◌>>◌, pure, write_log, exists, Registry, store}
use cacic_agente.Cacic.{get_json_from_file, set_values, get_value}
use cacic_agente.CheckModules.{module_entries}
use cacic_agente.Thread.{Mutex, lock, Outside, start_module}
use cacic_agente.Timer.{is_usable, config_path}
use cacic_agente.Timer.Collect.{send_if_due}
use cacic_agente.Timer.Logs.{send_logs}
use cacic_agente.Timer.Map.{get_map}

-- `CacicTimer::definirDirModulo`
abbrev pub program_path : String → String → String
program_path folder name = if ends_with folder "/" then folder <> name else folder <> ("/" <> name)

-- The modules that are programs of the service, of the installer, of the user interface or of the map
abbrev pub is_special : String → Bool
is_special name =
    contains name "cacic-service"
    || contains name "install-cacic"
    || contains name "cacic-ui"
    || contains name "mapacacic"

-- `if (var > 0) cMutex->lock()`
abbrev pub enter : ℕ → Mutex → Mutex
enter zero k = k
enter (suc var) k = lock k

abbrev pub name_of : Json → String
name_of v = to_string (value "nome" (to_object v))

abbrev pub hash_of : Json → String
hash_of v = to_string (value "hash" (to_object v))

module _ (m : Machine) (out : Outside m) (windows : Bool) (folder : String)
    (lines : m.Bytes → List String) where
  -- `CacicTimer::verificarseModuloJaFoiExecutado`
  unfoldable pub was_executed : String → String → M m Bool
  was_executed name hash = do v ← get_value m name; pure (variant_text v === hash)

  -- Whether the loop runs the module: the map only if the manager asks for it.
  is_wanted : String → M m Bool
  unfolding get_map
  is_wanted name =
      if not (is_special name)
      then pure true
      else if contains name "mapacacic"
      then get_map m folder
      else pure false

  -- The thread's run, and the digests of the modules that have been run so far, in the registry.
  -- `run` is called and not `start`, so that it is over when the call returns.
  run_thread : String → String → Registry → Mutex → M m (Registry × Mutex)
  unfolding start_module set_values
  run_thread name hash done k = do
    j ← start_module m out windows (program_path folder name) k
    let all = store name (text hash) done
    set_values m all
    pure (all, j)

  not_found : String → Registry → Mutex → M m (Registry × Mutex)
  not_found name done k = do
    write_log m Level.info ("Modulo \"" <> name <> "\" não foi encontrado para execução.")
    pure (done, k)

  run_found : ℕ → String → String → Registry → Mutex → Bool → M m (Registry × Mutex)
  unfolding run_thread not_found
  run_found var name hash done k true = run_thread name hash done (enter var k)
  run_found var name hash done k false = not_found name done k

  run_wanted : ℕ → String → String → Registry → Mutex → Bool → M m (Registry × Mutex)
  unfolding run_found
  run_wanted var name hash done k true = do
    there ← exists m (program_path folder name)
    run_found var name hash done k there
  run_wanted var name hash done k false = pure (done, k)

  -- One round of the loop, for the module at the place `var` of the list
  unfoldable pub run_module : ℕ → Json → Registry → Mutex → M m (Registry × Mutex)
  unfolding is_wanted run_wanted
  run_module var v done k = do
    wanted ← is_wanted (name_of v)
    run_wanted var (name_of v) (hash_of v) done k wanted

  -- The loop
  unfoldable pub run_modules : ℕ → List Json → Registry → Mutex → M m Mutex
  run_modules var [] done k = pure k
  run_modules var (v ∷ vs) done k = do
    (all, j) ← run_module var v done k
    run_modules (suc var) vs all j

  note_failure : Bool → M m (Unit {0})
  note_failure true = pure tt
  note_failure false =
      write_log m Level.info
        "Falha durante envio de coleta. Verifique erro de log para mais informações."

  survives : Mutex → Option Bool → Option Mutex
  survives k none = none
  survives k (some b) = some k

  -- What follows the loop. `none` is an end that `send_logs` does not survive.
  send_everything : Mutex → M m (Option Mutex)
  unfolding send_if_due send_logs note_failure survives
  send_everything k = do
    sent ← send_if_due m folder
    note_failure sent
    logged ← send_logs m folder lines
    pure (survives k logged)

  with_config : Mutex → Object → M m (Option Mutex)
  unfolding run_modules send_everything
  with_config k config =
      if is_usable config
      then (do j ← run_modules 0 (module_entries config) [] k; send_everything j)
      else pure (some k)

  -- `CacicTimer::iniciarThread`
  unfoldable pub start_threads : Mutex → M m (Option Mutex)
  unfolding with_config
  start_threads k = do config ← get_json_from_file m (config_path m folder); with_config k config

  -- `CacicTimer::verificarEIniciarQMutex`: `busy` is whether the thread runs. It is terminated then,
  -- and the mutex is locked in any case.
  unfoldable pub take_mutex : Bool → Mutex → M m Mutex
  take_mutex true k = do
    write_log m Level.info "Possivelmente o gercols travou e será finalizado."
    pure (lock k)
  take_mutex false k = pure (lock k)

  -- The mutex in one round of `CacicTimer::mslot`
  unfoldable pub start_round : Bool → Mutex → M m (Option Mutex)
  unfolding take_mutex start_threads
  start_round busy k = do j ← take_mutex busy k; start_threads j
