-- ===== src/Deploy.antt =====
-- `deployTimer` (cacicdeploy/deploytimer.cpp): the modules that the manager wants to be run at a
-- time. `folder` is `cacicFolder`, which ends in a slash.
pub mod Exchange
pub mod Laws
pub mod Order
use cacic_agente.Base.{
  ℕ, ℤ, pos, negsuc, Bool, true, false, not, ◌&&◌, ◌||◌, String, ◌<>◌, Option, none, some, List, [],
  ◌∷◌, if◌then◌else◌, ends_with, is_empty, is_some, keep, take, length, ltb, eq_int,
}
use cacic_agente.Json.{
  Json, bool, str, obj, Object, end, insert, value, has, to_object, to_array, to_string, to_int,
  to_bool, is_array, is_null, is_empty_object, variant_text,
}
use cacic_agente.Log.{Level}
use cacic_agente.Machine.{Machine}
use cacic_agente.World.{World, M, ok, exit, ◌>>=◌, ◌>>◌, pure, write_log, remove}
use cacic_agente.World.Route
use cacic_agente.Cacic.{get_json_from_file, get_value, md5_is_equal}
use cacic_agente.CheckModules.{method_of, method_path}
use cacic_agente.Comm.{Comm, new_comm, comm, set_manager_url}
use cacic_agente.Comm.Download.{file_download}
use cacic_agente.Deploy.Exchange.{ask_authorization, confirm_end, download_module}

-- A `CacicThread` that was started: the module, its program, and the seconds that it may take.
pub record Started : Type 0 where
  pub name : String
  pub program : String
  pub timeout : ℤ

-- `timeout` and `moduloExec`, whether `timerDeploy` is active, and the threads, the newest first
pub record Deploy : Type 0 where
  pub timeout : ℤ
  pub module_exec : Object
  pub timer_active : Bool
  pub started : List Started

abbrev pub is_negative : ℤ → Bool
is_negative (pos n) = false
is_negative (negsuc n) = true

abbrev pub modules_of : Object → Object
modules_of config = to_object (value "modulos" (to_object (value "agentcomputer" config)))

abbrev pub name_of : Object → String
name_of o = to_string (value "nome" o)

-- `seconds_until` is the seconds from now until a date in the format of the manager, `elapsed` is the
-- text of the seconds since then, and `now` is the time in a request.
module _ (seconds_until : String → ℤ) where
  abbrev pub is_due : Json → Bool
  is_due v = is_negative (seconds_until (to_string (value "dataExecucao" (to_object v))))

  -- The modules that `onTimer` runs: it counts those that are due, in `modulesToExec`, and takes as
  -- many from the beginning of `outrosModulos`.
  unfoldable pub selected : List Json → List Json
  selected others = take (length (keep is_due others)) others

module _ (m : Machine) (folder : String) (seconds_until : String → ℤ) (elapsed : String → String)
    (now : String) where
  abbrev pub program_path : String → String
  program_path name = folder <> "deploy/" <> name

  try_download : String → M m Bool
  unfolding download_module
  try_download name = do
    done ← download_module m folder now name
    (if done then pure tt else write_log m Level.info ("Falha ao baixar " <> name))
    pure done

  replace_empty : String → Bool → M m Bool
  unfolding try_download
  replace_empty name true = try_download name
  replace_empty name false = do
    write_log m Level.error
        "Não foi possível remover módulo antigo durante tentativa de atualização"
    pure false

  -- The file of the module is there and not as it should be: another digest, or nothing in it.
  abbrev differs : String → String → World m → Bool
  differs name hash w = elim (m.read w.disk (program_path name)) [
    | none ↦ true
    | some b ↦ m.readable w.disk (program_path name) && not (md5_is_equal m b hash)
  ]

  abbrev is_empty_file : String → World m → Bool
  is_empty_file name w = elim (m.read w.disk (program_path name)) [
    | none ↦ false
    | some b ↦ ltb (m.size b) 1
  ]

  -- Whether the module is ready to be run; if not, `onTimer` returns.
  prepare : String → String → M m Bool
  unfolding try_download replace_empty
  prepare name hash w =
      if differs name hash w
      then (do
        write_log m Level.info "Verificando hash e consistencia do módulo"
        try_download name)
          w
      else if is_empty_file name w
      then (do gone ← remove m (program_path name); replace_empty name gone) w
      else ok true w

  -- The thread is started once the mutex is locked. `free` is whether `tryLock` gets it in time for
  -- the module; the thread before has been waited for.
  start_thread : (Object → Bool) → Object → Deploy → M m (Bool × Deploy)
  start_thread free o s = do
    write_log m Level.info "Iniciando thread"
    if eq_int s.timeout (pos 0) || free o
        then pure (
          true,
          record s {
            timeout = to_int (value "timeout" o);
            module_exec = o;
            timer_active = false;
            started =
                record {
                  name = name_of o;
                  program = program_path (name_of o);
                  timeout = to_int (value "timeout" o);
                }
                ∷ s.started;
          },
        )
        else (do
          write_log m Level.error "Falha ao parar semáforo."
          pure (false, record s { timer_active = true }))

  run_prepared : (Object → Bool) → Object → Deploy → Bool → M m (Bool × Deploy)
  unfolding start_thread
  run_prepared free o s false = pure (false, s)
  run_prepared free o s true = start_thread free o s

  -- One round of the loop: whether it goes on. The authorisation is asked for and not heeded.
  unfoldable pub run_module : (Object → Bool) → Object → Deploy → M m (Bool × Deploy)
  unfolding ask_authorization prepare run_prepared
  run_module free o s = do
    _ ← ask_authorization m folder now o
    write_log m Level.info "Iniciando módulo"
    ready ← prepare (name_of o) (to_string (value "hash" o))
    run_prepared free o s ready

  unfoldable pub run_modules : (Object → Bool) → List Json → Deploy → M m Deploy
  run_modules free [] s = pure s
  run_modules free (v ∷ vs) s = do
    (on, t) ← run_module free (to_object v) s
    if on then run_modules free vs t else pure t

  log_dates : List Json → M m (Unit {0})
  log_dates [] = pure tt
  log_dates (v ∷ vs) = do
    write_log m Level.info (
        "Modulo "
        <> name_of (to_object v)
        <> " Data: "
        <> to_string (value "dataExecucao" (to_object v)))
    write_log m Level.info (elapsed (to_string (value "dataExecucao" (to_object v))))
    log_dates vs

  run_others : (Object → Bool) → List Json → Deploy → M m Deploy
  unfolding log_dates run_modules selected
  run_others free [] s = pure s
  run_others free (v ∷ vs) s = do
    write_log m Level.info "verificando data hora dos modulos"
    log_dates (v ∷ vs)
    run_modules free (selected seconds_until (v ∷ vs)) s

  -- `deployTimer::onTimer`
  unfoldable pub on_timer : (Object → Bool) → Deploy → M m Deploy
  unfolding run_others
  on_timer free s = do
    write_log m Level.info "Iniciando timer"
    config ← get_json_from_file m (folder <> "/getConfig.json")
    if has "outros" (modules_of config) && is_array (value "outros" (modules_of config))
        then run_others free (to_array (value "outros" (modules_of config))) s
        else pure s

  note_confirmed : Bool → M m (Unit {0})
  note_confirmed true = pure tt
  note_confirmed false = write_log m Level.error "Falha ao confirmar execução."

  note_crash : Bool → String → M m (Unit {0})
  note_crash crashed error =
      if crashed
      then write_log m Level.error ("Fim da execução do módulo com código de erro: " <> error)
      else pure tt

  note_removed : String → Bool → M m (Unit {0})
  note_removed name true = pure tt
  note_removed name false = write_log m Level.error ("Falha ao excluir " <> name)

  -- `confirmaExecucao`, from the status and the error of the thread
  unfoldable pub confirm_execution : Bool → String → Deploy → M m Deploy
  unfolding confirm_end note_confirmed note_crash note_removed
  confirm_execution crashed error s = do
    write_log m Level.info "Fim da execução do módulo "
    note_crash crashed error
    done ← confirm_end m folder now s.module_exec (not crashed)
    note_confirmed done
    gone ← remove m (program_path (name_of s.module_exec))
    note_removed (name_of s.module_exec) gone
    pure (record s { timer_active = true })
