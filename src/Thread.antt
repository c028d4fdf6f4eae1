-- ===== src/Thread.antt =====
-- `CacicThread` (src/cacicthread.cpp): one run of a module's program, under a mutex that the caller
-- locks and the thread unlocks.
use cacic_agente.Base.{
  ℕ, ◌+◌, ◌-◌, Bool, true, false, not, ◌&&◌, ◌||◌, String, ◌<>◌, ◌==◌, if◌then◌else◌, contains,
  base_name,
}
use cacic_agente.Log.{Level}
use cacic_agente.Machine.{Machine}
use cacic_agente.World.{World, M, ok, ◌>>=◌, ◌>>◌, pure, write_log, exists}
use cacic_agente.Cacic.System.{find_proc}

-- The mutex is recursive: `level` is how often it is locked. To unlock one that is not locked is
-- undefined, and `misused` says that it happened.
pub record Mutex : Type 0 where
  pub level : ℕ
  pub misused : Bool

abbrev pub lock : Mutex → Mutex
lock k = record k { level = k.level + 1 }

abbrev pub unlock : Mutex → Mutex
unlock k = if k.level == 0 then record k { misused = true } else record k { level = k.level - 1 }

-- What the programs that the agent starts do to the world, and what a `QProcess` tells of them:
-- `starts` is the result of `startDetached`, the rest is `atEnd`, whether `exitStatus` is
-- `NormalExit`, and `errorString`. `now` is the time of the log, and the checker is the service
-- CheckCacic, or the program chksys on Linux.
pub record Outside (m : Machine) : Type 0 where
  pub launch : String → World m → World m
  pub starts : String → World m → Bool
  pub at_end : String → World m → Bool
  pub exits_normally : String → World m → Bool
  pub error_string : String → World m → String
  pub now : String
  pub checker_runs : World m → Bool
  pub stop_checker : World m → World m
  pub start_checker : World m → World m

module _ (m : Machine) (out : Outside m) (windows : Bool) where
  -- `CacicThread::registraExecucao`
  register_execution : Bool → String → M m (Unit {0})
  register_execution done status =
      if done then write_log m Level.info "Thread finalizada com SUCESSO" else (do
        write_log m Level.info "Thread finalizada com falha."
        write_log m Level.error ("Thread finalizada com erro: " <> status))

  abbrev opens_window : String → Bool
  opens_window path =
      not windows && (contains (base_name path) "chksys" || contains (base_name path) "mapacacic")

  abbrev run_program : String → M m (Unit {0})
  run_program path w = ok tt (out.launch path w)

  -- A program with a window is started and left alone; any other is waited for.
  execute : String → M m (Unit {0})
  execute path w =
      if opens_window path
      then if out.starts path w
        then run_program path w
        else write_log m Level.error ("Não foi possível iniciar o processo do módulo " <> path) w
      else run_program path w

  judge_execution : String → M m (Unit {0})
  unfolding register_execution
  judge_execution path w =
      if out.at_end path w && out.exits_normally path w
      then register_execution true (out.error_string path w) w
      else if not (out.at_end path w)
      then register_execution false (out.error_string path w) w
      else (do
        write_log m Level.error ("Problemas durante execução do módulo \"" <> path <> "\".")
        write_log m Level.error ("Erro: " <> out.error_string path w))
          w

  execute_found : String → Bool → M m (Unit {0})
  unfolding execute judge_execution
  execute_found path true = do
    write_log m Level.info ("Thread iniciada em: " <> out.now)
    execute path
    judge_execution path
  execute_found path false = do
    write_log m Level.info "Módulo inexistente ou já em execucao."
    write_log m Level.error ("Módulo " <> base_name path <> " inexistente.")

  -- `CacicThread::iniciarModulo`, which unlocks the mutex whether the program was run or not
  unfoldable pub start_module : String → Mutex → M m Mutex
  unfolding execute_found
  start_module path k =
      if not windows && find_proc (base_name path) m.processes
      then pure (unlock k)
      else (do there ← exists m path; execute_found path there; pure (unlock k))
