-- ===== src/Timer/Period.antt =====
-- `CacicTimer::verificarPeriodicidade` and `CacicTimer::reiniciarTimer`: the period of the timer, in
-- milliseconds. A product beyond the range of `int`, which C++ leaves undefined, is taken as it is.
pub mod Laws
use cacic_agente.Base.{
  ℕ, ℤ, pos, negsuc, Bool, true, false, not, ◌||◌, ◌&&◌, String, ◌<>◌, if◌then◌else◌, times,
  quotient, eq_int,
}
use cacic_agente.Json.{Json, Object, value, to_string, is_string}
use cacic_agente.Log.{Level}
use cacic_agente.Machine.{Machine}
use cacic_agente.World.{World, M, ok, exit, ◌>>=◌, ◌>>◌, pure, write_log}
use cacic_agente.Cacic.{get_json_from_file}
use cacic_agente.Timer.{settings, is_usable, config_path}

-- `periodicidadeExecucao`, `periodicidadeExecucaoAnterior`, and the interval that the timer runs at.
pub record Periods : Type 0 where
  pub current : ℤ
  pub previous : ℤ
  pub interval : ℤ

-- `periodicidadeExecucaoPadrao`, in minutes
abbrev pub default_minutes : ℤ
default_minutes = pos 240

-- `parse` is `QString::toInt`, and `number` is `QString::number`.
module _ (m : Machine) (folder : String) (parse : String → ℤ) (number : ℤ → String) where
  set_default : Periods → String → M m (Bool × Periods)
  set_default p message = do
    write_log m Level.error message
    pure (false, record p { current = times default_minutes 60000 })

  period_of : Periods → Json → M m (Bool × Periods)
  unfolding set_default
  period_of p v =
      if is_string v && not (eq_int (quotient p.current 60000) (parse (to_string v)))
      then pure
          (true, record p { current = times (parse (to_string v)) 60000; previous = p.current })
      else if not (is_string v) || eq_int (parse (to_string v)) (pos 0)
      then set_default p "valor do timer com erro ou vazio"
      else pure (false, p)

  -- `CacicTimer::verificarPeriodicidade`
  unfoldable pub check_period : Periods → M m (Bool × Periods)
  unfolding period_of
  check_period p = do
    config ← get_json_from_file m (config_path m folder)
    if is_usable config
        then period_of p (value "nu_intervalo_exec" (settings config))
        else set_default p "getConfig.json com erro ou vazio"

  -- `CacicTimer::reiniciarTimer`. The test of the previous period compares a text with a null
  -- pointer, and never fails.
  unfoldable pub restart_timer : Periods → M m Periods
  restart_timer p = do
    write_log m Level.info (
        "Periodicidade de execução atualizada de: "
        <> number (quotient p.previous 60000)
        <> " minutos, para: "
        <> number (quotient p.current 60000)
        <> " minutos.")
    pure (record p { interval = p.current })

  -- The last step of `CacicTimer::mslot`
  unfoldable pub update_period : Periods → M m Periods
  unfolding check_period restart_timer
  update_period p = do (changed, q) ← check_period p; if changed then restart_timer q else pure q
