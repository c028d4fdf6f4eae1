-- ===== src/Timer/Slot.antt =====
-- `CacicTimer::mslot`: what the daemon does whenever its timer fires.
pub mod Laws
use cacic_agente.Base.{
  ℕ, ℤ, Bool, true, false, ◌&&◌, ◌||◌, String, ◌<>◌, Option, none, some, List, if◌then◌else◌,
  is_some,
}
use cacic_agente.Log.{Level}
use cacic_agente.Machine.{Machine}
use cacic_agente.World.{World, M, ok, exit, ◌>>=◌, ◌>>◌, pure, write_log}
use cacic_agente.CheckModules.{start}
use cacic_agente.Thread.{Mutex, Outside}
use cacic_agente.Timer.Contact.{communicate}
use cacic_agente.Timer.Launch.{start_round}
use cacic_agente.Timer.Period.{Periods, update_period}
use cacic_agente.Timer.Update.{verify_modules}

-- The fields that a round changes: the mutex, the periods, and whether `finalizar` was emitted.
pub record Daemon : Type 0 where
  pub mutex : Mutex
  pub periods : Periods
  pub ending : Bool

-- `busy` is whether the thread runs, and `clear_old` is `removeCacicAnterior` with
-- `removeArquivosEstrangeiros`, which work on folders that the disk of a machine does not have.
module _ (m : Machine) (out : Outside m) (windows : Bool) (folder : String)
    (lines : m.Bytes → List String) (parse : String → ℤ) (number : ℤ → String) (busy : Bool)
    (clear_old : M m Bool) where
  abbrev has_old : World m → Bool
  has_old w =
      is_some (m.read w.disk (folder <> "/cacic280.exe"))
      || is_some (m.read w.disk (folder <> "/cacic260.exe"))

  note_clearing : Bool → M m (Unit {0})
  note_clearing true = pure tt
  note_clearing false =
      write_log m Level.error
        "Problemas ao remover arquivos não pertencentes a esta versão do Cacic."

  clear_others : M m (Unit {0})
  unfolding note_clearing
  clear_others w = if has_old w then (do gone ← clear_old; note_clearing gone) w else ok tt w

  note_check : Bool → M m (Unit {0})
  note_check true = pure tt
  note_check false = write_log m Level.error "Problemas ao checkar módulos."

  -- The programs are run, the new modules take their places, and the period is read again.
  finish : Daemon → Option Mutex → M m (Option Daemon)
  unfolding verify_modules update_period
  finish s none = pure none
  finish s (some k) = do
    ended ← verify_modules m out windows folder busy
    q ← update_period m folder parse number s.periods
    pure (some (record { mutex = k; periods = q; ending = s.ending || ended }))

  launch : Daemon → M m (Option Daemon)
  unfolding start_round finish
  launch s = do k ← start_round m out windows folder lines busy s.mutex; finish s k

  -- `none` is a state that `CheckModules::start` or the logs leave undefined.
  checked : Daemon → Option Bool → M m (Option Daemon)
  unfolding note_check launch
  checked s none = pure none
  checked s (some good) = do note_check good; launch s

  reached : Daemon → Bool → M m (Option Daemon)
  unfolding clear_others start checked
  reached s true = do clear_others; good ← start m windows folder; checked s good
  reached s false = do write_log m Level.error "Problemas ao comunicar com gerente."; pure (some s)

  -- `CacicTimer::mslot`
  unfoldable pub mslot : Daemon → M m (Option Daemon)
  unfolding communicate reached
  mslot s = do there ← communicate m folder; reached s there
