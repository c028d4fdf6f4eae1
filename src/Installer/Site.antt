-- ===== src/Installer/Site.antt =====
-- What the installer asks of Windows and of the manager, and its own state.
use cacic_agente.Base.{Bool, String, List, ◌∷◌}

-- What the installer does that others see. `reports` is an error that goes to the log and to the
-- manager, without the text of the system; other lines of the log are left out.
pub data Act : Type 0 where
  asks_config pings : Act
  sends : String → Act
  downloads : String → String → Act
  starts_service stops_service waits : Act
  installs_service : String → Act
  deletes : String → Act
  moves : String → String → Act
  runs : String → Act
  sets : String → String → Act
  uninstalls stops_old : String → Act
  kills : List String → Act
  clears makes_folder : String → Act
  reports : String → Act

-- The answers, from what was done so far, the newest first. `runs` is what `runProgram`
-- returns of a process that was created: it lacks a `return` there, so that this may be anything. `clears` is the
-- result of `delFolder`; `has_old` and `runs_old` are about the services of older versions.
pub record Site : Type 0 where
  pub networks : List Act → List String
  pub config : List Act → String
  pub pong : List Act → String
  pub sent : List Act → String
  pub downloads : List Act → Bool
  pub digest : List Act → String → String
  pub exists : List Act → String → Bool
  pub is_folder : List Act → String → Bool
  pub is_empty_folder : List Act → String → Bool
  pub is_installed : List Act → Bool
  pub is_running : List Act → Bool
  pub stops : List Act → Bool
  pub starts : List Act → Bool
  pub installs : List Act → Bool
  pub deletes : List Act → Bool
  pub moves : List Act → Bool
  pub creates : List Act → Bool
  pub runs : List Act → Bool
  pub sets : List Act → Bool
  pub is_admin : Bool
  pub is_registered : List Act → Bool
  pub has_old : List Act → String → Bool
  pub runs_old : List Act → String → Bool
  pub uninstalls : List Act → Bool
  pub clears : List Act → Bool
  pub makes_folder : List Act → Bool

-- The fields that change, and what was done
pub record Installer : Type 0 where
  pub hash_local : String
  pub hash_remote : String
  pub acts : List Act

abbrev pub M : Type 0 → Type 0
M A = Installer → A × Installer

infixl 5 ◌>>=◌ ◌>>◌
abbrev pub ◌>>=◌ : {A B : Type 0} → M A → (A → M B) → M B
◌>>=◌ e f s = let (a, t) = e s in f a t

abbrev pub ◌>>◌ : {B : Type 0} → M (Unit {0}) → M B → M B
◌>>◌ e k s = k (e s).1

abbrev pub pure : {A : Type 0} → A → M A
pure a s = (a, s)

abbrev pub did : Act → Installer → Installer
did a s = record s { acts = a ∷ s.acts }

-- Does something, and takes the answer.
abbrev pub try : Act → (List Act → Bool) → M Bool
try a answer s = (answer (a ∷ s.acts), did a s)

abbrev pub act : Act → M (Unit {0})
act a s = (tt, did a s)

-- `informaGerente`, and `log` at the level of an error
abbrev pub report : String → M (Unit {0})
report message = act (reports message)

abbrev pub cacic_path : String
cacic_path = "c:\\cacic"

abbrev pub install_dir : String
install_dir = "c:\\cacic\\icsa"
