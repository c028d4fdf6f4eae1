-- ===== src/Installer/Folder.antt =====
-- `InstallCacicSA::delFolder` (installcacic-standalone/installcacicsa.cpp): a folder is deleted but
-- for the entries whose names are in a list of exceptions.
pub mod Laws
use cacic_agente.Base.{
  Bool, true, false, ◌&&◌, ◌||◌, not, String, ◌===◌, Option, none, some, List, [], ◌∷◌,
  if◌then◌else◌,
}

-- What stands in a folder, in the order in which it is listed, less `.` and `..`, which are skipped.
pub data Entries : Type 0 where
  end : Entries
  file : String → Entries → Entries
  folder : String → Entries → Entries → Entries

abbrev pub is_end : Entries → Bool
is_end end = true
is_end (file n r) = false
is_end (folder n c r) = false

-- The loop over `fileException` that sets `*exceptionFound`: without an exception in the list the
-- flag stays as it is.
abbrev pub scan : List String → String → Bool → Bool
scan [] name flag = flag
scan (e ∷ es) name flag = let rest = scan es name false in if name === e then true else rest

-- The entries that are left, `ok`, and `*exceptionFound`
pub record Sweep : Type 0 where
  pub left : Entries
  pub ok : Bool
  pub found : Bool

-- What a call leaves of a folder, with its result and `*exceptionFound`
pub record Gone : Type 0 where
  pub remains : Option Entries
  pub ok : Bool
  pub found : Bool

-- A file is removed unless the flag is set; it stays too where the system does not remove it.
unfoldable pub sweep_file : String → Bool → Bool → Sweep → Sweep
sweep_file n found refused s =
    if found || refused then record { left = file n s.left; ok = s.ok; found = s.found } else s

abbrev pub keep_remains : String → Option Entries → Sweep → Sweep
keep_remains n none s = s
keep_remains n (some c) s = record { left = folder n c s.left; ok = s.ok; found = s.found }

-- A folder that is an exception is passed over, and none is entered once `ok` is false: `inner` is
-- what the call on it makes, and `s` what the rest of the loop does.
unfoldable pub sweep_folder : String → Entries → Bool → Bool → Gone → Sweep → Sweep
sweep_folder n c found ok inner s =
    if found
    then keep_remains n (some c) s
    else if ok
    then keep_remains n inner.remains s
    else keep_remains n (some c) s

-- What follows the loop: the folder is removed unless the flag is set, which works on an empty one
-- that the system does not hold; where it did not work, `ok` says that the folder is still there.
unfoldable pub close_folder : Bool → Sweep → Gone
close_folder refused s =
    if s.found
    then record { remains = some s.left; ok = s.ok; found = true }
    else if s.ok && is_end s.left && not refused
    then record { remains = none; ok = true; found = false }
    else record { remains = some s.left; ok = true; found = false }

-- `names` are the exceptions, `refuses` says of a path that the system does not remove what stands
-- there, and `join` is the path of an entry as tinydir gives it.
module _ (names : List String) (refuses : String → Bool) (join : String → String → String) where
  -- The loop over the entries of the folder `path`, with `ok` and `*exceptionFound`.
  unfoldable pub sweep : String → Entries → Bool → Bool → Sweep
  sweep path end ok found = record { left = end; ok = ok; found = found }
  sweep path (file n r) ok found =
      let flag = scan names n found in
      sweep_file n flag (refuses (join path n)) (sweep path r ok flag)
  sweep path (folder n c r) ok found =
      let flag = scan names n found in
      let inner = close_folder (refuses (join path n)) (sweep (join path n) c true false) in
      sweep_folder n c flag ok inner (
        sweep path r (if flag then ok else ok && inner.ok)
          (if flag then true else if ok then inner.found else false))

  -- `InstallCacicSA::delFolder` on the entries of a folder; without one at that path there is
  -- nothing to list or to remove.
  unfoldable pub del_folder : String → Option Entries → Option Entries × Bool
  unfolding sweep
  del_folder path none = (none, false)
  del_folder path (some c) =
      let g = close_folder (refuses path) (sweep path c true false) in (g.remains, g.ok)

abbrev pub exception_files : List String
exception_files =
    "deploy" ∷ "coletaDiff.json" ∷ "coleta.json" ∷ "getConfig.json" ∷ "getTest.json"
    ∷ "cacic-service.exe" ∷ "chksys.exe" ∷ "gercols.exe" ∷ "install-cacic.exe" ∷ "cacicdeploy.exe"
    ∷ "bin" ∷ "icsa" ∷ []
