-- ===== src/Timer/Clear.antt =====
-- `CacicTimer::removeArquivosEstrangeiros` (cacicD/cacictimer.cpp): what is not of the agent is
-- deleted from its folder. The folder is read before anything in it is deleted; `Entries` has its
-- entries in the order in which they were read.
pub mod Laws
use cacic_agente.Base.{
  Bool, true, false, ◌&&◌, ◌||◌, not, String, ◌<>◌, ◌===◌, Option, none, some, List, [], ◌∷◌, ◌++◌,
  if◌then◌else◌, contains,
}
use cacic_agente.Installer.Folder.{Entries, end, file, folder}

-- A file or a folder with one of these in its name is passed over.
unfoldable pub is_spared : String → Bool
is_spared n =
    contains n "cacic-service"
    || contains n "cacic.log"
    || contains n "install-cacic"
    || contains n "gercols"
    || contains n "getTest.json"
    || contains n "getConfig.json"

-- What is done with an entry
pub data Fate : Type 0 where
  spares : Fate
  enters : Fate
  deletes : Fate

unfoldable pub folder_fate : String → Fate
folder_fate n =
    if is_spared n
    then spares
    else if n === "Logs" || n === "temp"
    then enters
    else if n === "bin"
    then spares
    else deletes

unfoldable pub file_fate : String → Fate
file_fate n = if is_spared n then spares else deletes

-- The entries that are left, `retorno`, and what is written to the log.
pub record Cleared : Type 0 where
  pub left : Entries
  pub ok : Bool
  pub lines : List String

abbrev pub with_file : String → Cleared → Cleared
with_file n s = record { left = file n s.left; ok = s.ok; lines = s.lines }

abbrev pub with_folder : String → Option Entries → Cleared → Cleared
with_folder n none s = s
with_folder n (some c) s = record { left = folder n c s.left; ok = s.ok; lines = s.lines }

abbrev pub with_lines : List String → Cleared → Cleared
with_lines l s = record { left = s.left; ok = s.ok; lines = l ++ s.lines }

-- The entries of a folder that could not be deleted, if it is still there.
abbrev pub is_gone : Option Entries → Bool
is_gone none = true
is_gone (some c) = false

-- `retorno` after an entry: `&&` deletes nothing once it is false.
unfoldable pub ok_after_file : Fate → Bool → Bool → Bool
ok_after_file spares ok refused = ok
ok_after_file enters ok refused = ok
ok_after_file deletes ok refused = ok && not refused

unfoldable pub ok_after_folder : Fate → Bool → Cleared → Option Entries → Bool
ok_after_folder spares ok inner rest = ok
ok_after_folder enters ok inner rest = ok && inner.ok
ok_after_folder deletes ok inner rest = ok && is_gone rest

-- The line is written for a file that was not deleted too; `s` is what the rest of the loop makes.
unfoldable pub clear_file : String → Fate → Bool → Bool → Cleared → Cleared
clear_file n spares ok refused s = with_file n s
clear_file n enters ok refused s = with_file n s
clear_file n deletes ok refused s =
    with_lines (("Excluindo arquivo: " <> n) ∷ []) (if ok && not refused then s else with_file n s)

unfoldable pub clear_folder :
    String → Entries → Fate → Bool → Cleared → Option Entries → Cleared → Cleared
clear_folder n c spares ok inner rest s = with_folder n (some c) s
clear_folder n c enters ok inner rest s = with_lines inner.lines (with_folder n (some inner.left) s)
clear_folder n c deletes ok inner rest s =
    with_lines (("Excluindo diretorio: " <> n) ∷ [])
      (if ok then with_folder n rest s else with_folder n (some c) s)

-- `refuses` says of the path of a file that `QFile::remove` fails there, `removes` what
-- `QDir::removeRecursively` leaves of a folder, where it succeeds if it leaves none, and `join` is
-- `absoluteFilePath`.
module _ (refuses : String → Bool) (removes : String → Entries → Option Entries)
    (join : String → String → String) where
  -- The loop over the entries, with `retorno`.
  unfoldable pub clear_entries : String → Entries → Bool → Cleared
  clear_entries path end ok = record { left = end; ok = ok; lines = [] }
  clear_entries path (file n r) ok =
      let fate = file_fate n in
      let refused = refuses (join path n) in
      clear_file n fate ok refused (clear_entries path r (ok_after_file fate ok refused))
  clear_entries path (folder n c r) ok =
      let fate = folder_fate n in
      let inner = clear_entries (join path n) c true in
      let rest = removes (join path n) c in
      clear_folder n c fate ok inner rest
        (clear_entries path r (ok_after_folder fate ok inner rest))

  -- `CacicTimer::removeArquivosEstrangeiros`
  unfoldable pub remove_foreign_files : String → Entries → Cleared
  unfolding clear_entries
  remove_foreign_files path e = clear_entries path e true
