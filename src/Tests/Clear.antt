-- ===== src/Tests/Clear.antt =====
-- The removal of foreign files, at concrete folders.
use cacic_agente.Base.{
  ◌≡◌, refl, Bool, true, false, String, ◌<>◌, ◌===◌, Option, none, [], ◌∷◌, contains,
}
use cacic_agente.Installer.Folder.{Entries, end, file, folder}
use cacic_agente.Timer.Clear.{
  is_spared, folder_fate, file_fate, ok_after_file, ok_after_folder, clear_file, clear_folder,
  clear_entries, remove_foreign_files,
}
use cacic_agente.Timer.Clear.Laws.{
  own, is_all_own, remove_foreign_files-own, remove_foreign_files-all,
}

abbrev join : String → String → String
join p n = p <> ("/" <> n)

-- One file is in use.
abbrev resists : String → Bool
resists p = p === "c/Logs/old.log"

abbrev yields : String → Bool
yields p = false

abbrev goes : String → Entries → Option Entries
goes p c = none

abbrev main_folder : Entries
main_folder =
    folder "Logs" (file "cacic.log" (file "old.log" (file "older.log" end)))
      (file "x.tmp" (folder "bin" (file "x.dll" end) (folder "old" end end)))

-- Once a file resists nothing more of its folder is deleted, nor of the folder above it.
stopped :
    (remove_foreign_files resists goes join "c" main_folder).left ≡ main_folder
    × ((remove_foreign_files resists goes join "c" main_folder).lines
        ≡ "Excluindo arquivo: old.log" ∷ "Excluindo arquivo: older.log" ∷ "Excluindo arquivo: x.tmp"
          ∷ "Excluindo diretorio: old" ∷ [])
unfolding remove_foreign_files clear_entries clear_file clear_folder ok_after_file ok_after_folder
    file_fate folder_fate is_spared contains
stopped = (refl, refl)

remove_foreign_files-own_example :
    ((remove_foreign_files resists goes join "c" main_folder).ok
      ≡ is_all_own (remove_foreign_files resists goes join "c" main_folder).left)
    × (own (remove_foreign_files resists goes join "c" main_folder).left ≡ own main_folder)
remove_foreign_files-own_example = remove_foreign_files-own resists goes join "c" main_folder

remove_foreign_files-all_example :
    ((remove_foreign_files yields goes join "c" main_folder).left
      ≡ folder "Logs" (file "cacic.log" end) (folder "bin" (file "x.dll" end) end))
    × ((remove_foreign_files yields goes join "c" main_folder).ok ≡ true)
unfolding own file_fate folder_fate is_spared contains
remove_foreign_files-all_example =
    remove_foreign_files-all yields goes join (λ p. refl) (λ p c. refl) "c" main_folder
