-- ===== src/Tests/Installer.antt =====
-- The deletion of a folder, the check of the service and the arguments, at concrete values.
use cacic_agente.Base.{◌≡◌, refl, Bool, true, false, String, ◌<>◌, some, [], ◌∷◌, none}
use cacic_agente.Installer.Folder.{
  Entries, end, file, folder, sweep, sweep_file, sweep_folder, close_folder, del_folder,
  exception_files,
}
use cacic_agente.Installer.Folder.Laws.{rest_of_folder, prune, del_folder-prune}
use cacic_agente.Installer.Site.{Site, Installer}
use cacic_agente.Installer.Download.{get_config, valid_network, download_service}
use cacic_agente.Installer.Service.{note, verify_service}
use cacic_agente.Installer.Service.Laws.{verify_service-Safe, all_checked, announced, has_moved}
use cacic_agente.Installer.Run.{install, choose}

-- Nothing resists, and a path is joined by a backslash.
abbrev yields : String → Bool
yields p = false

abbrev join : String → String → String
join p n = p <> ("\\" <> n)

abbrev old_folder : Entries
old_folder =
    file "coleta.json"
      (folder "Logs" (file "a.log" end) (folder "bin" (file "x.dll" end) (file "cacic280.exe" end)))

-- The last entry is no exception, so that the system is asked to remove the folder, and refuses.
left_over :
    del_folder exception_files yields join "C:\\Cacic" (some old_folder)
    ≡ (some (file "coleta.json" (folder "bin" (file "x.dll" end) end)), true)
unfolding del_folder sweep sweep_file sweep_folder close_folder
left_over = refl

del_folder-prune_example :
    del_folder exception_files yields join "C:\\Cacic" (some old_folder)
    ≡ (rest_of_folder false (prune exception_files yields join "C:\\Cacic" old_folder), true)
del_folder-prune_example = del_folder-prune exception_files yields join "C:\\Cacic" old_folder

-- The service is installed and runs, and the manager has a newer one.
abbrev busy_site : Site
busy_site = record {
  networks = λ acts. "127.0.0.1" ∷ "10.0.0.5" ∷ [];
  config = λ acts. "new";
  pong = λ acts. "";
  sent = λ acts. "http://host/cacic-service.exe";
  downloads = λ acts. true;
  digest = λ acts p. "new";
  exists = λ acts p. true;
  is_folder = λ acts p. true;
  is_empty_folder = λ acts p. false;
  is_installed = λ acts. true;
  is_running = λ acts. true;
  stops = λ acts. true;
  starts = λ acts. true;
  installs = λ acts. true;
  deletes = λ acts. true;
  moves = λ acts. true;
  creates = λ acts. true;
  runs = λ acts. true;
  sets = λ acts. true;
  is_admin = true;
  is_registered = λ acts. true;
  has_old = λ acts p. false;
  runs_old = λ acts p. false;
  uninstalls = λ acts. true;
  clears = λ acts. true;
  makes_folder = λ acts. true;
}

abbrev new_installer : Installer
new_installer = record { hash_local = ""; hash_remote = ""; acts = [] }

abbrev verified : Installer
verified = (verify_service busy_site "host" new_installer).1

verify_service-Safe_example :
    all_checked busy_site (announced busy_site new_installer) verified.acts ≡ true
verify_service-Safe_example = verify_service-Safe busy_site "host" new_installer refl

replaced : has_moved verified.acts ≡ true
unfolding verify_service get_config valid_network download_service note
replaced = refl

-- With a single argument that is not -remove the address is never set.
no_address : choose ("-url" ∷ []) ≡ install none
unfolding choose
no_address = refl
