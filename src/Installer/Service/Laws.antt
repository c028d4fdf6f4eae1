-- ===== src/Installer/Service/Laws.antt =====
-- What the check of the service puts in place.
use text.Mathlib.TextEquality.{eq_iff}
use cacic_agente.Base.{
  ◌≡◌, refl, ap, ◌∙◌, ◌<>◌, Bool, true, false, not, ◌&&◌, ◌||◌, String, ◌===◌, List, [], ◌∷◌, arith,
  Bool-cases, inl, inr, is_empty,
}
use cacic_agente.Installer.Site.{
  Act, moves, downloads, sends, asks_config, installs_service, starts_service, did, Site, Installer,
}
use cacic_agente.Installer.Download.{
  hashes_agree, get_config, judge_download, compare_downloaded, fetch, download_service,
  download_msi,
}
use cacic_agente.Installer.Service.{
  replace, replace_installed, replace_missing, stop_running, delete_old, note, start_moved,
  start_failed, install_msi, start_installed, move_and_install, install_moved, renew,
  restart_failed, revive, verify_configured, verify_service, temporary_path, service_path,
}

-- Whether something is a move, and the move of the downloaded file to the place of the service's
abbrev is_move : Act → Bool
is_move (moves a b) = true
is_move _ = false

abbrev is_replacement : Act → Bool
is_replacement (moves a b) = a === temporary_path && b === service_path
is_replacement _ = false

abbrev pub has_moved : List Act → Bool
has_moved [] = false
has_moved (a ∷ acts) = is_move a || has_moved acts

-- The last download was to the temporary path, and what was there after it had the digest.
abbrev checked : Site → String → List Act → Bool
checked site h [] = false
checked site h (downloads source path ∷ acts) =
    path === temporary_path && site.digest (downloads source path ∷ acts) path === h
checked site h (_ ∷ acts) = checked site h acts

-- Each move puts a file with the digest in the place of the service's.
abbrev pub all_checked : Site → String → List Act → Bool
all_checked site h [] = true
all_checked site h (a ∷ acts) =
    (not (is_move a) || (is_replacement a && checked site h acts)) && all_checked site h acts

unmoved :
    (site : Site) (h : String) (acts : List Act)
    → has_moved acts ≡ false
    → all_checked site h acts ≡ true
unmoved site h [] e = refl
unmoved site h (a ∷ acts) e = ground (arith, unmoved site h acts)

module _ (site : Site) (url h : String) where
  -- The moves so far are as they should be, and the file that is to be moved has the digest.
  abbrev Good : Installer → Type 0
  Good s = all_checked site h s.acts ≡ true

  abbrev Ready : Installer → Type 0
  Ready s = (all_checked site h s.acts ≡ true) × (checked site h s.acts ≡ true)

  get_config-Good : (s : Installer) → Good s → Good (get_config site url s).1
  unfolding get_config
  get_config-Good s g = ground (arith, g)

  compare_downloaded-Ready :
      (source : String) (s : Installer)
      → Good s
      → s.hash_remote ≡ h
      → let (b, t) =
          compare_downloaded site url temporary_path (did (downloads source temporary_path) s) in
        Good t × (b ≡ true → Ready t)
  unfolding compare_downloaded
  compare_downloaded-Ready source s g e =
      let found = site.digest (downloads source temporary_path ∷ s.acts) temporary_path in
      ground (arith, g, e, eq_iff found s.hash_remote, eq_iff found h)

  stop_running-Ready : (s : Installer) → Ready s → Ready (stop_running site url s).1
  unfolding stop_running note
  stop_running-Ready s r = ground (arith, r)

  delete_old-Ready : (s : Installer) → Ready s → Ready (delete_old site url s).1
  unfolding delete_old
  delete_old-Ready s r = ground (arith, r)

  download_msi-Good : (s : Installer) → Good s → Good (download_msi site url s).1
  unfolding download_msi
  download_msi-Good s g = ground (arith, g)

  start_failed-Good : (s : Installer) → Good s → Good (start_failed site url s).1
  unfolding start_failed install_msi note
  start_failed-Good s g = ground (arith, g, download_msi-Good s g)

  fetch-Ready :
      (source : String) (s : Installer)
      → Good s
      → s.hash_remote ≡ h
      → let (b, t) = fetch site url temporary_path source s in Good t × (b ≡ true → Ready t)
  unfolding fetch judge_download
  fetch-Ready source s g e = ground (arith, g, compare_downloaded-Ready source s g e)

  download_service-Ready :
      (s : Installer)
      → Good s
      → s.hash_remote ≡ h
      → is_empty h ≡ false
      → let (b, t) = download_service site url temporary_path s in Good t × (b ≡ true → Ready t)
  unfolding download_service
  download_service-Ready s g e filled =
      let known = ap is_empty e ∙ filled in
      let request = sends ("/ws/instala/download/service/" <> s.hash_remote) in
      rw (known, download_service) (fetch-Ready (site.sent (request ∷ s.acts)) (did request s) g e)

  replace_installed-Good : (s : Installer) → Ready s → Good (replace_installed site url s).1
  unfolding replace_installed note start_moved
  replace_installed-Good s r =
      let stopped = (stop_running site url s).1 in
      ground (arith, delete_old-Ready stopped (stop_running-Ready s r))

  start_installed-Good :
      (done : Bool) (s : Installer) → Good s → Good (start_installed site url done s).1
  unfolding start_installed
  start_installed-Good done s g = ground (arith, g, start_failed-Good (did starts_service s) g)

  move_and_install-Good :
      (gone : Bool) (s : Installer) → Ready s → Good (move_and_install site url gone s).1
  unfolding move_and_install install_moved
  move_and_install-Good gone s r =
      let moved = did (moves temporary_path service_path) s in
      let installed = did (installs_service "C:\\Cacic\\cacic-service.exe") moved in
      ground (arith, r, start_installed-Good true installed, start_installed-Good false installed)

  replace_missing-Good : (s : Installer) → Ready s → Good (replace_missing site url s).1
  unfolding replace_missing
  replace_missing-Good s r =
      move_and_install-Good (delete_old site url s).0 (delete_old site url s).1
        (delete_old-Ready s r)

  replace-Good :
      (done : Bool) (s : Installer)
      → Good s × (done ≡ true → Ready s)
      → Good (replace site url done s).1
  unfolding replace
  replace-Good false s (g, r) = g
  replace-Good true s (g, r) = elim (Bool-cases (site.is_installed s.acts)) [
    | inl there ↦ rw (there, replace) (replace_installed-Good s (r refl))
    | inr gone ↦ rw (gone, replace) (replace_missing-Good s (r refl))
  ]

  renew-Good :
      (s : Installer) → Good s → s.hash_remote ≡ h → is_empty h ≡ false → Good (renew site url s).1
  unfolding renew
  renew-Good s g e filled = replace-Good _ _ (download_service-Ready s g e filled)

  restart_failed-Good : (s : Installer) → Good s → Good (restart_failed site url s).1
  unfolding restart_failed download_msi
  restart_failed-Good s g = ground (arith, g)

  revive-Good : (s : Installer) → Good s → Good (revive site url s).1
  unfolding revive note
  revive-Good s g = ground (arith, g, restart_failed-Good (did starts_service s) g)

  verify_configured-Good :
      (there : Bool) (s : Installer)
      → Good s
      → (there ≡ true → (s.hash_remote ≡ h) × (is_empty h ≡ false))
      → Good (verify_configured site url there s).1
  unfolding verify_configured
  verify_configured-Good false s g k = g
  verify_configured-Good true s g k = elim (Bool-cases (hashes_agree site url s)) [
    | inl current ↦ rw (current, verify_configured) (revive-Good s g)
    | inr old ↦ rw (old, verify_configured) (renew-Good s g (k refl).0 (k refl).1)
  ]

-- What the manager answers when it is asked for the digest of the service
abbrev pub announced : Site → Installer → String
announced site s = site.config (asks_config ∷ s.acts)

get_config-announced :
    (site : Site) (url : String) (s : Installer)
    → let (b, t) = get_config site url s in
      b ≡ true → (t.hash_remote ≡ announced site s) × (is_empty (announced site s) ≡ false)
unfolding get_config
get_config-announced site url s = ground arith

-- Where nothing was moved before, whatever the check of the service moves is the file that it
-- downloaded last, from the temporary folder to the place of the service's; and right after that
-- download the digest of the file was the one that the manager had announced in this check.
pub verify_service-Safe :
    (site : Site) (url : String) (s : Installer)
    → has_moved s.acts ≡ false
    → all_checked site (announced site s) (verify_service site url s).1.acts ≡ true
unfolding verify_service
verify_service-Safe site url s fresh =
    let h = announced site s in
    let (there, t) = get_config site url s in
    verify_configured-Good site url h there t
      (get_config-Good site url h s (unmoved site h s.acts fresh)) (get_config-announced site url s)
