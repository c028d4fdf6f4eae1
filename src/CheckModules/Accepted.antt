-- ===== src/CheckModules/Accepted.antt =====
-- What a successful check of a module says about the files.
use cacic_agente.Base.{
  ◌≡◌, refl, ◌⊎◌, inl, inr, Bool, true, false, String, ◌<>◌, ◌===◌, none, some, ◌∷◌, ltb, arith,
  is_empty, clean, Bool-cases, Option-cases,
}
use cacic_agente.Json.{Object, is_empty_object, value, to_string}
use cacic_agente.Machine.{Machine}
use cacic_agente.Machine.Laws.{IsLawful}
use cacic_agente.World.{World, ok, Ensures, Holds}
use cacic_agente.World.Laws.{Ensures-bind, Ensures-Holds, Holds-bind, Holds-mono}
use cacic_agente.Cacic.{get_json_from_file}
use cacic_agente.Cacic.Laws.{get_json_of_disk, get_json-Silent}
use cacic_agente.Comm.{Comm}
use cacic_agente.Comm.Download.{file_download, target, download_request, received}
use cacic_agente.Comm.Download.Laws.{WasAnswered, file_download-WasAnswered}
use cacic_agente.CheckModules.{
  bad_url, module_path, has_digest, method_of, method_path, download_comm, download_folder,
  download_module, judge_download, update_module, with_method, renew, verify_module, refuse,
  too_small, is_locked,
}
use cacic_agente.CheckModules.Downloads.{config_file, announced}

module _ (m : Machine) (windows : Bool) (folder : String) where
  -- There is a file of more than one byte.
  abbrev pub HasData : String → World m → Type 0
  HasData p v = (b : m.Bytes) × (m.read v.disk p ≡ some b) × (ltb 1 (m.size b) ≡ true)

  -- The download was answered, and there is the file afterwards.
  abbrev pub WasDownloaded : World m → String → World m → Type 0
  WasDownloaded w p v = HasData p v × WasAnswered w v

  judge_download-true :
      (p app name : String) (method : Object) (done : Bool) (w u : World m)
      → (done ≡ true → WasAnswered w u)
      → Holds
          (judge_download m windows folder p app method name done u)
          (λ r v. r ≡ true → WasDownloaded w p v)
  unfolding judge_download refuse too_small
  judge_download-true p app name method false w u a = λ t. cc
  judge_download-true p app name method true w u a = elim (Option-cases (m.read u.disk p)) [
    | inl gone ↦ rw (gone, judge_download) (λ t. cc)
    | inr (b, e) ↦ elim (Bool-cases (ltb 1 (m.size b))) [
      | inl data_there ↦ rw (e, judge_download) (rw data_there (λ t. ((b, e, data_there), a refl)))
      | inr short ↦ rw (e, judge_download) (rw short (λ t. cc))
    ]
  ]

  download_module-WasAnswered :
      (app name url dir : String) (method : Object) (w : World m)
      → Ensures
          (download_module m windows folder app method name url dir w)
          (λ r v. r ≡ true → WasAnswered w v)
  unfolding download_module bad_url
  download_module-WasAnswered app name url dir method w = elim (Bool-cases (is_empty url)) [
    | inl bare ↦ rw (bare, download_module) (file_download-WasAnswered m _ _ _ _ _ w)
    | inr given ↦ elim (Bool-cases (m.valid_url url)) [
      | inl valid ↦ rw (given, download_module) (rw valid (file_download-WasAnswered m _ _ _ _ _ w))
      | inr faulty ↦ rw (given, download_module) (rw faulty (λ t. cc))
    ]
  ]

  update_module-true :
      (app name url dir : String) (method : Object) (w : World m)
      → Holds
          (update_module m windows folder app method name url dir w)
          (λ r v. r ≡ true → WasDownloaded w (dir <> name) v)
  unfolding update_module
  update_module-true app name url dir method w =
      Holds-bind (download_module m windows folder app method name url dir w)
        (judge_download m windows folder (dir <> name) app method name)
        (λ r v. r ≡ true → WasAnswered w v) _
        (Ensures-Holds (download_module m windows folder app method name url dir w) _
          (download_module-WasAnswered app name url dir method w))
        λ done v a. judge_download-true (dir <> name) app name method done w v a

  with_method-true :
      (app name hash url dir : String) (method : Object) (w : World m)
      → Holds (with_method m windows folder app name hash url dir method w) (λ r v.
        r ≡ true
        → (has_digest m windows folder (folder <> "/temp/" <> name) hash w ≡ true)
          ⊎ WasDownloaded w (dir <> name) v)
  unfolding with_method refuse
  with_method-true app name hash url dir method w = elim (Bool-cases (is_empty_object method)) [
    | inl bare ↦ rw (bare, with_method) (λ t. cc)
    | inr filled ↦ elim (Bool-cases (is_locked m windows folder (folder <> "/temp/" <> name) w)) [
      | inl locked ↦ rw (filled, with_method) (rw locked (λ t. cc))
      | inr free ↦
          elim (Bool-cases (has_digest m windows folder (folder <> "/temp/" <> name) hash w)) [
            | inl same ↦ rw (filled, with_method) (rw free (rw same (λ t. inl refl)))
            | inr other ↦
                rw (filled, with_method)
                  (rw free (
                    rw other (
                      Holds-mono (update_module m windows folder app method name url dir w) _ _
                        (update_module-true app name url dir method w) (λ r v h t. inr (h t)))))
          ]
    ]
  ]

  renew-true :
      (app name hash url dir : String) (w : World m)
      → Holds (renew m windows folder app name hash url dir w) (λ r v.
        r ≡ true
        → (has_digest m windows folder (folder <> "/temp/" <> name) hash w ≡ true)
          ⊎ WasDownloaded w (dir <> name) v)
  unfolding renew
  renew-true app name hash url dir w =
      let seen = announced m windows folder name dir w in
      Holds-bind (get_json_from_file m (config_file m windows folder) seen) _ (λ _ v. v ≡ seen) _
        (get_json-Silent m seen (config_file m windows folder))
        λ config v e. rw e (with_method-true app name hash url dir (method_of config) seen)

  -- If the check of a module returns and succeeds, its file or the one in the temporary folder had
  -- the digest of the configuration before, or the one request that it sent was answered, and a file
  -- with the name of the module and more than one byte is in the folder of the download afterwards.
  -- That file need not be the one that was downloaded.
  pub verify_module-true :
      (app name hash url : String) (w : World m)
      → Holds (verify_module m windows folder app name hash url w) (λ r v.
        r ≡ true
        → (has_digest m windows folder (module_path m windows folder name) hash w ≡ true)
          ⊎ (has_digest m windows folder (folder <> "/temp/" <> name) hash w ≡ true)
          ⊎ WasDownloaded w (download_folder m windows folder name w <> name) v)
  unfolding verify_module
  verify_module-true app name hash url w =
      ground (arith, renew-true app name hash url (download_folder m windows folder name w) w)

  fetched_some :
      (c : Comm) (mode server path dir : String) (b : m.Bytes) (w : World m)
      → IsLawful m
      → m.writable w.disk (target path dir) ≡ true
      → m.get (download_request c mode server path ∷ w.sent) ≡ some b
      → ltb 1 (m.size b) ≡ true
      → Ensures
          (file_download m c mode server path dir w)
          (λ r v. (r ≡ true) × (v.disk ≡ m.write w.disk (target path dir) b))
  unfolding file_download received
  fetched_some c mode server path dir b w L opens got large = ground arith

  judged_some :
      (p app name : String) (method : Object) (b : m.Bytes) (w : World m)
      → m.read w.disk p ≡ some b
      → ltb 1 (m.size b) ≡ true
      → Ensures
          (judge_download m windows folder p app method name true w)
          (λ r v. (r ≡ true) × (m.read v.disk p ≡ some b))
  unfolding judge_download
  judged_some p app name method b w there large = ground arith

  updated_some :
      (app name dir : String) (method : Object) (b : m.Bytes) (w : World m)
      → IsLawful m
      → m.writable w.disk (target (method_path method name) dir) ≡ true
      → (clean (dir <> name) === clean (target (method_path method name) dir)) ≡ true
      → m.get (
          download_request
            (download_comm method)
            (to_string (value "tipo" method))
            app
            (method_path method name)
          ∷ w.sent)
        ≡ some b
      → ltb 1 (m.size b) ≡ true
      → Ensures
          (update_module m windows folder app method name "" dir w)
          (λ r v. (r ≡ true) × (m.read v.disk (dir <> name) ≡ some b))
  unfolding update_module download_module
  updated_some app name dir method b w L opens same got large =
      let path = method_path method name in
      Ensures-bind
        (file_download m (download_comm method) (to_string (value "tipo" method)) app path dir w)
        (judge_download m windows folder (dir <> name) app method name)
        (λ r v. (r ≡ true) × (v.disk ≡ m.write w.disk (target path dir) b))
        (λ r v. (r ≡ true) × (m.read v.disk (dir <> name) ≡ some b))
        (fetched_some (download_comm method) (to_string (value "tipo" method)) app path dir b w L
          opens got large)
        λ r v (e, d). rw e (
          judged_some (dir <> name) app name method b v
            (rw d (ground (arith, L.read-write w.disk (target path dir) b (dir <> name)))) large)

  undigested :
      (p hash : String) (w : World m)
      → m.read w.disk p ≡ none
      → has_digest m windows folder p hash w ≡ false
  undigested p hash w e = ground arith

  -- On a lawful machine, a module that is neither there nor in the temporary folder, and has no
  -- address of its own, is accepted as it was downloaded, whatever its digest: where the
  -- configuration reads and has a method, the target is the module's file and can be opened, and
  -- the server answers with more than one byte.
  pub verify_module_unchecked :
      (app name hash : String) (config : Object) (b : m.Bytes) (w : World m)
      → IsLawful m
      → m.read w.disk (module_path m windows folder name) ≡ none
      → m.read w.disk (folder <> "/temp/" <> name) ≡ none
      → get_json_from_file m (config_file m windows folder) w ≡ ok config w
      → is_empty_object (method_of config) ≡ false
      → let file = target (method_path (method_of config) name) (folder <> "/") in
        m.writable w.disk file ≡ true
        → (clean ((folder <> "/") <> name) === clean file) ≡ true
        → m.get (
            download_request
              (download_comm (method_of config))
              (to_string (value "tipo" (method_of config)))
              app
              (method_path (method_of config) name)
            ∷ w.sent)
          ≡ some b
        → ltb 1 (m.size b) ≡ true
        → Ensures
            (verify_module m windows folder app name hash "" w)
            (λ r v. (r ≡ true) × (m.read v.disk ((folder <> "/") <> name) ≡ some b))
  unfolding verify_module renew with_method
  verify_module_unchecked app name hash config b w L gone lacks reads filled opens same got large =
      let seen = announced m windows folder name (folder <> "/") w in
      rw (undigested (module_path m windows folder name) hash w gone, verify_module)
        (rw gone (
          rw (get_json_of_disk m (config_file m windows folder) w seen config refl reads) (
            rw (filled, undigested (folder <> "/temp/" <> name) hash seen lacks)
              (rw lacks (
                updated_some app name (folder <> "/") (method_of config) b seen L opens same got
                  large)))))
