-- ===== src/CheckModules/Downloads.antt =====
-- What the check of a module changes on the disk, and what it accepts as a new module.
use cacic_agente.Base.{
  ◌∙◌, ◌≡◌, refl, Bool, false, String, ◌<>◌, ◌===◌, ◌∷◌, arith, if◌then◌else◌, is_empty, clean,
  Bool-cases, inl, inr,
}
use cacic_agente.Json.{Object}
use cacic_agente.Log.{Level}
use cacic_agente.Machine.{Machine}
use cacic_agente.Machine.Laws.{IsLawful}
use cacic_agente.World.{World, ok, Ensures}
use cacic_agente.World.Laws.{Ensures-bind, Ensures-mono}
use cacic_agente.Cacic.{get_json_from_file}
use cacic_agente.Cacic.Laws.{get_json_of_disk}
use cacic_agente.Comm.{Comm}
use cacic_agente.Comm.Download.{file_download, target, download_request}
use cacic_agente.Comm.Download.Laws.{file_download_elsewhere}
use cacic_agente.CheckModules.{
  method_of, method_path, download_folder, download_module, judge_download, update_module,
  with_method, renew, verify_module, refuse, too_small, bad_url,
}

-- The path whose last part names the file that is downloaded.
abbrev pub download_path : Machine → Object → String → String → String
download_path m method name url = if is_empty url then method_path method name else m.path url

module _ (m : Machine) (windows : Bool) (folder : String) where
  abbrev pub config_file : String
  config_file = folder <> "/getConfig.json"

  -- The world once the need of a download was logged.
  abbrev pub announced : String → String → World m → World m
  announced name dir w = record w {
    log =
        (Level.info, "Baixando em: " <> dir)
        ∷ (Level.info, "Atualização de " <> name <> " necessária.")
        ∷ w.log;
  }

  -- The file holds what it held, and the registry is the same.
  abbrev pub Spares : String → World m → World m → Type 0
  Spares q w v = (m.read v.disk q ≡ m.read w.disk q) × (v.registry ≡ w.registry)

  module _ (L : IsLawful m) (q : String) where
    too_small_elsewhere :
        (p app name : String) (method : Object) (w : World m)
        → (clean q === clean p) ≡ false
        → Ensures (too_small m windows folder p app method name w) (λ _ v. Spares q w v)
    unfolding too_small
    too_small_elsewhere p app name method w e = elim (Bool-cases (m.remove w.disk p).0) [
      | inl gone ↦ ground (arith, L.read-remove_true w.disk p q gone)
      | inr kept ↦ ground (arith, L.read-remove_false w.disk p q kept)
    ]

    judge_download_elsewhere :
        (p app name : String) (method : Object) (done : Bool) (w : World m)
        → (clean q === clean p) ≡ false
        → Ensures (judge_download m windows folder p app method name done w) (λ _ v. Spares q w v)
    unfolding judge_download refuse
    judge_download_elsewhere p app name method done w e =
        ground (arith, too_small_elsewhere p app name method w e)

    fetched_elsewhere :
        (c : Comm) (mode server path dir : String) (w : World m)
        → (clean q === clean (target path dir)) ≡ false
        → Ensures (file_download m c mode server path dir w) (λ _ v. Spares q w v)
    fetched_elsewhere c mode server path dir w e =
        Ensures-mono (file_download m c mode server path dir w)
          (λ _ v.
            (m.read v.disk q ≡ m.read w.disk q)
            × (v.registry ≡ w.registry)
            × (v.sent ≡ (
                if m.writable w.disk (target path dir)
                then download_request c mode server path ∷ w.sent
                else w.sent)))
          (λ _ v. Spares q w v) (file_download_elsewhere m L c mode server path dir q w e)
          λ _ v (d, r, _). (d, r)

    download_module_elsewhere :
        (app name url dir : String) (method : Object) (w : World m)
        → (clean q === clean (target (download_path m method name url) dir)) ≡ false
        → Ensures (download_module m windows folder app method name url dir w) (λ _ v. Spares q w v)
    unfolding download_module bad_url
    download_module_elsewhere app name url dir method w e = elim (Bool-cases (is_empty url)) [
      | inl bare ↦ rw (bare, download_module) (fetched_elsewhere _ _ app _ dir w (ground arith))
      | inr own ↦ elim (Bool-cases (m.valid_url url)) [
        | inl good ↦
            rw (own, download_module)
              (rw good (fetched_elsewhere _ _ (m.authority url) _ dir w (ground arith)))
        | inr bad ↦ rw (own, download_module) (rw bad (refl, refl))
      ]
    ]

    update_module_elsewhere :
        (app name url dir : String) (method : Object) (w : World m)
        → (clean q === clean (target (download_path m method name url) dir)) ≡ false
        → (clean q === clean (dir <> name)) ≡ false
        → Ensures (update_module m windows folder app method name url dir w) (λ _ v. Spares q w v)
    unfolding update_module
    update_module_elsewhere app name url dir method w e f =
        Ensures-bind (download_module m windows folder app method name url dir w)
          (judge_download m windows folder (dir <> name) app method name) (λ _ v. Spares q w v) _
          (download_module_elsewhere app name url dir method w e)
          λ done v (d, r).
            Ensures-mono (judge_download m windows folder (dir <> name) app method name done v) _ _
              (judge_download_elsewhere (dir <> name) app name method done v f)
              λ _ u (d', r'). (d' ∙ d, r' ∙ r)

    with_method_elsewhere :
        (app name hash url dir : String) (method : Object) (w : World m)
        → (clean q === clean (target (download_path m method name url) dir)) ≡ false
        → (clean q === clean (dir <> name)) ≡ false
        → Ensures
            (with_method m windows folder app name hash url dir method w)
            (λ _ v. Spares q w v)
    unfolding with_method refuse
    with_method_elsewhere app name hash url dir method w e f =
        ground (arith, update_module_elsewhere app name url dir method w e f)

    renew_elsewhere :
        (app name hash url dir : String) (config : Object) (w : World m)
        → get_json_from_file m config_file w ≡ ok config w
        → (clean q === clean (target (download_path m (method_of config) name url) dir)) ≡ false
        → (clean q === clean (dir <> name)) ≡ false
        → Ensures (renew m windows folder app name hash url dir w) (λ _ v. Spares q w v)
    unfolding renew
    renew_elsewhere app name hash url dir config w reads e f =
        rw (get_json_of_disk m config_file w (announced name dir w) config refl reads, renew)
          (with_method_elsewhere app name hash url dir (method_of config) _ e f)

    -- On a lawful machine, where the configuration reads, the check of a module returns, leaves the
    -- registry alone, and changes no file but two of the folder it downloads to: the target of the
    -- download and the file with the module's name.
    pub verify_module_elsewhere :
        (app name hash url : String) (config : Object) (w : World m)
        → get_json_from_file m config_file w ≡ ok config w
        → let dir = download_folder m windows folder name w in
          (clean q === clean (target (download_path m (method_of config) name url) dir)) ≡ false
          → (clean q === clean (dir <> name)) ≡ false
          → Ensures (verify_module m windows folder app name hash url w) (λ _ v. Spares q w v)
    unfolding verify_module refuse
    verify_module_elsewhere app name hash url config w reads e f = ground (
      arith,
      renew_elsewhere app name hash url (download_folder m windows folder name w) config w reads e
          f,
    )
