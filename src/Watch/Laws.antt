-- ===== src/Watch/Laws.antt =====
-- What the checker says of a download.
use cacic_agente.Base.{
  ◌≡◌, ◌∙◌, ap, Bool, true, false, String, ◌<>◌, Option, none, some, Bool-cases, Option-cases, inl,
  inr, ltb,
}
use cacic_agente.Json.{Object, value, to_string, is_empty_object}
use cacic_agente.Machine.{Machine}
use cacic_agente.World.{World, Ensures, Holds}
use cacic_agente.World.Laws.{Holds-bind, Holds_any, Ensures-Holds}
use cacic_agente.Cacic.{get_json_from_file}
use cacic_agente.Cacic.Laws.{get_json-Silent}
use cacic_agente.CheckModules.{method_of, download_comm, method_path}
use cacic_agente.Comm.Download.{file_download}
use cacic_agente.Watch.{
  Control, service_file, checked_path, judge_download, fetch_service, with_method, download_service,
}

module _ (m : Machine) (control : Control m) (windows : Bool) (folder : String) where
  abbrev pub service_at : World m → Option m.Bytes
  service_at w = m.read w.disk (checked_path m control windows folder)

  -- A file of more than one byte stands where the service's is to be.
  abbrev pub IsRestored : World m → Type 0
  IsRestored w = (c : m.Bytes) × (service_at w ≡ some c) × (ltb 1 (m.size c) ≡ true)

  abbrev Tells : Bool → World m → Type 0
  Tells b v = b ≡ true → IsRestored v

  judged-Tells :
      (method : Object) (done : Bool) (w : World m)
      → Ensures (judge_download m control windows folder method done w) Tells
  unfolding judge_download
  judged-Tells method false w = λ e. cc
  judged-Tells method true w = elim (Option-cases (service_at w)) [
    | inl gone ↦ rw (gone, Ensures) (λ e. cc)
    | inr (c, there) ↦ elim (Bool-cases (ltb 1 (m.size c))) [
      | inl big ↦ rw (there, big, Ensures) (λ e. (c, there, big))
      | inr small ↦ rw (there, small, Ensures) (λ e. cc)
    ]
  ]

  fetched-Tells :
      (method : Object) (w : World m)
      → Holds (fetch_service m control windows folder method w) Tells
  unfolding fetch_service
  fetched-Tells method w =
      let run =
        file_download m (download_comm method) (to_string (value "tipo" method))
          (to_string (value "url" method))
          (method_path method (service_file m control windows folder)) folder w in
      Holds-bind run _ (λ _ _. Unit {0}) Tells (Holds_any run)
        λ done v h.
          Ensures-Holds (judge_download m control windows folder method done v) Tells
            (judged-Tells method done v)

  with_method-Tells :
      (method : Object) (w : World m)
      → service_at w ≡ none
      → Holds (with_method m control windows folder method w) Tells
  unfolding with_method
  with_method-Tells method w gone = elim (Bool-cases (is_empty_object method)) [
    | inl bare ↦ rw (bare, with_method) (λ e. cc)
    | inr filled ↦ rw (filled, gone, with_method) (fetched-Tells method w)
  ]

  -- If the service's file is not there and `downloadService` returns that it went well, a file of more
  -- than one byte stands in its place.
  pub download_service-IsRestored :
      (w : World m)
      → service_at w ≡ none
      → Holds (download_service m control windows folder w) (λ b v. b ≡ true → IsRestored v)
  unfolding download_service
  download_service-IsRestored w gone =
      Holds-bind (get_json_from_file m (folder <> "/getConfig.json") w) _ (λ _ v. v ≡ w) Tells
        (get_json-Silent m w (folder <> "/getConfig.json"))
        λ config v h. with_method-Tells (method_of config) v (ap service_at h ∙ gone)
