-- ===== src/Installer/Download.antt =====
-- What the installer gets from the manager: the digest of the service, its file and the MSI.
use cacic_agente.Base.{
  ℕ, suc, Bool, true, false, not, ◌&&◌, ◌||◌, String, ◌<>◌, ◌===◌, Option, none, some, List, [],
  ◌∷◌, if◌then◌else◌, is_empty,
}
use cacic_agente.Installer.Site.{
  asks_config, sends, downloads, runs, Site, Installer, M, ◌>>=◌, ◌>>◌, pure, did, try, report,
  install_dir,
}

-- `getValidNetwork`: the first address that is neither that of the machine itself nor none.
unfoldable pub valid_network : List String → Option ℕ
valid_network [] = none
valid_network (ip ∷ ips) =
    let rest = valid_network ips in
    if not (ip === "127.0.0.1") && not (ip === "0.0.0.0")
    then some 0
    else elim rest [ none ↦ none | some i ↦ some (suc i) ]

abbrev pub is_no_answer : String → Bool
is_no_answer s = s === "" || s === "CONNECTION_ERROR"

abbrev pub msi_path : String
msi_path = install_dir <> "\\Cacic.msi"

module _ (site : Site) (url : String) where
  set_remote : String → M (Unit {0})
  set_remote hash s = (tt, record s { hash_remote = hash })

  config_answered : String → M Bool
  unfolding set_remote
  config_answered answer =
      if is_no_answer answer
      then (do report "Erro de conexão no getConfig!!!"; set_remote ""; pure false)
      else (do set_remote answer; pure true)

  no_network : M Bool
  unfolding set_remote
  no_network = do
    report "Não foi possível encontrar uma interface de rede válida"
    report "Erro no getConfig: Nenhuma interface de rede válida!"
    set_remote ""
    pure false

  config_from : Option ℕ → M Bool
  unfolding config_answered no_network
  config_from none s = no_network s
  config_from (some i) s = config_answered (site.config (asks_config ∷ s.acts)) (did asks_config s)

  -- `InstallCacicSA::getConfig`
  unfoldable pub get_config : M Bool
  unfolding config_from
  get_config s = config_from (valid_network (site.networks s.acts)) s

  -- `comparaHash`
  abbrev pub hashes_agree : Installer → Bool
  hashes_agree s = s.hash_local === s.hash_remote

  -- The digest of what was downloaded, against the one that the manager gave
  unfoldable pub compare_downloaded : String → M Bool
  compare_downloaded path s =
      let t = record s { hash_local = site.digest s.acts path } in
      if hashes_agree t
      then (true, t)
      else (do report "Erro ao baixar o arquivo do serviço! Hash esperado: "; pure false) t

  unfoldable pub judge_download : String → Bool → M Bool
  unfolding compare_downloaded
  judge_download path false s =
      (do
        report "Erro ao baixar arquivo do serviço! Não foi possível comunicar com o Gerente!"
        pure false)
        s
  judge_download path true s =
      if site.exists s.acts path
      then compare_downloaded path s
      else (do report "Erro ao baixar arquivo do serviço! Download falhou!"; pure false) s

  unfoldable pub fetch : String → String → M Bool
  unfolding judge_download
  fetch path source =
      if is_no_answer source
      then (do report "Binário do serviço não encontrado! Hash: "; pure false)
      else (do done ← try (downloads source path) site.downloads; judge_download path done)

  send_request : String → M String
  send_request route s = (site.sent (sends route ∷ s.acts), did (sends route) s)

  ensure_config : M (Unit {0})
  unfolding get_config
  ensure_config s = if is_empty s.hash_remote then (do _ ← get_config; pure tt) s else (tt, s)

  -- `InstallCacicSA::downloadService`
  unfoldable pub download_service : String → M Bool
  unfolding ensure_config send_request fetch
  download_service path = do
    ensure_config
    source ← (λ s. send_request ("/ws/instala/download/service/" <> s.hash_remote) s)
    fetch path source

  fetch_msi : String → M Bool
  fetch_msi source = if is_no_answer source then pure false else (do
    done ← try (downloads source msi_path) site.downloads
    (λ s. (done && site.exists s.acts msi_path, s)))

  -- `InstallCacicSA::downloadMsi`
  unfoldable pub download_msi : M Bool
  unfolding send_request fetch_msi
  download_msi = do source ← send_request "/ws/instala/download/msi"; fetch_msi source

  unfoldable pub run_program : String → M Bool
  run_program command = do
    created ← try (runs command) site.creates
    (λ s.
        if created
        then (site.runs s.acts, s)
        else (do report "Falha ao criar processo utilizando: "; pure false) s)

  -- `InstallCacicSA::installCacic`
  unfoldable pub install_cacic : M Bool
  unfolding run_program
  install_cacic =
      run_program
        ("msiexec /i \"" <> msi_path <> "\"  /quiet HOST=" <> url <> " USER=cacic PASS=cacic123")
