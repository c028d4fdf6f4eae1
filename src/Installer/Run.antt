-- ===== src/Installer/Run.antt =====
-- The installation as a whole, and the arguments of the program
-- (installcacic-standalone/main.cpp).
use cacic_agente.Base.{
  Bool, true, false, not, ◌&&◌, String, ◌===◌, Option, none, some, List, [], ◌∷◌, if◌then◌else◌,
}
use cacic_agente.Installer.Site.{
  pings, deletes, sets, uninstalls, stops_old, kills, clears, makes_folder, Site, M, ◌>>=◌, ◌>>◌,
  pure, did, try, act, report, cacic_path, install_dir,
}
use cacic_agente.Installer.Download.{msi_path, download_msi, install_cacic, run_program}
use cacic_agente.Installer.Service.{note, verify_service}

-- What `main` does with its arguments. The address is `none` where nothing has set the pointer.
pub data Choice : Type 0 where
  usage invalid remove : Choice
  install : Option String → Choice

-- The loop of `main`, which skips the last argument unless it is -remove.
unfoldable pub read_arguments : Option String → List String → Choice
read_arguments url [] = install url
read_arguments url (a ∷ []) = if a === "-remove" then remove else install url
read_arguments url (a ∷ b ∷ rest) =
    let next = read_arguments (some b) (b ∷ rest) in
    if a === "-url" then next else if a === "-remove" then remove else invalid

unfoldable pub choose : List String → Choice
unfolding read_arguments
choose [] = usage
choose (a ∷ []) = read_arguments none (a ∷ [])
choose (a ∷ b ∷ []) = read_arguments none (a ∷ b ∷ [])
choose (a ∷ b ∷ c ∷ rest) = usage

module _ (site : Site) (url user password : String) where
  -- `setValueToRegistry`, one value after the other until one fails
  set_all : List (String × String) → M Bool
  set_all [] s = (true, s)
  set_all ((k, v) ∷ kvs) s =
      let (done, t) = try (sets k v) site.sets s in if done then set_all kvs t else (false, t)

  -- The service of an older version, and whether the removal goes well
  remove_old : String → String → M Bool
  unfolding note
  remove_old name message s =
      if site.has_old s.acts name
      then (do
        (if site.runs_old s.acts name then act (stops_old name) else pure tt)
        gone ← try (uninstalls name) site.uninstalls
        note site url message gone
        pure gone)
          s
      else (true, s)

  abbrev old_programs : List String
  old_programs =
      "cacicservice.exe" ∷ "chksis.exe" ∷ "cacicsvc.exe" ∷ "cacic280.exe" ∷ "gercols.exe"
      ∷ "notepad.exe" ∷ "mapacacic.exe" ∷ []

  -- `deleteCacicAntigo`
  unfoldable pub remove_all_old : M Bool
  unfolding remove_old
  remove_all_old = do
    first ← remove_old "cacic" "Erro ao desinstalar cacic 2.6 : "
    second ← remove_old "CacicSustainService" "Erro ao desinstalar cacic 2.8 : "
    act (kills old_programs)
    act (deletes "C:\\Windows\\chksis.exe")
    act (deletes "C:\\Windows\\cacicsvc.exe")
    act (deletes "C:\\Windows\\cacicservice.exe")
    act (deletes "C:\\Windows\\chksis.ini")
    cleared ← try (clears "C:\\Cacic\\") site.clears
    pure (cleared && (first && second))

  -- `removeTPPrograms`
  remove_others : M Bool
  unfolding run_program
  remove_others = do
    first ← run_program site url "msiexec /x {B890C4FA-EDD9-4883-8AA5-F534EE0D3FF6}  /quiet"
    if first
        then run_program site url "msiexec /x {F4D0C7AF-D1AD-43F1-9C10-952784D1F89E}  /quiet"
        else pure false

  ensure_folder : String → M Bool
  ensure_folder path s =
      if site.is_folder s.acts path then (true, s) else try (makes_folder path) site.makes_folder s

  -- `createInstallDir`, by whether it returns a path
  unfoldable pub create_install_dir : M Bool
  unfolding ensure_folder
  create_install_dir = do
    first ← ensure_folder cacic_path
    if first then ensure_folder install_dir else pure false

  -- `ping`
  ping : M Bool
  ping s = (not (site.pong (pings ∷ s.acts) === "CONNECTION_ERROR"), did pings s)

  run_msi : M Bool
  unfolding install_cacic
  run_msi = do
    done ← install_cacic site url
    (if done then pure tt else report "Falha na instalação do MSI = ")
    pure done

  install_first : M Bool
  unfolding download_msi run_msi note
  install_first = do
    done ← download_msi site url
    note site url "Falha ao realizar o download do MSI." done
    (λ s.
        if site.exists s.acts msi_path
        then run_msi s
        else (do report "Arquivo MSI não encontrado no caminho = "; pure false) s)

  check_service : M Bool
  unfolding verify_service
  check_service = do
    done ← verify_service site url
    if done
        then (do _ ← try (sets "applicationUrl" url) site.sets; pure true)
        else (do report "Não foi possível verificar o serviço!"; pure false)

  reached : Bool → M Bool
  unfolding install_first check_service
  reached false s =
      (do report "Não foi possível realizar comunicação com o Gerente na URL = "; pure false) s
  reached true s = if site.is_registered s.acts then check_service s else install_first s

  with_folder : Bool → M Bool
  unfolding ping reached
  with_folder false s =
      (do report "Erro ao tentar criar o diretório do Cacic no caminho = "; pure false) s
  with_folder true s = (do there ← ping; reached there) s

  cleared : Bool → M Bool
  unfolding remove_others note create_install_dir with_folder
  cleared false s =
      (do report "Erro no procedimento de remoção das versões antigas do Cacic"; pure false) s
  cleared true s =
      (do
        gone ← remove_others
        note site url "Erro ao remover programas de terceiros." gone
        made ← create_install_dir
        with_folder made)
        s

  -- `InstallCacicSA::exec`
  unfoldable pub exec : M Bool
  unfolding set_all note remove_all_old cleared
  exec s =
      if site.is_admin
      then (do
        stored ← set_all (
            ("applicationUrl", url)
            ∷ ("usuario", user)
            ∷ ("password", password)
            ∷ ("mainFolder", cacic_path)
            ∷ [])
        note site url "Falha ao atualizar URL no registro." stored
        done ← remove_all_old
        cleared done)
          s
      else (do report "Erro de permissão. Usuário não é administrador"; pure false) s
