-- ===== src/CheckModules.antt =====
-- `CheckModules` (src/checkmodules.cpp): compares the modules on the disk with the digests of the
-- configuration and downloads what differs. `folder` is `cacicMainFolder`.
pub mod Laws
pub mod Downloads
pub mod Accepted
use cacic_agente.Base.{
  Bool, true, false, not, ◌&&◌, ◌||◌, String, ◌<>◌, ◌===◌, Option, none, some, List, [], ◌∷◌, ltb,
  if◌then◌else◌, is_empty, is_some, ends_with,
}
use cacic_agente.Json.{
  Json, Object, value, has, to_object, to_array, to_string, is_empty_object, is_null, is_string,
}
use cacic_agente.Log.{Level}
use cacic_agente.Machine.{Machine}
use cacic_agente.World.{World, M, ok, exit, ◌>>=◌, ◌>>◌, pure, write_log, exists, remove}
use cacic_agente.Cacic.{get_json_from_file, md5_is_equal}
use cacic_agente.Comm.{Comm, new_comm}
use cacic_agente.Comm.Download.{file_download}
use cacic_agente.Modules.{Module, load_modules}

abbrev pub method_of : Object → Object
method_of config = to_object (value "metodoDownload" (to_object (value "agentcomputer" config)))

-- The array of the modules in the configuration.
abbrev pub module_entries : Object → List Json
module_entries config =
    to_array
      (value "cacic" (to_object (value "modulos" (to_object (value "agentcomputer" config)))))

-- `metodoDownload["path"]` and the name of the module, with one slash between them
abbrev pub method_path : Object → String → String
method_path method name =
    let path = to_string (value "path" method) in
    if ends_with path "/" then path <> name else path <> "/" <> name

abbrev is_ftp : Object → Bool
is_ftp method =
    has "tipo" method
    && is_string (value "tipo" method)
    && to_string (value "tipo" method) === "ftp"

abbrev credential : Object → String → String
credential method k =
    if not (is_ftp method) || is_null (value k method) then "" else to_string (value k method)

-- The `CacicComm` of a download.
abbrev pub download_comm : Object → Comm
download_comm method = record new_comm {
  ftp_user = credential method "usuario";
  ftp_password = credential method "senha";
}

-- `windows` is whether `Q_OS_WIN` is defined.
module _ (m : Machine) (windows : Bool) (folder : String) where
  abbrev pub module_path : String → String
  module_path name =
      if windows && name === "install-cacic.exe"
      then folder <> "/bin/" <> name
      else folder <> "/" <> name

  -- Whether the file is there, and whether its content has the digest.
  abbrev pub has_digest : String → String → World m → Bool
  has_digest p hash w = elim (m.read w.disk p) [ none ↦ false | some b ↦ md5_is_equal m b hash ]

  -- The file is there and cannot be opened.
  abbrev is_locked : String → World m → Bool
  is_locked p w = is_some (m.read w.disk p) && not (m.readable w.disk p)

  -- `filePath`
  abbrev pub download_folder : String → World m → String
  download_folder name w =
      if is_some (m.read w.disk (module_path name)) then folder <> "/temp/" else folder <> "/"

  bad_url : String → M m Bool
  bad_url name = do
    write_log m Level.info ("Falha durante download do " <> name <> ".")
    write_log m Level.error ("Url de download do módulo " <> name <> " inválida.")
    pure false

  -- The download, from the address of the module or from that of the method.
  unfoldable pub download_module : String → Object → String → String → String → M m Bool
  unfolding bad_url
  download_module app method name url dir =
      if is_empty url
      then file_download m (download_comm method) (to_string (value "tipo" method)) app
          (method_path method name) dir
      else if m.valid_url url
      then file_download m (download_comm method) (m.scheme url) (m.authority url) (m.path url) dir
      else bad_url name

  refuse : String → M m Bool
  refuse message = do write_log m Level.error message; pure false

  too_small : String → String → Object → String → M m Bool
  unfolding refuse
  too_small p app method name = do
    write_log m Level.error (
        "#4 Falha ao baixar "
        <> name
        <> "("
        <> to_string (value "tipo" method)
        <> "://"
        <> app
        <> method_path method name
        <> ")")
    _ ← remove m p
    pure false

  -- What follows on the download: the new file is there and has more than one byte.
  judge_download : String → String → Object → String → Bool → M m Bool
  unfolding refuse too_small
  judge_download p app method name done w =
      if done
      then elim (m.read w.disk p) [
        | none ↦ too_small p app method name w
        | some b ↦
            if ltb 1 (m.size b)
            then (do write_log m Level.info (name <> " baixado com sucesso!"); pure true) w
            else too_small p app method name w
      ]
      else refuse ("#5 Problemas durante o download de " <> name) w

  update_module : String → Object → String → String → String → M m Bool
  unfolding download_module judge_download
  update_module app method name url dir = do
    done ← download_module app method name url dir
    judge_download (dir <> name) app method name done

  -- With the method of the configuration: unless the temporary folder holds the module already.
  with_method : String → String → String → String → String → Object → M m Bool
  unfolding update_module refuse
  with_method app name hash url dir method w =
      if is_empty_object method
      then refuse
          ("#6 Não foi possível recuperar json de " <> folder <> "/getConfig.json ao tentar baixar "
            <> name)
          w
      else if is_locked (folder <> "/temp/" <> name) w
      then refuse "#3 Falha ao tentar recuperar hash do módulo da pasta temporária." w
      else if has_digest (folder <> "/temp/" <> name) hash w
      then ok true w
      else update_module app method name url dir w

  renew : String → String → String → String → String → M m Bool
  unfolding with_method
  renew app name hash url dir = do
    write_log m Level.info ("Atualização de " <> name <> " necessária.")
    write_log m Level.info ("Baixando em: " <> dir)
    config ← get_json_from_file m (folder <> "/getConfig.json")
    with_method app name hash url dir (method_of config)

  -- `CheckModules::verificaModulo`, with `applicationUrl`
  unfoldable pub verify_module : String → String → String → String → M m Bool
  unfolding renew refuse
  verify_module app name hash url w =
      if is_locked (module_path name) w
      then refuse "#2 Falha ao tentar recuperar hash do módulo atual" w
      else if has_digest (module_path name) hash w
      then ok true w
      else renew app name hash url (download_folder name w) w

  -- The loop of `start`, which goes on after a failure
  unfoldable pub verify_all : String → Bool → List Module → M m Bool
  unfolding verify_module
  verify_all app done [] = pure done
  verify_all app done (x ∷ xs) = do
    this ← verify_module app x.name x.hash x.url
    verify_all app (this && done) xs

  -- The end of `start`
  verify_loaded : String → List Module → M m Bool
  unfolding verify_all
  verify_loaded app [] = do write_log m Level.info "Não há modulo a ser verificado."; pure true
  verify_loaded app (x ∷ xs) = verify_all app true (x ∷ xs)

  load_failed : M m Bool
  load_failed = do
    write_log m Level.info "Falha ao recuperar informações dos módulos do arquivo de configuração."
    write_log m Level.error "Erro ao recuperar informações do json.\n\tCodigo: -1"
    pure false

  -- `start` on what getConfig.json holds. `none`: where that is empty, nothing has set the size of
  -- the array of modules that is read next.
  start_with : Object → M m (Option Bool)
  unfolding verify_loaded load_failed
  start_with config w =
      if is_empty_object config
      then (do
        write_log m Level.error
            ("Erro ao pegar informações do arquivo " <> folder <> "/getConfig.json")
        pure none)
          w
      else elim (load_modules (module_entries config)) [
        | none ↦ (load_failed >>= λ b. pure (some b)) w
        | some ms ↦
            (verify_loaded (to_string (value "url" (method_of config))) ms >>= λ b. pure (some b)) w
      ]

  no_config : M m (Option Bool)
  unfolding refuse
  no_config = do b ← refuse "Arquivo de configuração inexistente."; pure (some b)

  -- `CheckModules::start`
  unfoldable pub start : M m (Option Bool)
  unfolding start_with no_config
  start = do
    there ← exists m (folder <> "/getConfig.json")
    if there
        then (do config ← get_json_from_file m (folder <> "/getConfig.json"); start_with config)
        else no_config
