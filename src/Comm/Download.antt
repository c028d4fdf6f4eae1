-- ===== src/Comm/Download.antt =====
-- `CacicComm::fileDownload` with four arguments, and its slots `fileDownloadReadyRead` and
-- `fileDownloadFinished`. The slot deletes the reply before `fileDownload` asks it for its error; the
-- model goes on with the answer that the reply held.
pub mod Laws
use Prim.Native.String.{len}
use text.Mathlib.Text.{starts_with}
use cacic_agente.Base.{
  ℕ, Bool, true, false, ◌||◌, String, ◌<>◌, Option, none, some, ◌∷◌, ltb, if◌then◌else◌, is_empty,
  ends_with, base_name,
}
use cacic_agente.Log.{Level}
use cacic_agente.Machine.{Machine, Request, nothing}
use cacic_agente.World.{World, M, ok, ◌>>=◌, ◌>>◌, pure, write_log}
use cacic_agente.Comm.{Comm, slice}

-- The file that a download goes to.
unfoldable pub target : String → String → String
target path dir = (if is_empty dir then "" else dir <> "/") <> base_name path

abbrev bare_server : String → String
bare_server s =
    if starts_with s "http://"
    then slice s 7 (len s)
    else if starts_with s "ftp://"
    then slice s 6 (len s)
    else s

abbrev with_slash : String → String
with_slash s = if ends_with s "/" then s else s <> "/"

-- The request of a download.
unfoldable pub download_request : Comm → String → String → String → Request
download_request c mode server path = record {
  url = mode <> "://" <> with_slash (bare_server server) <> path;
  user = c.ftp_user;
  password = c.ftp_password;
  body = nothing;
}

module _ (m : Machine) where
  -- What the slots leave of the file: an answer that is empty or an error removes it.
  unfoldable pub received : m.Disk → String → Option m.Bytes → m.Disk
  received d file none = (m.remove (m.write d file m.no_bytes) file).1
  received d file (some b) =
      if ltb 0 (m.size b) then m.write d file b else (m.remove (m.write d file m.no_bytes) file).1

  abbrev got : Option m.Bytes → Bool
  got none = false
  got (some b) = true

  -- `CacicComm::setError`, without the text of the error that Qt adds
  failed : Comm → Option m.Bytes → M m (Unit {0})
  failed c none =
      write_log m Level.error ("Ocorreu um erro ao tentar comunicação com " <> c.manager_url)
  failed c (some b) = pure tt

  fetch : Comm → Request → String → M m Bool
  unfolding received failed
  fetch c req file w =
      let answer = m.get (req ∷ w.sent) in
      (failed c answer >> pure (got answer))
        (record w { sent = req ∷ w.sent; disk = received w.disk file answer })

  refuse : String → M m Bool
  refuse file = do
    write_log m Level.info "fileDownload: fileHandler nâo pode abrir arquivo."
    write_log m Level.error ("Erro ao abrir " <> file)
    pure false

  -- `CacicComm::fileDownload(mode, urlServer, path, pathDownload)`
  unfoldable pub file_download : Comm → String → String → String → String → M m Bool
  unfolding fetch refuse
  file_download c mode server path dir w =
      if m.writable w.disk (target path dir)
      then fetch c (download_request c mode server path) (target path dir) w
      else refuse (target path dir) w
