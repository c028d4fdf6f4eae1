-- ===== src/Tests/Watch.antt =====
-- The checker at a concrete world, in which the file of the service is gone.
use cacic_agente.Base.{
  ◌≡◌, refl, true, false, ◌===◌, none, some, [], if◌then◌else◌, clean, ends_with, base_name,
}
use cacic_agente.Json.{Object, end, field, obj, str, find}
use cacic_agente.World.{World, Holds, returns}
use cacic_agente.Cacic.{get_json_from_file}
use cacic_agente.Comm.Download.{file_download, target}
use cacic_agente.Watch.{Control, download_service}
use cacic_agente.Watch.Laws.{download_service-IsRestored, IsRestored}
use cacic_agente.Tests.Memory.{memory, object}

abbrev idle : Control memory
idle = record {
  is_installed = λ w. true;
  is_running = λ w. false;
  install = λ w. (true, w);
  start = λ w. (true, w);
  stop = λ w. (true, w);
  last_error = λ w. "";
}

abbrev by_http : Object
by_http = field "tipo" (str "http") (field "url" (str "host") (field "path" (str "modules") end))

abbrev config : Object
config = field "agentcomputer" (obj (field "metodoDownload" (obj by_http) end)) end

abbrev lost : World memory
lost = record {
  disk = λ p. if p === "/c/getConfig.json" then some (object config) else none;
  registry = [];
  sent = [];
  log = [];
}

download_service-IsRestored_example :
    Holds
      (download_service memory idle false "/c/" lost)
      (λ b v. b ≡ true → IsRestored memory idle false "/c/" v)
unfolding clean
download_service-IsRestored_example = download_service-IsRestored memory idle false "/c/" lost refl

-- It does go well there.
restored : returns (λ b. b) (download_service memory idle false "/c/" lost) ≡ true
unfolding download_service get_json_from_file clean find file_download target base_name ends_with
restored = refl
