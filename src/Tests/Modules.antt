-- ===== src/Tests/Modules.antt =====
-- The check of the modules at concrete worlds.
use cacic_agente.Base.{
  ◌≡◌, ◌⊎◌, refl, true, false, ◌===◌, Option, none, some, List, [], ◌∷◌, if◌then◌else◌, clean,
  base_name, ends_with,
}
use cacic_agente.Json.{Json, Object, Items, nil, cons, end, field, obj, str, arr, find}
use cacic_agente.World.{World, Ensures, Holds}
use cacic_agente.Cacic.{get_json_from_file}
use cacic_agente.Comm.Download.{target}
use cacic_agente.Modules.{Module}
use cacic_agente.CheckModules.{verify_module, has_digest}
use cacic_agente.CheckModules.Downloads.{verify_module_elsewhere, Spares}
use cacic_agente.CheckModules.Accepted.{verify_module-true, verify_module_unchecked, WasDownloaded}
use cacic_agente.Tests.Memory.{memory, memory-IsLawful, Content, object, binary}

-- One complete entry and one without a digest.
abbrev entries : Items
entries =
    cons (obj (field "nome" (str "gercols") (field "hash" (str "abc") (field "url" (str "") end))))
      (cons (obj (field "nome" (str "mapa") end)) nil)

abbrev two_entries : List Json
two_entries =
    obj (field "nome" (str "gercols") (field "hash" (str "abc") (field "url" (str "") end)))
    ∷ obj (field "nome" (str "mapa") end)
    ∷ []

abbrev gercols : Module
gercols = record { name = "gercols"; hash = "abc"; url = ""; version = ""; type_download = none }

abbrev config : Object
config =
    field "agentcomputer"
      (obj (
        field "modulos" (obj (field "cacic" (arr entries) end)) (
          field "metodoDownload"
            (obj
              (field "tipo" (str "ftp") (field "path" (str "bin") (field "url" (str "host") end))))
            end)))
      end

abbrev with_module : Option Content → World memory
with_module c = record {
  disk = λ p.
      if p === "/c/getConfig.json"
      then some (object config)
      else if p === "/c/gercols"
      then c
      else if p === "/c/other"
      then some (binary 3 "other")
      else none;
  registry = [];
  sent = [];
  log = [];
}

abbrev current : World memory
current = with_module (some (binary 7 "abc"))

abbrev missing : World memory
missing = with_module none

verify_module_elsewhere_example :
    Ensures
      (verify_module memory false "/c" "host" "gercols" "abc" "" missing)
      (λ _ v. Spares memory false "/c" "/c/other" missing v)
unfolding find get_json_from_file clean target base_name ends_with
verify_module_elsewhere_example =
    verify_module_elsewhere memory false "/c" memory-IsLawful "/c/other" "host" "gercols" "abc" ""
      config missing refl refl refl

verify_module-true_example :
    Holds (verify_module memory false "/c" "host" "gercols" "abc" "" missing) (λ r v.
      r ≡ true
      → (has_digest memory false "/c" "/c/gercols" "abc" missing ≡ true)
        ⊎ (has_digest memory false "/c" "/c/temp/gercols" "abc" missing ≡ true)
        ⊎ WasDownloaded memory false "/c" missing "/c/gercols" v)
unfolding clean
verify_module-true_example = verify_module-true memory false "/c" "host" "gercols" "abc" "" missing

-- The digest of what is downloaded is "new", that of the configuration "abc".
verify_module_unchecked_example :
    Ensures
      (verify_module memory false "/c" "host" "gercols" "abc" "" missing)
      (λ r v. (r ≡ true) × (memory.read v.disk "/c/gercols" ≡ some (binary 5 "new")))
unfolding find get_json_from_file clean target base_name ends_with
verify_module_unchecked_example =
    verify_module_unchecked memory false "/c" "host" "gercols" "abc" config (binary 5 "new") missing
      memory-IsLawful refl refl refl refl refl refl refl refl
