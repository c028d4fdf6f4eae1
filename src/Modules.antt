-- ===== src/Modules.antt =====
-- `CModule` (src/cmodule.cpp) and `CModuleArray` (src/cmodulearray.cpp): the modules that the
-- configuration of the manager names.
pub mod Laws
use cacic_agente.Base.{
  ℤ, pos, negsuc, Bool, String, Option, none, some, List, [], ◌∷◌, if◌then◌else◌, is_empty,
  contains_insensitive, left_contains,
}
use cacic_agente.Json.{Json, Object, value, to_object, to_string, is_empty_object}

-- `CModule::TypeDownload`
pub data TypeDownload : Type 0 where
  http ftp : TypeDownload

-- `CModule::ErrorCodes`
pub data ErrorCode : Type 0 where
  success empty_json invalid_name invalid_hash : ErrorCode

unfoldable pub code_value : ErrorCode → ℤ
code_value success = pos 0
code_value empty_json = negsuc 0
code_value invalid_name = negsuc 1
code_value invalid_hash = negsuc 2

-- A `CModule`. The constructor does not set `type_download`: `none` is what it holds then.
pub record Module : Type 0 where
  pub name : String
  pub hash : String
  pub url : String
  pub version : String
  pub type_download : Option TypeDownload

-- The type of the download, from the fields "type" and "url".
unfoldable pub download_type : String → String → Option TypeDownload
download_type kind url =
    if is_empty kind
    then none
    else if contains_insensitive kind "http"
    then some http
    else if contains_insensitive kind "ftp"
    then some ftp
    else if is_empty url
    then none
    else if left_contains 4 url "http"
    then some http
    else if left_contains 3 url "ftp"
    then some ftp
    else none

abbrev module_of : Object → Module
module_of o = record {
  name = to_string (value "nome" o);
  hash = to_string (value "hash" o);
  url = to_string (value "url" o);
  version = to_string (value "version" o);
  type_download = download_type (to_string (value "type" o)) (to_string (value "url" o));
}

-- `CModule::loadFromJsonObject` on a new module: the code that it returns, and the module where
-- that tells of no error.
unfoldable pub load_module : Object → ErrorCode × Option Module
load_module o =
    if is_empty_object o
    then (empty_json, none)
    else if is_empty (to_string (value "nome" o))
    then (invalid_name, none)
    else if is_empty (to_string (value "hash" o))
    then (invalid_hash, none)
    else (success, some (module_of o))

abbrev add_loaded : ErrorCode × Option Module → List Module → List Module
add_loaded (e, none) ms = ms
add_loaded (e, some x) ms = x ∷ ms

-- The loop of `loadFromJsonArray`: what does not load is passed over.
unfoldable pub loaded_modules : List Json → List Module
loaded_modules [] = []
loaded_modules (v ∷ vs) = add_loaded (load_module (to_object v)) (loaded_modules vs)

-- `CModuleArray::loadFromJsonArray`. `none` is the error on an empty array.
unfoldable pub load_modules : List Json → Option (List Module)
load_modules [] = none
load_modules (v ∷ vs) = some (loaded_modules (v ∷ vs))
