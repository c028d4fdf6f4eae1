-- ===== src/Software/Windows.antt =====
-- `cacic_software::coletaWin` (src/cacic_software.cpp): the programs of the two lists of the Windows
-- registry. The registry is a parameter.
use cacic_agente.Base.{String, ◌<>◌, some, none, List, [], ◌∷◌, if◌then◌else◌, is_empty}
use cacic_agente.Json.{str, obj, Object, end, insert}
use cacic_agente.Gercols.Diff.{erase}
use cacic_agente.Collection.{Exceptions, is_disabled}

-- What `VRegistry` reads: the keys below a key, and a value of a key, with its variables expanded in
-- the second case.
pub record Registry : Type 0 where
  pub keys : String → List String
  pub text : String → String → String
  pub expanded : String → String → String

abbrev pub uninstall_lists : List String
uninstall_lists =
    "SOFTWARE\\Wow6432Node\\Microsoft\\Windows\\CurrentVersion\\Uninstall\\"
    ∷ "SOFTWARE\\Microsoft\\Windows\\CurrentVersion\\Uninstall\\" ∷ []

unfoldable pub put_filled : String → String → Object → Object
put_filled f v o = if is_empty v then o else insert f (str v) o

abbrev pub remove_all : List String → Object → Object
remove_all [] o = o
remove_all (f ∷ fs) o = remove_all fs (erase f o)

module _ (r : Registry) (e : Exceptions) where
  unfoldable pub read_program : String → String → Object
  unfolding put_filled
  read_program path key = insert "name" (str key) (
      put_filled "version" (r.text path "DisplayVersion") (
        put_filled "quietUninstallString" (r.expanded path "QuietUninstallString") (
          put_filled "uninstallString" (r.expanded path "UninstallString") (
            put_filled "url" (r.text path "URLInfoAbout") (
              put_filled "installDate" (r.text path "InstallDate") (
                put_filled "installLocation" (r.text path "InstallLocation") (
                  put_filled "publisher" (r.text path "Publisher")
                    (put_filled "description" (r.text path "DisplayName") end))))))))

  unfoldable pub without_exceptions : String → Object → Object
  without_exceptions key o = elim (e key) [ none ↦ o | some fs ↦ remove_all fs o ]

  unfoldable pub collect_keys : String → List String → Object → Object
  unfolding read_program without_exceptions
  collect_keys list [] softwares = softwares
  collect_keys list (key ∷ keys) softwares = collect_keys list keys (
      if is_disabled e key
      then softwares
      else insert key (obj (without_exceptions key (read_program (list <> key) key))) softwares)

  unfoldable pub collect_lists : List String → Object → Object
  unfolding collect_keys
  collect_lists [] softwares = softwares
  collect_lists (list ∷ lists) softwares =
      collect_lists lists (collect_keys list (r.keys list) softwares)

  -- `cacic_software::coletaWin`
  unfoldable pub collect_windows : Object
  unfolding collect_lists
  collect_windows = collect_lists uninstall_lists end
