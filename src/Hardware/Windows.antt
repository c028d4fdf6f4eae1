-- ===== src/Hardware/Windows.antt =====
-- `cacic_hardware::coletaWin` (src/cacic_hardware.cpp): the collection on Windows. `answers` gives the
-- items of a query of WMI.
pub mod Classes
pub mod Laws
pub mod Query
pub mod Respects
use cacic_agente.Base.{Bool, true, String, ◌===◌, Option, List, [], ◌∷◌, if◌then◌else◌}
use cacic_agente.Json.{
  Json, bool, str, obj, Object, end, insert, value, to_object, to_string, is_null,
}
use cacic_agente.Cacic.Dates.{standard_date_windows}
use cacic_agente.Hardware.Windows.Classes.{ClassTable, init}
use cacic_agente.Hardware.Windows.Query.{search}

abbrev pub text_at : String → Json → String
text_at k v = to_string (value k (to_object v))

abbrev pub with_notebook : String → Object → Object
with_notebook name o =
    if name === "Win32_PortableBattery"
    then insert "IsNotebook" (obj (insert "Value" (bool true) end)) o
    else o

module _ (answers : String → Option (List (Option String))) where
  unfoldable pub with_architecture : Object → Object
  with_architecture o =
      let found = search answers "Win32_OperatingSystem" ("OSArchitecture" ∷ []) in
      if is_null found
      then o
      else insert "OSArchitecture" (value "OSArchitecture" (to_object found)) o

  -- What is changed in the result of a class
  unfoldable pub adjusted : String → Json → Json
  unfolding with_architecture
  adjusted name found =
      if name === "Win32_OperatingSystem"
      then obj (
          insert "InstallDate" (str (standard_date_windows (text_at "InstallDate" found)))
            (with_architecture (to_object found)))
      else if name === "Win32_Processor"
      then obj (insert "Family" (str (text_at "Level" found)) (to_object found))
      else if name === "Win32_BIOS"
      then obj (
          insert "ReleaseDate" (str (standard_date_windows (text_at "ReleaseDate" found)))
            (insert "Version" (str (text_at "SMBIOSBIOSVersion" found)) (to_object found)))
      else found

  unfoldable pub collect_class : String → List String → Object → Object
  unfolding adjusted
  collect_class name fields o =
      let found = search answers name fields in
      if is_null found then o else insert name (adjusted name found) (with_notebook name o)

  unfoldable pub collect_classes : ClassTable → Object → Object
  unfolding collect_class
  collect_classes [] o = o
  collect_classes ((name, fields) ∷ cs) o = collect_classes cs (collect_class name fields o)

  -- `coletaWin`
  unfoldable pub collect_windows : ClassTable → Object
  unfolding collect_classes init
  collect_windows exceptions = collect_classes (init exceptions) end
