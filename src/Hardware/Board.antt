-- ===== src/Hardware/Board.antt =====
-- What `cacic_hardware` collects without lshw: the system, the BIOS, the board, whether the computer
-- is a notebook, and the printers (coletaLinuxOperatingSystem to coletaLinuxPrinters).
pub mod Kept
use cacic_agente.Base.{
  Bool, true, false, not, ◌&&◌, ◌||◌, String, ◌<>◌, ◌===◌, Option, none, some, List, [], ◌∷◌, ◌++◌,
  map, split, get_elem?, if◌then◌else◌, is_empty, is_some, contains,
}
use cacic_agente.Json.{Json, bool, str, arr, obj, Object, end, insert, of_list}
use cacic_agente.Cacic.Dates.{standard_date_linux}
use cacic_agente.Collection.{
  M, ◌>>=◌, pure, for_each, Exceptions, is_disabled, omits, put, after_colon, lines_of, is_nil,
}

-- The marks that a line is searched for, in this order, each with its field
abbrev pub bios_marks : List (String × String)
bios_marks =
    ("Vendor:", "Manufacturer")
    ∷ ("Version:", "Version")
    ∷ ("Release Date:", "ReleaseDate")
    ∷ ("Runtime Size:", "RuntimeSize")
    ∷ ("ROM Size:", "RomSize")
    ∷ ("BIOS Revision:", "Revision")
    ∷ []

abbrev pub board_marks : List (String × String)
board_marks =
    ("Manufacturer:", "Manufacturer")
    ∷ ("Product Name:", "ProductName")
    ∷ ("Version:", "Version")
    ∷ ("Asset Tag:", "Tag")
    ∷ ("Serial Number:", "SerialNumber")
    ∷ []

-- `l.removeLast()`
abbrev pub without_last : List String → List String
without_last [] = []
without_last (x ∷ []) = []
without_last (x ∷ y ∷ ys) = x ∷ without_last (y ∷ ys)

abbrev pub is_notebook_line : String → Bool
is_notebook_line line =
    contains line "Type:"
    && (contains line "Notebook"
        || contains line "Portable"
        || contains line "Laptop"
        || contains line "Sub Notebook")

-- The loop that returns at the first such line
abbrev pub is_notebook : List String → Bool
is_notebook [] = false
is_notebook (l ∷ ls) = is_notebook_line l || is_notebook ls

unfoldable pub add_capability : String → List String → M (List String)
add_capability line values =
    if contains line "Type:"
    then (do v ← after_colon line; pure (if is_empty v then values else values ++ (v ∷ [])))
    else pure values

unfoldable pub add_printer : String → List Json → M (List Json)
add_printer line printers = do
  second ← get_elem? (split b' ' line) 1
  name ← get_elem? (split b' ' line) 0
  pure (
      if second === "accepting"
      then printers ++ (obj (insert "Name" (str name) end) ∷ [])
      else printers)

module _ (console : String → String) (e : Exceptions) where
  -- The chain of tests on a line
  unfoldable pub read_line : String → List (String × String) → String → Object → M Object
  read_line c [] line o = pure o
  read_line c ((mark, f) ∷ marks) line o =
      let rest = read_line c marks line o in
      if contains line mark && not (omits e c f)
      then (do v ← after_colon line; pure (insert f (str v) o))
      else rest

  -- `coletaLinuxBios`
  unfoldable pub collect_bios : Object → M Object
  collect_bios hardware = if is_disabled e "Win32_BIOS" then pure hardware else (do
    bios ← for_each (lines_of (console "dmidecode -t bios")) (read_line "Win32_BIOS" bios_marks) end
    pure (insert "Win32_BIOS" (obj bios) hardware))

  unfoldable pub put_capabilities : List String → Object → Object
  put_capabilities values o =
      if is_nil values
      then o
      else put e "Win32_BaseBoard" "onboardCapabilities" (arr (of_list (map (λ v. str v) values))) o

  -- `coletaLinuxMotherboard`
  unfoldable pub collect_motherboard : Object → M Object
  collect_motherboard hardware = if is_disabled e "Win32_BaseBoard" then pure hardware else (do
    board ←
        for_each (lines_of (console "dmidecode -t 2")) (read_line "Win32_BaseBoard" board_marks) end
    values ← for_each (lines_of (console "dmidecode -t 10")) add_capability []
    pure (insert "Win32_BaseBoard" (obj (put_capabilities values board)) hardware))

  -- `coletaLinuxIsNotebook`
  unfoldable pub collect_is_notebook : Object → Object
  collect_is_notebook hardware =
      if is_some (e "IsNotebook")
      then hardware
      else insert "IsNotebook"
          (obj (insert "Value" (bool (is_notebook (lines_of (console "dmidecode -t 3")))) end))
          hardware

  unfoldable pub list_printers : List String → Object → M Object
  list_printers lines hardware = do
    first ← get_elem? lines 0
    if contains first "No destination" then pure hardware else (do
      printers ← for_each lines add_printer []
      pure (insert "Win32_Printer" (arr (of_list printers)) hardware))

  -- `coletaLinuxPrinters`
  unfoldable pub collect_printers : Object → M Object
  collect_printers hardware =
      if is_some (e "Win32_Printer")
      then pure hardware
      else if contains (console "lpstat") "/bin/sh:"
      then pure hardware
      else list_printers (without_last (lines_of (console "lpstat -a"))) hardware

  -- The file system that `df` lists first, and when it was created
  unfoldable pub install_date : M String
  install_date = do
    line ← get_elem? (lines_of (console "df")) 1
    partition ← get_elem? (split b' ' line) 0
    if not (is_empty partition) && not (contains partition "/cow")
        then (do
          created ←
              get_elem?
                (lines_of
                  (console ("tune2fs -l " <> (partition <> " | grep 'Filesystem created:'"))))
                0
          standard_date_linux created)
        else pure "00/00/0000"

  -- `coletaLinuxOperatingSystem`: the name and the version are those of `OperatingSystem`.
  unfoldable pub collect_operating_system : String → String → Object → M Object
  collect_operating_system name version hardware = do
    date ← install_date
    pure (
        insert "OperatingSystem"
          (obj (
            insert "InstallDate" (str date)
              (insert "Version" (str version) (insert "Caption" (str name) end))))
          hardware)
