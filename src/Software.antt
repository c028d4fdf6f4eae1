-- ===== src/Software.antt =====
-- `cacic_software` (src/cacic_software.cpp) on Linux: what `coletaDebian` and `coletaArch` share, and
-- the two. `console` is `ConsoleObject`, of src/console.h: what a command prints, which stays the
-- same while the collection runs.
pub mod Address
pub mod Entries
pub mod Laws
pub mod Windows
use cacic_agente.Base.{
  ℕ, Bool, true, false, not, ◌&&◌, ◌||◌, String, ◌<>◌, Option, none, some, List, [], ◌∷◌, split,
  get_elem?, if◌then◌else◌, is_empty, drop, without_first, contains,
}
use cacic_agente.Json.{str, obj, Object, end, insert}
use cacic_agente.Collection.{
  M, ◌>>=◌, pure, for_each, Exceptions, is_disabled, omits, put, after_colon, lines_of,
}

abbrev pub concat : List String → String
concat [] = ""
concat (s ∷ ss) = s <> concat ss

-- The loop over the parts of a line after its first colon, which writes one colon back.
abbrev pub join_url : List String → String
join_url [] = ""
join_url (u ∷ us) = u <> (":" <> concat us)

unfoldable pub url_of : String → String
url_of line = without_first (join_url (drop 1 (split b':' line)))

abbrev pub whereis : String → String
whereis name = "whereis " <> name

-- What the loop passes over: an empty name, and a program that is not to be collected.
unfoldable pub is_wanted : Exceptions → String → Bool
is_wanted e name = not (is_empty name) && not (is_disabled e name)

abbrev pub debian_list : String
debian_list = "dpkg --get-selections | grep -v '^lib\\|^fonts'"

-- `OperatingSystem::LINUX_ARCH`, or another
pub data Linux : Type 0 where
  arch : Linux
  other_linux : Linux

module _ (console : String → String) (e : Exceptions) where
  -- A line that has the mark gives the field what follows its first colon and a space.
  unfoldable pub put_marked : String → String → String → String → Object → M Object
  put_marked name mark f line o =
      if contains line mark && not (omits e name f)
      then (do v ← after_colon line; pure (insert f (str v) o))
      else pure o

  unfoldable pub put_url : String → String → String → Object → Object
  put_url name mark line o =
      if contains line mark
      then put e name "publisher" (str (url_of line)) (put e name "url" (str (url_of line)) o)
      else o

  unfoldable pub location_of : String → M String
  location_of text = do line ← get_elem? (lines_of text) 0; get_elem? (split b':' line) 1

  -- `program` is the name that `whereis` is given.
  unfoldable pub put_location : String → String → Object → M Object
  put_location name program o = if omits e name "installLocation" then pure o else (do
    part ← location_of (console (whereis program))
    pure (if is_empty part then o else insert "installLocation" (str (without_first part)) o))

  unfoldable pub read_debian_line : String → String → Object → M Object
  read_debian_line name line o = do
    a ← put_marked name "Version:" "version" line o
    b ← put_marked name "Description-en:" "description" line a
    pure (put_url name "Homepage:" line b)

  unfoldable pub debian_program : String → M String
  debian_program name =
      if contains name "amd64" || contains name "i386"
      then get_elem? (split b':' name) 0
      else pure name

  unfoldable pub debian_package : String → M Object
  debian_package name = do
    o ←
        for_each (lines_of (console ("apt-cache show " <> name))) (read_debian_line name)
          (insert "name" (str name) end)
    program ← debian_program name
    put_location name program o

  unfoldable pub read_arch_line : String → String → Object → M Object
  read_arch_line name line o = do
    a ← put_marked name "Version" "version" line o
    b ← put_marked name "Description" "description" line a
    put_marked name "Install Date" "installDate" line (put_url name "URL" line b)

  unfoldable pub arch_package : String → M Object
  arch_package name = do
    o ←
        for_each (lines_of (console ("pacman -Qi " <> name))) (read_arch_line name)
          (insert "name" (str name) end)
    put_location name name o

  -- A line of the list: its first part is the name of a package.
  unfoldable pub collect_package : ℕ → (String → M Object) → String → Object → M Object
  collect_package sep entry line softwares = do
    name ← get_elem? (split sep line) 0
    if is_wanted e name
        then (do o ← entry name; pure (insert name (obj o) softwares))
        else pure softwares

  -- `cacic_software::coletaDebian`
  unfoldable pub collect_debian : M Object
  collect_debian = for_each (lines_of (console debian_list)) (collect_package 9 debian_package) end

  -- `cacic_software::coletaArch`
  unfoldable pub collect_arch : M Object
  collect_arch = for_each (lines_of (console "pacman -Qe")) (collect_package b' ' arch_package) end

  -- `cacic_software::coletaLinux`
  unfoldable pub collect_linux : Linux → M Object
  collect_linux arch = collect_arch
  collect_linux other_linux = collect_debian
