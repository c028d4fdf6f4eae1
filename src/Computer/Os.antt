-- ===== src/Computer/Os.antt =====
-- `OperatingSystem` (src/operatingsystem.cpp) on Linux. `console` gives what a command prints, and
-- `whole` is `toDouble` of a text, cut to an `int`. `none` is a read past the end of a list or a text,
-- on which Qt stops.
pub mod Laws
use Prim.Native.Char.{code}
use cacic_agente.Base.{
  ℕ, zero, suc, ◌+◌, ◌-◌, ◌==◌, ◌||◌, Bool, String, ◌<>◌, Option, none, some, List, [], ◌∷◌, ℤ, pos,
  negsuc, eq_int, split, get_elem?, if◌then◌else◌, is_empty, contains, contains_insensitive,
  without_first,
}
use cacic_agente.Collection.{M, is_in, lines_of, ◌>>=◌}
use cacic_agente.Json.{Object, end, insert, num, str}

-- The number of the distribution that a line names, as `OsList` counts them
unfoldable pub id_of_line : String → Option ℤ
id_of_line l =
    if contains l "Arch"
    then some (pos 3)
    else if contains_insensitive l "debian"
    then some (pos 1)
    else if contains_insensitive l "ubuntu"
    then some (pos 2)
    else if contains_insensitive l "elementary"
    then some (pos 4)
    else none

-- `coletaIdOs`, of the lines of the release files
unfoldable pub collect_id : List String → ℤ
unfolding id_of_line
collect_id [] = negsuc 0
collect_id (l ∷ ls) =
    let rest = collect_id ls in
    if contains l "DISTRIB_DESCRIPTION"
    then elim (id_of_line l) [ none ↦ rest | some i ↦ i ]
    else rest

abbrev pub last_of : List String → String
last_of [] = ""
last_of (s ∷ []) = s
last_of (s ∷ t ∷ ts) = last_of (t ∷ ts)

-- What stands in quotes at the start of a text, or the text
abbrev pub unquoted : String → M String
unquoted String.[] = none
unquoted (String.◌∷◌ c s) =
    if code c == b'"' then get_elem? (split b'"' (String.◌∷◌ c s)) 1 else some (String.◌∷◌ c s)

-- The version in a line that names it before a comma
abbrev pub before_comma : String → M String
before_comma text = get_elem? (split b'"' text) 1 >>= λ quoted. get_elem? (split b',' quoted) 0

-- `coletaVersaoOsEmString`, of the lines of the release files
unfoldable pub collect_version : List String → M String
collect_version [] = some ""
collect_version (l ∷ ls) =
    let rest = collect_version ls in
    if contains l "VERSION="
    then (if contains l ","
        then before_comma (last_of (split b'=' l))
        else unquoted (last_of (split b'=' l)))
    else if contains l "DISTRIB_RELEASE"
    then some (last_of (split b'=' l))
    else rest

-- `s.indexOf(c)`, and from an index on; `none` is -1.
unfoldable pub index_of : ℕ → String → Option ℕ
index_of k String.[] = none
index_of k (String.◌∷◌ c s) =
    let rest = index_of k s in
    if code c == k then some 0 else elim rest [ none ↦ none | some i ↦ some (suc i) ]

unfoldable pub index_from : ℕ → ℕ → String → Option ℕ
unfolding index_of
index_from zero k s = index_of k s
index_from (suc n) k String.[] = none
index_from (suc n) k (String.◌∷◌ c s) = elim (index_from n k s) [
  | none ↦ none
  | some i ↦ some (suc i)
]

-- `s.left(n)`
unfoldable pub left : ℕ → String → String
left zero s = ""
left (suc n) String.[] = ""
left (suc n) (String.◌∷◌ c s) = String.◌∷◌ c (left n s)

abbrev pub after : Option ℕ → ℕ
after none = 0
after (some i) = i + 1

-- `s.mid(1, s.indexOf("\"", s.indexOf("\"") + 1) - 1)`: all but the first character, if there are no
-- two quotes.
unfoldable pub quoted_name : String → String
unfolding index_from left
quoted_name s = elim (index_from (after (index_of b'"' s)) b'"' s) [
  | none ↦ without_first s
  | some j ↦ left (j - 1) (without_first s)
]

abbrev pub distribution : List String → String
distribution (key ∷ description ∷ more) = quoted_name description
distribution _ = "Unknown"

module _ (console : String → String) where
  abbrev pub release_lines : List String
  release_lines = lines_of (console "cat /etc/*release")

  unfoldable pub processor_lines : List String
  processor_lines =
      if is_in "unknown" (lines_of (console "uname -i"))
      then lines_of (console "uname -m")
      else lines_of (console "uname -i")

  abbrev pub name_suffix : List String → String
  name_suffix ls =
      if is_in "x86_64" ls
      then "-x86_64"
      else if is_in "i386" ls || is_in "i486" ls || is_in "i586" ls || is_in "i686" ls
      then "-x86"
      else ""

  -- `coletaNomeOs`
  unfoldable pub collect_name : String
  unfolding quoted_name processor_lines
  collect_name =
      distribution (split b'=' (console "cat /etc/*release | grep DISTRIB_DESCRIPTION"))
      <> name_suffix processor_lines

  -- `tipo`
  unfoldable pub kind_of : List String → String
  kind_of ls =
      if is_in "x86_64" ls
      then elim (get_elem? ls 0) [ none ↦ "linux-" | some l ↦ "linux-" <> l ]
      else if is_in "i386" ls || is_in "i686" ls
      then "linux-x86"
      else "linux"

pub record OperatingSystem : Type 0 where
  pub name : String
  pub id : ℤ

module _ (console : String → String) (whole : String → ℤ) where
  unfoldable pub new_os : OperatingSystem
  unfolding collect_name collect_id
  new_os = record { name = collect_name console; id = collect_id (release_lines console) }

  -- The data that are missing are collected again.
  unfoldable pub refreshed : OperatingSystem → OperatingSystem
  unfolding collect_name collect_id
  refreshed os = record {
    name = if is_empty os.name then collect_name console else os.name;
    id = if eq_int os.id (negsuc 0) then collect_id (release_lines console) else os.id;
  }

  unfoldable pub fields_of : OperatingSystem → Object
  unfolding kind_of processor_lines
  fields_of os = insert "tipo" (str (kind_of console (processor_lines console))) (
      insert "upTime" (num (whole (console "cat /proc/uptime | awk '{print $1}'")))
        (insert "nomeOs" (str os.name) (insert "idOs" (num os.id) end)))

  -- `toJsonObject`
  unfoldable pub to_json_object : OperatingSystem → Object × OperatingSystem
  unfolding refreshed fields_of
  to_json_object os =
      let fresh = refreshed os in (if is_empty fresh.name then end else fields_of fresh, fresh)
