-- ===== src/Hardware/Windows/Query.antt =====
-- `wmi::wmiSearch` (src/wmi.cpp): a query of WMI and what is made of the texts of its items.
use Prim.Native.Char.{code}
use cacic_agente.Base.{
  ◌==◌, ◌&&◌, not, ℕ, String, ◌<>◌, Option, none, some, List, [], ◌∷◌, map, codes, has_prefix,
  cons_head, split, if◌then◌else◌, is_empty, without_first, starts_with, ends_with, trimmed, keep,
}
use cacic_agente.Json.{Json, null, str, arr, obj, Object, end, insert, of_list, is_empty_object}

-- `fields.join(",")`
abbrev pub joined : List String → String
joined [] = ""
joined (f ∷ []) = f
joined (f ∷ g ∷ fs) = f <> ("," <> joined (g ∷ fs))

unfoldable pub query : String → List String → String
query name fields =
    "SELECT " <> ((if is_empty (joined fields) then "*" else joined fields) <> (" FROM " <> name))

-- `s.remove(c)`
unfoldable pub remove_char : ℕ → String → String
remove_char k String.[] = ""
remove_char k (String.◌∷◌ c s) =
    let rest = remove_char k s in if code c == k then rest else String.◌∷◌ c rest

abbrev pub drop_head : List String → List String
drop_head [] = []
drop_head (s ∷ ss) = without_first s ∷ ss

-- `text.split("\n\t")`
unfoldable pub split_tabs : String → List String
split_tabs String.[] = "" ∷ []
split_tabs (String.◌∷◌ c s) =
    let rest = split_tabs s in
    if code c == 10 && has_prefix (codes s) (9 ∷ [])
    then "" ∷ drop_head rest
    else cons_head (String.◌∷◌ c "") rest

abbrev pub cleaned : String → String
cleaned v = remove_char 10 (remove_char b';' (remove_char b'"' (trimmed v)))

abbrev pub parts_of : String → List String
parts_of v =
    keep (λ s. not (is_empty s))
      (map (λ s. trimmed (remove_char b'}' (remove_char b'{' s))) (split b',' v))

unfoldable pub put_value : String → String → Object → Object
put_value tag v o =
    if starts_with v "{" && ends_with v "}"
    then insert tag (arr (of_list (map str (parts_of v)))) o
    else if is_empty (trimmed (remove_char b'}' v))
    then o
    else insert tag (str (trimmed (remove_char b'}' v))) o

abbrev pub put_parts : List String → Object → Object
put_parts (tag ∷ v ∷ more) o = put_value (trimmed tag) (cleaned v) o
put_parts _ o = o

abbrev pub put_lines : List String → Object → Object
put_lines [] o = o
put_lines (l ∷ ls) o = put_lines ls (put_parts (split b'=' l) o)

-- An item that the enumeration does not give changes nothing.
unfoldable pub read_item : Option String → Object → Object
unfolding put_value
read_item none o = o
read_item (some t) o = put_lines (split_tabs t) o

-- The items of a query: each is read into the object of those before it.
unfoldable pub read_items : List (Option String) → Object → List Object
read_items [] o = []
read_items (t ∷ ts) o = read_item t o ∷ read_items ts (read_item t o)

abbrev pub result_of : List Object → Json
result_of [] = null
result_of (o ∷ []) = if is_empty_object o then null else obj o
result_of (o ∷ p ∷ os) = arr (of_list (map obj (o ∷ p ∷ os)))

-- `wmiSearch`; `answers` gives the items of a query, or nothing where WMI cannot be reached.
unfoldable pub search : (String → Option (List (Option String))) → String → List String → Json
search answers name fields = elim (answers (query name fields)) [
  | none ↦ null
  | some ts ↦ result_of (read_items ts end)
]
