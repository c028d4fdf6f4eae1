-- ===== src/Json.antt =====
-- The JSON values of Qt (`QJsonValue`, `QJsonObject`, `QJsonArray`) as the agent uses them, and
-- `QVariant` as it stands in the agent's registry.
pub mod Laws
use cacic_agente.Base.{ℤ, pos, Bool, true, false, ◌||◌, String, ◌===◌, Option, none, some}
use cacic_agente.Base.{List, [], ◌∷◌, if◌then◌else◌, is_some, is_empty}

mutual
  -- `frac` is a number that is no `int`; nothing reads its value.
  pub data Json : Type 0 where
    null : Json
    bool : Bool → Json
    num : ℤ → Json
    frac : Json
    str : String → Json
    arr : Items → Json
    obj : Object → Json

  pub data Items : Type 0 where
    nil : Items
    cons : Json → Items → Items

  pub data Object : Type 0 where
    end : Object
    field : String → Json → Object → Object

-- `o.isEmpty()`
abbrev pub is_empty_object : Object → Bool
is_empty_object end = true
is_empty_object (field k v o) = false

unfoldable pub find : String → Object → Option Json
find k end = none
find k (field j v o) = if j === k then some v else find k o

-- `o.contains(k)`
abbrev pub has : String → Object → Bool
has k o = is_some (find k o)

abbrev pub or_null : Option Json → Json
or_null none = null
or_null (some v) = v

-- The value that `o[k]` reads. A key that is absent reads as null.
abbrev pub value : String → Object → Json
value k o = or_null (find k o)

-- `o[k] = v`
unfoldable pub insert : String → Json → Object → Object
insert k v end = field k v end
insert k v (field j w o) = if j === k then field k v o else field j w (insert k v o)

-- What is left of `o` after `o[k]` was read and `o` was not const: the key has come to be there.
unfoldable pub touch : String → Object → Object
touch k o = if has k o then o else insert k null o

-- `v.toObject()`, `v.toArray()`, `v.toString()`, `v.toBool()`, `v.toInt()`
abbrev pub to_object : Json → Object
to_object (obj o) = o
to_object _ = end

abbrev pub to_list : Items → List Json
to_list nil = []
to_list (cons v vs) = v ∷ to_list vs

abbrev pub to_array : Json → List Json
to_array (arr vs) = to_list vs
to_array _ = []

abbrev pub of_list : List Json → Items
of_list [] = nil
of_list (v ∷ vs) = cons v (of_list vs)

abbrev pub to_string : Json → String
to_string (str s) = s
to_string _ = ""

abbrev pub to_bool : Json → Bool
to_bool (bool b) = b
to_bool _ = false

abbrev pub to_int : Json → ℤ
to_int (num n) = n
to_int _ = pos 0

abbrev pub is_null : Json → Bool
is_null null = true
is_null _ = false

abbrev pub is_string : Json → Bool
is_string (str s) = true
is_string _ = false

abbrev pub is_array : Json → Bool
is_array (arr vs) = true
is_array _ = false

-- A value of the registry. `invalid` is what an absent key reads as.
pub data Variant : Type 0 where
  invalid : Variant
  flag : Bool → Variant
  text : String → Variant

abbrev pub variant_text : Variant → String
variant_text invalid = ""
variant_text (flag b) = if b then "true" else "false"
variant_text (text s) = s

-- `toBool()`: a text is true unless it is empty, "0" or "false".
abbrev pub variant_bool : Variant → Bool
variant_bool invalid = false
variant_bool (flag b) = b
variant_bool (text s) = if is_empty s || s === "0" || s === "false" then false else true
