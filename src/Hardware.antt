-- ===== src/Hardware.antt =====
-- `cacic_hardware` (src/cacic_hardware.cpp) on Linux: what its parts share. A `[]` on a `const`
-- object reads a key that is not there as undefined, and writing that takes the key away; on another
-- object it writes null there first (`touch`), which is followed where the object is kept.
pub mod Board
pub mod Disk
pub mod Kept
pub mod Pci
pub mod Processor
pub mod Walk
pub mod Windows
use cacic_agente.Base.{
  Bool, true, false, String, ◌===◌, Option, none, some, List, [], ◌∷◌, if◌then◌else◌,
}
use cacic_agente.Json.{Json, null, str, Object, find, value, to_array}
use cacic_agente.Gercols.Diff.{assign}
use cacic_agente.Collection.{Exceptions, omits}

abbrev is_text : Option Json → String → Bool
is_text (some (str s)) t = s === t
is_text _ t = false

-- `o["id"] == QJsonValue::fromVariant(QString(t))`
unfoldable pub has_id : String → Object → Bool
has_id t o = is_text (find "id" o) t

-- `o["children"].toArray()`
abbrev pub children_of : Object → List Json
children_of o = to_array (value "children" o)

-- A field of a class takes what a key of a `const` component has, unless it is not to be collected.
unfoldable pub put_from : Exceptions → String → String → String → Object → Object → Object
unfolding assign
put_from e c f k component o = if omits e c f then o else assign f (find k component) o
