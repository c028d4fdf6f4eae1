-- ===== src/Gercols/Diff.antt =====
-- `Gercols::percorreColeta`: what differs between two values of a collection. A value that may be
-- undefined is an option, as `QJsonArray::at` answers for a place that is not there; the operator of
-- `QJsonObject` answers null for a key that is not there. The keys of an object are distinct.
pub mod Laws
use cacic_agente.Base.{Bool, true, false, ◌||◌, String, ◌===◌, Option, none, some, if◌then◌else◌}
use cacic_agente.Json.{
  Json, null, bool, num, frac, str, arr, obj, Items, nil, cons, Object, end, field, find, value,
  insert, or_null, to_object,
}

-- `o.remove(k)`
unfoldable pub erase : String → Object → Object
erase k end = end
erase k (field j v o) = let rest = erase k o in if j === k then rest else field j v rest

-- `o[k] = v`: an undefined value takes the key away.
unfoldable pub assign : String → Option Json → Object → Object
unfolding erase insert
assign k none o = erase k o
assign k (some v) o = insert k v o

-- The keys that are passed over: they change all the time.
abbrev pub is_volatile : String → Bool
is_volatile k =
    k === "FreeSpace"
    || k === "clock"
    || k === "CurrentClockSpeed"
    || k === "ipv4"
    || k === "ipv6"
    || k === "MaxClockSpeed"

-- `v.toObject()` and `v.toArray()` of a value that may be undefined
abbrev pub fields_of : Option Json → Object
fields_of b = to_object (or_null b)

abbrev items_of_json : Json → Items
items_of_json (arr vs) = vs
items_of_json _ = nil

abbrev pub items_of : Option Json → Items
items_of b = items_of_json (or_null b)

abbrev pub first_of : Items → Option Json
first_of nil = none
first_of (cons v vs) = some v

abbrev pub rest_of : Items → Items
rest_of nil = nil
rest_of (cons v vs) = vs

-- `none` is no difference, and otherwise `jsonRetorno`, which may be undefined.
abbrev object_result : Bool × Object → Option (Option Json)
object_result (changed, o) = if changed then some (some (obj o)) else none

abbrev array_result : Bool × Items → Option (Option Json)
array_result (changed, vs) = if changed then some (some (arr vs)) else none

abbrev null_result : Bool → Option Json → Option (Option Json)
null_result alike none = some none
null_result alike (some null) = if alike then none else some (some null)
null_result alike (some w) = some (some w)

abbrev add_field : String → Option (Option Json) → Bool × Object → Bool × Object
add_field k none rest = rest
add_field k (some r) (changed, o) = (true, assign k r o)

-- An undefined value that is appended to an array is null.
abbrev add_item : Option (Option Json) → Bool × Items → Bool × Items
add_item none rest = rest
add_item (some r) (changed, vs) = (true, cons (or_null r) vs)

module _ (same : Json → Option Json → Bool) where
  unfoldable mutual
    -- `Gercols::percorreColeta`
    pub differs : Json → Option Json → Option (Option Json)
    differs null b = null_result (same null b) b
    differs (bool x) b = if same (bool x) b then none else some (some (bool x))
    differs (num x) b = if same (num x) b then none else some (some (num x))
    differs frac b = if same frac b then none else some (some frac)
    differs (str x) b = if same (str x) b then none else some (some (str x))
    differs (arr vs) b = array_result (differing_items vs (items_of b))
    differs (obj o) b = object_result (differing_fields o (fields_of b))

    pub differing_items : Items → Items → Bool × Items
    differing_items nil ws = (false, nil)
    differing_items (cons v vs) ws =
        add_item (differs v (first_of ws)) (differing_items vs (rest_of ws))

    pub differing_fields : Object → Object → Bool × Object
    differing_fields end p = (false, end)
    differing_fields (field k v o) p =
        let rest = differing_fields o p in
        if is_volatile k then rest else add_field k (differs v (some (value k p))) rest
