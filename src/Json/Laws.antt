-- ===== src/Json/Laws.antt =====
-- What a key of an object reads after a write or a read of another.
use text.Mathlib.TextEquality.{eq_iff}
use cacic_agente.Base.{◌≡◌, refl, true, false, String, ◌===◌, some, arith, if◌then◌else◌}
use cacic_agente.Json.{
  has, Json, null, Object, end, field, find, value, insert, touch, is_empty_object,
}

pub find-insert :
    (j k : String) (v : Json) (o : Object)
    → find j (insert k v o) ≡ (if k === j then some v else find j o)
unfolding find insert
find-insert j k v end = refl
find-insert j k v (field i w o) =
    ground (arith, eq_iff k j, eq_iff i k, eq_iff i j, find-insert j k v o)

-- Reading a key does not change what any key reads.
pub value-touch : (j k : String) (o : Object) → value j (touch k o) ≡ value j o
unfolding touch
value-touch j k o = ground (arith, find-insert j k null o, eq_iff k j)

-- A key that was touched is there.
pub has-touch : (k : String) (o : Object) → has k (touch k o) ≡ true
unfolding touch
has-touch k o = ground (arith, find-insert k k null o, eq_iff k k)

-- An object that has a key is not empty.
pub has-nonempty : (k : String) (o : Object) → has k o ≡ true → is_empty_object o ≡ false
unfolding find
has-nonempty k end h = cc
has-nonempty k (field j v o) h = refl
