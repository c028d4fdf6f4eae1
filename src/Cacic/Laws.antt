-- ===== src/Cacic/Laws.antt =====
-- JSON files read back, and the registry answers with the last value stored.
use text.Mathlib.TextEquality.{eq_iff}
use cacic_agente.Base.{◌≡◌, refl, true, false, String, ◌===◌, [], ◌∷◌, arith, if◌then◌else◌, clean}
use cacic_agente.Json.{Object, Variant, is_empty_object}
use cacic_agente.Machine.{Machine}
use cacic_agente.Machine.Laws.{IsLawful}
use cacic_agente.World.{Holds, World, world, ok, Registry, lookup, store}
use cacic_agente.Cacic.{set_json_to_file, get_json_from_file}

pub lookup-store :
    (j k : String) (v : Variant) (r : Registry)
    → lookup j (store k v r) ≡ (if k === j then v else lookup j r)
unfolding lookup store
lookup-store j k v [] = refl
lookup-store j k v ((i, w) ∷ r) =
    ground (arith, eq_iff k j, eq_iff i k, eq_iff i j, lookup-store j k v r)

-- On a lawful machine, an object that is not empty and is saved to a file that can be opened for
-- writing, and afterwards for reading, is what reading that file returns; nothing else of the
-- world changes by the reading.
get_json-set_json :
    (m : Machine) (w : World m) (o : Object) (p : String)
    → IsLawful m
    → is_empty_object o ≡ false
    → m.writable w.disk p ≡ true
    → m.readable (m.write w.disk p (m.encode o)) p ≡ true
    → let v = world (set_json_to_file m o p w) in get_json_from_file m p v ≡ ok o v
unfolding set_json_to_file get_json_from_file
get_json-set_json m w o p L filled writes reads = ground (
  arith,
  L.read-write w.disk p (m.encode o) p,
  L.decode-encode o,
  (eq_iff (clean p) (clean p)).1 refl,
)

-- What a read of a JSON file returns depends on the disk alone.
pub get_json_of_disk :
    (m : Machine) (p : String) (w v : World m) (o : Object)
    → v.disk ≡ w.disk
    → get_json_from_file m p w ≡ ok o w
    → get_json_from_file m p v ≡ ok o v
unfolding get_json_from_file
get_json_of_disk m p w v o same reads = ground arith

-- A read of a JSON file changes nothing.
pub get_json-Silent :
    (m : Machine) (w : World m) (p : String) → Holds (get_json_from_file m p w) (λ _ v. v ≡ w)
unfolding get_json_from_file
get_json-Silent m w p = ground arith
