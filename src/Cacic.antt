-- ===== src/Cacic.antt =====
-- `CCacic` (src/ccacic.cpp): files of JSON, digests and the registry.
pub mod Laws
pub mod Dates
pub mod System
use mathlib.Core.List.{foldl}
use cacic_agente.Base.{Bool, true, false, String, ◌===◌, Option, none, some, List}
use cacic_agente.Base.{if◌then◌else◌, is_some}
use cacic_agente.Json.{Object, end, is_empty_object, Variant}
use cacic_agente.Machine.{Machine}
use cacic_agente.World.{M, ok, exit, Registry, lookup, store, remove}

module _ (m : Machine) where
  -- `CCacic::deleteFile`
  unfoldable pub delete_file : String → M m Bool
  delete_file p w = if is_some (m.read w.disk p) then remove m p w else ok true w

  -- `CCacic::setJsonToFile`. A write to a file that is open does not fail here.
  unfoldable pub set_json_to_file : Object → String → M m Bool
  set_json_to_file o p w =
      if is_empty_object o
      then ok false w
      else if m.writable w.disk p
      then ok true (record w { disk = m.write w.disk p (m.encode o) })
      else ok false w

  abbrev opened : Option m.Bytes → M m Object
  opened none w = ok end w
  opened (some b) w = elim (m.decode b) [ none ↦ exit 1 w | some o ↦ ok o w ]

  -- `CCacic::getJsonFromFile`. A text that is no JSON ends the process.
  unfoldable pub get_json_from_file : String → M m Object
  get_json_from_file p w = if m.readable w.disk p then opened (m.read w.disk p) w else ok end w

  -- `CCacic::Md5IsEqual` of a file and a digest
  abbrev pub md5_is_equal : m.Bytes → String → Bool
  md5_is_equal b hash = m.md5 b === hash

  -- `CCacic::getValueFromRegistry`
  abbrev pub get_value : String → M m Variant
  get_value k w = ok (lookup k w.registry) w

  -- `CCacic::setValueToRegistry`, each value in turn
  unfoldable pub set_values : Registry → M m (Unit {0})
  set_values vs w = ok tt (record w { registry = foldl (λ r (k, v). store k v r) w.registry vs })
