-- ===== src/CheckModules/Laws.antt =====
-- What the check of the modules does with modules that are as they should be, and with those it downloads.
use cacic_agente.Base.{
  ◌≡◌, refl, Bool, true, false, String, ◌<>◌, some, List, [], ◌∷◌, arith, is_some,
}
use cacic_agente.Machine.{Machine}
use cacic_agente.World.{World, ok}
use cacic_agente.Json.{Object, value, to_string, is_empty_object}
use cacic_agente.Cacic.{get_json_from_file}
use cacic_agente.Modules.{Module, load_modules}
use cacic_agente.CheckModules.{
  module_path, has_digest, verify_module, verify_all, verify_loaded, start, start_with, method_of,
  module_entries,
}

abbrev pub is_filled : List Module → Bool
is_filled [] = false
is_filled (x ∷ xs) = true

module _ (m : Machine) (windows : Bool) (folder : String) where
  -- The module's file can be opened and has the digest of the configuration.
  abbrev pub IsCurrent : World m → Module → Type 0
  IsCurrent w x =
      (m.readable w.disk (module_path m windows folder x.name) ≡ true)
      × (has_digest m windows folder (module_path m windows folder x.name) x.hash w ≡ true)

  abbrev pub AllCurrent : World m → List Module → Type 0
  AllCurrent w [] = Unit
  AllCurrent w (x ∷ xs) = IsCurrent w x × AllCurrent w xs

  verify_module_current :
      (app : String) (x : Module) (w : World m)
      → IsCurrent w x
      → verify_module m windows folder app x.name x.hash x.url w ≡ ok true w
  unfolding verify_module
  verify_module_current app x w c = ground (arith, c.0, c.1)

  verify_all_current :
      (app : String) (done : Bool) (xs : List Module) (w : World m)
      → AllCurrent w xs
      → verify_all m windows folder app done xs w ≡ ok done w
  unfolding verify_all
  verify_all_current app done [] w a = refl
  verify_all_current app done (x ∷ xs) w a =
      rw (verify_module_current app x w a.0, verify_all) (verify_all_current app done xs w a.1)

  verify_loaded_current :
      (app : String) (xs : List Module) (w : World m)
      → is_filled xs ≡ true
      → AllCurrent w xs
      → verify_loaded m windows folder app xs w ≡ ok true w
  unfolding verify_loaded
  verify_loaded_current app [] w f a = cc
  verify_loaded_current app (x ∷ xs) w f a = verify_all_current app true (x ∷ xs) w a

  -- Where the configuration is there, reads and names modules, and the file of each of them can be opened and has the
  -- digest that the configuration gives, the check succeeds and changes nothing: nothing is sent,
  -- written or logged.
  pub start_current :
      (config : Object) (xs : List Module) (w : World m)
      → is_some (m.read w.disk (folder <> "/getConfig.json")) ≡ true
      → get_json_from_file m (folder <> "/getConfig.json") w ≡ ok config w
      → is_empty_object config ≡ false
      → load_modules (module_entries config) ≡ some xs
      → is_filled xs ≡ true
      → AllCurrent w xs
      → start m windows folder w ≡ ok (some true) w
  unfolding start start_with
  start_current config xs w there reads filled loads f a =
      rw (there, start)
        (rw reads (
          rw (filled, start_with)
            (rw loads (
              rw (verify_loaded_current (to_string (value "url" (method_of config))) xs w f a)
                refl))))
