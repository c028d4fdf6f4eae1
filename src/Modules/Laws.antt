-- ===== src/Modules/Laws.antt =====
-- What is loaded from the configuration.
use cacic_agente.Base.{
  ◌≡◌, refl, Bool, not, ◌&&◌, none, some, List, [], ◌∷◌, arith, is_empty, if◌then◌else◌, keep, map,
}
use cacic_agente.Json.{Json, Object, end, field, find, value, to_object, to_string}
use cacic_agente.Modules.{load_module, loaded_modules, module_of}

-- An entry with a name and a hash.
abbrev pub is_complete : Object → Bool
is_complete o =
    not (is_empty (to_string (value "nome" o))) && not (is_empty (to_string (value "hash" o)))

-- An entry loads exactly if it is complete.
load_module_complete :
    (o : Object) → (load_module o).1 ≡ (if is_complete o then some (module_of o) else none)
unfolding load_module find
load_module_complete end = refl
load_module_complete (field k v o) = ground arith

-- The modules loaded from the configuration are those of its entries that have a name and a hash,
-- all of them, in their order.
loaded_modules-keep :
    (vs : List Json) → loaded_modules vs ≡ map module_of (keep is_complete (map to_object vs))
unfolding loaded_modules
loaded_modules-keep [] = refl
loaded_modules-keep (v ∷ vs) =
    ground (arith, load_module_complete (to_object v), loaded_modules-keep vs)
