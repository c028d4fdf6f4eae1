-- ===== src/Hardware/Walk.antt =====
-- The tree that lshw prints (`coletaLinux` of src/cacic_hardware.cpp), and all that is collected. What
-- `getJsonFromFile` reads of "lshwJson.json" is an argument; the log is left out.
pub mod Laws
use cacic_agente.Base.{
  Bool, true, false, ◌&&◌, String, Option, none, some, List, [], ◌∷◌, if◌then◌else◌, starts_with,
}
use cacic_agente.Json.{Json, Object, end, value, to_object, to_array, to_string, is_array}
use cacic_agente.Collection.{M, ◌>>=◌, pure, for_each, Exceptions}
use cacic_agente.Hardware.{has_id, children_of}
use cacic_agente.Hardware.Board.{
  collect_operating_system, collect_bios, collect_motherboard, collect_is_notebook,
  collect_printers,
}
use cacic_agente.Hardware.Disk.{collect_io}
use cacic_agente.Hardware.Pci.{collect_pci}
use cacic_agente.Hardware.Processor.{collect_memory, collect_processor}

-- `o["id"].toString().startsWith(t)`
abbrev pub id_starts : String → Object → Bool
id_starts t o = starts_with (to_string (value "id" o)) t

abbrev pub first_object : List Json → Object
first_object [] = end
first_object (v ∷ vs) = to_object v

module _ (console : String → String) (e : Exceptions) (number : Json → String) where
  unfoldable pub collect_devices : List Json → Object → M Object
  collect_devices vs hardware =
      for_each vs (λ v h. collect_io console e number (to_object v) h) hardware

  unfoldable pub collect_cards : List Json → Object → M Object
  collect_cards vs hardware =
      for_each vs (λ v h. pure (collect_pci e number (to_object v) h)) hardware

  -- What stands on a bus: another bus, a storage controller, or a card.
  unfoldable pub collect_on_bus : Json → Object → M Object
  collect_on_bus v hardware =
      if id_starts "pci" (to_object v)
      then collect_cards (children_of (to_object v)) hardware
      else if has_id "storage" (to_object v)
      then collect_devices (children_of (to_object v)) hardware
      else pure (collect_pci e number (to_object v) hardware)

  unfoldable pub collect_component : Json → Object → M Object
  collect_component v hardware =
      if has_id "memory" (to_object v)
      then collect_memory console e number (to_object v) hardware
      else if has_id "cpu" (to_object v)
      then collect_processor console e number (to_object v) hardware
      else if id_starts "pci" (to_object v)
      then for_each (children_of (to_object v)) collect_on_bus hardware
      else if id_starts "scsi" (to_object v)
      then collect_devices (children_of (to_object v)) hardware
      else pure hardware

  unfoldable pub collect_core : Object → M Object
  collect_core core =
      if has_id "core" core && is_array (value "children" core)
      then for_each (children_of core) collect_component end
      else pure end

  -- `coletaLinux`
  unfoldable pub collect_linux : Object → String → String → M Object
  collect_linux lshw name version = do
    core ← collect_core (first_object (children_of lshw))
    system ← collect_operating_system console e name version core
    bios ← collect_bios console e system
    board ← collect_motherboard console e bios
    collect_printers console e (collect_is_notebook console e board)
