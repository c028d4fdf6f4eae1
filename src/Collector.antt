-- ===== src/Collector.antt =====
-- `CColeta` (src/ccoleta.cpp): what the configuration asks to be collected is collected, and how long
-- gercols waits for it. `configuraColetas` connects each signal to a slot of the same thread, so that
-- a signal is a call of its slot.
pub mod Laws
use cacic_agente.Base.{Bool, true, false, ◌&&◌, String, none, if◌then◌else◌}
use cacic_agente.Json.{Json, Object, end, value, has, to_object, to_bool}
use cacic_agente.Collection.{M, ◌>>=◌, pure, Exceptions, exception_classes}

pub record Collector : Type 0 where
  pub hardware_exceptions : Exceptions
  pub software_exceptions : Exceptions
  pub hardware : Object
  pub software : Object
  pub is_hardware_finished : Bool
  pub is_software_finished : Bool

-- `coleta["agentcomputer"].toObject()[k].toObject()`
abbrev pub part : String → Object → Object
part k config = to_object (value k (to_object (value "agentcomputer" config)))

abbrev pub exceptions_in : String → Object → Object
exceptions_in k config = to_object (value k (part "exceptionClasses" config))

-- `actions.contains(k) && actions[k].toBool()`
unfoldable pub is_asked : String → Object → Bool
is_asked k config = has k (part "actions" config) && to_bool (value k (part "actions" config))

-- `hardware` and `software` are `iniciaColeta` of the two collections.
module _ (hardware : Exceptions → M Object) (software : Exceptions → M Object) where
  -- `CColeta::coletaHardware` and the slot `hardwareReady`
  unfoldable pub collect_hardware : Collector → M Collector
  collect_hardware s = do
    o ← hardware s.hardware_exceptions
    pure (record s { hardware = o; is_hardware_finished = true })

  -- `CColeta::coletaSoftware` and the slot `softwareReady`
  unfoldable pub collect_software : Collector → M Collector
  collect_software s = do
    o ← software s.software_exceptions
    pure (record s { software = o; is_software_finished = true })

  unfoldable pub run_hardware : Object → Collector → M Collector
  run_hardware config s =
      if is_asked "col_hard" config
      then collect_hardware (record s {
        hardware_exceptions =
            exception_classes (exceptions_in "hardware" config) s.hardware_exceptions;
        is_hardware_finished = false;
      })
      else pure (record s { is_hardware_finished = true })

  unfoldable pub run_software : Object → Collector → M Collector
  run_software config s =
      if is_asked "col_soft" config
      then collect_software (record s {
        software_exceptions =
            exception_classes (exceptions_in "software" config) s.software_exceptions;
        is_software_finished = false;
      })
      else pure (record s { is_software_finished = true })

  -- `CColeta::run`, with what `getJsonFromFile` reads of "getConfig.json"
  unfoldable pub run : Object → Collector → M Collector
  run config s = run_hardware config s >>= run_software config
