-- ===== src/Hardware/Walk/Laws.antt =====
-- What the administrator leaves out of the collection of hardware.
use cacic_agente.Base.{refl, ◌&&◌, String, List, Bool-cases, inl, inr}
use cacic_agente.Json.{Json, Object, end, find, value, to_object, is_array}
use cacic_agente.Collection.{pure, Exceptions}
use cacic_agente.Collection.Laws.{>>=-Holds, for_each-Holds}
use cacic_agente.Hardware.{has_id, children_of}
use cacic_agente.Hardware.Kept.{Keeps, Respects}
use cacic_agente.Hardware.Walk.{
  id_starts, first_object, collect_devices, collect_cards, collect_on_bus, collect_component,
  collect_core, collect_linux,
}
use cacic_agente.Hardware.Board.{collect_bios, collect_motherboard, collect_operating_system}
use cacic_agente.Hardware.Board.Kept.{
  collect_bios-Respects, collect_motherboard-Respects, collect_is_notebook-Respects,
  collect_printers-Respects, collect_operating_system-Respects,
}
use cacic_agente.Hardware.Processor.Kept.{collect_memory-Respects, collect_processor-Respects}
use cacic_agente.Hardware.Pci.{collect_pci}
use cacic_agente.Hardware.Pci.Kept.{collect_pci-Respects}
use cacic_agente.Hardware.Disk.{collect_io}
use cacic_agente.Hardware.Disk.Kept.{collect_io-Respects}

module _ (console : String → String) (e : Exceptions) (number : Json → String) where
  collect_devices-Respects :
      (vs : List Json) (h : Object) → Respects e h → Keeps e (collect_devices console e number vs h)
  unfolding collect_devices
  collect_devices-Respects vs h r =
      for_each-Holds (Respects e) (λ v k. collect_io console e number (to_object v) k)
        (λ v k. collect_io-Respects console e number (to_object v) k) vs h r

  collect_cards-Respects :
      (vs : List Json) (h : Object) → Respects e h → Keeps e (collect_cards console e number vs h)
  unfolding collect_cards
  collect_cards-Respects vs h r =
      for_each-Holds (Respects e) (λ v k. pure (collect_pci e number (to_object v) k))
        (λ v k. collect_pci-Respects e number (to_object v) k) vs h r

  collect_on_bus-Respects :
      (v : Json) (h : Object) → Respects e h → Keeps e (collect_on_bus console e number v h)
  unfolding collect_on_bus
  collect_on_bus-Respects v h r = elim (Bool-cases (id_starts "pci" (to_object v))) [
    | inl bus ↦ rw bus (collect_cards-Respects _ h r)
    | inr p ↦ elim (Bool-cases (has_id "storage" (to_object v))) [
      | inl storage ↦ rw (p, storage) (collect_devices-Respects _ h r)
      | inr q ↦ rw (p, q) (collect_pci-Respects e number (to_object v) h r)
    ]
  ]

  collect_component-Respects :
      (v : Json) (h : Object) → Respects e h → Keeps e (collect_component console e number v h)
  unfolding collect_component
  collect_component-Respects v h r = elim (Bool-cases (has_id "memory" (to_object v))) [
    | inl memory ↦ rw memory (collect_memory-Respects console e number (to_object v) h r)
    | inr p ↦ elim (Bool-cases (has_id "cpu" (to_object v))) [
      | inl cpu ↦ rw (p, cpu) (collect_processor-Respects console e number (to_object v) h r)
      | inr q ↦ elim (Bool-cases (id_starts "pci" (to_object v))) [
        | inl bus ↦
            rw (p, q, bus)
              (for_each-Holds (Respects e) (collect_on_bus console e number) collect_on_bus-Respects
                (children_of (to_object v)) h r)
        | inr s ↦ elim (Bool-cases (id_starts "scsi" (to_object v))) [
          | inl scsi ↦ rw (p, q, s, scsi) (collect_devices-Respects _ h r)
          | inr other ↦ rw (p, q, s, other) r
        ]
      ]
    ]
  ]

  end-Respects : Respects e end
  unfolding find
  end-Respects = (λ c m. tt, λ c m off. refl)

  collect_core-Respects : (core : Object) → Keeps e (collect_core console e number core)
  unfolding collect_core
  collect_core-Respects core =
      elim (Bool-cases (has_id "core" core && is_array (value "children" core))) [
        | inl there ↦ rw there (
            for_each-Holds (Respects e) (collect_component console e number)
              collect_component-Respects (children_of core) end end-Respects)
        | inr other ↦ rw other end-Respects
      ]

  -- Whatever lshw and the other commands print, what `coletaLinux` has collected if it returns
  -- respects the exceptions.
  pub collect_linux-Respects :
      (lshw : Object) (name version : String)
      → Keeps e (collect_linux console e number lshw name version)
  unfolding collect_linux
  collect_linux-Respects lshw name version =
      >>=-Holds (Respects e) (Respects e)
        (collect_core console e number (first_object (children_of lshw))) _
        (collect_core-Respects _)
        (λ a p.
          >>=-Holds (Respects e) (Respects e) (collect_operating_system console e name version a) _
            (collect_operating_system-Respects console e name version a p)
            (λ b q.
              >>=-Holds (Respects e) (Respects e) (collect_bios console e b) _
                (collect_bios-Respects console e b q)
                (λ c r.
                  >>=-Holds (Respects e) (Respects e) (collect_motherboard console e c) _
                    (collect_motherboard-Respects console e c r)
                    (λ d s.
                      collect_printers-Respects console e _
                        (collect_is_notebook-Respects console e d s)))))
