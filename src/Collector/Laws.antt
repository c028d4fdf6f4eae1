-- ===== src/Collector/Laws.antt =====
-- What a run collects, and that gercols need not wait for it.
use mathlib.Core.Path.{subst}
use cacic_agente.Base.{◌≡◌, refl, true, ◌&&◌, String}
use cacic_agente.Json.{Json, Object}
use cacic_agente.Gercols.{wait_from, wait_to_collect}
use cacic_agente.Collection.{M, Exceptions, exception_classes}
use cacic_agente.Collection.Laws.{Holds, >>=-Holds, Holds-map}
use cacic_agente.Hardware.Kept.{Respects}
use cacic_agente.Hardware.Walk
use cacic_agente.Hardware.Walk.Laws.{collect_linux-Respects}
use cacic_agente.Software.{Linux}
use cacic_agente.Software
use cacic_agente.Software.Entries.{AreEntries, collect_linux-AreEntries}
use cacic_agente.Collector.{
  Collector, exceptions_in, is_asked, collect_hardware, collect_software, run_hardware,
  run_software, run,
}

-- The exceptions that a run goes by
abbrev pub hardware_rules : Object → Collector → Exceptions
hardware_rules config s = exception_classes (exceptions_in "hardware" config) s.hardware_exceptions

abbrev pub software_rules : Object → Collector → Exceptions
software_rules config s = exception_classes (exceptions_in "software" config) s.software_exceptions

module _ (hardware software : Exceptions → M Object) (P Q : Exceptions → Object → Type 0)
    (fine : (e : Exceptions) → Holds (P e) (hardware e))
    (good : (e : Exceptions) → Holds (Q e) (software e)) where
  -- After the collection of hardware
  abbrev HalfDone : Object → Collector → Collector → Type 0
  HalfDone config s t =
      P (hardware_rules config s) t.hardware
      × (t.is_hardware_finished ≡ true)
      × (software_rules config t ≡ software_rules config s)

  -- After both
  abbrev pub IsDone : Object → Collector → Collector → Type 0
  IsDone config s t =
      P (hardware_rules config s) t.hardware
      × Q (software_rules config s) t.software
      × ((t.is_hardware_finished && t.is_software_finished) ≡ true)

  run_hardware-HalfDone :
      (config : Object) (s : Collector)
      → is_asked "col_hard" config ≡ true
      → Holds (HalfDone config s) (run_hardware hardware software config s)
  unfolding run_hardware collect_hardware
  run_hardware-HalfDone config s asked = rw asked (
      >>=-Holds (P (hardware_rules config s)) (HalfDone config s)
        (hardware (hardware_rules config s)) _ (fine (hardware_rules config s))
        (λ o p. (p, refl, refl)))

  run_software-IsDone :
      (config : Object) (s t : Collector)
      → is_asked "col_soft" config ≡ true
      → HalfDone config s t
      → Holds (IsDone config s) (run_software hardware software config t)
  unfolding run_software collect_software
  run_software-IsDone config s t asked (p, f, same) = rw asked (
      >>=-Holds (Q (software_rules config t)) (IsDone config s) (software (software_rules config t))
        _ (good (software_rules config t))
        (λ o q. (p, subst (λ (x : Exceptions). Q x o) same q, rw f refl)))

  pub run-IsDone :
      (config : Object) (s : Collector)
      → is_asked "col_hard" config ≡ true
      → is_asked "col_soft" config ≡ true
      → Holds (IsDone config s) (run hardware software config s)
  unfolding run
  run-IsDone config s hard soft =
      >>=-Holds (HalfDone config s) (IsDone config s) (run_hardware hardware software config s) _
        (run_hardware-HalfDone config s hard) (λ t h. run_software-IsDone config s t soft h)

module _ (console : String → String) (number : Json → String) (lshw : Object)
    (name version : String) (l : Linux) where
  -- The two collections on Linux
  abbrev pub hardware_of : Exceptions → M Object
  hardware_of e = Walk.collect_linux console e number lshw name version

  abbrev pub software_of : Exceptions → M Object
  software_of e = Software.collect_linux console e l

  -- Where the configuration asks for both collections, whatever the commands of Linux print, and
  -- if a run of `CColeta` returns: of the hardware classes Win32_PhysicalMemory, Win32_Processor,
  -- Multimedia, Win32_PCMCIAController, Win32_BIOS and Win32_BaseBoard it has collected none that the
  -- configuration leaves out, and no field of them that the configuration leaves out. Where it leaves out
  -- Win32_DiskDrive, Win32_LogicalDisk, Win32_Printer or IsNotebook as a whole, nothing stands under that
  -- key but null at most. The programs that were collected have their names, and no field that the
  -- configuration leaves out. Then gercols waits no second for it.
  pub run-Respects :
      (config : Object) (s : Collector)
      → is_asked "col_hard" config ≡ true
      → is_asked "col_soft" config ≡ true
      → Holds
          (λ t.
            Respects (hardware_rules config s) t.hardware
            × AreEntries console (software_rules config s) t.software
            × (wait_to_collect (λ _. t.is_hardware_finished && t.is_software_finished) ≡ 0))
          (run hardware_of software_of config s)
  unfolding wait_to_collect wait_from
  run-Respects config s hard soft =
      let P : Exceptions → Object → Type 0 = λ e o. Respects e o in
      let Q : Exceptions → Object → Type 0 = λ e o. AreEntries console e o in
      let fine = λ (e : Exceptions). collect_linux-Respects console e number lshw name version in
      let good = λ (e : Exceptions). collect_linux-AreEntries console e l in
      Holds-map (IsDone hardware_of software_of P Q fine good config s) _
        (run hardware_of software_of config s) (λ t (p, q, f). (p, q, rw f refl))
        (run-IsDone hardware_of software_of P Q fine good config s hard soft)
