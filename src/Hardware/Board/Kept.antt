-- ===== src/Hardware/Board/Kept.antt =====
-- The classes of Hardware.Board lack what is not to be collected.
use cacic_agente.Base.{
  ◌≡◌, false, refl, String, get_elem?, List, [], ◌∷◌, Bool-cases, inl, inr, is_some, contains,
}
use cacic_agente.Json.{Object, end}
use cacic_agente.Collection.{for_each, Exceptions, is_disabled, lines_of}
use cacic_agente.Collection.Laws.{>>=-Holds, >>=-Holds_any, for_each-Holds}
use cacic_agente.Hardware.Kept.{
  end-Lacks, Keeps, write_class, Lacks, Respects, put-Lacks, insert_class, insert_other,
  insert_whole, unlisted, read_line-Lacks,
}
use cacic_agente.Hardware.Board.{
  bios_marks, board_marks, collect_bios, put_capabilities, collect_motherboard, collect_is_notebook,
  list_printers, collect_printers, install_date, collect_operating_system, add_capability,
  add_printer,
}

module _ (console : String → String) (e : Exceptions) where
  pub collect_bios-Respects : (h : Object) → Respects e h → Keeps e (collect_bios console e h)
  unfolding collect_bios
  collect_bios-Respects h r = elim (Bool-cases (is_disabled e "Win32_BIOS")) [
    | inl off ↦ rw off r
    | inr on ↦ rw on (
        write_class e "Win32_BIOS" _ h on r (
          for_each-Holds (Lacks e "Win32_BIOS") _
            (read_line-Lacks e console "Win32_BIOS" bios_marks)
            (lines_of (console "dmidecode -t bios")) end (end-Lacks e "Win32_BIOS")))
  ]

  put_capabilities-Lacks :
      (values : List String) (o : Object)
      → Lacks e "Win32_BaseBoard" o
      → Lacks e "Win32_BaseBoard" (put_capabilities console e values o)
  unfolding put_capabilities
  put_capabilities-Lacks [] o l = l
  put_capabilities-Lacks (v ∷ vs) o l = put-Lacks e "Win32_BaseBoard" "onboardCapabilities" _ o l

  pub collect_motherboard-Respects :
      (h : Object) → Respects e h → Keeps e (collect_motherboard console e h)
  unfolding collect_motherboard
  collect_motherboard-Respects h r = elim (Bool-cases (is_disabled e "Win32_BaseBoard")) [
    | inl off ↦ rw off r
    | inr on ↦ rw on (
        >>=-Holds (Lacks e "Win32_BaseBoard") (Respects e) _ _
          (for_each-Holds (Lacks e "Win32_BaseBoard") _
            (read_line-Lacks e console "Win32_BaseBoard" board_marks)
            (lines_of (console "dmidecode -t 2")) end (end-Lacks e "Win32_BaseBoard"))
          (λ board l.
            >>=-Holds_any (Respects e)
              (for_each (lines_of (console "dmidecode -t 10")) add_capability []) _
              (λ values.
                insert_class e "Win32_BaseBoard" _ h on (put_capabilities-Lacks values board l) r)))
  ]

  pub collect_is_notebook-Respects :
      (h : Object) → Respects e h → Respects e (collect_is_notebook console e h)
  unfolding collect_is_notebook
  collect_is_notebook-Respects h r = elim (Bool-cases (is_some (e "IsNotebook"))) [
    | inl off ↦ rw off r
    | inr on ↦ rw on (insert_whole e "IsNotebook" _ h refl (unlisted e "IsNotebook" on) r)
  ]

  list_printers-Respects :
      (ls : List String) (h : Object)
      → is_disabled e "Win32_Printer" ≡ false
      → Respects e h
      → Keeps e (list_printers console e ls h)
  unfolding list_printers
  list_printers-Respects ls h on r = >>=-Holds_any (Respects e) (get_elem? ls 0) _ (λ first.
      elim (Bool-cases (contains first "No destination")) [
        | inl nothing ↦ rw nothing r
        | inr some_there ↦ rw some_there (
            >>=-Holds_any (Respects e) (for_each ls add_printer []) _
              (λ printers. insert_whole e "Win32_Printer" _ h refl on r))
      ])

  pub collect_printers-Respects :
      (h : Object) → Respects e h → Keeps e (collect_printers console e h)
  unfolding collect_printers
  collect_printers-Respects h r = elim (Bool-cases (is_some (e "Win32_Printer"))) [
    | inl off ↦ rw off r
    | inr on ↦ elim (Bool-cases (contains (console "lpstat") "/bin/sh:")) [
      | inl missing ↦ rw (on, missing) r
      | inr there ↦ rw (on, there) (list_printers-Respects _ h (unlisted e "Win32_Printer" on) r)
    ]
  ]

  pub collect_operating_system-Respects :
      (name version : String) (h : Object)
      → Respects e h
      → Keeps e (collect_operating_system console e name version h)
  unfolding collect_operating_system
  collect_operating_system-Respects name version h r =
      >>=-Holds_any (Respects e) (install_date console e) _
        (λ d. insert_other e "OperatingSystem" _ h refl refl r)
