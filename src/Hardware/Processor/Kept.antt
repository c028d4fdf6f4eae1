-- ===== src/Hardware/Processor/Kept.antt =====
-- The memory and the processor lack what is not to be collected.
use cacic_agente.Base.{
  ◌≡◌, ◌||◌, pos, keep, is_empty, split, false, not, ◌&&◌, String, List, if◌then◌else◌, Bool-cases,
  Option-cases, inl, inr, contains, arith,
}
use cacic_agente.Json.{Json, str, num, Object, end, insert, value}
use cacic_agente.Collection.{pure, Exceptions, is_disabled, omits, put, filled_lines_of}
use cacic_agente.Collection.Laws.{Holds, >>=-Holds, >>=-Holds_any, for_each-Holds}
use cacic_agente.Hardware.{put_from}
use cacic_agente.Hardware.Kept.{
  end-Lacks, Keeps, write_class, Lacks, Respects, insert-Lacks, put-Lacks, put_from-Lacks,
}
use cacic_agente.Hardware.Processor.{
  memory_type, collect_memory, read_speed, read_processor_line, put_cores, collect_processor,
  speed_of, first_marked, last, name_of, split_text, type_number, memory_types,
}

module _ (console : String → String) (e : Exceptions) (number : Json → String) where
  memory_type-Lacks :
      (ls : List String) (o : Object)
      → omits e "Win32_PhysicalMemory" "MemoryType" ≡ false
      → Lacks e "Win32_PhysicalMemory" o
      → Holds (Lacks e "Win32_PhysicalMemory") (memory_type console e number ls o)
  unfolding memory_type
  memory_type-Lacks ls o there l = elim (Option-cases (first_marked "Type:" ls)) [
    | inl absent ↦ rw absent l
    | inr (line, found) ↦ rw found (
        >>=-Holds_any (Lacks e "Win32_PhysicalMemory")
          (last (keep (λ s. not (is_empty s)) (split_text "Type: " 0 line)))
          (λ t. pure (insert "MemoryType" (num (pos (type_number t memory_types))) o))
          (λ t.
            insert-Lacks e "Win32_PhysicalMemory" "MemoryType"
              (num (pos (type_number t memory_types))) o there l))
  ]

  abbrev basic_memory : Object → Object
  basic_memory component =
      put e "Win32_PhysicalMemory" "Capacity" (str (number (value "size" component))) (
        put_from e "Win32_PhysicalMemory" "DeviceLocator" "physid" component
          (put_from e "Win32_PhysicalMemory" "Caption" "description" component end))

  pub collect_memory-Respects :
      (component h : Object) → Respects e h → Keeps e (collect_memory console e number component h)
  unfolding collect_memory
  collect_memory-Respects component h r = elim (Bool-cases (is_disabled e "Win32_PhysicalMemory")) [
    | inl off ↦ rw off r
    | inr on ↦
        let c : String = "Win32_PhysicalMemory" in
        let l = put-Lacks e c "Capacity" (str (number (value "size" component))) _ (
          put_from-Lacks e c "DeviceLocator" "physid" component _
            (put_from-Lacks e c "Caption" "description" component end (end-Lacks e c))) in
        rw on (
          write_class e c
            (if omits e c "MemoryType"
              then pure (basic_memory component)
              else memory_type console e number (filled_lines_of (console "dmidecode --type 17"))
                  (basic_memory component))
            h on r
            (elim (Bool-cases (omits e c "MemoryType")) [
              | inl out ↦ rw out l
              | inr there ↦ rw there (memory_type-Lacks _ _ there l)
            ]))
  ]

  read_speed-Lacks :
      (line speed : String) (o : Object)
      → Lacks e "Win32_Processor" o
      → Lacks e "Win32_Processor" (read_speed console e number line speed o)
  unfolding read_speed
  read_speed-Lacks line speed o l =
      elim (Bool-cases
        (contains line "Current Speed" && not (omits e "Win32_Processor" "CurrentClockSpeed"))) [
          | inl now ↦ rw now (
              insert-Lacks e "Win32_Processor" "CurrentClockSpeed" (str speed) o
                (ground (arith, now)) l)
          | inr other ↦
              elim (Bool-cases
                (contains line "Max Speed" && not (omits e "Win32_Processor" "MaxClockSpeed"))) [
                  | inl most ↦
                      rw (other, most)
                        (insert-Lacks e "Win32_Processor" "MaxClockSpeed" (str speed) o
                          (ground (arith, most)) l)
                  | inr neither ↦ rw (other, neither) l
                ]
        ]

  read_processor_line-Lacks :
      (line : String) (o : Object)
      → Lacks e "Win32_Processor" o
      → Holds (Lacks e "Win32_Processor") (read_processor_line console e number line o)
  unfolding read_processor_line
  read_processor_line-Lacks line o l =
      elim (Bool-cases (contains line "Max Speed" || contains line "Current Speed")) [
        | inl speed_line ↦ rw speed_line (
            >>=-Holds_any (Lacks e "Win32_Processor") (speed_of (split b' ' line))
              (λ speed. pure (read_speed console e number line speed o))
              (λ speed. read_speed-Lacks line speed o l))
        | inr other ↦
            elim (Bool-cases (contains line "Version" && not (omits e "Win32_Processor" "Name"))) [
              | inl named ↦
                  rw (other, named)
                    (insert-Lacks e "Win32_Processor" "Name" (str (name_of (split b':' line))) o
                      (ground (arith, named)) l)
              | inr neither ↦ rw (other, neither) l
            ]
      ]

  put_cores-Lacks :
      (ls : List String) (o : Object)
      → omits e "Win32_Processor" "NumberOfCores" ≡ false
      → Lacks e "Win32_Processor" o
      → Holds (Lacks e "Win32_Processor") (put_cores console e number ls o)
  unfolding put_cores
  put_cores-Lacks ls o there l = elim (Option-cases (first_marked "CPU(s):" ls)) [
    | inl absent ↦ rw absent l
    | inr (line, found) ↦ rw found (
        >>=-Holds_any (Lacks e "Win32_Processor") (last (split b' ' line))
          (λ n. pure (insert "NumberOfCores" (str n) o))
          (λ n. insert-Lacks e "Win32_Processor" "NumberOfCores" (str n) o there l))
  ]

  pub collect_processor-Respects :
      (component h : Object)
      → Respects e h
      → Keeps e (collect_processor console e number component h)
  unfolding collect_processor
  collect_processor-Respects component h r = elim (Bool-cases (is_disabled e "Win32_Processor")) [
    | inl off ↦ rw off r
    | inr on ↦
        let c : String = "Win32_Processor" in
        rw on (
          >>=-Holds (Lacks e c) (Respects e) _ _
            (for_each-Holds (Lacks e c) _ read_processor_line-Lacks _ _ (
              put_from-Lacks e c "Manufacturer" "vendor" component _
                (put_from-Lacks e c "Family" "product" component end (end-Lacks e c))))
            (λ named l.
              write_class e c
                (if omits e c "NumberOfCores"
                  then pure named
                  else put_cores console e number (filled_lines_of (console "lscpu")) named)
                h on r
                (elim (Bool-cases (omits e c "NumberOfCores")) [
                  | inl out ↦ rw out l
                  | inr there ↦ rw there (put_cores-Lacks _ named there l)
                ])))
  ]
