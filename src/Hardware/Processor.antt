-- ===== src/Hardware/Processor.antt =====
-- The memory and the processor (`coletaLinuxMem` and `coletaLinuxCpu` of src/cacic_hardware.cpp).
pub mod Kept
pub mod Laws
use Prim.Native.String.{len}
use cacic_agente.Base.{
  ℤ, pos, ℕ, zero, suc, ◌-◌, Bool, true, false, not, ◌&&◌, ◌||◌, String, ◌<>◌, ◌===◌, leb, Option,
  none, some, List, [], ◌∷◌, split, length, get_elem?, if◌then◌else◌, is_empty, keep, contains,
  trimmed, has_prefix, codes, cons_head,
}
use cacic_agente.Json.{Json, num, str, obj, Object, end, insert, value}
use cacic_agente.Collection.{
  M, ◌>>=◌, pure, for_each, Exceptions, is_disabled, omits, put, filled_lines_of,
}
use cacic_agente.Hardware.{put_from}

-- `memMap`
abbrev pub memory_types : List (String × ℕ)
memory_types =
    ("DRAM", 2)
    ∷ ("Syncronous DRAM", 3)
    ∷ ("Cache DRAM", 4)
    ∷ ("EDO", 5)
    ∷ ("EDRAM", 6)
    ∷ ("VRAM", 7)
    ∷ ("SRAM", 8)
    ∷ ("RAM", 9)
    ∷ ("ROM", 10)
    ∷ ("Flash", 11)
    ∷ ("EEPROM", 12)
    ∷ ("FEPROM", 13)
    ∷ ("EPROM", 14)
    ∷ ("CDRAM", 15)
    ∷ ("3DRAM", 16)
    ∷ ("SDRAM", 17)
    ∷ ("SGRAM", 18)
    ∷ ("RDRAM", 19)
    ∷ ("DDR", 20)
    ∷ ("DDR2", 21)
    ∷ ("DDR3", 22)
    ∷ []

abbrev pub type_number : String → List (String × ℕ) → ℕ
type_number t [] = 0
type_number t ((s, n) ∷ m) = if s === t then n else type_number t m

-- `s.split(t)` for a separator of several characters; the first `n` of `s` are of one that was found.
unfoldable pub split_text : String → ℕ → String → List String
split_text t n String.[] = "" ∷ []
split_text t (suc n) (String.◌∷◌ c s) = split_text t n s
split_text t zero (String.◌∷◌ c s) =
    let found = split_text t (len t - 1) s in
    let other = split_text t 0 s in
    if has_prefix (codes (String.◌∷◌ c s)) (codes t)
    then "" ∷ found
    else cons_head (String.◌∷◌ c "") other

-- `l.takeLast()`
abbrev pub last : List String → M String
last [] = none
last (s ∷ []) = some s
last (s ∷ t ∷ ss) = last (t ∷ ss)

-- The first line with a mark, at which a loop ends
abbrev pub first_marked : String → List String → Option String
first_marked mark [] = none
first_marked mark (l ∷ ls) =
    let rest = first_marked mark ls in if contains l mark then some l else rest

-- What the loop does at the line where it ends
abbrev pub with_line : Option String → (String → M Object) → Object → M Object
with_line none f o = pure o
with_line (some line) f o = f line

-- `auxList.at(2)` and `auxList.at(3)`, with the tests that guard them
unfoldable pub speed_of : List String → M String
speed_of words =
    if leb 2 (length words)
    then (do
      number ← get_elem? words 2
      if leb 3 (length words)
          then (do unit ← get_elem? words 3; pure (number <> (" " <> unit)))
          else pure number)
    else pure ""

unfoldable pub name_of : List String → String
name_of parts = elim (get_elem? parts 1) [ none ↦ "" | some s ↦ trimmed s ]

-- `number` is `CCacic::convertDouble(v.toDouble(), 0)`.
module _ (console : String → String) (e : Exceptions) (number : Json → String) where
  unfoldable pub memory_type : List String → Object → M Object
  memory_type lines o =
      with_line (first_marked "Type:" lines)
        (λ line. do
          t ← last (keep (λ s. not (is_empty s)) (split_text "Type: " 0 line))
          pure (insert "MemoryType" (num (pos (type_number t memory_types))) o))
        o

  -- `coletaLinuxMem`
  unfoldable pub collect_memory : Object → Object → M Object
  collect_memory component hardware =
      if is_disabled e "Win32_PhysicalMemory" then pure hardware else (do
        let o = put e "Win32_PhysicalMemory" "Capacity" (str (number (value "size" component))) (
            put_from e "Win32_PhysicalMemory" "DeviceLocator" "physid" component
              (put_from e "Win32_PhysicalMemory" "Caption" "description" component end))
        memory ←
            if omits e "Win32_PhysicalMemory" "MemoryType"
            then pure o
            else memory_type (filled_lines_of (console "dmidecode --type 17")) o
        pure (insert "Win32_PhysicalMemory" (obj memory) hardware))

  unfoldable pub read_speed : String → String → Object → Object
  read_speed line speed o =
      if contains line "Current Speed" && not (omits e "Win32_Processor" "CurrentClockSpeed")
      then insert "CurrentClockSpeed" (str speed) o
      else if contains line "Max Speed" && not (omits e "Win32_Processor" "MaxClockSpeed")
      then insert "MaxClockSpeed" (str speed) o
      else o

  unfoldable pub read_processor_line : String → Object → M Object
  read_processor_line line o =
      if contains line "Max Speed" || contains line "Current Speed"
      then (do speed ← speed_of (split b' ' line); pure (read_speed line speed o))
      else if contains line "Version" && not (omits e "Win32_Processor" "Name")
      then pure (insert "Name" (str (name_of (split b':' line))) o)
      else pure o

  unfoldable pub put_cores : List String → Object → M Object
  put_cores lines o =
      with_line (first_marked "CPU(s):" lines)
        (λ line. do n ← last (split b' ' line); pure (insert "NumberOfCores" (str n) o)) o

  -- `coletaLinuxCpu`
  unfoldable pub collect_processor : Object → Object → M Object
  collect_processor component hardware =
      if is_disabled e "Win32_Processor" then pure hardware else (do
        let o =
            put_from e "Win32_Processor" "Manufacturer" "vendor" component
              (put_from e "Win32_Processor" "Family" "product" component end)
        named ← for_each (filled_lines_of (console "dmidecode -t processor")) read_processor_line o
        cpu ←
            if omits e "Win32_Processor" "NumberOfCores"
            then pure named
            else put_cores (filled_lines_of (console "lscpu")) named
        pure (insert "Win32_Processor" (obj cpu) hardware))
