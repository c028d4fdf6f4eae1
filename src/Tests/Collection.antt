-- ===== src/Tests/Collection.antt =====
-- The collections on Linux, at the output of concrete commands.
use text.Mathlib.TextLemmas.{cons-append}
use Prim.Native.Char.{code}
use cacic_agente.Base.{
  ◌≡◌, refl, ◌↔◌, ◌⊎◌, true, false, ◌==◌, ◌===◌, ◌&&◌, String, none, some, [], ◌∷◌, if◌then◌else◌,
  contains, split, length,
}
use cacic_agente.Json.{Json, str, bool, arr, obj, cons, nil, Object, end, field, has, find, value}
use cacic_agente.Gercols.{wait_to_collect}
use cacic_agente.Collection.{Exceptions, is_disabled, is_in}
use cacic_agente.Collection.Laws.{Holds}
use cacic_agente.Collector.{Collector, is_asked, run}
use cacic_agente.Collector.Laws.{
  hardware_of, software_of, hardware_rules, software_rules, run-Respects,
}
use cacic_agente.Hardware.Kept.{Respects}
use cacic_agente.Hardware.Disk.{generic_partition, complete_partition, extended_name}
use cacic_agente.Hardware.Disk.Laws.{complete_partition-last}
use cacic_agente.Hardware.Processor.{read_processor_line}
use cacic_agente.Hardware.Processor.Laws.{read_processor_line-eq-none}
use cacic_agente.Software.{other_linux, is_wanted, url_of, collect_debian, collect_linux}
use cacic_agente.Software.Entries.{AreEntries, collect_linux-AreEntries}
use cacic_agente.Software.Laws.{first_part, Locates, collect_debian_keys}

-- Two packages, of which `whereis` finds one.
abbrev console : String → String
console String.[] = ""
console (String.◌∷◌ c s) =
    if code c == b'w'
    then "bash: /usr/bin/bash"
    else if code c == b'd'
    then "bash\tinstall\nless\tinstall\n"
    else "Version: 1:4.3\nHomepage: http://host:80/"

-- The second package is not to be collected.
abbrev rules : Exceptions
rules k = if k === "less" then some [] else none

rules-Locates : Locates console rules
unfolding first_part split
rules-Locates n = rw (cons-append "w" "hereis " n) refl

collect_debian_keys_example :
    (u : Object) × (collect_debian console rules ≡ some u)
    × ((k : String) → has k u ≡ is_in k ("bash" ∷ []))
unfolding split first_part is_wanted is_disabled
collect_debian_keys_example = collect_debian_keys console rules rules-Locates

collect_linux-AreEntries_example :
    Holds (AreEntries console rules) (collect_linux console rules other_linux)
collect_linux-AreEntries_example = collect_linux-AreEntries console rules other_linux

-- The port of an address runs into its host.
lost_colon : url_of "Homepage: http://host:80/" ≡ "http://host80/"
unfolding url_of split
lost_colon = refl

-- No speed of a field
abbrev no_number : Json → String
no_number v = "0"

read_processor_line-eq-none_example :
    (read_processor_line console rules no_number "\tCurrent Speed: Unknown" end ≡ none) ↔ (
      (length (split b' ' "\tCurrent Speed: Unknown") ≡ 2)
      ⊎ (length (split b' ' "\tCurrent Speed: Unknown") ≡ 3))
unfolding contains
read_processor_line-eq-none_example =
    read_processor_line-eq-none console rules no_number "\tCurrent Speed: Unknown" end refl

abbrev logical : String → Json
logical name = obj (field "description" (str "Linux") (field "logicalname" (str name) end))

abbrev extended : Object
extended =
    field "description" (str "Extended partition")
      (field "children" (arr (cons (logical "/dev/sda5") (cons (logical "/dev/sda6") nil))) end)

complete_partition-last_example :
    Holds
      (λ o.
        value "Children" (complete_partition console rules no_number end extended o)
        ≡ arr (cons (str "Linux /dev/sda6") nil))
      (generic_partition console rules no_number extended end)
unfolding find extended_name
complete_partition-last_example =
    complete_partition-last console rules no_number end extended (logical "/dev/sda5" ∷ [])
      (logical "/dev/sda6") refl refl

abbrev config : Object
config =
    field "agentcomputer"
      (obj (
        field "actions" (obj (field "col_hard" (bool true) (field "col_soft" (bool true) end))) (
          field "exceptionClasses"
            (obj (
              field "hardware" (obj (field "Win32_BIOS" (arr (cons (str "Version") nil)) end)) end))
            end)))
      end

abbrev fresh : Collector
fresh = record {
  hardware_exceptions = λ k. none;
  software_exceptions = λ k. none;
  hardware = end;
  software = end;
  is_hardware_finished = false;
  is_software_finished = false;
}

run-Respects_example :
    Holds
      (λ t.
        Respects (hardware_rules config fresh) t.hardware
        × AreEntries console (software_rules config fresh) t.software
        × (wait_to_collect (λ _. t.is_hardware_finished && t.is_software_finished) ≡ 0))
      (run
        (hardware_of console no_number end "Debian" "7" other_linux)
        (software_of console no_number end "Debian" "7" other_linux)
        config
        fresh)
unfolding is_asked find
run-Respects_example =
    run-Respects console no_number end "Debian" "7" other_linux config fresh refl refl
