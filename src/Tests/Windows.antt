-- ===== src/Tests/Windows.antt =====
-- The collection of hardware on Windows, at concrete values.
use cacic_agente.Base.{
  ◌≡◌, refl, String, Option, none, some, List, [], ◌∷◌, split, starts_with, ends_with, trimmed,
  true, if◌then◌else◌,
}
use cacic_agente.Json.{bool, obj, str, end, field, insert, find}
use cacic_agente.Hardware.Windows.{collect_class, collect_windows}
use cacic_agente.Hardware.Windows.Respects.{collect_windows-Respects}
use cacic_agente.Hardware.Windows.Classes.{fields_of, init, known_classes}
use cacic_agente.Hardware.Windows.Laws.{fields_of-init}
use cacic_agente.Hardware.Windows.Query.{
  query, search, read_items, read_item, split_tabs, remove_char,
}

fields_of-init_example :
    (fields_of "Win32_Keyboard" (init (("Win32_Keyboard", "Layout" ∷ []) ∷ [])) ≡ some [])
    × (query "Win32_Keyboard" [] ≡ "SELECT * FROM Win32_Keyboard")
fields_of-init_example =
    fields_of-init "Win32_Keyboard" (("Win32_Keyboard", "Layout" ∷ []) ∷ []) (refl, tt)

-- An item has the fields of the one before it, which it does not name.
carried :
    read_items (some "\n\tName = \"a\";\n\tSize = \"1\";" ∷ some "\n\tName = \"b\";" ∷ []) end
    ≡ field "Name" (str "a") (field "Size" (str "1") end)
      ∷ field "Name" (str "b") (field "Size" (str "1") end)
      ∷ []
unfolding read_items read_item split_tabs split starts_with remove_char trimmed insert
carried = refl

abbrev two_processors : String → Option (List (Option String))
two_processors q = some (some "\n\tName = \"a\";" ∷ some "\n\tName = \"b\";" ∷ [])

-- Of two processors, nothing is collected.
lost_processors :
    collect_class two_processors "Win32_Processor" ("Name" ∷ []) end
    ≡ field "Win32_Processor" (obj (field "Family" (str "") end)) end
unfolding collect_class search read_items insert find
lost_processors = refl

collect_windows-Respects_example :
    find "Win32_Processor" (collect_windows two_processors (("Win32_Processor", []) ∷ [])) ≡ none
collect_windows-Respects_example =
    collect_windows-Respects two_processors (("Win32_Processor", []) ∷ []) "Win32_Processor"
      (refl, tt) refl refl

-- IsNotebook is collected although it is not to be.
abbrev battery : String → Option (List (Option String))
battery q =
    if ends_with q "Win32_PortableBattery" then some (some "\n\tName = \"a\";" ∷ []) else none

kept_notebook :
    find "IsNotebook" (collect_windows battery (("IsNotebook", []) ∷ []))
    ≡ some (obj (field "Value" (bool true) end))
unfolding find collect_windows known_classes search ends_with query read_items read_item split_tabs
    split starts_with remove_char trimmed insert
kept_notebook = refl
