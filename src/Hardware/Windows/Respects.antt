-- ===== src/Hardware/Windows/Respects.antt =====
-- The collection on Windows keeps to the exceptions.
use cacic_agente.Base.{
  ◌≡◌, refl, ap, ◌∙◌, false, String, ◌===◌, Option, none, some, List, [], ◌∷◌, arith, Bool-cases,
  inl, inr,
}
use cacic_agente.Json.{Json, Object, end, find, insert, is_null}
use cacic_agente.Json.Laws.{find-insert}
use cacic_agente.Hardware.Windows.{collect_class, collect_classes, collect_windows, with_notebook}
use cacic_agente.Hardware.Windows.Classes.{ClassTable, fields_of, init, known_classes}
use cacic_agente.Hardware.Windows.Laws.{fields_of-init, IsHash, left_of}
use cacic_agente.Hardware.Windows.Query.{search}

module _ (answers : String → Option (List (Option String))) (d : String) where
  find-insert_other :
      (k : String) (v : Json) (o : Object) → (k === d) ≡ false → find d (insert k v o) ≡ find d o
  find-insert_other k v o other = rw (find-insert d k v o, other) refl

  -- A class that is collected writes its own key and that of the notebook.
  find-with_notebook :
      (name : String) (o : Object)
      → ("IsNotebook" === d) ≡ false
      → find d (with_notebook name o) ≡ find d o
  find-with_notebook name o apart = elim (Bool-cases (name === "Win32_PortableBattery")) [
    | inl battery ↦ rw battery (find-insert_other "IsNotebook" _ o apart)
    | inr other ↦ rw other refl
  ]

  find-collect_class :
      (name : String) (fields : List String) (o : Object)
      → (name === d) ≡ false
      → ("IsNotebook" === d) ≡ false
      → find d (collect_class answers name fields o) ≡ find d o
  unfolding collect_class
  find-collect_class name fields o other apart =
      elim (Bool-cases (is_null (search answers name fields))) [
        | inl lacks ↦ rw (lacks, collect_class) refl
        | inr found ↦
            rw (found, collect_class)
              (find-insert_other name _ (with_notebook name o) other
                ∙ find-with_notebook name o apart)
      ]

  find-collect_classes :
      (cs : ClassTable) (o : Object)
      → fields_of d cs ≡ none
      → ("IsNotebook" === d) ≡ false
      → find d (collect_classes answers cs o) ≡ find d o
  unfolding collect_classes
  find-collect_classes [] o gone apart = refl
  find-collect_classes ((n, fs) ∷ cs) o gone apart = elim (Bool-cases (n === d)) [
    | inl same ↦ absurd (ground (arith, same, gone))
    | inr other ↦
        find-collect_classes cs (collect_class answers n fs o) (ground (arith, other, gone)) apart
        ∙ find-collect_class n fs o other apart
  ]

-- Whatever WMI answers, and where the exceptions have each class once, `coletaWin` collects nothing
-- of a class that is to be left out as a whole, if the class is not IsNotebook, which is written with
-- the class Win32_PortableBattery.
pub collect_windows-Respects :
    (answers : String → Option (List (Option String))) (exceptions : ClassTable) (d : String)
    → IsHash exceptions
    → fields_of d exceptions ≡ some []
    → ("IsNotebook" === d) ≡ false
    → find d (collect_windows answers exceptions) ≡ none
unfolding collect_windows find
collect_windows-Respects answers exceptions d hash omitted apart =
    let gone =
      (fields_of-init d exceptions hash).0
      ∙ ap (λ (x : Option (List String)). left_of x (fields_of d known_classes)) omitted in
    find-collect_classes answers d (init exceptions) end gone apart
