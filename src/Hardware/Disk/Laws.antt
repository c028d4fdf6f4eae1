-- ===== src/Hardware/Disk/Laws.antt =====
-- The partitions of an extended partition.
use text.Mathlib.TextEquality.{eq_iff}
use cacic_agente.Base.{
  ◌≡◌, refl, get_elem?, split, keep, not, ◌∙◌, ap, String, ◌===◌, false, Option, none, some, List,
  [], ◌∷◌, ◌++◌, arith, if◌then◌else◌, Bool-cases, inl, inr,
}
use cacic_agente.Json.{
  Json, str, arr, cons, nil, Object, end, find, insert, value, to_object, to_array, to_string,
  touch, has, of_list, field,
}
use cacic_agente.Json.Laws.{find-insert, value-touch}
use cacic_agente.Gercols.Diff.{assign, erase}
use cacic_agente.Collection.{pure, Exceptions, lines_of}
use cacic_agente.Collection.Laws.{Holds, Holds-map, for_each-Holds, >>=-Holds_any}
use cacic_agente.Hardware.{children_of}
use cacic_agente.Hardware.Disk.{
  read_df_line, caption_of, extended_name, add_extended, add_all_extended, generic_partition,
  complete_partition, size_of,
}

-- No list stands under "children".
abbrev IsChildless : Object → Type 0
IsChildless o = to_array (value "children" o) ≡ []

insert-IsChildless :
    (k : String) (v : Json) (o : Object)
    → (k === "children") ≡ false
    → IsChildless o
    → IsChildless (insert k v o)
insert-IsChildless k v o n h = rw (find-insert "children" k v o, n) h

touch-IsChildless : (k : String) (o : Object) → IsChildless o → IsChildless (touch k o)
touch-IsChildless k o h = ap to_array (value-touch "children" k o) ∙ h

add_extended-IsChildless : (v : Json) (o : Object) → IsChildless o → IsChildless (add_extended v o)
unfolding add_extended
add_extended-IsChildless v o h =
    insert-IsChildless "Children" _ _ refl (touch-IsChildless "children" o h)

-- Each child takes the place of the one before it.
add_all_extended-last :
    (vs : List Json) (v : Json) (o : Object)
    → IsChildless o
    → value "Children" (add_all_extended (vs ++ (v ∷ [])) o)
      ≡ arr (cons (str (extended_name (to_object v))) nil)
unfolding add_all_extended add_extended
add_all_extended-last [] v o h =
    rw
      (
        find-insert "Children" "Children"
            (arr
              (of_list (to_array (value "children" o) ++ (str (extended_name (to_object v)) ∷ []))))
            (touch "children" o),
        h,
      )
      refl
add_all_extended-last (w ∷ vs) v o h =
    add_all_extended-last vs v (add_extended w o) (add_extended-IsChildless w o h)

find-erase : (j k : String) (o : Object) → find j (erase k o) ≡ (if k === j then none else find j o)
unfolding find erase
find-erase j k end = ground arith
find-erase j k (field i v o) = ground (arith, find-erase j k o, eq_iff i k, eq_iff i j, eq_iff k j)

assign-IsChildless :
    (k : String) (v : Option Json) (o : Object)
    → (k === "children") ≡ false
    → IsChildless o
    → IsChildless (assign k v o)
unfolding assign
assign-IsChildless k none o n h = rw (find-erase "children" k o, n) h
assign-IsChildless k (some v) o n h = insert-IsChildless k v o n h

read_df_line-IsChildless :
    (line : String) (o : Object) → IsChildless o → Holds IsChildless (read_df_line line o)
unfolding read_df_line
read_df_line-IsChildless line o h =
    >>=-Holds_any IsChildless (get_elem? (split b' ' line) 0) _ (λ name.
      elim (Bool-cases (name === to_string (value "Caption" o))) [
        | inl named ↦ rw named (
            >>=-Holds_any IsChildless (get_elem? (keep (λ s. not (s === " ")) (split b' ' line)) 3)
              (λ space. pure (insert "FreeSpace" (str space) (touch "Caption" o)))
              (λ space. insert-IsChildless "FreeSpace" _ _ refl (touch-IsChildless "Caption" o h)))
        | inr other ↦ rw other (touch-IsChildless "Caption" o h)
      ])

module _ (console : String → String) (e : Exceptions) (number : Json → String) where
  generic_partition-IsChildless :
      (partition o : Object)
      → IsChildless o
      → Holds IsChildless (generic_partition console e number partition o)
  unfolding generic_partition
  generic_partition-IsChildless partition o h =
      let described =
        insert-IsChildless "Size" (str (size_of console e number partition))
          (assign "Description" (find "description" partition) o) refl
          (assign-IsChildless "Description" (find "description" partition) o refl h) in
      elim (Bool-cases (has "logicalname" partition)) [
        | inl named ↦ rw named (
            for_each-Holds IsChildless read_df_line read_df_line-IsChildless
              (lines_of (console "df -h")) _
              (assign-IsChildless "Caption" (caption_of partition) _ refl described))
        | inr plain ↦ rw plain described
      ]

  -- Of the partitions in an extended one `coletaLinuxIO` keeps only the last: the list that each is
  -- added to is read from a key that is never written.
  pub complete_partition-last :
      (disk partition : Object) (vs : List Json) (v : Json)
      → to_string (value "description" partition) ≡ "Extended partition"
      → children_of partition ≡ vs ++ (v ∷ [])
      → Holds
          (λ o.
            value "Children" (complete_partition console e number disk partition o)
            ≡ arr (cons (str (extended_name (to_object v))) nil))
          (generic_partition console e number partition end)
  unfolding complete_partition find
  complete_partition-last disk partition vs v extended children =
      Holds-map IsChildless _ (generic_partition console e number partition end)
        (λ o h.
          rw
            (
              (eq_iff (to_string (value "description" partition)) "Extended partition").1 extended,
              children,
            )
            (add_all_extended-last vs v o h))
        (generic_partition-IsChildless partition end refl)
