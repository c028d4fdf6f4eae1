-- ===== src/Hardware/Windows/Laws.antt =====
-- The classes that are left where some are not to be collected.
use mathlib.Core.Path.{subst}
use text.Mathlib.TextEquality.{eq_iff}
use cacic_agente.Base.{
  ◌≡◌, refl, ◌∙◌, String, ◌<>◌, ◌===◌, Option, none, some, List, [], ◌∷◌, arith, if◌then◌else◌,
  Bool-cases, inl, inr,
}
use cacic_agente.Collection.{is_nil}
use cacic_agente.Hardware.Windows.Classes.{
  ClassTable, add_class, fields_of, remove_class, remove_one, remove_fields, or_no_fields, except,
  except_all, known_classes, init,
}
use cacic_agente.Hardware.Windows.Query.{query}

fields_of-add_class :
    (d name : String) (fs : List String) (cs : ClassTable)
    → fields_of d (add_class name fs cs) ≡ (if name === d then some fs else fields_of d cs)
fields_of-add_class d name fs [] = refl
fields_of-add_class d name fs ((n, gs) ∷ cs) =
    ground (arith, eq_iff n name, eq_iff n d, eq_iff name d, fields_of-add_class d name fs cs)

fields_of-remove_class :
    (d name : String) (cs : ClassTable)
    → fields_of d (remove_class name cs) ≡ (if name === d then none else fields_of d cs)
fields_of-remove_class d name [] = ground arith
fields_of-remove_class d name ((n, gs) ∷ cs) =
    ground (arith, eq_iff n name, eq_iff n d, eq_iff name d, fields_of-remove_class d name cs)

remove_first : (f : String) (fs : List String) → remove_one f (f ∷ fs) ≡ fs
remove_first f fs = ground (arith, eq_iff f f)

-- The class loses its fields, and no other class does.
fields_of-remove_fields :
    (d name : String) (fs : List String) (cs : ClassTable)
    → fields_of name cs ≡ some fs
    → fields_of d (remove_fields name fs cs) ≡ (if name === d then some [] else fields_of d cs)
fields_of-remove_fields d name [] cs h = ground (arith, h, eq_iff name d)
fields_of-remove_fields d name (f ∷ fs) cs h =
    let left = remove_one f (or_no_fields (fields_of name cs)) in
    let found = fields_of-add_class name name left cs in
    fields_of-remove_fields d name fs (add_class name left cs)
      (ground (arith, found, h, remove_first f fs, eq_iff name name))
    ∙ ground (arith, fields_of-add_class d name left cs)

fields_of-except :
    (d name : String) (omitted : List String) (cs : ClassTable)
    → fields_of d (except name omitted cs)
      ≡ (if name === d then (if is_nil omitted then none else some []) else fields_of d cs)
unfolding except
fields_of-except d name [] cs = fields_of-remove_class d name cs
fields_of-except d name (o ∷ os) cs =
    let fields = or_no_fields (fields_of name cs) in
    let there = fields_of-add_class name name fields cs in
    fields_of-remove_fields d name fields (add_class name fields cs)
      (ground (arith, there, eq_iff name name))
    ∙ ground (arith, fields_of-add_class d name fields cs)

-- A hash has each of its keys once.
abbrev pub IsHash : ClassTable → Type 0
IsHash [] = Unit
IsHash ((n, fs) ∷ cs) = (fields_of n cs ≡ none) × IsHash cs

-- What is left of a class
abbrev pub left_of : Option (List String) → Option (List String) → Option (List String)
left_of none known = known
left_of (some omitted) known = if is_nil omitted then none else some []

fields_of-except_all :
    (d : String) (es cs : ClassTable)
    → IsHash es
    → fields_of d (except_all es cs) ≡ left_of (fields_of d es) (fields_of d cs)
fields_of-except_all d [] cs h = refl
fields_of-except_all d ((n, omitted) ∷ es) cs (fresh, h) =
    fields_of-except_all d es (except n omitted cs) h ∙ elim (Bool-cases (n === d)) [
      | inl same ↦
          rw
            (
              fields_of-except d n omitted cs,
              same,
              subst (λ (x : String). fields_of x es ≡ none) ((eq_iff n d).0 same) fresh,
            )
            refl
      | inr other ↦ rw (fields_of-except d n omitted cs, other) refl
    ]

-- A class of which a field is not to be collected is left without fields, so that the query asks for
-- all of them; a class that is not to be collected is left out, and each other class keeps its fields.
pub fields_of-init :
    (d : String) (exceptions : ClassTable)
    → IsHash exceptions
    → (fields_of d (init exceptions) ≡ left_of (fields_of d exceptions) (fields_of d known_classes))
      × (query d [] ≡ "SELECT " <> ("*" <> (" FROM " <> d)))
unfolding init query
fields_of-init d exceptions h = (fields_of-except_all d exceptions known_classes h, refl)
