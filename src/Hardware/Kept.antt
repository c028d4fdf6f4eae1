-- ===== src/Hardware/Kept.antt =====
-- What is not to be collected is not.
use text.Mathlib.TextEquality.{eq_iff}
use mathlib.Core.Path.{subst}
use cacic_agente.Base.{
  ◌≡◌, refl, sym, ap, is_some, true, false, not, ◌&&◌, ◌===◌, String, Option, none, some, List, [],
  ◌∷◌, arith, Bool-cases, Option-cases, inl, inr, contains,
}
use cacic_agente.Json.{Json, null, str, obj, Object, end, field, insert, find, has, value, touch}
use cacic_agente.Json.Laws.{find-insert}
use cacic_agente.Gercols.Diff.{erase}
use cacic_agente.Collection.{
  M, ◌>>=◌, pure, Exceptions, is_disabled, omits, put, after_colon, is_in,
}
use cacic_agente.Collection.Laws.{Holds, >>=-Holds, >>=-Holds_any}
use cacic_agente.Hardware.{put_from}
use cacic_agente.Hardware.Board.{read_line}

-- The classes whose fields can be left out
abbrev pub classes : List String
classes =
    "Win32_PhysicalMemory" ∷ "Win32_Processor" ∷ "Multimedia" ∷ "Win32_PCMCIAController"
    ∷ "Win32_BIOS" ∷ "Win32_BaseBoard" ∷ []

-- An object has no field that is not to be collected.
abbrev pub Lacks : Exceptions → String → Object → Type 0
Lacks e c o = (f : String) → omits e c f ≡ true → has f o ≡ false

abbrev pub Obeys : Exceptions → String → Option Json → Type 0
Obeys e c none = Unit
Obeys e c (some (obj o)) = (is_disabled e c ≡ false) × Lacks e c o
Obeys e c (some _) = ⊥

-- The classes that can be left out as a whole, of those that are no objects or have fields that are
-- collected in any case. Of one that is left out the key may be there, with null.
abbrev pub whole_classes : List String
whole_classes = "Win32_DiskDrive" ∷ "Win32_LogicalDisk" ∷ "Win32_Printer" ∷ "IsNotebook" ∷ []

-- Each class is not there, or may be and lacks the fields that are not to be collected.
abbrev pub RespectsFields : Exceptions → Object → Type 0
RespectsFields e h = (c : String) → is_in c classes ≡ true → Obeys e c (find c h)

abbrev pub RespectsWhole : Exceptions → Object → Type 0
RespectsWhole e h =
    (c : String) → is_in c whole_classes ≡ true → is_disabled e c ≡ true → value c h ≡ null

abbrev pub Respects : Exceptions → Object → Type 0
Respects e h = RespectsFields e h × RespectsWhole e h

module _ (e : Exceptions) where
  pub insert-Lacks :
      (c f : String) (v : Json) (o : Object)
      → omits e c f ≡ false
      → Lacks e c o
      → Lacks e c (insert f v o)
  insert-Lacks c f v o there h g out = rw (find-insert g f v o) (elim (Bool-cases (f === g)) [
    | inl same ↦ cc ((eq_iff f g).0 same)
    | inr other ↦ rw other (h g out)
  ])

  pub put-Lacks : (c f : String) (v : Json) (o : Object) → Lacks e c o → Lacks e c (put e c f v o)
  unfolding put
  put-Lacks c f v o h = elim (Bool-cases (omits e c f)) [
    | inl out ↦ rw out h
    | inr there ↦ rw there (insert-Lacks c f v o there h)
  ]

  erase-absent : (f k : String) (o : Object) → has f o ≡ false → has f (erase k o) ≡ false
  unfolding find erase
  erase-absent f k end h = refl
  erase-absent f k (field j v o) h = ground (arith, erase-absent f k o, eq_iff j k, eq_iff j f)

  pub put_from-Lacks :
      (c f k : String) (component o : Object)
      → Lacks e c o
      → Lacks e c (put_from e c f k component o)
  unfolding put_from
  put_from-Lacks c f k component o h = elim (Bool-cases (omits e c f)) [
    | inl out ↦ rw out h
    | inr there ↦ elim (Option-cases (find k component)) [
      | inl absent ↦ rw (there, absent) (λ g out. erase-absent g f o (h g out))
      | inr (v, read) ↦ rw (there, read) (insert-Lacks c f v o there h)
    ]
  ]

  insert-RespectsFields :
      (k : String) (v : Json) (h : Object)
      → (is_in k classes ≡ true → Obeys e k (some v))
      → RespectsFields e h
      → RespectsFields e (insert k v h)
  insert-RespectsFields k v h good r c member =
      rw (find-insert c k v h) (elim (Bool-cases (k === c)) [
        | inl same ↦
            let p = (eq_iff k c).0 same in
            rw same (
              subst (λ (x : String). Obeys e x (some v)) p
                (good (subst (λ (x : String). is_in x classes ≡ true) (sym p) member)))
        | inr other ↦ rw other (r c member)
      ])

  insert-RespectsWhole :
      (k : String) (v : Json) (h : Object)
      → (is_disabled e k ≡ true → is_in k whole_classes ≡ true → v ≡ null)
      → RespectsWhole e h
      → RespectsWhole e (insert k v h)
  insert-RespectsWhole k v h good r c member off =
      rw (find-insert c k v h) (elim (Bool-cases (k === c)) [
        | inl same ↦
            let p = sym ((eq_iff k c).0 same) in
            rw same (
              good (subst (λ (x : String). is_disabled e x ≡ true) p off)
                (subst (λ (x : String). is_in x whole_classes ≡ true) p member))
        | inr other ↦ rw other (r c member off)
      ])

  -- A class that is written
  pub insert_class :
      (c : String) (o h : Object)
      → is_disabled e c ≡ false
      → Lacks e c o
      → Respects e h
      → Respects e (insert c (obj o) h)
  insert_class c o h on l (r, w) = (
    insert-RespectsFields c (obj o) h (λ _. (on, l)) r,
    insert-RespectsWhole c (obj o) h (λ off _. absurd (cc)) w,
  )

  -- A class of the others that is written
  pub insert_whole :
      (k : String) (v : Json) (h : Object)
      → is_in k classes ≡ false
      → is_disabled e k ≡ false
      → Respects e h
      → Respects e (insert k v h)
  insert_whole k v h none_of_them on (r, w) = (
    insert-RespectsFields k v h (λ m. absurd (cc)) r,
    insert-RespectsWhole k v h (λ off _. absurd (cc)) w,
  )

  -- Another key
  pub insert_other :
      (k : String) (v : Json) (h : Object)
      → is_in k classes ≡ false
      → is_in k whole_classes ≡ false
      → Respects e h
      → Respects e (insert k v h)
  insert_other k v h none_of_them nor_these (r, w) = (
    insert-RespectsFields k v h (λ m. absurd (cc)) r,
    insert-RespectsWhole k v h (λ _ m. absurd (cc)) w,
  )

  pub touch-Respects :
      (k : String) (h : Object) → is_in k classes ≡ false → Respects e h → Respects e (touch k h)
  unfolding touch
  touch-Respects k h n (r, w) = elim (Bool-cases (has k h)) [
    | inl there ↦ rw there (r, w)
    | inr absent ↦ rw absent (
      insert-RespectsFields k null h (λ m. absurd (cc)) r,
      insert-RespectsWhole k null h (λ _ _. refl) w,
    )
  ]

  -- A class without exceptions
  pub unlisted : (c : String) → is_some (e c) ≡ false → is_disabled e c ≡ false
  unfolding is_disabled
  unlisted c none_there = elim (Option-cases (e c)) [
    | inl absent ↦ rw (is_disabled, absent) refl
    | inr (fs, there) ↦ absurd (ground (arith, ap is_some there, none_there))
  ]

  pub read_line-Lacks :
      (console : String → String) (c : String) (marks : List (String × String)) (line : String)
      (o : Object)
      → Lacks e c o
      → Holds (Lacks e c) (read_line console e c marks line o)
  unfolding read_line
  read_line-Lacks console c [] line o h = h
  read_line-Lacks console c ((mark, f) ∷ marks) line o h =
      elim (Bool-cases (contains line mark && not (omits e c f))) [
        | inl both ↦ rw both (
            >>=-Holds_any (Lacks e c) (after_colon line) _
              (λ v. insert-Lacks c f (str v) o (ground (arith, both)) h))
        | inr other ↦ rw other (read_line-Lacks console c marks line o h)
      ]

  pub end-Lacks : (c : String) → Lacks e c end
  unfolding find
  end-Lacks c f out = refl

  abbrev pub Keeps : M Object → Type 0
  Keeps m = Holds (Respects e) m

  -- What a class is given is read with no effect on the rest.
  pub write_class :
      (c : String) (m : M Object) (h : Object)
      → is_disabled e c ≡ false
      → Respects e h
      → Holds (Lacks e c) m
      → Keeps (m >>= λ o. pure (insert c (obj o) h))
  write_class c m h on r l =
      >>=-Holds (Lacks e c) (Respects e) m _ l (λ o k. insert_class c o h on k r)
