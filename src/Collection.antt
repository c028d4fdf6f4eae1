-- ===== src/Collection.antt =====
-- What the collections of hardware and of software share: `_exceptions` of src/cacic_software.cpp and
-- `_exceptionsClasses` of src/cacic_hardware.cpp, as src/ccoleta.cpp fills them, and the reading of
-- the text that a command prints. `none` is a read past the end of a list, on which Qt stops.
pub mod Laws
use cacic_agente.Base.{
  ℕ, Bool, true, false, not, ◌&&◌, ◌||◌, String, ◌===◌, Option, none, some, List, [], ◌∷◌, map,
  split, get_elem?, if◌then◌else◌, is_empty, is_some, keep, without_first,
}
use cacic_agente.Json.{
  Json, str, Object, find, insert, to_array, to_string, to_object, to_bool, value, is_empty_object,
}

abbrev pub M : Type 0 → Type 0
M A = Option A

infixl 5 ◌>>=◌
abbrev pub ◌>>=◌ : {A B : Type 0} → M A → (A → M B) → M B
none >>= f = none
some a >>= f = f a

abbrev pub pure : {A : Type 0} → A → M A
pure a = some a

-- `foreach`, over a value that each round changes
abbrev pub for_each {ℓ} : {A : Type ℓ} {S : Type 0} → List A → (A → S → M S) → S → M S
for_each [] f s = some s
for_each (x ∷ xs) f s = f x s >>= for_each xs f

-- `QHash<QString, QStringList>`: the fields that are not to be collected, by class or by program. An
-- empty list says that nothing of it is.
abbrev pub Exceptions : Type 0
Exceptions = String → Option (List String)

abbrev pub is_in : String → List String → Bool
is_in s [] = false
is_in s (t ∷ ts) = t === s || is_in s ts

abbrev pub is_nil : List String → Bool
is_nil [] = true
is_nil (s ∷ ss) = false

-- `e.contains(c) && e[c].isEmpty()`
unfoldable pub is_disabled : Exceptions → String → Bool
is_disabled e c = elim (e c) [ none ↦ false | some fs ↦ is_nil fs ]

-- `e.contains(c) && e[c].contains(f)`
unfoldable pub omits : Exceptions → String → String → Bool
omits e c f = elim (e c) [ none ↦ false | some fs ↦ is_in f fs ]

-- A field is written unless it is not to be collected.
unfoldable pub put : Exceptions → String → String → Json → Object → Object
put e c f v o = if omits e c f then o else insert f v o

-- `CColeta::setHardwareExceptionClasses` and `CColeta::setSoftwareExceptionClasses`: an empty object
-- leaves what was there.
unfoldable pub exception_classes : Object → Exceptions → Exceptions
exception_classes o e = if is_empty_object o then e else λ k. elim (find k o) [
  | none ↦ none
  | some v ↦ some (map to_string (to_array v))
]

-- `line.split(":")[1].mid(1)`
unfoldable pub after_colon : String → M String
after_colon line = do s ← get_elem? (split b':' line) 1; pure (without_first s)

-- `text.split("\n")`, and the same with `QString::SkipEmptyParts`
abbrev pub lines_of : String → List String
lines_of s = split 10 s

abbrev pub filled_lines_of : String → List String
filled_lines_of s = keep (λ l. not (is_empty l)) (split 10 s)
