-- ===== src/Base/Text.antt =====
-- What the agent asks of a `QString`. A text is its code points where it is searched.
use Prim.Native.Nat.{ℕ, ◌+◌, ◌-◌}
use Prim.Native.Char.{code}
use Prim.Native.String.{String, len, ◌++◌ as ◌<>◌}
use mathlib.Core.Bool.{Bool, true, false, ◌&&◌, ◌||◌}
use mathlib.Core.Option.{none, some}
use mathlib.Core.List.{List, [], ◌∷◌, map}
use text.Mathlib.Text.{◌==◌ as str_eq, get?}
use cacic_agente.Base.Tests.{leb, ◌==◌, if◌then◌else◌}
use cacic_agente.Base.Lists.{take}

infix 50 ◌===◌
abbrev pub ◌===◌ : String → String → Bool
s === t = str_eq s t

abbrev pub codes : String → List ℕ
codes String.[] = []
codes (String.◌∷◌ c s) = code c ∷ codes s

abbrev pub is_empty : String → Bool
is_empty s = s === ""

abbrev pub has_prefix : List ℕ → List ℕ → Bool
has_prefix xs [] = true
has_prefix [] (y ∷ ys) = false
has_prefix (x ∷ xs) (y ∷ ys) = x == y && has_prefix xs ys

abbrev pub has_infix : List ℕ → List ℕ → Bool
has_infix [] ys = has_prefix [] ys
has_infix (x ∷ xs) ys = has_prefix (x ∷ xs) ys || has_infix xs ys

-- `s.contains(t)`
unfoldable pub contains : String → String → Bool
contains s t = has_infix (codes s) (codes t)

-- An ASCII letter in lower case. No other code point folds to a letter of the
-- texts that are looked for.
abbrev pub to_lower : ℕ → ℕ
to_lower c = if leb b'A' c && leb c b'Z' then c + 32 else c

-- `s.contains(t, Qt::CaseInsensitive)` for `t` in lower case.
unfoldable pub contains_insensitive : String → String → Bool
contains_insensitive s t = has_infix (map to_lower (codes s)) (codes t)

-- `s.left(n).contains(t)`
unfoldable pub left_contains : ℕ → String → String → Bool
left_contains n s t = has_infix (take n (codes s)) (codes t)

-- `s.endsWith(t)`
unfoldable pub ends_with : String → String → Bool
ends_with s t = elim (get? s (len s - len t) (len s)) [ none ↦ false | some u ↦ u === t ]

-- `s.startsWith(t)`
unfoldable pub starts_with : String → String → Bool
starts_with s t = has_prefix (codes s) (codes t)

-- Whether a character stands in a text.
abbrev pub has_char : ℕ → String → Bool
has_char k String.[] = false
has_char k (String.◌∷◌ c s) = code c == k || has_char k s

-- `s.mid(1)`
abbrev pub without_first : String → String
without_first String.[] = ""
without_first (String.◌∷◌ c s) = s

abbrev pub cons_head : String → List String → List String
cons_head c [] = c ∷ []
cons_head c (s ∷ ss) = (c <> s) ∷ ss

-- `s.split(c)` for a separator of one character, empty parts kept.
unfoldable pub split : ℕ → String → List String
split sep String.[] = "" ∷ []
split sep (String.◌∷◌ c s) =
    let rest = split sep s in if code c == sep then "" ∷ rest else cons_head (String.◌∷◌ c "") rest

abbrev is_space : ℕ → Bool
is_space c = c == 32 || (leb 9 c && leb c 13)

trim_left : String → String
trim_left String.[] = ""
trim_left (String.◌∷◌ c s) =
    let rest = trim_left s in if is_space (code c) then rest else String.◌∷◌ c s

trim_right : String → String
trim_right String.[] = ""
trim_right (String.◌∷◌ c s) =
    let rest = trim_right s in if is_space (code c) && is_empty rest then "" else String.◌∷◌ c rest

-- `s.trimmed()`
unfoldable pub trimmed : String → String
unfolding trim_left trim_right
trimmed s = trim_left (trim_right s)

has_slash : String → Bool
has_slash String.[] = false
has_slash (String.◌∷◌ c s) = code c == b'/' || has_slash s

-- `s.split("/").last()`
unfoldable pub base_name : String → String
unfolding has_slash
base_name String.[] = ""
base_name (String.◌∷◌ c s) =
    let rest = base_name s in
    if has_slash s then rest else if code c == b'/' then s else String.◌∷◌ c s

-- A path with its repeated slashes made one.
unfoldable pub clean : String → String
clean String.[] = ""
clean (String.◌∷◌ c s) =
    let rest = clean s in
    if code c == b'/' && has_prefix (codes s) (b'/' ∷ []) then rest else String.◌∷◌ c rest
