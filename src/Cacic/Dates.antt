-- ===== src/Cacic/Dates.antt =====
-- `CCacic::getMesFromString` and `CCacic::padronizarData`: dates of the package manager.
use Prim.Native.String.{len}
use Prim.Native.Nat.{min}
use text.Mathlib.Text.{get?}
use text.Mathlib.TextEquality.{eq_iff}
use cacic_agente.Base.{
  inl, inr, Option-cases, ℕ, zero, suc, ◌+◌, ◌≤◌, split, ◌≡◌, refl, ◌↔◌, ◌⊎◌, false, ◌&&◌, ◌||◌,
  String, ◌<>◌, ◌===◌, Option, none, some, List, [], ◌∷◌, leb, if◌then◌else◌, length, get_elem?,
  is_empty, arith,
}

-- `CCacic::getMesFromString`
unfoldable pub month_number : String → String
month_number m =
    if m === "Jan"
    then "01"
    else if m === "Fev" || m === "Feb"
    then "02"
    else if m === "Mar"
    then "03"
    else if m === "Abr" || m === "Apr"
    then "04"
    else if m === "Mai" || m === "May"
    then "05"
    else if m === "Jun"
    then "06"
    else if m === "Jul"
    then "07"
    else if m === "Ago" || m === "Aug"
    then "08"
    else if m === "Set" || m === "Sep"
    then "09"
    else if m === "Out" || m === "Oct"
    then "10"
    else if m === "Nov"
    then "11"
    else if m === "Dez" || m === "Dec"
    then "12"
    else "00"

abbrev last_part : List String → String
last_part [] = ""
last_part (s ∷ []) = s
last_part (s ∷ t ∷ ss) = last_part (t ∷ ss)

abbrev join_date : Option String → Option String → String → Option String
join_date none month year = none
join_date (some day) none year = none
join_date (some day) (some month) year = some (day <> "/" <> month_number month <> "/" <> year)

-- The parts of a Linux date. `none` is a read past the end of the list, on which Qt stops.
abbrev day_part : List String → Option String
day_part aux = elim (get_elem? aux 10) [
  | none ↦ none
  | some d ↦ if is_empty d && leb 11 (length aux) then get_elem? aux 11 else some d
]

abbrev date_of_parts : List String → Option String
date_of_parts aux =
    if leb 10 (length aux)
    then join_date (day_part aux) (get_elem? aux 9) (last_part aux)
    else some "//"

-- `CCacic::padronizarData` on Linux
unfoldable pub standard_date_linux : String → Option String
standard_date_linux s = if is_empty s then some "" else date_of_parts (split b' ' s)

-- `s.mid(from, n)`, of a text of one byte to a character
abbrev mid : String → ℕ → ℕ → String
mid s from n = elim (get? s from (min (from + n) (len s))) [ none ↦ "" | some t ↦ t ]

-- `CCacic::padronizarData` on Windows
unfoldable pub standard_date_windows : String → String
standard_date_windows s =
    if is_empty s then "" else mid s 6 2 <> "/" <> mid s 4 2 <> "/" <> mid s 0 4

get_elem?-none : (xs : List String) (i : ℕ) → (get_elem? xs i ≡ none) ↔ (length xs ≤ i)
get_elem?-none [] i = (λ _. omega arith, λ _. refl)
get_elem?-none (x ∷ xs) zero = (λ h. cc, λ h. absurd (omega arith))
get_elem?-none (x ∷ xs) (suc i) = ground (arith, get_elem?-none xs i)

date_of_parts_faults :
    (aux : List String)
    → (date_of_parts aux ≡ none)
      ↔ ((length aux ≡ 10) ⊎ ((length aux ≡ 11) × (get_elem? aux 10 ≡ some "")))
date_of_parts_faults aux = elim (Option-cases (get_elem? aux 10)) [
  | inl e ↦ ground (arith, get_elem?-none aux 9, get_elem?-none aux 10)
  | inr (d, e) ↦
      ground
        (arith, eq_iff d "", get_elem?-none aux 9, get_elem?-none aux 10, get_elem?-none aux 11)
]

-- The Linux date faults exactly on a text of ten parts, or of eleven of which the last is empty.
standard_date_linux_faults :
    (s : String)
    → is_empty s ≡ false
    → (standard_date_linux s ≡ none) ↔ (
        (length (split b' ' s) ≡ 10)
        ⊎ ((length (split b' ' s) ≡ 11) × (get_elem? (split b' ' s) 10 ≡ some "")))
unfolding standard_date_linux
standard_date_linux_faults s filled = rw filled (date_of_parts_faults (split b' ' s))
