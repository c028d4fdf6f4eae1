-- ===== src/Deploy/Order.antt =====
-- Which modules are taken from a list, and whether they are those whose time has come.
use cacic_agente.Base.{
  ℤ, pos, negsuc, ◌≡◌, refl, ap, ◌↔◌, ◌⊎◌, inl, inr, Bool, true, false, String, List, [], ◌∷◌,
  arith, keep, take, length, Bool-cases,
}
use cacic_agente.Json.{Json, value, to_object, to_string}
use cacic_agente.Deploy.{is_due, is_negative, selected}

-- The date of a module is in the past.
abbrev is_before : ℤ → Bool
is_before (pos n) = false
is_before (negsuc n) = true

abbrev pub is_past : (String → ℤ) → Json → Bool
is_past seconds_until v = is_before (seconds_until (to_string (value "dataExecucao" (to_object v))))

-- As many modules from the beginning of the list as there are with a date in the past
abbrev pub chosen : (String → ℤ) → List Json → List Json
chosen seconds_until vs = take (length (keep (is_past seconds_until) vs)) vs

is_negative-is_before : (z : ℤ) → is_negative z ≡ is_before z
is_negative-is_before (pos n) = refl
is_negative-is_before (negsuc n) = refl

keep-is_due :
    (seconds_until : String → ℤ) (vs : List Json)
    → keep (is_due seconds_until) vs ≡ keep (is_past seconds_until) vs
keep-is_due seconds_until [] = refl
keep-is_due seconds_until (v ∷ vs) =
    rw
      (
        is_negative-is_before (seconds_until (to_string (value "dataExecucao" (to_object v)))),
        keep-is_due seconds_until vs,
      )
      refl

pub selected-chosen :
    (seconds_until : String → ℤ) (vs : List Json)
    → selected seconds_until vs ≡ chosen seconds_until vs
unfolding selected
selected-chosen seconds_until vs = rw (keep-is_due seconds_until vs) refl

module _ (seconds_until : String → ℤ) where
  -- No module is due.
  abbrev NoneDue : List Json → Type 0
  NoneDue [] = Unit
  NoneDue (v ∷ vs) = (is_past seconds_until v ≡ false) × NoneDue vs

  -- Those that are due come first.
  abbrev pub DueFirst : List Json → Type 0
  DueFirst [] = Unit
  DueFirst (v ∷ vs) = ((is_past seconds_until v ≡ true) × DueFirst vs) ⊎ NoneDue (v ∷ vs)

  keep-NoneDue : (vs : List Json) → (keep (is_past seconds_until) vs ≡ []) ↔ NoneDue vs
  keep-NoneDue [] = (λ e. tt, λ e. refl)
  keep-NoneDue (v ∷ vs) = ground (arith, keep-NoneDue vs)

  keep-head :
      (vs ks : List Json) (k : Json)
      → keep (is_past seconds_until) vs ≡ k ∷ ks
      → is_past seconds_until k ≡ true
  keep-head [] ks k e = cc
  keep-head (v ∷ vs) ks k e = elim (Bool-cases (is_past seconds_until v)) [
    | inl due ↦ (let h = simp due at e in cc)
    | inr not_due ↦ keep-head vs ks k (simp not_due at e)
  ]

  abbrev tail : List Json → List Json
  tail [] = []
  tail (v ∷ vs) = vs

  not_due-first :
      (v : Json) (vs zs : List Json)
      → keep (is_past seconds_until) vs ≡ zs
      → take (length zs) (v ∷ vs) ≡ zs
      → is_past seconds_until v ≡ false
      → NoneDue vs
  not_due-first v vs [] kept e late = (keep-NoneDue vs).0 kept
  not_due-first v vs (k ∷ ks) kept e late = let h = keep-head vs ks k kept in cc

  pub selected-due :
      (vs : List Json) → DueFirst vs → chosen seconds_until vs ≡ keep (is_past seconds_until) vs
  selected-due [] h = refl
  selected-due (v ∷ vs) (inl (due, rest)) = rw due (ap (λ xs. v ∷ xs) (selected-due vs rest))
  selected-due (v ∷ vs) (inr (late, rest)) = rw (late, (keep-NoneDue vs).1 rest) refl

  pub due-selected :
      (vs : List Json) → chosen seconds_until vs ≡ keep (is_past seconds_until) vs → DueFirst vs
  due-selected [] h = tt
  due-selected (v ∷ vs) h = elim (Bool-cases (is_past seconds_until v)) [
    | inl due ↦ inl (due, due-selected vs (ap tail (simp due at h)))
    | inr late ↦
        inr (late, not_due-first v vs (keep (is_past seconds_until) vs) refl (simp late at h) late)
  ]
