-- ===== src/Timer/Logs/Laws.antt =====
-- How many lines a log must have to be sent.
use cacic_agente.Base.{
  ℕ, zero, suc, ◌-◌, ◌≤◌, ◌<◌, ◌≡◌, refl, ◌↔◌, String, Option, none, some, List, [], ◌∷◌, length,
  get_elem?, arith, Option-cases, inl, inr,
}
use cacic_agente.Json.{Json}
use cacic_agente.Timer.Logs.{log_entries, entries_from, line_json}

-- The entry of a line.
abbrev pub json_of : Option String → Option Json
json_of none = none
json_of (some s) = some (line_json s)

get_elem?_within :
    (ls : List String) (i : ℕ) → i < length ls → (s : String) × (get_elem? ls i ≡ some s)
get_elem?_within [] i h = elim h [ ]
get_elem?_within (x ∷ xs) zero h = (x, refl)
get_elem?_within (x ∷ xs) (suc i) h = get_elem?_within xs i (omega arith)

entries_from_faults :
    (n place : ℕ) (ls : List String)
    → place ≤ length ls
    → (entries_from n place ls ≡ none) ↔ (place < n)
unfolding entries_from
entries_from_faults zero place ls h = (λ e. cc, λ e. absurd (omega arith))
entries_from_faults (suc n) zero ls h = (λ e. omega arith, λ e. refl)
entries_from_faults (suc n) (suc i) ls h =
    let (s, e) = get_elem?_within ls i (omega arith) in
    ground (arith, e, entries_from_faults n i ls (omega arith))

head_of :
    (n p : ℕ) (ls : List String) (es : List Json) (s : String) (fs : List Json)
    → entries_from (suc n) (suc p) ls ≡ some es
    → get_elem? ls p ≡ some s
    → entries_from n p ls ≡ some fs
    → es ≡ line_json s ∷ fs
unfolding entries_from
head_of n p ls es s fs e a b = ground arith

place_zero : (p : ℕ) → suc p - 1 - 0 ≡ p
place_zero p = omega arith

place_suc : (p j : ℕ) → suc p - 1 - suc j ≡ p - 1 - j
place_suc p j = omega arith

entry_at :
    (s : String) (fs : List Json) (p i : ℕ) (ls : List String)
    → get_elem? ls p ≡ some s
    → ((j : ℕ) → suc j ≡ i → get_elem? fs j ≡ json_of (get_elem? ls (p - 1 - j)))
    → get_elem? (line_json s ∷ fs) i ≡ json_of (get_elem? ls (suc p - 1 - i))
entry_at s fs p zero ls a rest = rw (place_zero p, a) refl
entry_at s fs p (suc j) ls a rest = rw (place_suc p j) (rest j refl)

entries_from_order :
    (n place i : ℕ) (ls : List String) (es : List Json)
    → entries_from n place ls ≡ some es
    → i < n
    → get_elem? es i ≡ json_of (get_elem? ls (place - 1 - i))
unfolding entries_from
entries_from_order zero place i ls es e h = absurd (omega arith)
entries_from_order (suc n) zero i ls es e h = cc
entries_from_order (suc n) (suc p) i ls es e h = elim (Option-cases (get_elem? ls p)) [
  | inl out ↦ ground arith
  | inr (s, a) ↦ elim (Option-cases (entries_from n p ls)) [
    | inl stops ↦ ground arith
    | inr (fs, b) ↦
        rw
          (
            head_of n p ls es s fs e a b,
            entry_at s fs p i ls a (λ j k. entries_from_order n p j ls fs b (omega arith)),
          )
          refl
  ]
]

-- A log can be sent exactly if it has ten lines or more: with fewer, a line before the first is read.
pub log_entries_faults : (ls : List String) → (log_entries ls ≡ none) ↔ (length ls < 10)
unfolding log_entries
log_entries_faults ls = entries_from_faults 10 (length ls) ls (omega arith)

-- The entries of a log that can be sent are its last ten lines, the last line first.
log_entries_order :
    (ls : List String) (es : List Json) (i : ℕ)
    → log_entries ls ≡ some es
    → i < 10
    → get_elem? es i ≡ json_of (get_elem? ls (length ls - 1 - i))
unfolding log_entries
log_entries_order ls es i e h = entries_from_order 10 (length ls) i ls es e h
