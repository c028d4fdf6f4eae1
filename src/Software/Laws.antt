-- ===== src/Software/Laws.antt =====
-- The programs that are collected on Linux.
use cacic_agente.Base.{
  ◌≡◌, refl, ℕ, true, not, ◌&&◌, ◌||◌, ◌===◌, String, ◌<>◌, none, some, List, [], ◌∷◌, split,
  get_elem?, if◌then◌else◌, is_empty, without_first, contains, has_char, arith, Bool-cases, inl,
  inr,
}
use cacic_agente.Json.{str, obj, Object, end, insert, find, has}
use cacic_agente.Json.Laws.{find-insert}
use cacic_agente.Collection.{M, for_each, Exceptions, omits, lines_of, is_in}
use cacic_agente.Collection.Laws.{
  has_char-contains, split_two, split_zero, after_colon-some, for_each_total,
}
use cacic_agente.Software.{
  is_wanted, put_marked, put_url, location_of, whereis, put_location, read_debian_line,
  debian_program, debian_list, debian_package, collect_package, collect_debian,
}

-- The first part of a line
unfoldable pub first_part : ℕ → String → String
first_part sep line = elim (get_elem? (split sep line) 0) [ none ↦ "" | some s ↦ s ]

first_part_lem :
    (sep : ℕ) (line : String) → get_elem? (split sep line) 0 ≡ some (first_part sep line)
unfolding first_part
first_part_lem sep line = let (a, s) = split_zero sep line in rw (s, first_part) refl

-- The packages of a list that are to be collected
abbrev pub wanted : Exceptions → ℕ → List String → List String
wanted e sep [] = []
wanted e sep (l ∷ ls) =
    let rest = wanted e sep ls in
    if is_wanted e (first_part sep l) then first_part sep l ∷ rest else rest

module _ (console : String → String) (e : Exceptions) where
  -- `whereis` prints a name and a colon, whatever it is given.
  abbrev pub Locates : Type 0
  Locates = (n : String) → has_char b':' (first_part 10 (console (whereis n))) ≡ true

  put_marked_total :
      (name mark f line : String) (o : Object)
      → has_char b':' mark ≡ true
      → (u : Object) × (put_marked console e name mark f line o ≡ some u)
  unfolding put_marked
  put_marked_total name mark f line o c =
      elim (Bool-cases (contains line mark && not (omits e name f))) [
        | inl both ↦
            let (v, s) =
              after_colon-some line (has_char-contains b':' line mark (ground (arith, both)) c) in
            (insert f (str v) o, rw (both, s) refl)
        | inr other ↦ (o, rw other refl)
      ]

  read_debian_line_total :
      (name line : String) (o : Object)
      → (u : Object) × (read_debian_line console e name line o ≡ some u)
  unfolding read_debian_line
  read_debian_line_total name line o =
      let (a, p) = put_marked_total name "Version:" "version" line o refl in
      let (b, q) = put_marked_total name "Description-en:" "description" line a refl in
      (put_url console e name "Homepage:" line b, rw (p, q) refl)

  debian_program_total : (name : String) → (p : String) × (debian_program console e name ≡ some p)
  unfolding debian_program
  debian_program_total name = elim (Bool-cases (contains name "amd64" || contains name "i386")) [
    | inl mixed ↦ let (p, s) = split_zero b':' name in (p, rw (mixed, s) refl)
    | inr plain ↦ (name, rw plain refl)
  ]

  put_location_total :
      (name program : String) (o : Object)
      → Locates
      → (u : Object) × (put_location console e name program o ≡ some u)
  unfolding put_location location_of
  put_location_total name program o h = elim (Bool-cases (omits e name "installLocation")) [
    | inl out ↦ (o, rw out refl)
    | inr there ↦
        let (whole, part, more, d) =
          split_two b':' (first_part 10 (console (whereis program))) (h program) in
        (
          if is_empty part then o else insert "installLocation" (str (without_first part)) o,
          rw (there, first_part_lem 10 (console (whereis program)), d) refl,
        )
  ]

  debian_package_total :
      (name : String) → Locates → (u : Object) × (debian_package console e name ≡ some u)
  unfolding debian_package
  debian_package_total name h =
      let (o, p) =
        for_each_total (read_debian_line console e name) (read_debian_line_total name)
          (lines_of (console ("apt-cache show " <> name))) (insert "name" (str name) end) in
      let (program, q) = debian_program_total name in
      let (u, r) = put_location_total name program o h in (u, rw (p, q, r) refl)

  collect_package_keys :
      (sep : ℕ) (entry : String → M Object) (line : String) (o : Object)
      → ((n : String) → (u : Object) × (entry n ≡ some u))
      → (u : Object) × (collect_package console e sep entry line o ≡ some u)
        × ((k : String)
            → has k u
              ≡ (has k o || (is_wanted e (first_part sep line) && (first_part sep line === k))))
  unfolding collect_package
  collect_package_keys sep entry line o total =
      let name = first_part sep line in
      let s = first_part_lem sep line in
      let (o', p) = total name in
      elim (Bool-cases (is_wanted e name)) [
        | inl yes_wanted ↦ (
          insert name (obj o') o,
          rw (s, yes_wanted, p) refl,
          λ k. rw yes_wanted (ground (arith, find-insert k name (obj o') o)),
        )
        | inr not_wanted ↦ (o, rw (s, not_wanted) refl, λ k. rw not_wanted (ground arith))
      ]

  packages_keys :
      (sep : ℕ) (entry : String → M Object)
      → ((n : String) → (u : Object) × (entry n ≡ some u))
      → (ls : List String) (o : Object)
      → (u : Object) × (for_each ls (collect_package console e sep entry) o ≡ some u)
        × ((k : String) → has k u ≡ (has k o || is_in k (wanted e sep ls)))
  packages_keys sep entry total [] o = (o, refl, λ k. ground arith)
  packages_keys sep entry total (l ∷ ls) o =
      let (t, s, g) = collect_package_keys sep entry l o total in
      let (u, d, f) = packages_keys sep entry total ls t in
      (u, rw s d, λ k. ground (arith, g k, f k))

  -- Where `whereis` prints a colon, `coletaDebian` returns, and what it has collected are the
  -- packages of the list, less those that are not to be collected.
  pub collect_debian_keys :
      Locates
      → (u : Object) × (collect_debian console e ≡ some u)
        × ((k : String) → has k u ≡ is_in k (wanted e 9 (lines_of (console debian_list))))
  unfolding collect_debian find
  collect_debian_keys h =
      packages_keys 9 (debian_package console e) (λ n. debian_package_total n h)
        (lines_of (console debian_list)) end
